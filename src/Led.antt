-- ===== src/Led.antt =====
-- driver/led.c.
use armv7_os.Prelude.{
  ℕ, ◌-◌, ◌*◌, ◌/◌, ◌%◌, ◌^◌, ◌<◌, ◌≡◌, ◌≢◌, refl, ◌∙◌, ◌==◌, if◌then◌else◌, agree, eq_below, arith,
  update,
}

abbrev pub gpio_base : ℕ
gpio_base = 0x7E200000 - 0x3F000000

abbrev pub yellow_led : ℕ
yellow_led = 7

abbrev pub gpf_bits : ℕ
gpf_bits = 3

-- `enum gpio_func`.
abbrev pub gpio_input : ℕ
gpio_input = 0

abbrev pub gpio_output : ℕ
gpio_output = 1

-- `struct gpio`, each field by the word that is written last.
pub record Gpio : Type 0 where
  pub func : ℕ → ℕ
  pub set : ℕ → ℕ
  pub clr : ℕ → ℕ

unfoldable pub yellow_on : Gpio → Gpio
yellow_on port =
    let func = update port.func 0 (gpio_output * 2 ^ (yellow_led * gpf_bits)) in
    let set = update port.set 0 (2 ^ yellow_led) in record port { func = func; set = set }

-- What the function register gives the pin.
abbrev pub pin_func : ℕ → Gpio → ℕ
pin_func pin port = port.func (pin / 10) / 2 ^ (pin % 10 * gpf_bits) % 8

-- The word 2 ^ 21 read pin by pin.
shifted_out : (pin : ℕ) → pin < 10 → 2 ^ 21 / 2 ^ (pin * 3) % 8 ≡ (if pin == 7 then 1 else 0)
shifted_out pin lt =
    eq_below (λ pin. 2 ^ 21 / 2 ^ (pin * 3) % 8) (λ pin. if pin == 7 then 1 else 0) 10 pin lt
      (unfold agree in refl)

-- The pin of the LED becomes an output, and every other pin of the first ten an input, whatever it
-- was before; the pins from 10 on keep their function.
pub yellow_on_lem :
    (pin : ℕ) (port : Gpio)
    → (pin ≡ yellow_led → pin_func pin (yellow_on port) ≡ gpio_output)
      × (pin ≢ yellow_led → pin < 10 → pin_func pin (yellow_on port) ≡ gpio_input)
      × (9 < pin → pin_func pin (yellow_on port) ≡ pin_func pin port)
unfolding yellow_on
yellow_on_lem pin port = (
  λ led. rw led refl,
  λ other low.
      let tens : pin / 10 ≡ 0 = omega arith in
      let ones : pin % 10 ≡ pin = omega arith in
      rw (tens, ones) (shifted_out pin low ∙ ground arith),
  λ high. let tens : 0 < pin / 10 = omega arith in ground arith,
)
