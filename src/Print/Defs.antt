-- ===== src/Print/Defs.antt =====
-- The number conversions of user/user_kprintf.c. Text is a list of character codes; a call of
-- `syscall_putc` appends to the output.
use armv7_os.Prelude.{
  ℕ, zero, suc, ◌+◌, ◌-◌, ◌/◌, ◌%◌, ◌^◌, ℤ, pos, dec, Bool, not, ◌&&◌, Option, none, some, List, [],
  ◌∷◌, ◌++◌, ltb, ◌==◌, if◌then◌else◌, ◌>>=◌, write, for_loop, modify,
}

abbrev pub buff_size : ℕ
buff_size = 512

-- The output, and the globals that the conversions use.
pub record Printer : Type 0 where
  pub out : List ℕ
  pub j : ℕ
  pub offset : ℤ
  pub zeros : ℕ

unfoldable pub syscall_putc : ℕ → Printer → Printer
syscall_putc c p = record p { out = p.out ++ (c ∷ []) }

unfoldable pub usr_memset : (ℕ → ℕ) → ℕ → Option (ℕ → ℕ)
usr_memset buff n = for_loop n 0 (modify buff_size (λ i _. 0)) buff

-- The tables "0123456789" and "0123456789abcdef".
unfoldable pub hex_char : ℕ → ℕ
hex_char d = if ltb d 10 then b'0' + d else b'a' + (d - 10)

-- The do-while loop that writes the digits of `n` to `res` from place `i` on, the lowest first. It
-- yields the number of characters in `res`.
unfoldable pub digit_loop : ℕ → ℕ → ℕ → ℕ → (ℕ → ℕ) → Option (ℕ × (ℕ → ℕ))
digit_loop zero base n i res = none
digit_loop (suc fuel) base n i res = do
  res ← write buff_size res i (hex_char (n % base))
  let rest = digit_loop fuel base (n / base) (i + 1) res
  if ltb 0 (n / base) then rest else some (i + 1, res)

-- The loop that prints the first `count` characters of `res`, the last first.
unfoldable pub put_down : ℕ → (ℕ → ℕ) → Printer → Printer
unfolding syscall_putc
put_down zero res p = p
put_down (suc i) res p = put_down i res (syscall_putc (res i) p)

-- What the three conversions share: `res` cleared, filled and printed. `before` is what they do
-- between the last two.
unfoldable pub print_digits : (ℕ → ℕ) → ℕ → ℕ → (Printer → Printer) → Printer → Option Printer
unfolding usr_memset digit_loop put_down
print_digits res base n before p = do
  res ← usr_memset res buff_size
  (count, res) ← digit_loop 32 base n 0 res
  some (put_down count res (before p))

unfoldable pub usr_unusr_int_to_str : (ℕ → ℕ) → ℕ → Printer → Option Printer
unfolding print_digits
usr_unusr_int_to_str res n p = print_digits res 10 n (λ p. p) p

-- `n` is the word of an `int`. The least integer is its own negative, and its remainder is no index
-- of the table.
unfoldable pub usr_int_to_str : (ℕ → ℕ) → ℕ → Printer → Option Printer
unfolding print_digits syscall_putc
usr_int_to_str res n p =
    if n == 2 ^ 31
    then none
    else if ltb (2 ^ 31) n
    then print_digits res 10 (2 ^ 32 - n) (λ p. p) (syscall_putc b'-' p)
    else print_digits res 10 n (λ p. p) p

-- The prefix of a pointer, on either side of the fill.
unfoldable pub hex_prefix : Bool → Printer → Printer
unfolding syscall_putc
hex_prefix pointer p =
    let zeros = not (p.zeros == 0) in
    let p =
      if pointer && zeros then syscall_putc b'x' (syscall_putc b'0' (record p { j = 2 })) else p in
    let p = if pointer then record p { offset = dec (dec p.offset) } else p in
    if not zeros && pointer then syscall_putc b'x' (syscall_putc b'0' p) else p

unfoldable pub usr_dec_to_hex_str : (ℕ → ℕ) → ℕ → Bool → Printer → Option Printer
unfolding print_digits hex_prefix
usr_dec_to_hex_str res n pointer p = do
  p ← print_digits res 16 n (hex_prefix pointer) p
  some (record p { offset = pos 0 })
