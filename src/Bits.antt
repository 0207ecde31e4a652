-- ===== src/Bits.antt =====
-- `&` and `|` of machine words as arithmetic. The native operations are recursions on binary
-- digits; the lemmas here take a number apart at any power of two.
use Prim.Native.Nat.{digits, bitwise, bit_and-bitwise, bit_or-bitwise, bit_xor-bitwise, differ}
use native.Mathlib.Nat.{pow-suc, one-le-pow, mod-add-div', mod-lt}
use armv7_os.Prelude.{
  ℕ, zero, suc, ◌+◌, ◌-◌, ◌*◌, ◌/◌, ◌%◌, ◌^◌, ◌≤◌, ◌<◌, min, max, bit_and, bit_or, bit_xor, ◌≡◌,
  refl, ap, sym, ◌∙◌, arith,
}

module _ (z : ℕ → ℕ) (f : ℕ → ℕ → ℕ) where
  digits-zero : (rounds b : ℕ) → digits z f rounds 0 b ≡ z b
  digits-zero zero b = refl
  digits-zero (suc rounds) b = refl

  -- More rounds than the first number has digits change nothing.
  digits_enough :
      (a b less more : ℕ) → a ≤ less → a ≤ more → digits z f less a b ≡ digits z f more a b
  digits_enough zero b less more h h' = digits-zero less b ∙ sym (digits-zero more b)
  digits_enough (suc a) b zero more h h' = absurd (omega arith)
  digits_enough (suc a) b (suc less) zero h h' = absurd (omega arith)
  digits_enough (suc a) b (suc less) (suc more) h h' =
      let half = digits_enough (suc a / 2) (b / 2) less more (omega arith) (omega arith) in
      ap (λ upper. upper * 2 + f (suc a % 2) (b % 2)) half

  -- The lowest digit, where the operation on a zero digit agrees with `z`.
  bitwise-halves :
      (zero_left : (b : ℕ) → z b ≡ z (b / 2) * 2 + f 0 (b % 2)) (a b : ℕ)
      → bitwise z f a b ≡ bitwise z f (a / 2) (b / 2) * 2 + f (a % 2) (b % 2)
  bitwise-halves zero_left zero b = zero_left b
  bitwise-halves zero_left (suc a) b =
      ap (λ upper. upper * 2 + f (suc a % 2) (b % 2))
        (digits_enough (suc a / 2) (b / 2) a (suc a / 2) (omega arith) (omega arith))

bit_and_step : (a b : ℕ) → bit_and a b ≡ bit_and (a / 2) (b / 2) * 2 + min (a % 2) (b % 2)
bit_and_step a b = simp bit_and-bitwise (bitwise-halves (λ y. 0) min (λ y. omega arith) a b)

bit_or_step : (a b : ℕ) → bit_or a b ≡ bit_or (a / 2) (b / 2) * 2 + max (a % 2) (b % 2)
bit_or_step a b = simp bit_or-bitwise (bitwise-halves (λ y. y) max (λ y. omega arith) a b)

bit_xor_step : (a b : ℕ) → bit_xor a b ≡ bit_xor (a / 2) (b / 2) * 2 + differ (a % 2) (b % 2)
bit_xor_step a b = simp bit_xor-bitwise (bitwise-halves (λ y. y) differ (λ y. omega arith) a b)

twice_power : (q k : ℕ) → q * 2 ^ suc k ≡ 2 * (q * 2 ^ k)
twice_power q k = rw (pow-suc 2 k) (omega arith)

-- An operation on binary digits works on the digits above `k` and on those below it, apart.
module _ (op : ℕ → ℕ → ℕ) (f : ℕ → ℕ → ℕ) (op_zero : op 0 0 ≡ 0)
    (op_step : (a b : ℕ) → op a b ≡ op (a / 2) (b / 2) * 2 + f (a % 2) (b % 2)) where
  op_split :
      (k q r p s : ℕ)
      → r < 2 ^ k
      → s < 2 ^ k
      → op (q * 2 ^ k + r) (p * 2 ^ k + s) ≡ op q p * 2 ^ k + op r s
  op_split zero q r p s h h' = ground (arith, op_zero)
  op_split (suc k) q r p s h h' = ground (
    arith,
    twice_power q k,
    twice_power p k,
    twice_power (op q p) k,
    pow-suc 2 k,
    op_step (q * 2 ^ suc k + r) (p * 2 ^ suc k + s),
    op_step r s,
    op_split k q (r / 2) p (s / 2),
  )

pub bit_and_split :
    (k q r p s : ℕ)
    → r < 2 ^ k
    → s < 2 ^ k
    → bit_and (q * 2 ^ k + r) (p * 2 ^ k + s) ≡ bit_and q p * 2 ^ k + bit_and r s
bit_and_split = op_split bit_and min refl bit_and_step

pub bit_or_split :
    (k q r p s : ℕ)
    → r < 2 ^ k
    → s < 2 ^ k
    → bit_or (q * 2 ^ k + r) (p * 2 ^ k + s) ≡ bit_or q p * 2 ^ k + bit_or r s
bit_or_split = op_split bit_or max refl bit_or_step

pub bit_and-zero : (a : ℕ) → bit_and a 0 ≡ 0
bit_and-zero a = go a a (omega arith)
  where
    go : (n m : ℕ) → m ≤ n → bit_and m 0 ≡ 0
    go n zero h = refl
    go zero (suc m) h = elim h [ ]
    go (suc n) (suc m) h = omega (arith, bit_and_step (suc m) 0, go n (suc m / 2) (omega arith))

pub bit_or-zero : (a : ℕ) → bit_or a 0 ≡ a
bit_or-zero a = go a a (omega arith)
  where
    go : (n m : ℕ) → m ≤ n → bit_or m 0 ≡ m
    go n zero h = refl
    go zero (suc m) h = elim h [ ]
    go (suc n) (suc m) h = omega (arith, bit_or_step (suc m) 0, go n (suc m / 2) (omega arith))

-- A mask of `k` low bits, 2 ^ k - 1, keeps what fits in them.
bit_and_mask_low : (k r : ℕ) → r < 2 ^ k → bit_and r (2 ^ k - 1) ≡ r
bit_and_mask_low zero r h = rw bit_and-zero (omega arith)
bit_and_mask_low (suc k) r h =
    ground (
      arith,
      pow-suc 2 k,
      one-le-pow k 2,
      bit_and_step r (2 ^ suc k - 1),
      bit_and_mask_low k (r / 2),
    )

-- Below `k` bits a mask of them is the remainder by 2 ^ k, and a mask of the `w` bits above
-- them clears the low ones.
pub bit_and_mask : (k a : ℕ) → bit_and a (2 ^ k - 1) ≡ a % 2 ^ k
bit_and_mask k a = ground (
  arith,
  one-le-pow k 2,
  mod-add-div' a (2 ^ k),
  mod-lt a (one-le-pow k 2 (omega arith)),
  bit_and_split k (a / 2 ^ k) (a % 2 ^ k) 0 (2 ^ k - 1),
  bit_and-zero (a / 2 ^ k),
  bit_and_mask_low k (a % 2 ^ k),
)

pub bit_and_mask_high : (k w a : ℕ) → bit_and a ((2 ^ w - 1) * 2 ^ k) ≡ a / 2 ^ k % 2 ^ w * 2 ^ k
bit_and_mask_high k w a = ground (
  arith,
  one-le-pow k 2,
  mod-add-div' a (2 ^ k),
  mod-lt a (one-le-pow k 2 (omega arith)),
  bit_and_split k (a / 2 ^ k) (a % 2 ^ k) (2 ^ w - 1) 0,
  bit_and-zero (a % 2 ^ k),
  bit_and_mask w (a / 2 ^ k),
)
