-- ===== src/User/Requests.antt =====
-- The sizes that the allocating thread asks for.
use armv7_os.Prelude.{
  ℕ, zero, suc, ◌+◌, ◌*◌, ◌/◌, ◌%◌, ◌^◌, ◌≤◌, ◌<◌, ◌≡◌, ◌≢◌, refl, true, bit_and, bit_xor, arith,
  eq_below, agree, subst, if◌then◌else◌, ◌==◌,
}
use armv7_os.Bits.{bit_and_mask}
use armv7_os.Heap.{round_up, mb_hexa}
use armv7_os.User.MallocThread.{reduce_loop, reduce_to_4_bit, request_after}

-- Two hexadecimal digits, as one number of 8 bits.
xor_overflow : ℕ → ℕ
xor_overflow v = bit_xor (v / 16) (v % 16) / 16

xor_table : agree xor_overflow (λ v. 0) 256 ≡ true
unfolding agree xor_overflow
xor_table = refl

bit_xor-lt : (a b : ℕ) → a < 16 → b < 16 → bit_xor a b < 16
unfolding xor_overflow
bit_xor-lt a b a_lt b_lt =
    let high : (a * 16 + b) / 16 ≡ a = omega arith in
    let low : (a * 16 + b) % 16 ≡ b = omega arith in
    let none_over : bit_xor ((a * 16 + b) / 16) ((a * 16 + b) % 16) / 16 ≡ 0 =
      eq_below xor_overflow (λ v. 0) 256 (a * 16 + b) (omega arith) xor_table in
    let small : bit_xor a b / 16 ≡ 0 =
      subst (λ x. bit_xor x b / 16 ≡ 0) high
        (subst (λ x. bit_xor ((a * 16 + b) / 16) x / 16 ≡ 0) low none_over) in
    omega arith

reduce_loop-lt : (rounds i ptr res : ℕ) → res < 16 → reduce_loop rounds i ptr res < 16
unfolding reduce_loop
reduce_loop-lt zero i ptr res lt = lt
reduce_loop-lt (suc rounds) i ptr res lt =
    reduce_loop-lt rounds (i + 1) ptr (bit_xor res (bit_and (ptr / 2 ^ (i * 4)) 0xF)) (
      bit_xor-lt res (bit_and (ptr / 2 ^ (i * 4)) 0xF) lt
        (omega (arith, bit_and_mask 4 (ptr / 2 ^ (i * 4)))))

-- For every pointer the thread asks for X repeated as three hexadecimal digits, X from 1 to 15 and what
-- `reduce_to_4_bit` makes of the pointer unless that is 0; and 64 blocks of the size asked for, rounded
-- and with their headers, leave at least 12 bytes of the heap.
pub request_after_bounds :
    (ptr : ℕ)
    → (x : ℕ) × (request_after ptr ≡ 0x111 * x)
      × (1 ≤ x)
      × (x ≤ 15)
      × (reduce_to_4_bit ptr ≢ 0 → x ≡ reduce_to_4_bit ptr)
      × (64 * (round_up (request_after ptr) + 8) + 12 ≤ mb_hexa)
unfolding request_after round_up
request_after_bounds ptr = (
  (if reduce_to_4_bit ptr == 0 then 1 else reduce_to_4_bit ptr),
  ground arith,
  ground arith,
  ground (arith, small),
  (λ nonzero. ground arith),
  ground (arith, small),
)
  where
    small : reduce_to_4_bit ptr < 16
    small = unfold reduce_to_4_bit in reduce_loop-lt 8 0 ptr 0 (omega arith)
