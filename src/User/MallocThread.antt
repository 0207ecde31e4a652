-- ===== src/User/MallocThread.antt =====
-- user/user_thread.c: the thread that frees and allocates for ever.
use armv7_os.Prelude.{
  ℕ, zero, suc, ◌+◌, ◌*◌, ◌/◌, ◌%◌, ◌^◌, bit_and, bit_xor, Option, some, ◌==◌, if◌then◌else◌, ◌>>=◌,
  read, write, for_loop,
}
use armv7_os.Heap.{Heap, malloc, free}

abbrev pub ptrs_array_length : ℕ
ptrs_array_length = 64

-- The array `ptrs` and the heap.
abbrev pub Blocks : Type 0
Blocks = (ℕ → ℕ) × Heap

unfoldable pub init_ptr : ℕ → ℕ → Blocks → Option Blocks
unfolding malloc
init_ptr fuel i (ptrs, h) = do
  (b, h) ← malloc fuel 0x20 h
  ptrs ← write ptrs_array_length ptrs i b
  some (ptrs, h)

unfoldable pub init_ptrs_array : ℕ → Blocks → Option Blocks
unfolding init_ptr
init_ptrs_array fuel = for_loop ptrs_array_length 0 (init_ptr fuel)

-- The loop of `reduce_to_4_bit`, by the rounds left.
unfoldable pub reduce_loop : ℕ → ℕ → ℕ → ℕ → ℕ
reduce_loop zero i ptr res = res
reduce_loop (suc rounds) i ptr res =
    reduce_loop rounds (i + 1) ptr (bit_xor res (bit_and (ptr / 2 ^ (i * 4)) 0xF))

unfoldable pub reduce_to_4_bit : ℕ → ℕ
unfolding reduce_loop
reduce_to_4_bit ptr = reduce_loop 8 0 ptr 0

-- The number of bytes that the loop asks for after it freed `ptr`.
unfoldable pub request_after : ℕ → ℕ
unfolding reduce_to_4_bit
request_after ptr =
    let x = reduce_to_4_bit ptr in let x = if x == 0 then 1 else x in x * 256 + x * 16 + x

-- One round of `malloc_loop`, with its counter `i`.
unfoldable pub malloc_round : ℕ → ℕ → Blocks → Option (ℕ × Blocks)
unfolding malloc free reduce_to_4_bit request_after
malloc_round fuel i (ptrs, h) = do
  ptr ← read ptrs_array_length ptrs (i % ptrs_array_length)
  h ← free fuel ptr h
  h ← if reduce_to_4_bit ptr == 0xF then free fuel ptr h else some h
  (ptr2, h) ← malloc fuel (request_after ptr) h
  ptrs ← write ptrs_array_length ptrs (i % ptrs_array_length) ptr2
  some ((i + 1) % 2 ^ 32, (ptrs, h))
