-- ===== src/Heap/Defs.antt =====
-- The block headers, the searches and `malloc` of user/heap.c. A pointer is an address, NULL is 0,
-- and a header's words stand at its address (ctrl), 4 above (prev_size) and 8 above (next_free).
-- `none` means that a loop ran out of its fuel.
use armv7_os.Prelude.{
  ℕ, zero, suc, ◌+◌, ◌-◌, ◌%◌, ◌^◌, Bool, not, ◌&&◌, ◌||◌, bit_and, bit_or, Option, none, some, ltb,
  leb, ◌==◌, if◌then◌else◌, ◌>>=◌, update,
}

abbrev pub heap_base : ℕ
heap_base = 0x70_0000

abbrev pub rb_header_size : ℕ
rb_header_size = 8

abbrev pub mb_hexa : ℕ
mb_hexa = 0x10_0000

abbrev pub free_block : ℕ
free_block = 2

abbrev pub top_block : ℕ
top_block = 1

abbrev pub block_size_bits : ℕ
block_size_bits = 0xFFFF_FFFC

abbrev pub null : ℕ
null = 0

-- Sums and differences of 32 bits, of words and of pointers.
abbrev pub add32 : ℕ → ℕ → ℕ
add32 a b = (a + b) % 2 ^ 32

abbrev pub sub32 : ℕ → ℕ → ℕ
sub32 a b = (a + 2 ^ 32 - b) % 2 ^ 32

-- The user's memory, word by word, and the globals of heap.c.
pub record Heap : Type 0 where
  pub word : ℕ → ℕ
  pub heap_initialized : ℕ
  pub first_free_block : ℕ
  pub counter : ℕ
  pub merge_flag : ℕ
  pub top_block_flag : ℕ
  pub no_free_space : ℕ

abbrev pub store : ℕ → ℕ → Heap → Heap
store a v h = record h { word = update h.word a v }

-- The fields of the block at `b`.
abbrev pub ctrl : ℕ → Heap → ℕ
ctrl b h = h.word b

abbrev pub prev_size : ℕ → Heap → ℕ
prev_size b h = h.word (add32 b 4)

abbrev pub next_free : ℕ → Heap → ℕ
next_free b h = h.word (add32 b 8)

abbrev pub set_ctrl : ℕ → ℕ → Heap → Heap
set_ctrl b v h = store b v h

abbrev pub set_prev_size : ℕ → ℕ → Heap → Heap
set_prev_size b v h = store (add32 b 4) v h

abbrev pub set_next_free : ℕ → ℕ → Heap → Heap
set_next_free b v h = store (add32 b 8) v h

-- ctrl & BLOCK_SIZE_BITS, and the tests of the two flags.
unfoldable pub size_bits : ℕ → ℕ
size_bits c = bit_and c block_size_bits

unfoldable pub free_bit : ℕ → Bool
free_bit c = ltb 0 (bit_and c free_block)

unfoldable pub top_bit : ℕ → Bool
top_bit c = not (bit_and c top_block == 0)

unfoldable pub set_top : ℕ → ℕ
set_top c = bit_or c top_block

abbrev pub block_size : ℕ → Heap → ℕ
block_size b h = size_bits (ctrl b h)

abbrev pub block_is_free : ℕ → Heap → Bool
block_is_free b h = free_bit (ctrl b h)

abbrev pub block_is_top : ℕ → Heap → Bool
block_is_top b h = top_bit (ctrl b h)

-- The blocks above and below.
abbrev pub block_above : ℕ → Heap → ℕ
block_above b h = add32 (add32 b (block_size b h)) rb_header_size

abbrev pub block_below : ℕ → Heap → ℕ
block_below b h = sub32 (sub32 b (prev_size b h)) rb_header_size

unfoldable pub round_up : ℕ → ℕ
round_up n = if n % 4 == 0 then n else (n + 4 - n % 4) % 2 ^ 32

unfoldable pub assign_new_top_block : ℕ → ℕ → Heap → Heap
assign_new_top_block old new h =
    if block_is_top old h then set_ctrl new (set_top (ctrl new h)) h else h

-- The loops of the searches.
unfoldable pub next_free_loop : ℕ → ℕ → Heap → Option ℕ
next_free_loop zero b h = none
next_free_loop (suc fuel) b h =
    let rest = next_free_loop fuel (block_above b h) h in if block_is_free b h then some b else rest

-- `counter > 15`, for the word of an `int`, which is negative from 2 ^ 31 on.
abbrev pub above_15 : ℕ → Bool
above_15 c = ltb 15 c && ltb c (2 ^ 31)

unfoldable pub find_next_free : ℕ → ℕ → Heap → Option ℕ
unfolding next_free_loop
find_next_free fuel ptr h =
    if block_is_top ptr h
    then some null
    else if above_15 h.counter
    then next_free_loop fuel (block_above ptr h) h
    else some (block_above ptr h)

unfoldable pub find_prev_free : ℕ → ℕ → Heap → Option ℕ
find_prev_free zero b h = none
find_prev_free (suc fuel) b h =
    let below = block_below b h in
    let rest = find_prev_free fuel below h in
    if leb heap_base b && not (block_is_free b h)
    then (if ltb below heap_base || ltb (heap_base + mb_hexa) below
        then some null
        else if ltb (heap_base + mb_hexa) below
        then some null
        else rest)
    else some (if leb heap_base b then b else null)

-- The loop of `update_first_free_block` at block `b`.
unfoldable pub first_free_loop : ℕ → ℕ → Heap → Option Heap
first_free_loop zero b h = none
first_free_loop (suc fuel) b h =
    let rest = first_free_loop fuel (block_above b h) h in
    if not (block_is_free b h) && not (block_is_top b h)
    then (if block_is_top b h
        then some (record h { first_free_block = null; no_free_space = 2 })
        else rest)
    else some (record h { first_free_block = b })

unfoldable pub update_first_free_block : ℕ → Heap → Option Heap
unfolding first_free_loop
update_first_free_block fuel h = first_free_loop fuel heap_base h

-- The first call: one reserved block and the top block above it.
unfoldable pub first_malloc : ℕ → Heap → ℕ × Heap
first_malloc n h =
    let h = set_ctrl heap_base (size_bits n) h in
    let h = set_prev_size heap_base 0 h in
    let top = add32 (add32 heap_base n) rb_header_size in
    let size = size_bits (sub32 (sub32 mb_hexa n) rb_header_size) in
    let h = set_ctrl top (add32 (add32 size free_block) top_block) h in
    let h = set_prev_size top n h in
    let h = set_next_free top null h in
    (heap_base, record h { first_free_block = top; heap_initialized = 2 })

-- The search for a free block of `n` bytes; `some none` is its early `return NULL`.
unfoldable pub fitting_block : ℕ → ℕ → ℕ → Heap → Option (Option ℕ)
fitting_block zero n b h = none
fitting_block (suc fuel) n b h =
    let rest = fitting_block fuel n (next_free b h) h in
    if ltb (block_size b h) n then (if block_is_top b h then some none else rest) else some (some b)

-- `rest >= 12` for the signed difference of block size and `n`.
abbrev pub splits : ℕ → ℕ → Bool
splits size n = let rest = sub32 size n in leb 12 rest && ltb rest (2 ^ 31)

-- The header of the free block that is left above the `n` bytes at `b`, and the size that the
-- block after it keeps of it.
unfoldable pub split_header : ℕ → ℕ → Heap → Heap
unfolding assign_new_top_block
split_header n b h =
    let above = add32 (add32 b n) rb_header_size in
    let rest = sub32 (sub32 (block_size b h) n) rb_header_size in
    let h = set_ctrl above (add32 rest free_block) h in
    let h = assign_new_top_block b above h in
    let h = set_prev_size above n h in set_prev_size (block_above above h) (block_size above h) h

-- The links to and from the new free block; `p` is the free block before it, or NULL.
unfoldable pub split_links : ℕ → ℕ → ℕ → ℕ → Heap → Option Heap
unfolding find_next_free
split_links fuel b above p h =
    let h = set_next_free p above h in
    if block_is_top b h
    then some (let h = set_next_free above null h in set_ctrl above (set_top (ctrl above h)) h)
    else find_next_free fuel above h >>= λ q. some (set_next_free above q h)

unfoldable pub split_block : ℕ → ℕ → ℕ → Heap → Option Heap
unfolding split_header split_links find_prev_free
split_block fuel n b h = do
  p ← find_prev_free fuel (block_below b h) (split_header n b h)
  split_links fuel b (add32 (add32 b n) rb_header_size) p (split_header n b h)

-- The header of the reserved block `b`, above the block `below`.
unfoldable pub reserve_header : ℕ → ℕ → ℕ → Heap → Heap
reserve_header n b below h =
    let h =
      if block_is_top b h && leb (block_size b h) n then record h { top_block_flag = 2 } else h in
    let h = set_ctrl b (size_bits n) h in
    if b == heap_base then h else set_prev_size b (block_size below h) h

-- The bytes that are too few for a block of their own go to the reserved one.
unfoldable pub keep_rest : ℕ → ℕ → Heap → Heap
keep_rest b left h =
    let h = set_ctrl b (add32 (ctrl b h) left) h in
    if h.top_block_flag == 2 then set_ctrl b (add32 (ctrl b h) top_block) h else h

-- The links and globals after the block is reserved; `prev` is the free block before it, or NULL.
unfoldable pub relink : ℕ → ℕ → Heap → Option Heap
unfolding find_next_free update_first_free_block
relink fuel prev h = do
  h ←
      if prev == null
      then some h
      else find_next_free fuel prev h >>= λ q. some (set_next_free prev q h)
  h ← update_first_free_block fuel h
  some (record h { counter = (h.counter + 1) % 2 ^ 32 })

-- Reserves the `n` bytes at the free block `b`.
unfoldable pub reserve_block : ℕ → ℕ → ℕ → Heap → Option (ℕ × Heap)
unfolding split_block reserve_header keep_rest find_prev_free relink
reserve_block fuel n b h = do
  let below = block_below b h
  let size = block_size b h
  h ← if ltb n size && splits size n then split_block fuel n b h else some h
  let h = reserve_header n b below h
  prev ← find_prev_free fuel b h
  h ← relink fuel prev (if splits size n then h else keep_rest b (sub32 size n) h)
  some (b, h)

-- Reserves what the search found.
unfoldable pub reserve_found : ℕ → ℕ → Option ℕ → Heap → Option (ℕ × Heap)
unfolding reserve_block
reserve_found fuel n none h = some (null, h)
reserve_found fuel n (some b) h = reserve_block fuel n b h

unfoldable pub malloc : ℕ → ℕ → Heap → Option (ℕ × Heap)
unfolding round_up first_malloc fitting_block reserve_found
malloc fuel nbytes h =
    if h.no_free_space == 2
    then some (null, h)
    else if h.heap_initialized == 1
    then some (first_malloc (round_up nbytes) h)
    else do
      found ← fitting_block fuel (round_up nbytes) h.first_free_block h
      reserve_found fuel (round_up nbytes) found h
