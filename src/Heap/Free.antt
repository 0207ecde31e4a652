-- ===== src/Heap/Free.antt =====
-- `free` of user/heap.c, with its two merges.
use armv7_os.Prelude.{
  ℕ, not, ◌&&◌, ◌||◌, bit_and, bit_or, Option, some, ltb, ◌==◌, if◌then◌else◌, ◌>>=◌,
}
use armv7_os.Heap.Defs.{
  Heap, heap_base, rb_header_size, free_block, top_block, null, add32, ctrl, prev_size, set_ctrl,
  set_prev_size, set_next_free, set_top, block_size, block_is_free, block_is_top, block_above,
  block_below, find_next_free, find_prev_free, update_first_free_block,
}

-- ctrl & ~TOP_BLOCK and ctrl | FREE_BLOCK.
unfoldable pub clear_top : ℕ → ℕ
clear_top c = bit_and c 0xFFFF_FFFE

unfoldable pub set_free : ℕ → ℕ
set_free c = bit_or c free_block

-- The merge of `b` with the free block `next` above it.
unfoldable pub merge_above : ℕ → ℕ → ℕ → Heap → Option Heap
unfolding clear_top find_next_free find_prev_free
merge_above fuel b next h = do
  let next_next = block_above next h
  let h =
      if block_is_top next h
      then set_ctrl b (add32 (ctrl b h) top_block) (record h { first_free_block = b })
      else h
  let h = set_ctrl b (add32 (ctrl b h) (add32 (block_size next h) rb_header_size)) h
  h ←
      if block_is_top next h
      then some (set_next_free b null (set_ctrl next (clear_top (ctrl next h)) h))
      else find_next_free fuel next h >>= λ q. some (set_next_free b q h)
  let h = set_prev_size next_next (block_size b h) h
  p ← find_prev_free fuel b h
  some (set_next_free p b h)

unfoldable pub check_merge_with_top : ℕ → ℕ → Heap → Option Heap
unfolding merge_above
check_merge_with_top fuel b h =
    let next = block_above b h in if block_is_free next h then merge_above fuel b next h else some h

-- The merge of `b` into the free block `prev` below it.
unfoldable pub merge_below : ℕ → ℕ → Heap → Heap
unfolding clear_top set_free set_top
merge_below b prev h =
    let h = set_ctrl prev (add32 (ctrl prev h) (add32 (block_size b h) rb_header_size)) h in
    let h = set_next_free b null h in
    let h = set_ctrl b (set_free (ctrl b h)) h in
    let h =
      if block_is_top b h
      then (let h = set_ctrl b (clear_top (ctrl b h)) h in set_ctrl prev (set_top (ctrl prev h)) h)
      else set_prev_size (block_above b h) (block_size prev h) h in
    record h { merge_flag = 2 }

unfoldable pub check_merge_with_bottom : ℕ → Heap → Heap
unfolding merge_below
check_merge_with_bottom b h =
    let prev = block_below b h in
    if ltb prev heap_base || not (block_is_free prev h) then h else merge_below b prev h

-- The rest of `free`, where the block is not the whole heap. `prev` is the block below `b`.
unfoldable pub release_block : ℕ → ℕ → ℕ → Heap → Option Heap
unfolding check_merge_with_top check_merge_with_bottom find_next_free find_prev_free
    update_first_free_block
release_block fuel b prev h = do
  h ← check_merge_with_top fuel b h
  let h = check_merge_with_bottom b h
  next ← find_next_free fuel (if h.merge_flag == 2 then prev else b) h
  let h = set_next_free b next h
  p ← find_prev_free fuel prev h
  h ← if p == null then some h else find_next_free fuel p h >>= λ q. some (set_next_free p q h)
  h ← update_first_free_block fuel h
  some (record h { top_block_flag = 1; no_free_space = 1; merge_flag = 1 })

unfoldable pub free : ℕ → ℕ → Heap → Option Heap
unfolding release_block
free fuel b h =
    if b == null
    then some h
    else if block_is_free b h
    then some h
    else (let prev = block_below b h in
        let next = block_above b h in
        let h = set_ctrl b (add32 (ctrl b h) free_block) h in
        if block_is_top b h && prev_size b h == 0
        then some (
            let h = record h { first_free_block = heap_base } in
            set_ctrl b (add32 (ctrl b h) (block_size next h)) h)
        else release_block fuel b prev h)
