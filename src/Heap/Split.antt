-- ===== src/Heap/Split.antt =====
-- The split of the top block in `malloc`, on a heap whose other blocks are all reserved.
use armv7_os.Prelude.{length, ℕ, ◌+◌, ◌-◌, ◌%◌, ◌≤◌, ◌<◌, ◌≡◌, ◌≢◌, true, some, List, arith}
use armv7_os.Heap.Defs.{
  Heap, heap_base, null, free_bit, top_bit, size_bits, set_top, set_ctrl, set_next_free, ctrl,
  add32, sub32, split_header, split_links, split_block,
}
use armv7_os.Heap.Bits.{set_top_lem}
use armv7_os.Heap.Below.{top_ctrl}
use armv7_os.Heap.Stack.{IsStack, a_ge, top_size, walk_down}

-- No free block precedes the top one, so its link is written through NULL.
linked : ℕ → ℕ → Heap → Heap
linked a n h' =
    let above = add32 (add32 a n) 8 in
    let h' = set_next_free null above h' in
    let h' = set_next_free above null h' in set_ctrl above (set_top (ctrl above h')) h'

-- The heap after the split.
pub split_result : ℕ → ℕ → Heap → Heap
split_result a n h = linked a n (split_header n a h)

-- What the split changes: the header of the rest of the top block, the prev_size of what would
-- follow it, and the word behind NULL.
pub record AfterSplit (a size n : ℕ) (h h' : Heap) : Type 0 where
  pub kept :
      (x : ℕ)
      → x ≢ 8
      → x ≢ a + n + 8
      → x ≢ a + n + 12
      → x ≢ a + n + 16
      → x ≢ a + size + 12
      → h'.word x ≡ h.word x
  pub new_header : h'.word (a + n + 8) ≡ size - n - 8 + 3
  pub new_prev : h'.word (a + n + 12) ≡ n
  pub same_ready : h'.heap_initialized ≡ h.heap_initialized
  pub same_space : h'.no_free_space ≡ h.no_free_space
  pub same_merge : h'.merge_flag ≡ h.merge_flag
  pub same_count : h'.counter ≡ h.counter
  pub same_flag : h'.top_block_flag ≡ h.top_block_flag

module _ (ss : List ℕ) (a size n : ℕ) (h : Heap) (stack : IsStack ss a size h)
    (n_aligned : n % 4 ≡ 0) (n_fits : n + 12 ≤ size) where
  base_le : heap_base ≤ a
  base_le = a_ge ss a size h stack

  -- What `split_header` leaves.
  record AfterHeader (h' : Heap) : Type 0 where
    kept : (x : ℕ) → x ≢ a + n + 8 → x ≢ a + n + 12 → x ≢ a + size + 12 → h'.word x ≡ h.word x
    new_header : h'.word (a + n + 8) ≡ size - n - 8 + 3
    new_prev : h'.word (a + n + 12) ≡ n
    same_ready : h'.heap_initialized ≡ h.heap_initialized
    same_space : h'.no_free_space ≡ h.no_free_space
    same_merge : h'.merge_flag ≡ h.merge_flag
    same_count : h'.counter ≡ h.counter
    same_flag : h'.top_block_flag ≡ h.top_block_flag

  -- The header's control word before and after it is marked as top.
  rest_ctrl :
      (set_top (add32 (sub32 (sub32 size n) 8) 2) ≡ size - n - 8 + 3)
      × (size_bits (size - n - 8 + 3) ≡ size - n - 8)
      × (add32 (add32 a n) 8 ≡ a + n + 8)
  rest_ctrl = (
    omega (
      arith,
      set_top_lem (add32 (sub32 (sub32 size n) 8) 2),
      base_le,
      stack.extent,
      stack.aligned,
    ),
    (top_ctrl (size - n - 8) (omega (arith, stack.aligned)) (omega (arith, stack.extent))).2,
    omega (arith, stack.extent),
  )

  tops : (free_bit (h.word a) ≡ true) × (top_bit (h.word a) ≡ true) × (size_bits (h.word a) ≡ size)
  tops = top_size ss a size h stack

  AfterHeader-split_header : AfterHeader (split_header n a h)
  unfolding split_header
  AfterHeader-split_header = record {
    kept = λ x p q r. ground (arith, tops, rest_ctrl, stack.extent);
    new_header = ground (arith, tops, rest_ctrl, stack.extent);
    new_prev = ground (arith, tops, rest_ctrl, stack.extent);
    same_ready = ground arith;
    same_space = ground arith;
    same_merge = ground arith;
    same_count = ground arith;
    same_flag = ground arith;
  }

  AfterSplit-linked : (h' : Heap) → AfterHeader h' → AfterSplit a size n h (linked a n h')
  unfolding linked
  AfterSplit-linked h' after = record {
    kept = λ x e p q r t. ground (arith, rest_ctrl, after.kept x);
    new_header =
        ground (
          arith,
          rest_ctrl,
          after.new_header,
          set_top_lem (size - n - 8 + 3),
          stack.extent,
          base_le,
        );
    new_prev = ground (arith, rest_ctrl, after.new_prev, stack.extent, base_le);
    same_ready = after.same_ready;
    same_space = after.same_space;
    same_merge = after.same_merge;
    same_count = after.same_count;
    same_flag = after.same_flag;
  }

  split_links_run :
      (fuel : ℕ) (h' : Heap)
      → AfterHeader h'
      → split_links fuel a (add32 (add32 a n) 8) null h' ≡ some (linked a n h')
  unfolding split_links linked
  split_links_run fuel h' after = ground (arith, tops, after.kept a, stack.extent, base_le)

  pub split_block_run :
      (fuel : ℕ) → length ss < fuel → split_block fuel n a h ≡ some (split_result a n h)
  unfolding split_block split_result
  split_block_run fuel enough =
      rw
        (walk_down ss a h stack.blocks (omega (arith, stack.extent)) (split_header n a h) same fuel
          enough)
        (split_links_run fuel (split_header n a h) AfterHeader-split_header)
    where
      same : (x : ℕ) → heap_base ≤ x → x < a → (split_header n a h).word x ≡ h.word x
      same x p q =
          AfterHeader-split_header.kept x (omega arith) (omega arith) (omega (arith, stack.extent))

  pub AfterSplit-split_result : AfterSplit a size n h (split_result a n h)
  unfolding split_result
  AfterSplit-split_result = AfterSplit-linked (split_header n a h) AfterHeader-split_header
