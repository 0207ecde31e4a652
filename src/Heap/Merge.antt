-- ===== src/Heap/Merge.antt =====
-- The merge of the highest reserved block with the top block, in `free`.
use armv7_os.Prelude.{
  ℕ, suc, ◌+◌, ◌-◌, ◌%◌, ◌^◌, ◌≤◌, ◌<◌, ◌≡◌, ◌≢◌, refl, ◌∙◌, true, false, some, List, ◌∷◌, arith,
  ◌==◌,
}
use armv7_os.Heap.Defs.{
  Heap, heap_base, null, find_prev_free, free_bit, top_bit, size_bits, block_below, block_above,
  block_size, set_ctrl, set_prev_size, set_next_free, add32, ctrl, top_block, rb_header_size,
}
use armv7_os.Heap.Free.{clear_top, merge_above, check_merge_with_top}
use armv7_os.Heap.Bits.{size_bits_lem, free_bit_iff, top_bit_iff}
use armv7_os.Heap.Below.{Below-frame, top_ctrl}
use armv7_os.Heap.Stack.{IsStack, top_size}

-- The control word of a block that has just been freed.
pub freed_ctrl :
    (s : ℕ)
    → s % 4 ≡ 0
    → s < 2 ^ 31
    → (free_bit (s + 2) ≡ true) × (top_bit (s + 2) ≡ false) × (size_bits (s + 2) ≡ s)
freed_ctrl s aligned lt = (
  (free_bit_iff (s + 2)).1 (omega arith),
  ground (arith, top_bit_iff (s + 2)),
  omega (arith, size_bits_lem (s + 2) (omega arith)),
)

-- The merge of `b` with the top block `next` above it, up to the link from the free block before it.
unfoldable pub merged_top : ℕ → ℕ → Heap → Heap
merged_top b next h =
    let next_next = block_above next h in
    let h = set_ctrl b (add32 (ctrl b h) top_block) (record h { first_free_block = b }) in
    let h = set_ctrl b (add32 (ctrl b h) (add32 (block_size next h) rb_header_size)) h in
    let h = set_next_free b null (set_ctrl next (clear_top (ctrl next h)) h) in
    set_prev_size next_next (block_size b h) h

pub merge_steps :
    (fuel b next : ℕ) (h : Heap)
    → (b == next) ≡ false
    → free_bit (ctrl next h) ≡ true
    → top_bit (ctrl next h) ≡ true
    → block_above b h ≡ next
    → find_prev_free fuel b (merged_top b next h) ≡ some b
    → check_merge_with_top fuel b h ≡ some (set_next_free b b (merged_top b next h))
unfolding check_merge_with_top merge_above merged_top
merge_steps fuel b next h apart is_free top above walk =
    ground (arith, apart, is_free, top, above, walk)

module _ (s : ℕ) (ss : List ℕ) (a size : ℕ) (h : Heap) (stack : IsStack (s ∷ ss) a size h) where
  abbrev b : ℕ
  b = a - s - 8

  -- The block with its FREE_BLOCK flag, and the words that the merge starts from.
  abbrev marked : Heap
  marked = set_ctrl b (s + 2) h

  small : heap_base + s + 8 ≤ a
  small = stack.blocks.0

  pub own_bits : (free_bit (s + 2) ≡ true) × (top_bit (s + 2) ≡ false) × (size_bits (s + 2) ≡ s)
  own_bits = freed_ctrl s stack.blocks.1 (omega (arith, small, stack.extent))

  tops : (free_bit (h.word a) ≡ true) × (top_bit (h.word a) ≡ true) × (size_bits (h.word a) ≡ size)
  tops = top_size (s ∷ ss) a size h stack

  above_is : block_above b marked ≡ a
  above_is = ground (arith, own_bits, small, stack.extent)

  record AfterMerge (h' : Heap) : Type 0 where
    kept : (x : ℕ) → x ≢ b → x ≢ b + 8 → x ≢ a → x ≢ a + size + 12 → h'.word x ≡ h.word x
    header : h'.word b ≡ size + s + 8 + 3
    first : h'.first_free_block ≡ b
    same_ready : h'.heap_initialized ≡ h.heap_initialized
    same_space : h'.no_free_space ≡ h.no_free_space
    same_merge : h'.merge_flag ≡ h.merge_flag

  AfterMerge-merged_top : AfterMerge (merged_top b a marked)
  unfolding merged_top
  AfterMerge-merged_top = record {
    kept = λ x p q r t. ground (arith, tops, small, stack.extent);
    header = ground (arith, tops, small, stack.extent);
    first = refl;
    same_ready = refl;
    same_space = refl;
    same_merge = refl;
  }

  -- The two blocks as one top block.
  pub joined : Heap
  joined = set_next_free b b (merged_top b a marked)

  pub IsStack-joined : IsStack ss b (size + s + 8) joined
  unfolding joined
  IsStack-joined = record {
    blocks =
        Below-frame h.word joined.word b ss
          (λ x p q. ground (arith, AfterMerge-merged_top.kept x, stack.extent, small))
          (ground (arith, AfterMerge-merged_top.kept (b + 4), stack.extent, small)) stack.blocks.4;
    header = ground (arith, AfterMerge-merged_top.header, stack.extent, small);
    aligned = omega (arith, stack.aligned, stack.blocks.1);
    extent = omega (arith, stack.extent, small);
    first = AfterMerge-merged_top.first;
    ready = AfterMerge-merged_top.same_ready ∙ stack.ready;
    space = AfterMerge-merged_top.same_space ∙ stack.space;
    unmerged = AfterMerge-merged_top.same_merge ∙ stack.unmerged;
  }

  pub same_below : block_below b joined ≡ block_below b h
  unfolding joined
  same_below = ground (arith, AfterMerge-merged_top.kept (b + 4), stack.extent, small)

  pub join_run : (fuel : ℕ) → check_merge_with_top (suc fuel) b marked ≡ some joined
  unfolding joined
  join_run fuel =
      merge_steps (suc fuel) b a marked (ground (arith, small)) (ground (arith, tops, small))
        (ground (arith, tops, small)) above_is own_found
    where
      new_top : free_bit (size + s + 8 + 3) ≡ true
      new_top =
          (top_ctrl (size + s + 8) (omega (arith, stack.aligned, stack.blocks.1))
            (omega (arith, stack.extent))).0

      own_found : find_prev_free (suc fuel) b (merged_top b a marked) ≡ some b
      own_found =
          unfold find_prev_free in ground (arith, AfterMerge-merged_top.header, new_top, small)
