-- ===== src/Heap/Tiles/Above.antt =====
-- `check_merge_with_top` of `free`, at a block that has just been marked as free.
use armv7_os.Prelude.{
  ℕ, suc, ◌+◌, ◌%◌, ◌^◌, ◌≤◌, ◌<◌, ◌≡◌, ◌≢◌, ◌∙◌, refl, false, true, some, arith, ap, ◌==◌,
}
use armv7_os.Heap.Defs.{
  Heap, heap_base, mb_hexa, free_bit, top_bit, size_bits, find_prev_free, find_next_free,
  block_above, block_size, set_ctrl, set_next_free, set_prev_size, ctrl, add32, rb_header_size,
}
use armv7_os.Heap.Free.{check_merge_with_top, merge_above}
use armv7_os.Heap.Below.{top_ctrl}
use armv7_os.Heap.Merge.{freed_ctrl, merged_top, merge_steps}
use armv7_os.Heap.Tiles.Split.{SameGlobals}

-- The block above is reserved.
pub above_used :
    (fuel b s t : ℕ) (h : Heap)
    → b + s + 8 < 2 ^ 31
    → h.word b ≡ s + 2
    → s % 4 ≡ 0
    → h.word (b + s + 8) ≡ t
    → free_bit t ≡ false
    → check_merge_with_top fuel b h ≡ some h
unfolding check_merge_with_top
above_used fuel b s t h lt header aligned next reserved =
    ground (arith, header, next, reserved, freed_ctrl s aligned)

-- The words that the merge changes, up to the link of the free block before it, which is the block itself.
joined_above : ℕ → ℕ → ℕ → Heap → Heap
joined_above b next q h =
    let next_next = block_above next h in
    let h = set_ctrl b (add32 (ctrl b h) (add32 (block_size next h) rb_header_size)) h in
    let h = set_next_free b q h in set_prev_size next_next (block_size b h) h

above_hole_steps :
    (fuel b next q : ℕ) (h : Heap)
    → block_above b h ≡ next
    → free_bit (ctrl next h) ≡ true
    → top_bit (ctrl next h) ≡ false
    → (b == next) ≡ false
    → find_next_free fuel next
        (set_ctrl b (add32 (ctrl b h) (add32 (block_size next h) rb_header_size)) h)
      ≡ some q
    → find_prev_free fuel b (joined_above b next q h) ≡ some b
    → check_merge_with_top fuel b h ≡ some (set_next_free b b (joined_above b next q h))
unfolding check_merge_with_top merge_above joined_above
above_hole_steps fuel b next q h above is_free no_top apart found walk =
    ground (arith, apart, is_free, no_top, above, found, walk)

-- The block above is free, of `t` bytes.
module _ (b s t : ℕ) (h : Heap) (low : heap_base ≤ b)
    (high : b + s + 8 + t + 8 ≤ heap_base + mb_hexa) (header : h.word b ≡ s + 2)
    (aligned : s % 4 ≡ 0) (above : h.word (b + s + 8) ≡ t + 2) (t_aligned : t % 4 ≡ 0) where
  own : (free_bit (s + 2) ≡ true) × (top_bit (s + 2) ≡ false) × (size_bits (s + 2) ≡ s)
  own = freed_ctrl s aligned (omega arith)

  next : (free_bit (t + 2) ≡ true) × (top_bit (t + 2) ≡ false) × (size_bits (t + 2) ≡ t)
  next = freed_ctrl t t_aligned (omega arith)

  sum :
      (free_bit (s + t + 10) ≡ true)
      × (top_bit (s + t + 10) ≡ false)
      × (size_bits (s + t + 10) ≡ s + t + 8)
  sum =
      let both = freed_ctrl (s + t + 8) (omega arith) (omega arith) in
      let e : s + t + 10 ≡ s + t + 8 + 2 = omega arith in
      (ap free_bit e ∙ both.0, ap top_bit e ∙ both.1, ap size_bits e ∙ both.2)

  -- What the merge leaves.
  pub record AfterAbove (h' : Heap) : Type 0 where
    pub kept : (x : ℕ) → x ≢ b → x ≢ b + 8 → x ≢ b + s + t + 20 → h'.word x ≡ h.word x
    pub own_header : h'.word b ≡ s + t + 10
    pub above_prev : h'.word (b + s + t + 20) ≡ s + t + 8
    pub same : SameGlobals h h'

  module _ (q : ℕ) where
    abbrev before_link : Heap
    before_link = joined_above b (b + s + 8) q h

    AfterAbove-joined_above : AfterAbove before_link
    unfolding joined_above
    AfterAbove-joined_above = record {
      kept = λ x o r v. ground (arith, header, above, next, sum);
      own_header = ground (arith, header, above, next, sum);
      above_prev = ground (arith, header, above, next, sum);
      same = record { ready = refl; space = refl; merge = refl; top = refl; count = refl };
    }

    pub merged : Heap
    merged = set_next_free b b before_link

    pub AfterAbove-merged : AfterAbove merged
    unfolding merged
    AfterAbove-merged =
        let after = AfterAbove-joined_above in
        record {
          kept = λ x o r v. ground (arith, after.kept x);
          own_header = ground (arith, after.own_header);
          above_prev = ground (arith, after.above_prev);
          same = record {
            ready = after.same.ready;
            space = after.same.space;
            merge = after.same.merge;
            top = after.same.top;
            count = after.same.count;
          };
        }

    pub above_hole :
        (fuel : ℕ)
        → find_next_free (suc fuel) (b + s + 8) (set_ctrl b (s + t + 10) h) ≡ some q
        → check_merge_with_top (suc fuel) b h ≡ some merged
    unfolding merged
    above_hole fuel found =
        above_hole_steps (suc fuel) b (b + s + 8) q h (ground (arith, header, own))
          (ground (arith, above, next)) (ground (arith, above, next)) (ground arith)
          (ap (λ v. find_next_free (suc fuel) (b + s + 8) (set_ctrl b v h)) grown ∙ found) own_found
      where
        grown : add32 (ctrl b h) (add32 (block_size (b + s + 8) h) rb_header_size) ≡ s + t + 10
        grown = ground (arith, header, above, next)

        own_found : find_prev_free (suc fuel) b before_link ≡ some b
        own_found = unfold find_prev_free in ground (arith, AfterAbove-joined_above.own_header, sum)

-- The block above is the top block, of `size` bytes.
module _ (b s size : ℕ) (h : Heap) (low : heap_base ≤ b)
    (extent : b + s + 8 + size ≡ heap_base + mb_hexa) (header : h.word b ≡ s + 2)
    (aligned : s % 4 ≡ 0) (above : h.word (b + s + 8) ≡ size + 3)
    (size_aligned : size % 4 ≡ 0) where
  own_top : (free_bit (s + 2) ≡ true) × (top_bit (s + 2) ≡ false) × (size_bits (s + 2) ≡ s)
  own_top = freed_ctrl s aligned (omega (arith, extent))

  tops : (free_bit (size + 3) ≡ true) × (top_bit (size + 3) ≡ true) × (size_bits (size + 3) ≡ size)
  tops = top_ctrl size size_aligned (omega (arith, extent))

  -- What the merge leaves.
  pub record AfterTop (h' : Heap) : Type 0 where
    pub kept :
        (x : ℕ) → x ≢ b → x ≢ b + 8 → x ≢ b + s + 8 → x ≢ b + s + size + 20 → h'.word x ≡ h.word x
    pub own_header : h'.word b ≡ s + size + 8 + 3
    pub same : SameGlobals h h'

  AfterTop-merged_top : AfterTop (merged_top b (b + s + 8) h)
  unfolding merged_top
  AfterTop-merged_top = record {
    kept = λ x o r v w. ground (arith, header, above, tops, extent);
    own_header = ground (arith, header, above, tops, extent);
    same = record { ready = refl; space = refl; merge = refl; top = refl; count = refl };
  }

  pub raised : Heap
  raised = set_next_free b b (merged_top b (b + s + 8) h)

  pub AfterTop-raised : AfterTop raised
  unfolding raised
  AfterTop-raised =
      let after = AfterTop-merged_top in
      record {
        kept = λ x o r v w. ground (arith, after.kept x, extent);
        own_header = ground (arith, after.own_header, extent);
        same = record {
          ready = after.same.ready;
          space = after.same.space;
          merge = after.same.merge;
          top = after.same.top;
          count = after.same.count;
        };
      }

  pub above_top : (fuel : ℕ) → check_merge_with_top (suc fuel) b h ≡ some raised
  unfolding raised
  above_top fuel =
      merge_steps (suc fuel) b (b + s + 8) h (ground arith) (ground (arith, above, tops))
        (ground (arith, above, tops)) (ground (arith, header, own_top, extent)) own_found
    where
      new_top : free_bit (s + size + 8 + 3) ≡ true
      new_top =
          (top_ctrl (s + size + 8) (omega (arith, size_aligned, aligned)) (omega (arith, extent))).0

      own_found : find_prev_free (suc fuel) b (merged_top b (b + s + 8) h) ≡ some b
      own_found = unfold find_prev_free in ground (arith, AfterTop-merged_top.own_header, new_top)
