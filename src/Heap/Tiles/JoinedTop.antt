-- ===== src/Heap/Tiles/JoinedTop.antt =====
-- `free` after the merge with the top block, where the block directly below is free.
use armv7_os.Prelude.{
  length, ℕ, zero, suc, ◌+◌, ◌%◌, ◌≤◌, ◌<◌, ◌≡◌, ◌≢◌, ◌∙◌, refl, false, true, some, List, [], ◌∷◌,
  arith, ap, if◌then◌else◌, ◌==◌,
}
use armv7_os.Heap.Defs.{
  Heap, heap_base, mb_hexa, null, free_bit, top_bit, size_bits, find_next_free, find_prev_free,
  update_first_free_block, block_below, set_next_free,
}
use armv7_os.Heap.Free.{check_merge_with_top, check_merge_with_bottom, merge_below, release_block}
use armv7_os.Heap.Below.{top_ctrl}
use armv7_os.Heap.Merge.{freed_ctrl}
use armv7_os.Heap.Tiles.{
  Tile, hole, end_of, first_free, onto, Up, Down-same, end_of-ge, IsTiled, join,
}
use armv7_os.Heap.Tiles.Walks.{first_free_loop-Up, block_below-Down}
use armv7_os.Heap.Tiles.Mend.{length-onto}
use armv7_os.Heap.Tiles.Reserve.{store_other}
use armv7_os.Heap.Tiles.Finish.{release_steps, link, reset, IsTiled-reset}
use armv7_os.Heap.Tiles.Settle.{IsRaised}
use armv7_os.Heap.Tiles.Under.{under_free, AfterUnderTop, AfterUnderTop-merge_below}

module _ (r : ℕ) (rs : List Tile) (size q : ℕ) (h : Heap)
    (raised : IsRaised (hole r ∷ rs) size q h) where
  abbrev b : ℕ
  b = end_of rs + r + 8

  low : heap_base ≤ end_of rs
  low = end_of-ge rs

  joined : Heap
  joined = merge_below b (end_of rs) h

  after :
      AfterUnderTop
        (end_of rs)
        r
        size
        h
        low
        raised.extent
        raised.down.2
        raised.down.0
        raised.aligned
        raised.own
        joined
  unfolding joined
  after =
      AfterUnderTop-merge_below (end_of rs) r size h low raised.extent raised.down.2 raised.down.0
        raised.aligned raised.own

  joined_run : check_merge_with_bottom b h ≡ joined
  unfolding joined
  joined_run =
      under_free b (end_of rs) h
        (block_below-Down h b q (hole r) rs refl raised.prev (omega (arith, raised.extent))) low
        (ap free_bit raised.down.2
          ∙ (freed_ctrl r raised.down.0 (omega (arith, raised.extent, low))).0)

  tops :
      (free_bit (r + size + 8 + 3) ≡ true)
      × (top_bit (r + size + 8 + 3) ≡ true)
      × (size_bits (r + size + 8 + 3) ≡ r + size + 8)
  tops =
      top_ctrl (r + size + 8) (omega (arith, raised.down.0, raised.aligned))
        (omega (arith, raised.extent))

  -- The two writes of NULL, to the link of the old block and to that of the merged one.
  once : Heap
  once = set_next_free b null joined

  twice : Heap
  twice = set_next_free (end_of rs) null once

  kept_once : (x : ℕ) → x ≢ b + 8 → once.word x ≡ joined.word x
  unfolding once
  kept_once x other = store_other b null x joined (omega (arith, raised.extent)) other

  kept_twice : (x : ℕ) → x ≢ end_of rs + 8 → twice.word x ≡ once.word x
  unfolding twice
  kept_twice x other = store_other (end_of rs) null x once (omega (arith, raised.extent)) other

  header_once : once.word (end_of rs) ≡ r + size + 8 + 3
  header_once = kept_once (end_of rs) (omega arith) ∙ after.top_header

  none_follows :
      (fuel : ℕ) (h' : Heap)
      → h'.word (end_of rs) ≡ r + size + 8 + 3
      → find_next_free fuel (end_of rs) h' ≡ some null
  unfolding find_next_free
  none_follows fuel h' header = rw (header, tops.1) refl

  own_found : (fuel : ℕ) → find_prev_free (suc fuel) (end_of rs) once ≡ some (end_of rs)
  own_found fuel = unfold find_prev_free in ground (arith, header_once, tops.0, low)

  second_link : (fuel : ℕ) → link fuel (end_of rs) once ≡ some twice
  unfolding twice
  second_link fuel = rw (no_null, none_follows fuel once header_once) refl
    where
      no_null : (end_of rs == null) ≡ false
      no_null = ground (arith, low)

  header_twice : twice.word (end_of rs) ≡ r + size + 8 + 3
  header_twice = kept_twice (end_of rs) (omega arith) ∙ header_once

  blocks : Up twice.word heap_base 0 (onto rs []) (end_of rs)
  blocks =
      join twice.word rs [] (end_of rs)
        (Down-same h.word twice.word (end_of rs) rs
          (λ x a o.
            kept_twice x (omega arith)
            ∙ kept_once x (omega arith)
            ∙ after.kept x (omega arith) (omega arith) (omega arith))
          raised.down.5)
        (
          refl,
          kept_twice (end_of rs + 4) (omega arith)
              ∙ kept_once (end_of rs + 4) (omega (arith, raised.down.1))
              ∙ after.kept (end_of rs + 4) (omega arith) (omega (arith, raised.down.1))
                  (omega arith)
              ∙ raised.down.3,
        )

  extent : end_of rs + (r + size + 8) ≡ heap_base + mb_hexa
  extent = omega (arith, raised.extent)

  top_aligned : (r + size + 8) % 4 ≡ 0
  top_aligned = omega (arith, raised.down.0, raised.aligned)

  pub merged_top_down : Heap
  merged_top_down = reset (record twice { first_free_block = first_free heap_base (onto rs []) })

  pub merged_top_down_run :
      (fuel : ℕ) (h₀ h' : Heap)
      → length rs + 1 < fuel
      → h₀.word (b + 4) ≡ r
      → check_merge_with_top fuel b h' ≡ some h
      → release_block fuel b (block_below b h₀) h' ≡ some merged_top_down
  unfolding merged_top_down once
  merged_top_down_run zero h₀ h' enough prev₀ merge = absurd (omega arith)
  merged_top_down_run (suc fuel) h₀ h' enough prev₀ merge =
      let place = block_below-Down h₀ b q (hole r) rs refl prev₀ (omega (arith, raised.extent)) in
      rw place (
        release_steps (suc fuel) b (end_of rs) null (end_of rs) h' h joined merge joined_run
          (ap (λ m. find_next_free (suc fuel) (if m == 2 then end_of rs else b) joined) after.marked
            ∙ none_follows (suc fuel) joined after.top_header)
          (own_found fuel) (second_link (suc fuel)) first_run_top)
    where
      first_run_top :
          update_first_free_block (suc fuel) twice
          ≡ some (record twice { first_free_block = first_free heap_base (onto rs []) })
      first_run_top =
          unfold update_first_free_block in
          first_free_loop-Up twice (end_of rs) (r + size + 8) header_twice top_aligned extent
            (suc fuel) heap_base 0 (onto rs []) blocks (omega (arith, length-onto rs []))

  pub IsTiled-merged_top_down : IsTiled (onto rs []) (end_of rs) (r + size + 8) merged_top_down
  unfolding merged_top_down
  IsTiled-merged_top_down =
      IsTiled-reset (onto rs []) (end_of rs) (r + size + 8)
        (record twice { first_free_block = first_free heap_base (onto rs []) }) blocks header_twice
        top_aligned extent refl (unfold twice in unfold once in after.ready ∙ raised.ready)
        (unfold twice in unfold once in omega (arith, after.count, raised.many))

  pub counter-merged_top_down : merged_top_down.counter ≡ h.counter
  unfolding merged_top_down
  counter-merged_top_down = unfold twice in unfold once in after.count
