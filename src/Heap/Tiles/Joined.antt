-- ===== src/Heap/Tiles/Joined.antt =====
-- `free` after the merge with the block above, where the block directly below is free.
use armv7_os.Prelude.{
  length, ℕ, ◌+◌, ◌≤◌, ◌<◌, ◌≡◌, ◌≢◌, ◌∙◌, refl, some, List, ◌∷◌, arith, ap, sym, subst,
  if◌then◌else◌, ◌==◌,
}
use armv7_os.Heap.Defs.{
  Heap, heap_base, mb_hexa, free_bit, find_next_free, find_prev_free, block_below, set_next_free,
}
use armv7_os.Heap.Free.{check_merge_with_top, check_merge_with_bottom, merge_below, release_block}
use armv7_os.Heap.Merge.{freed_ctrl}
use armv7_os.Heap.Tiles.{
  Tile, hole, end_of, first_free, onto, Up, Down, Up-le, Up-apart, Up-prev, Up-frame, Down-same,
  end_of-ge, IsTiled,
}
use armv7_os.Heap.Tiles.Walks.{next_free_loop-Up, find_prev_free-Down, block_below-Down}
use armv7_os.Heap.Tiles.Mend.{IsLoose, link_run, first_run}
use armv7_os.Heap.Tiles.Reserve.{store_other, find_next_free-hole}
use armv7_os.Heap.Tiles.Finish.{finished, IsTiled-finished, counter-finished, release_steps}
use armv7_os.Heap.Tiles.Settle.{IsMarked}
use armv7_os.Heap.Tiles.Under.{under_free, AfterUnder, AfterUnder-merge_below}

module _ (r : ℕ) (rs : List Tile) (s : ℕ) (ts : List Tile) (z size q : ℕ) (h : Heap)
    (marked : IsMarked (hole r ∷ rs) s ts z size q h) where
  abbrev b : ℕ
  b = end_of rs + r + 8

  high : end_of rs + r + 8 + s + 8 ≤ z
  high = Up-le h.word (b + s + 8) s ts z marked.up

  low : heap_base ≤ end_of rs
  low = end_of-ge rs

  top_low : end_of rs + r + 8 + s + 8 ≤ heap_base + mb_hexa
  top_low = omega (arith, high, marked.extent)

  joined : Heap
  joined = merge_below b (end_of rs) h

  after :
      AfterUnder
        (end_of rs)
        r
        s
        h
        low
        top_low
        marked.down.2
        marked.down.0
        marked.space
        marked.s_aligned
        joined
  unfolding joined
  after =
      AfterUnder-merge_below (end_of rs) r s h low top_low marked.down.2 marked.down.0 marked.space
        marked.s_aligned marked.own

  joined_run : check_merge_with_bottom b h ≡ joined
  unfolding joined
  joined_run =
      under_free b (end_of rs) h
        (block_below-Down h b q (hole r) rs refl marked.prev (omega (arith, top_low))) low
        (ap free_bit marked.down.2 ∙ (freed_ctrl r marked.down.0 (omega (arith, top_low, low))).0)

  abbrev follower : ℕ
  follower = first_free (b + s + 8) ts

  linked_below : Heap
  linked_below = set_next_free b follower joined

  kept : (x : ℕ) → x ≢ end_of rs → x ≢ b → x ≢ b + 8 → x ≢ b + s + 12 → joined.word x ≡ h.word x
  kept x o p t u = after.kept x o p t u

  Up-joined : Up joined.word (b + s + 8) (r + s + 8) ts z
  Up-joined =
      Up-frame h.word joined.word (b + s + 8) s (r + s + 8) ts z
        (λ x p o. kept x (omega arith) (omega arith) (omega (arith, marked.space)) (omega arith))
        (subst (λ x. joined.word x ≡ r + s + 8) (omega arith) after.above_prev) marked.up

  header_joined : joined.word z ≡ size + 3
  header_joined =
      kept z (omega (arith, high)) (omega (arith, high)) (omega (arith, high, marked.space))
        (omega (arith, Up-apart h.word (b + s + 8) s ts z marked.up))
      ∙ marked.header

  same_place : end_of rs + (r + s + 8) + 8 ≡ b + s + 8
  same_place = omega arith

  follows : (fuel : ℕ) → length ts < fuel → find_next_free fuel (end_of rs) joined ≡ some follower
  follows fuel enough =
      find_next_free-hole joined fuel (end_of rs) (r + s + 8) (b + s + 8) after.own_header
        (omega (arith, marked.down.0, marked.s_aligned)) (omega (arith, top_low)) same_place
        (omega (arith, after.count, marked.many))
      ∙ next_free_loop-Up joined z size header_joined marked.aligned marked.extent fuel (b + s + 8)
          (r + s + 8) ts Up-joined enough

  kept_linked : (x : ℕ) → x ≢ b + 8 → linked_below.word x ≡ joined.word x
  unfolding linked_below
  kept_linked x other = store_other b follower x joined (omega (arith, top_low)) other

  Down-linked : Down linked_below.word (end_of rs) rs
  Down-linked =
      Down-same h.word linked_below.word (end_of rs) rs
        (λ x a o.
          kept_linked x (omega arith)
          ∙ kept x (omega arith) (omega arith) (omega arith) (omega arith))
        marked.down.5

  Up-linked : Up linked_below.word (b + s + 8) (r + s + 8) ts z
  Up-linked =
      Up-frame joined.word linked_below.word (b + s + 8) (r + s + 8) (r + s + 8) ts z
        (λ x a o. kept_linked x (omega (arith, marked.space)))
        (kept_linked (b + s + 8 + 4) (omega arith)
          ∙ Up-prev joined.word (b + s + 8) (r + s + 8) ts z Up-joined)
        Up-joined

  IsLoose-linked_below :
      IsLoose (hole (r + s + 8) ∷ rs) ts z size (linked_below.word (end_of rs + 8)) linked_below
  IsLoose-linked_below = record {
    down = (
      omega (arith, marked.down.0, marked.s_aligned),
      omega arith,
      kept_linked (end_of rs) (omega arith) ∙ after.own_header,
      kept_linked (end_of rs + 4) (omega arith)
          ∙ kept (end_of rs + 4) (omega arith) (omega (arith, marked.down.1)) (omega arith)
              (omega arith)
          ∙ marked.down.3,
      refl,
      Down-linked,
    );
    up = subst (λ x. Up linked_below.word x (r + s + 8) ts z) (sym same_place) Up-linked;
    header = kept_linked z (omega (arith, high, marked.space)) ∙ header_joined;
    aligned = marked.aligned;
    extent = marked.extent;
    many = (unfold linked_below in omega (arith, after.count, marked.many));
  }

  ready_linked : linked_below.heap_initialized ≡ 2
  unfolding linked_below
  ready_linked = after.ready ∙ marked.ready

  pub merged_down : Heap
  merged_down =
      finished (hole (r + s + 8) ∷ rs) ts z size (linked_below.word (end_of rs + 8)) linked_below
        IsLoose-linked_below ready_linked

  pub IsTiled-merged_down : IsTiled (onto rs (hole (r + s + 8) ∷ ts)) z size merged_down
  unfolding merged_down
  IsTiled-merged_down =
      IsTiled-finished (hole (r + s + 8) ∷ rs) ts z size (linked_below.word (end_of rs + 8))
        linked_below IsLoose-linked_below ready_linked

  pub counter-merged_down : merged_down.counter ≡ h.counter
  unfolding merged_down linked_below
  counter-merged_down =
      counter-finished (hole (r + s + 8) ∷ rs) ts z size (linked_below.word (end_of rs + 8))
        linked_below IsLoose-linked_below ready_linked
      ∙ after.count

  own_found :
      (fuel : ℕ)
      → length rs < fuel
      → find_prev_free fuel (end_of rs) linked_below ≡ some (end_of rs)
  own_found fuel enough =
      find_prev_free-Down linked_below fuel (linked_below.word (end_of rs + 8)) (hole (r + s + 8))
        rs IsLoose-linked_below.down (omega (arith, top_low)) enough

  pub merged_down_run :
      (fuel : ℕ) (h₀ h' : Heap)
      → length rs + length ts + 1 < fuel
      → h₀.word (b + 4) ≡ r
      → check_merge_with_top fuel b h' ≡ some h
      → release_block fuel b (block_below b h₀) h' ≡ some merged_down
  unfolding merged_down finished linked_below
  merged_down_run fuel h₀ h' enough prev₀ merge =
      let place = block_below-Down h₀ b q (hole r) rs refl prev₀ (omega (arith, top_low)) in
      rw place (
        release_steps fuel b (end_of rs) follower (end_of rs) h' h joined merge joined_run
          (ap (λ m. find_next_free fuel (if m == 2 then end_of rs else b) joined) after.marked
            ∙ follows fuel (omega arith))
          (own_found fuel (omega arith))
          (link_run (hole (r + s + 8) ∷ rs) ts z size (linked_below.word (end_of rs + 8))
            linked_below IsLoose-linked_below fuel (omega arith))
          (first_run (hole (r + s + 8) ∷ rs) ts z size (linked_below.word (end_of rs + 8))
            linked_below IsLoose-linked_below fuel (omega arith)))
