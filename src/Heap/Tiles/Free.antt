-- ===== src/Heap/Tiles/Free.antt =====
-- `free` on such blocks joins what lies side by side.
use armv7_os.Prelude.{
  length, ℕ, zero, suc, ◌+◌, ◌≤◌, ◌<◌, ◌≡◌, ◌≢◌, ◌∙◌, refl, some, List, [], ◌∷◌, arith, sym, subst,
}
use armv7_os.Heap.Defs.{Heap, heap_base, mb_hexa, find_next_free, block_below, set_ctrl}
use armv7_os.Heap.Free.{check_merge_with_top, release_block, free}
use armv7_os.Heap.Below.{plain_ctrl}
use armv7_os.Heap.Merge.{freed_ctrl}
use armv7_os.Heap.Release.{free_enters}
use armv7_os.Heap.Tiles.{
  Tile, used, hole, end_of, size_below, first_free, onto, Up, Down, Up-le, Up-apart, Up-prev,
  Up-frame, Down-same, end_of-ge, IsTiled, split_at,
}
use armv7_os.Heap.Tiles.Walks.{next_free_loop-Up}
use armv7_os.Heap.Tiles.Reserve.{find_next_free-hole}
use armv7_os.Heap.Tiles.Above.{
  above_used, AfterAbove, merged, AfterAbove-merged, above_hole, AfterTop, raised, AfterTop-raised,
  above_top,
}
use armv7_os.Heap.Tiles.Settle.{
  IsMarked, IsRaised, settled, settled_run, IsTiled-settled, counter-settled, counter-settled_top,
  settled_top, settled_top_run, IsTiled-settled_top,
}
use armv7_os.Heap.Tiles.Joined.{
  merged_down, merged_down_run, IsTiled-merged_down, counter-merged_down,
}
use armv7_os.Heap.Tiles.JoinedTop.{
  merged_top_down, merged_top_down_run, IsTiled-merged_top_down, counter-merged_top_down,
}
use armv7_os.Heap.Tiles.Coalesce.{with_below, released, top_under, top_after, bytes_from}

-- From the merge with the block above on, whatever lies below.
abbrev Releases : (fuel : ℕ) (rs ts : List Tile) (z : ℕ) (h₀ h' : Heap) → Type 0
Releases fuel rs ts z h₀ h' =
    (h : Heap) × (release_block fuel (end_of rs) (block_below (end_of rs) h₀) h' ≡ some h)
    × IsTiled ts z (bytes_from z) h
    × (h.counter ≡ h'.counter)

sized :
    (ts : List Tile) (z size : ℕ) (h : Heap) → IsTiled ts z size h → IsTiled ts z (bytes_from z) h
sized ts z size h tiled = subst (λ y. IsTiled ts z y h) (omega (arith, tiled.extent)) tiled

module _ (fuel : ℕ) (h₀ h' : Heap) where
  release_marked :
      (rs : List Tile) (s : ℕ) (ts : List Tile) (z size q : ℕ) (h : Heap)
      → IsMarked rs s ts z size q h
      → h₀.word (end_of rs + 4) ≡ size_below rs
      → length rs + length ts + 1 < fuel
      → h.counter ≡ h'.counter
      → check_merge_with_top fuel (end_of rs) h' ≡ some h
      → Releases fuel rs (with_below rs (hole s ∷ ts)) z h₀ h'
  release_marked [] s ts z size q h marked prev₀ enough count merge = (
    settled [] s ts z size q h marked,
    settled_run [] s ts z size q h marked fuel h₀ h' enough tt prev₀ merge,
    sized (hole s ∷ ts) z size (settled [] s ts z size q h marked)
        (IsTiled-settled [] s ts z size q h marked),
    counter-settled [] s ts z size q h marked ∙ count,
  )
  release_marked (used r ∷ rs) s ts z size q h marked prev₀ enough count merge = (
    settled (used r ∷ rs) s ts z size q h marked,
    settled_run (used r ∷ rs) s ts z size q h marked fuel h₀ h' enough tt prev₀ merge,
    sized (onto (used r ∷ rs) (hole s ∷ ts)) z size (settled (used r ∷ rs) s ts z size q h marked)
        (IsTiled-settled (used r ∷ rs) s ts z size q h marked),
    counter-settled (used r ∷ rs) s ts z size q h marked ∙ count,
  )
  release_marked (hole r ∷ rs) s ts z size q h marked prev₀ enough count merge = (
    merged_down r rs s ts z size q h marked,
    merged_down_run r rs s ts z size q h marked fuel h₀ h' (omega arith) prev₀ merge,
    sized (onto rs (hole (r + s + 8) ∷ ts)) z size (merged_down r rs s ts z size q h marked)
        (IsTiled-merged_down r rs s ts z size q h marked),
    counter-merged_down r rs s ts z size q h marked ∙ count,
  )

  release_raised :
      (rs : List Tile) (size q : ℕ) (h : Heap)
      → IsRaised rs size q h
      → h₀.word (end_of rs + 4) ≡ size_below rs
      → length rs + 1 < fuel
      → h.counter ≡ h'.counter
      → check_merge_with_top fuel (end_of rs) h' ≡ some h
      → Releases fuel rs (with_below rs []) (top_under rs) h₀ h'
  release_raised [] size q h raised prev₀ enough count merge = (
    settled_top [] size q h raised,
    settled_top_run [] size q h raised fuel h₀ h' enough tt prev₀ merge,
    sized [] heap_base size (settled_top [] size q h raised)
        (IsTiled-settled_top [] size q h raised),
    counter-settled_top [] size q h raised ∙ count,
  )
  release_raised (used r ∷ rs) size q h raised prev₀ enough count merge = (
    settled_top (used r ∷ rs) size q h raised,
    settled_top_run (used r ∷ rs) size q h raised fuel h₀ h' enough tt prev₀ merge,
    sized (onto (used r ∷ rs) []) (end_of (used r ∷ rs)) size
        (settled_top (used r ∷ rs) size q h raised)
        (IsTiled-settled_top (used r ∷ rs) size q h raised),
    counter-settled_top (used r ∷ rs) size q h raised ∙ count,
  )
  release_raised (hole r ∷ rs) size q h raised prev₀ enough count merge = (
    merged_top_down r rs size q h raised,
    merged_top_down_run r rs size q h raised fuel h₀ h' (omega arith) prev₀ merge,
    sized (onto rs []) (end_of rs) (r + size + 8) (merged_top_down r rs size q h raised)
        (IsTiled-merged_top_down r rs size q h raised),
    counter-merged_top_down r rs size q h raised ∙ count,
  )

ctrl_other : (b v x : ℕ) (h : Heap) → x ≢ b → (set_ctrl b v h).word x ≡ h.word x
ctrl_other b v x h other = ground arith

-- The reserved block of `s` bytes between `rs` and `ts`, marked as free.
module _ (rs : List Tile) (s : ℕ) (h : Heap) where
  abbrev marked : Heap
  marked = set_ctrl (end_of rs) (s + 2) h

  mark_kept : (x : ℕ) → x ≢ end_of rs → marked.word x ≡ h.word x
  mark_kept x other = ctrl_other (end_of rs) (s + 2) x h other

  mark_own : marked.word (end_of rs) ≡ s + 2
  mark_own = ground arith

  module _ (z size : ℕ) (ts : List Tile) (tiled : IsTiled (onto rs (used s ∷ ts)) z size h)
      (down : Down h.word (first_free (end_of rs + s + 8) ts) rs)
      (up : Up h.word (end_of rs) (size_below rs) (used s ∷ ts) z) where
    abbrev follower : ℕ
    follower = first_free (end_of rs + s + 8) ts

    high : end_of rs + s + 8 ≤ z
    high = Up-le h.word (end_of rs + s + 8) s ts z up.4

    low : heap_base ≤ end_of rs
    low = end_of-ge rs

    marked_below : Down marked.word follower rs
    marked_below =
        Down-same h.word marked.word follower rs (λ x a b. mark_kept x (omega arith)) down

    mark_prev : marked.word (end_of rs + 4) ≡ size_below rs
    mark_prev = mark_kept (end_of rs + 4) (omega arith) ∙ up.3

    marked_above : Up marked.word (end_of rs + s + 8) s ts z
    marked_above =
        Up-frame h.word marked.word (end_of rs + s + 8) s s ts z
          (λ x a b. mark_kept x (omega arith))
          (mark_kept (end_of rs + s + 8 + 4) (omega arith)
            ∙ Up-prev h.word (end_of rs + s + 8) s ts z up.4)
          up.4

    mark_header : marked.word z ≡ size + 3
    mark_header = mark_kept z (omega (arith, high)) ∙ tiled.header

    pub enters :
        (fuel : ℕ)
        → free fuel (end_of rs) h
          ≡ release_block fuel (end_of rs) (block_below (end_of rs) h) marked
    enters fuel =
        free_enters fuel (end_of rs) s h (omega (arith, low)) up.2
          (omega (arith, high, tiled.extent))
          (plain_ctrl s up.0 (omega (arith, high, tiled.extent))).0
          (freed_ctrl s up.0 (omega (arith, high, tiled.extent))).1

    IsMarked-marked : IsMarked rs s ts z size follower marked
    IsMarked-marked = record {
      down = marked_below;
      own = mark_own;
      prev = mark_prev;
      s_aligned = up.0;
      space = up.1;
      up = marked_above;
      header = mark_header;
      aligned = tiled.aligned;
      extent = tiled.extent;
      ready = tiled.ready;
      unmerged = tiled.unmerged;
      many = tiled.many;
    }

-- The block above is reserved, free, or the top block.
under_reserved :
    (rs : List Tile) (s t : ℕ) (ts : List Tile) (z size fuel : ℕ) (h : Heap)
    → IsTiled (onto rs (used s ∷ used t ∷ ts)) z size h
    → length rs + length ts + 2 < fuel
    → Releases fuel rs (released rs s (used t ∷ ts)) z h (marked rs s h)
under_reserved rs s t ts z size fuel h tiled enough =
    let (down, up) = split_at h.word rs (used s ∷ used t ∷ ts) z tiled.blocks in
    let high : end_of rs + s + 8 + t + 8 ≤ z =
      Up-le h.word (end_of rs + s + 8 + t + 8) t ts z up.4.4 in
    let hm = IsMarked-marked rs s h z size (used t ∷ ts) tiled down up in
    release_marked fuel h (marked rs s h) rs s (used t ∷ ts) z size
      (first_free (end_of rs + s + 8) (used t ∷ ts)) (marked rs s h) hm up.3 (omega arith) refl
      (above_used fuel (end_of rs) s t (marked rs s h) (omega (arith, high, tiled.extent))
        (mark_own rs s h) up.0 hm.up.2 (plain_ctrl t up.4.0 (omega (arith, high, tiled.extent))).0)

module _ (rs : List Tile) (s t : ℕ) (ts : List Tile) (z size : ℕ) (h : Heap)
    (tiled : IsTiled (onto rs (used s ∷ hole t ∷ ts)) z size h)
    (down : Down h.word (first_free (end_of rs) (used s ∷ hole t ∷ ts)) rs)
    (up : Up h.word (end_of rs) (size_below rs) (used s ∷ hole t ∷ ts) z) where
  abbrev hm : Heap
  hm = marked rs s h

  marks : IsMarked rs s (hole t ∷ ts) z size (end_of rs + s + 8) hm
  marks = IsMarked-marked rs s h z size (hole t ∷ ts) tiled down up

  high_above : end_of rs + s + 8 + t + 8 ≤ z
  high_above = Up-le h.word (end_of rs + s + 8 + t + 8) t ts z up.4.5

  all_low : end_of rs + s + 8 + t + 8 ≤ heap_base + mb_hexa
  all_low = omega (arith, high_above, tiled.extent)

  abbrev past : ℕ
  past = first_free (end_of rs + s + 8 + t + 8) ts

  -- The heap while the merge looks for the next free block.
  abbrev grown : Heap
  grown = set_ctrl (end_of rs) (s + t + 10) hm

  past_found :
      (fuel : ℕ) → length ts < fuel → find_next_free fuel (end_of rs + s + 8) grown ≡ some past
  past_found fuel enough =
      find_next_free-hole grown fuel (end_of rs + s + 8) t (end_of rs + s + 8 + t + 8)
        (grown_kept (end_of rs + s + 8) (omega arith) ∙ marks.up.2) up.4.0 (omega (arith, all_low))
        refl tiled.many
      ∙ next_free_loop-Up grown z size (grown_kept z (omega (arith, high_above)) ∙ marks.header)
          tiled.aligned tiled.extent fuel (end_of rs + s + 8 + t + 8) t ts
          (Up-frame hm.word grown.word (end_of rs + s + 8 + t + 8) t t ts z
            (λ x a b. grown_kept x (omega arith))
            (grown_kept (end_of rs + s + 8 + t + 8 + 4) (omega arith)
              ∙ Up-prev hm.word (end_of rs + s + 8 + t + 8) t ts z marks.up.5)
            marks.up.5)
          enough
    where
      grown_kept : (x : ℕ) → x ≢ end_of rs → grown.word x ≡ hm.word x
      grown_kept x other = ctrl_other (end_of rs) (s + t + 10) x hm other

  abbrev both : Heap
  both = merged (end_of rs) s t hm (end_of-ge rs) all_low marks.own up.0 marks.up.2 up.4.0 past

  after : AfterAbove (end_of rs) s t hm (end_of-ge rs) all_low marks.own up.0 marks.up.2 up.4.0 both
  after =
      AfterAbove-merged (end_of rs) s t hm (end_of-ge rs) all_low marks.own up.0 marks.up.2 up.4.0
        past

  IsMarked-both : IsMarked rs (s + t + 8) ts z size (end_of rs + s + 8) both
  IsMarked-both = record {
    down =
        Down-same hm.word both.word (end_of rs + s + 8) rs
          (λ x a b. after.kept x (omega arith) (omega arith) (omega arith)) marks.down;
    own = after.own_header ∙ omega arith;
    prev = after.kept (end_of rs + 4) (omega arith) (omega arith) (omega arith) ∙ marks.prev;
    s_aligned = omega (arith, up.0, up.4.0);
    space = omega arith;
    up =
        subst (λ x. Up both.word x (s + t + 8) ts z) (omega arith)
          (Up-frame hm.word both.word (end_of rs + s + 8 + t + 8) t (s + t + 8) ts z
            (λ x a b. after.kept x (omega arith) (omega arith) (omega arith))
            (subst (λ x. both.word x ≡ s + t + 8) (omega arith) after.above_prev) marks.up.5);
    header =
        after.kept z (omega (arith, high_above)) (omega (arith, high_above))
          (omega (arith, Up-apart h.word (end_of rs + s + 8 + t + 8) t ts z up.4.5))
        ∙ marks.header;
    aligned = tiled.aligned;
    extent = tiled.extent;
    ready = after.same.ready ∙ marks.ready;
    unmerged = after.same.merge ∙ marks.unmerged;
    many = omega (arith, after.same.count, marks.many);
  }

  under_hole :
      (fuel : ℕ)
      → length rs + length ts + 1 < suc fuel
      → Releases (suc fuel) rs (released rs s (hole t ∷ ts)) z h hm
  under_hole fuel enough =
      release_marked (suc fuel) h hm rs (s + t + 8) ts z size (end_of rs + s + 8) both IsMarked-both
        up.3 enough after.same.count
        (above_hole (end_of rs) s t hm (end_of-ge rs) all_low marks.own up.0 marks.up.2 up.4.0 past
          fuel (past_found (suc fuel) (omega arith)))

module _ (rs : List Tile) (s size : ℕ) (h : Heap)
    (tiled : IsTiled (onto rs (used s ∷ [])) (end_of rs + s + 8) size h)
    (down : Down h.word (end_of rs + s + 8) rs)
    (up : Up h.word (end_of rs) (size_below rs) (used s ∷ []) (end_of rs + s + 8)) where
  abbrev marked_last : Heap
  marked_last = marked rs s h

  marks_last : IsMarked rs s [] (end_of rs + s + 8) size (end_of rs + s + 8) marked_last
  marks_last = IsMarked-marked rs s h (end_of rs + s + 8) size [] tiled down up

  abbrev one_top : Heap
  one_top =
      raised (end_of rs) s size marked_last (end_of-ge rs) tiled.extent marks_last.own up.0
        marks_last.header tiled.aligned

  after_top :
      AfterTop
        (end_of rs)
        s
        size
        marked_last
        (end_of-ge rs)
        tiled.extent
        marks_last.own
        up.0
        marks_last.header
        tiled.aligned
        one_top
  after_top =
      AfterTop-raised (end_of rs) s size marked_last (end_of-ge rs) tiled.extent marks_last.own up.0
        marks_last.header tiled.aligned

  IsRaised-one_top : IsRaised rs (s + size + 8) (end_of rs + s + 8) one_top
  IsRaised-one_top = record {
    down =
        Down-same marked_last.word one_top.word (end_of rs + s + 8) rs
          (λ x a b. after_top.kept x (omega arith) (omega arith) (omega arith) (omega arith))
          marks_last.down;
    own = after_top.own_header;
    prev =
        after_top.kept (end_of rs + 4) (omega arith) (omega arith) (omega arith) (omega arith)
        ∙ marks_last.prev;
    aligned = omega (arith, up.0, tiled.aligned);
    extent = omega (arith, tiled.extent);
    ready = after_top.same.ready ∙ marks_last.ready;
    unmerged = after_top.same.merge ∙ marks_last.unmerged;
    many = omega (arith, after_top.same.count, marks_last.many);
  }

  under_top :
      (fuel : ℕ)
      → length rs + 1 < suc fuel
      → Releases (suc fuel) rs (released rs s []) (top_under rs) h marked_last
  under_top fuel enough =
      release_raised (suc fuel) h marked_last rs (s + size + 8) (end_of rs + s + 8) one_top
        IsRaised-one_top up.3 enough after_top.same.count
        (above_top (end_of rs) s size marked_last (end_of-ge rs) tiled.extent marks_last.own up.0
          marks_last.header tiled.aligned fuel)

-- After more than 15 calls of `malloc` and before the call of number 2 ^ 31: `free` of a reserved block succeeds. The block becomes one free
-- block with the free ones directly above and below it, or part of the top block where it reaches that,
-- and all headers, sizes and links are in order again; no other block changes. The fuel only has
-- to exceed the number of blocks.
pub free_coalesces :
    (rs : List Tile) (s : ℕ) (ts : List Tile) (z size fuel : ℕ) (h : Heap)
    → IsTiled (onto rs (used s ∷ ts)) z size h
    → length rs + length ts + 1 < fuel
    → (h' : Heap) × (free fuel (end_of rs) h ≡ some h')
      × IsTiled (released rs s ts) (top_after rs ts z) (bytes_from (top_after rs ts z)) h'
      × (h'.counter ≡ h.counter)
free_coalesces rs s ts z size zero h tiled enough = absurd (omega arith)
free_coalesces rs s [] z size (suc fuel) h tiled enough =
    let place = (split_at h.word rs (used s ∷ []) z tiled.blocks).1.4.0 in
    let tiled' = subst (λ y. IsTiled (onto rs (used s ∷ [])) y size h) (sym place) tiled in
    let (down, up) = split_at h.word rs (used s ∷ []) (end_of rs + s + 8) tiled'.blocks in
    let (h', run, after, count) = under_top rs s size h tiled' down up fuel (omega arith) in
    (h', enters rs s h (end_of rs + s + 8) size [] tiled' down up (suc fuel) ∙ run, after, count)
free_coalesces rs s (used t ∷ ts) z size (suc fuel) h tiled enough =
    let (down, up) = split_at h.word rs (used s ∷ used t ∷ ts) z tiled.blocks in
    let (h', run, after, count) =
      under_reserved rs s t ts z size (suc fuel) h tiled (omega arith) in
    (h', enters rs s h z size (used t ∷ ts) tiled down up (suc fuel) ∙ run, after, count)
free_coalesces rs s (hole t ∷ ts) z size (suc fuel) h tiled enough =
    let (down, up) = split_at h.word rs (used s ∷ hole t ∷ ts) z tiled.blocks in
    let (h', run, after, count) = under_hole rs s t ts z size h tiled down up fuel (omega arith) in
    (h', enters rs s h z size (hole t ∷ ts) tiled down up (suc fuel) ∙ run, after, count)
