-- ===== src/Heap/Tiles/Cut.antt =====
-- `malloc` at a free block that it splits.
use armv7_os.Prelude.{
  length, ℕ, ◌+◌, ◌-◌, ◌%◌, ◌≤◌, ◌<◌, ◌≡◌, ◌≢◌, ◌∙◌, refl, false, true, some, List, ◌∷◌, arith, ap,
  subst,
}
use armv7_os.Heap.Defs.{
  Heap, heap_base, mb_hexa, free_bit, top_bit, size_bits, find_prev_free, find_next_free,
  block_below, split_header, split_block, reserve_header, reserve_block, set_next_free,
}
use armv7_os.Heap.Below.{plain_ctrl}
use armv7_os.Heap.Merge.{freed_ctrl}
use armv7_os.Heap.Tiles.{
  Tile, used, hole, end_of, size_below, last_free, first_free, onto, Up, Down, Up-le, Up-apart,
  Up-frame, Down-same, Down-frame, end_of-ge, IsTiled,
}
use armv7_os.Heap.Tiles.Walks.{next_free_loop-Up, find_prev_free-Down, find_prev_free-below}
use armv7_os.Heap.Tiles.Mend.{IsLoose}
use armv7_os.Heap.Tiles.Split.{
  SameGlobals-trans, AfterHeader, AfterSplit, AfterHeader-hole, linked_hole, split_links_hole,
  AfterSplit-linked_hole, split_block_run,
}
use armv7_os.Heap.Tiles.Header.{OnlyHeader, OnlyHeader-reserve_header}
use armv7_os.Heap.Tiles.Reserve.{
  IsReady, IsReady-same, counted, relink_run, IsTiled-counted, counter-counted, split_steps,
  store_other, find_next_free-hole, enough_left, under_link,
}

-- A free block that the request splits.
module _ (rs ts : List Tile) (z size s n : ℕ) (h : Heap) (ready : IsReady h)
    (down : Down h.word (end_of rs) rs) (up : Up h.word (end_of rs) (size_below rs) (hole s ∷ ts) z)
    (header : h.word z ≡ size + 3) (aligned : size % 4 ≡ 0)
    (extent : z + size ≡ heap_base + mb_hexa) (n_aligned : n % 4 ≡ 0) (n_pos : 4 ≤ n)
    (fits : n + 12 ≤ s) where
  high : end_of rs + s + 8 ≤ z
  high = Up-le h.word (end_of rs + s + 8) s ts z up.5

  low : heap_base ≤ end_of rs
  low = end_of-ge rs

  top_low : end_of rs + s ≤ heap_base + mb_hexa
  top_low = omega (arith, high, extent)

  own : (free_bit (s + 2) ≡ true) × (top_bit (s + 2) ≡ false) × (size_bits (s + 2) ≡ s)
  own = freed_ctrl s up.0 (omega (arith, high, extent))

  under : last_free rs + 12 ≤ end_of rs
  under = under_link h.word (end_of rs) rs down

  cut : Heap
  cut = split_header n (end_of rs) h

  after_cut : AfterHeader (end_of rs) s n h low top_low up.0 n_aligned fits 0 cut
  unfolding cut
  after_cut = AfterHeader-hole (end_of rs) s n h low top_low up.0 n_aligned fits up.2

  same_under_cut : (x : ℕ) → x < end_of rs + 8 → cut.word x ≡ h.word x
  same_under_cut x lt =
      after_cut.kept x (omega (arith, n_pos)) (omega (arith, n_pos)) (omega (arith, fits))

  walk_before :
      (fuel : ℕ)
      → length rs < fuel
      → find_prev_free fuel (block_below (end_of rs) h) cut ≡ some (last_free rs)
  walk_before fuel enough =
      find_prev_free-below h cut fuel (end_of rs) rs
        (Down-same h.word cut.word (end_of rs) rs (λ x p q. same_under_cut x (omega arith)) down)
        up.3 (omega (arith, high, extent)) enough

  -- The link from the free block before is set, and the search for the next one goes on above.
  abbrev between : Heap
  between = set_next_free (last_free rs) (end_of rs + n + 8) cut

  between_kept :
      (x : ℕ)
      → end_of rs ≤ x
      → x ≢ end_of rs + n + 8
      → x ≢ end_of rs + n + 12
      → x ≢ end_of rs + s + 12
      → between.word x ≡ h.word x
  between_kept x ge o p q = between_word x (omega (arith, under)) ∙ after_cut.kept x o p q
    where
      between_word : (x : ℕ) → x ≢ last_free rs + 8 → between.word x ≡ cut.word x
      between_word x other =
          store_other (last_free rs) (end_of rs + n + 8) x cut (omega (arith, under, top_low)) other

  between_new : between.word (end_of rs + n + 8) ≡ s - n - 8 + 2
  between_new =
      store_other (last_free rs) (end_of rs + n + 8) (end_of rs + n + 8) cut
        (omega (arith, under, top_low)) (omega (arith, under))
      ∙ after_cut.new_header
      ∙ omega arith

  Up-between : Up between.word (end_of rs + s + 8) (s - n - 8) ts z
  Up-between =
      Up-frame h.word between.word (end_of rs + s + 8) s (s - n - 8) ts z
        (λ x p q.
          between_kept x (omega arith) (omega (arith, fits)) (omega (arith, fits)) (omega arith))
        (store_other (last_free rs) (end_of rs + n + 8) (end_of rs + s + 8 + 4) cut
            (omega (arith, under, top_low)) (omega (arith, under))
          ∙ subst (λ x. cut.word x ≡ s - n - 8) (omega arith) after_cut.above_prev)
        up.5

  next_found :
      (fuel : ℕ)
      → length ts < fuel
      → find_next_free fuel (end_of rs + n + 8) between ≡ some (first_free (end_of rs + s + 8) ts)
  next_found fuel enough =
      find_next_free-hole between fuel (end_of rs + n + 8) (s - n - 8) (end_of rs + s + 8)
        between_new (omega (arith, up.0, fits, n_aligned)) (omega (arith, top_low))
        (omega (arith, fits)) (omega (arith, after_cut.same.count, ready.many))
      ∙ next_free_loop-Up between z size
          (between_kept z (omega (arith, high)) (omega (arith, high, fits))
              (omega (arith, high, fits))
              (omega (arith, Up-apart h.word (end_of rs + s + 8) s ts z up.5))
            ∙ header)
          aligned extent fuel (end_of rs + s + 8) (s - n - 8) ts Up-between enough

  split : Heap
  split =
      linked_hole (end_of rs) s n h low top_low up.0 n_aligned fits up.2 (last_free rs)
        (first_free (end_of rs + s + 8) ts) cut under after_cut

  after :
      AfterSplit
        (end_of rs)
        s
        n
        h
        low
        top_low
        up.0
        n_aligned
        fits
        0
        (last_free rs)
        (first_free (end_of rs + s + 8) ts)
        split
  unfolding split
  after =
      AfterSplit-linked_hole (end_of rs) s n h low top_low up.0 n_aligned fits up.2 (last_free rs)
        (first_free (end_of rs + s + 8) ts) cut under after_cut

  split_run :
      (fuel : ℕ) → length rs + length ts < fuel → split_block fuel n (end_of rs) h ≡ some split
  unfolding cut split
  split_run fuel enough =
      split_block_run fuel n (end_of rs) (last_free rs) h (walk_before fuel (omega arith)) (
        split_links_hole (end_of rs) s n h low top_low up.0 n_aligned fits up.2 (last_free rs)
          (first_free (end_of rs + s + 8) ts) cut under after_cut fuel
          (next_found fuel (omega arith)))

  split_kept :
      (x : ℕ) → heap_base ≤ x → x < end_of rs + 8 → x ≢ last_free rs + 8 → split.word x ≡ h.word x
  split_kept x ge lt other =
      after.kept x other (omega (arith, n_pos)) (omega (arith, n_pos)) (omega (arith, n_pos))
        (omega (arith, fits))

  Down-split : Down split.word (end_of rs + n + 8) rs
  Down-split =
      Down-frame h.word split.word (end_of rs) (end_of rs + n + 8) rs
        (λ x p q other. split_kept x p (omega arith) other) (λ some_free. after.before) down

  headed : Heap
  headed = reserve_header n (end_of rs) (block_below (end_of rs) h) split

  same_own : split.word (end_of rs) ≡ s + 2
  same_own = split_kept (end_of rs) low (omega arith) (omega (arith, under)) ∙ up.2

  same_prev : split.word (end_of rs + 4) ≡ size_below rs
  same_prev =
      split_kept (end_of rs + 4) (omega (arith, low)) (omega arith) (omega (arith, under)) ∙ up.3

  OnlyHeader-headed : OnlyHeader (end_of rs) n split headed
  unfolding headed
  OnlyHeader-headed =
      OnlyHeader-reserve_header n (end_of rs + n + 8) rs h split Down-split up.3 same_prev
        (omega (arith, high, extent)) (rw (same_own, own.1) refl)
        (plain_ctrl n n_aligned (omega (arith, high, extent, fits))).2

  Down-headed : Down headed.word (end_of rs + n + 8) rs
  Down-headed =
      Down-same split.word headed.word (end_of rs + n + 8) rs
        (λ x p q. OnlyHeader-headed.kept x (omega arith)) Down-split

  headed_prev : headed.word (end_of rs + 4) ≡ size_below rs
  headed_prev = OnlyHeader-headed.kept (end_of rs + 4) (omega arith) ∙ same_prev

  kept_above : (x : ℕ) → end_of rs + s + 8 ≤ x → x ≢ end_of rs + s + 12 → headed.word x ≡ h.word x
  kept_above x ge other =
      OnlyHeader-headed.kept x (omega arith)
      ∙ after.kept x (omega (arith, under)) (omega (arith, fits)) (omega (arith, fits))
          (omega (arith, fits)) other

  Up-rest : Up headed.word (end_of rs + s + 8) (s - n - 8) ts z
  Up-rest =
      Up-frame h.word headed.word (end_of rs + s + 8) s (s - n - 8) ts z
        (λ x p q. kept_above x p (omega arith))
        (OnlyHeader-headed.kept (end_of rs + s + 8 + 4) (omega arith)
          ∙ subst (λ x. split.word x ≡ s - n - 8) (omega arith) after.above_prev)
        up.5

  Up-headed : Up headed.word (end_of rs) (size_below rs) (used n ∷ hole (s - n - 8) ∷ ts) z
  Up-headed = (
    n_aligned,
    n_pos,
    OnlyHeader-headed.own,
    headed_prev,
    (
      omega (arith, up.0, n_aligned, fits),
      omega (arith, fits, up.0, n_aligned),
      OnlyHeader-headed.kept (end_of rs + n + 8) (omega arith) ∙ after.new_header ∙ omega arith,
      OnlyHeader-headed.kept (end_of rs + n + 8 + 4) (omega arith)
          ∙ subst (λ x. split.word x ≡ n) (omega arith) after.new_prev,
      OnlyHeader-headed.kept (end_of rs + n + 8 + 8) (omega arith)
          ∙ subst (λ x. split.word x ≡ first_free (end_of rs + s + 8) ts) (omega arith)
              after.new_link
          ∙ ap (λ x. first_free x ts) (omega (arith, fits)),
      subst (λ x. Up headed.word x (s - n - 8) ts z) (omega (arith, fits)) Up-rest,
    ),
  )

  IsLoose-headed : IsLoose rs (used n ∷ hole (s - n - 8) ∷ ts) z size (end_of rs + n + 8) headed
  IsLoose-headed = record {
    down = Down-headed;
    up = Up-headed;
    header =
        kept_above z high (omega (arith, Up-apart h.word (end_of rs + s + 8) s ts z up.5)) ∙ header;
    aligned = aligned;
    extent = extent;
    many = omega (arith, OnlyHeader-headed.same.count, after.same.count, ready.many);
  }

  IsReady-headed : IsReady headed
  IsReady-headed = IsReady-same (SameGlobals-trans after.same OnlyHeader-headed.same) ready

  walk :
      (fuel : ℕ) → length rs < fuel → find_prev_free fuel (end_of rs) headed ≡ some (last_free rs)
  walk fuel enough =
      find_prev_free-Down headed fuel (end_of rs + n + 8) (used n) rs
        (n_aligned, n_pos, OnlyHeader-headed.own, headed_prev, Down-headed)
        (omega (arith, high, extent, fits)) enough

  -- The heap with the request's block, and the rest of the free one above it.
  pub divided : Heap
  divided =
      counted rs (used n ∷ hole (s - n - 8) ∷ ts) z size (end_of rs + n + 8) headed IsLoose-headed
        IsReady-headed

  pub divided_run :
      (fuel : ℕ)
      → length rs + length ts + 2 < fuel
      → reserve_block fuel n (end_of rs) h ≡ some (end_of rs, divided)
  unfolding divided
  divided_run fuel enough =
      let many_left = enough_left n s fits (omega (arith, high, extent)) in
      split_steps fuel n (end_of rs) (last_free rs) h split headed (rw (up.2, own.2) many_left.0)
        (rw (up.2, own.2) many_left.1) (split_run fuel (omega arith)) (unfold headed in refl)
        (walk fuel (omega arith))
        (relink_run rs (used n ∷ hole (s - n - 8) ∷ ts) z size (end_of rs + n + 8) headed
          IsLoose-headed IsReady-headed fuel (omega arith))

  pub IsTiled-divided : IsTiled (onto rs (used n ∷ hole (s - n - 8) ∷ ts)) z size divided
  unfolding divided
  IsTiled-divided =
      IsTiled-counted rs (used n ∷ hole (s - n - 8) ∷ ts) z size (end_of rs + n + 8) headed
        IsLoose-headed IsReady-headed

  pub counter-divided : divided.counter ≡ h.counter + 1
  unfolding divided
  counter-divided = omega (
    arith,
    counter-counted rs (used n ∷ hole (s - n - 8) ∷ ts) z size (end_of rs + n + 8) headed
        IsLoose-headed IsReady-headed,
    OnlyHeader-headed.same.count,
    after.same.count,
  )
