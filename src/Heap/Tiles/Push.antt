-- ===== src/Heap/Tiles/Push.antt =====
-- `malloc` at the top block among such blocks.
use armv7_os.Prelude.{
  length, ℕ, ◌+◌, ◌-◌, ◌%◌, ◌≤◌, ◌<◌, ◌≡◌, ◌≢◌, ◌∙◌, refl, false, true, some, List, [], ◌∷◌, arith,
  subst, leb,
}
use armv7_os.Heap.Defs.{
  Heap, heap_base, mb_hexa, null, free_bit, top_bit, size_bits, find_prev_free, block_below,
  split_header, split_block, reserve_header, reserve_block,
}
use armv7_os.Heap.Below.{plain_ctrl, top_ctrl}
use armv7_os.Heap.Tiles.{
  Tile, used, end_of, size_below, last_free, onto, Down, Down-same, Down-frame, end_of-ge, IsTiled,
}
use armv7_os.Heap.Tiles.Walks.{find_prev_free-Down, find_prev_free-below}
use armv7_os.Heap.Tiles.Mend.{IsLoose}
use armv7_os.Heap.Tiles.Split.{
  SameGlobals-trans, AfterHeader, AfterSplit, AfterHeader-top, linked_top, split_links_top,
  AfterSplit-linked_top, split_block_run,
}
use armv7_os.Heap.Tiles.Header.{OnlyHeader, OnlyHeader-reserve_header}
use armv7_os.Heap.Tiles.Reserve.{
  IsReady, IsReady-same, counted, relink_run, IsTiled-counted, counter-counted, split_steps,
  enough_left, under_link,
}

-- The request splits the top block at `end_of rs`, of `size` bytes.
module _ (rs : List Tile) (size n : ℕ) (h : Heap) (ready : IsReady h)
    (down : Down h.word (end_of rs) rs) (prev : h.word (end_of rs + 4) ≡ size_below rs)
    (header : h.word (end_of rs) ≡ size + 3) (aligned : size % 4 ≡ 0)
    (extent : end_of rs + size ≡ heap_base + mb_hexa) (n_aligned : n % 4 ≡ 0) (n_pos : 4 ≤ n)
    (fits : n + 12 ≤ size) where
  low : heap_base ≤ end_of rs
  low = end_of-ge rs

  top_low : end_of rs + size ≤ heap_base + mb_hexa
  top_low = omega (arith, extent)

  own : (free_bit (size + 3) ≡ true) × (top_bit (size + 3) ≡ true) × (size_bits (size + 3) ≡ size)
  own = top_ctrl size aligned (omega (arith, extent))

  under : last_free rs + 12 ≤ end_of rs
  under = under_link h.word (end_of rs) rs down

  cut : Heap
  cut = split_header n (end_of rs) h

  after_cut : AfterHeader (end_of rs) size n h low top_low aligned n_aligned fits 1 cut
  unfolding cut
  after_cut = AfterHeader-top (end_of rs) size n h low top_low aligned n_aligned fits header

  same_under_cut : (x : ℕ) → x < end_of rs + 8 → cut.word x ≡ h.word x
  same_under_cut x lt =
      after_cut.kept x (omega (arith, n_pos)) (omega (arith, n_pos)) (omega (arith, fits))

  walk_before :
      (fuel : ℕ)
      → length rs < fuel
      → find_prev_free fuel (block_below (end_of rs) h) cut ≡ some (last_free rs)
  walk_before fuel enough =
      find_prev_free-below h cut fuel (end_of rs) rs
        (Down-same h.word cut.word (end_of rs) rs (λ x p q. same_under_cut x (omega arith)) down)
        prev (omega (arith, extent)) enough

  split : Heap
  split =
      linked_top (end_of rs) size n h low top_low aligned n_aligned fits header (last_free rs) cut
        under after_cut

  after :
      AfterSplit (end_of rs) size n h low top_low aligned n_aligned fits 1 (last_free rs) null split
  unfolding split
  after =
      AfterSplit-linked_top (end_of rs) size n h low top_low aligned n_aligned fits header
        (last_free rs) cut under after_cut

  split_run : (fuel : ℕ) → length rs < fuel → split_block fuel n (end_of rs) h ≡ some split
  unfolding cut split
  split_run fuel enough =
      split_block_run fuel n (end_of rs) (last_free rs) h (walk_before fuel enough) (
        split_links_top (end_of rs) size n h low top_low aligned n_aligned fits header
          (last_free rs) cut under after_cut fuel)

  split_kept :
      (x : ℕ) → heap_base ≤ x → x < end_of rs + 8 → x ≢ last_free rs + 8 → split.word x ≡ h.word x
  split_kept x ge lt other =
      after.kept x other (omega (arith, n_pos)) (omega (arith, n_pos)) (omega (arith, n_pos))
        (omega (arith, fits))

  Down-split : Down split.word (end_of rs + n + 8) rs
  Down-split =
      Down-frame h.word split.word (end_of rs) (end_of rs + n + 8) rs
        (λ x p q other. split_kept x p (omega arith) other) (λ some_free. after.before) down

  headed : Heap
  headed = reserve_header n (end_of rs) (block_below (end_of rs) h) split

  same_own : split.word (end_of rs) ≡ size + 3
  same_own = split_kept (end_of rs) low (omega arith) (omega (arith, under)) ∙ header

  same_prev : split.word (end_of rs + 4) ≡ size_below rs
  same_prev =
      split_kept (end_of rs + 4) (omega (arith, low)) (omega arith) (omega (arith, under)) ∙ prev

  large : leb size n ≡ false
  large = ground (arith, fits)

  OnlyHeader-headed : OnlyHeader (end_of rs) n split headed
  unfolding headed
  OnlyHeader-headed =
      OnlyHeader-reserve_header n (end_of rs + n + 8) rs h split Down-split prev same_prev
        (omega (arith, extent)) (rw (same_own, own.1, own.2, large) refl)
        (plain_ctrl n n_aligned (omega (arith, extent, fits))).2

  Down-headed : Down headed.word (end_of rs + n + 8) rs
  Down-headed =
      Down-same split.word headed.word (end_of rs + n + 8) rs
        (λ x p q. OnlyHeader-headed.kept x (omega arith)) Down-split

  headed_prev : headed.word (end_of rs + 4) ≡ size_below rs
  headed_prev = OnlyHeader-headed.kept (end_of rs + 4) (omega arith) ∙ same_prev

  IsLoose-headed :
      IsLoose rs (used n ∷ []) (end_of rs + n + 8) (size - n - 8) (end_of rs + n + 8) headed
  IsLoose-headed = record {
    down = Down-headed;
    up = (
      n_aligned,
      n_pos,
      OnlyHeader-headed.own,
      headed_prev,
      (
        refl,
        OnlyHeader-headed.kept (end_of rs + n + 8 + 4) (omega arith)
            ∙ subst (λ x. split.word x ≡ n) (omega arith) after.new_prev,
      ),
    );
    header =
        OnlyHeader-headed.kept (end_of rs + n + 8) (omega arith) ∙ after.new_header ∙ omega arith;
    aligned = omega (arith, aligned, n_aligned, fits);
    extent = omega (arith, extent, fits);
    many = omega (arith, OnlyHeader-headed.same.count, after.same.count, ready.many);
  }

  IsReady-headed : IsReady headed
  IsReady-headed = IsReady-same (SameGlobals-trans after.same OnlyHeader-headed.same) ready

  walk :
      (fuel : ℕ) → length rs < fuel → find_prev_free fuel (end_of rs) headed ≡ some (last_free rs)
  walk fuel enough =
      find_prev_free-Down headed fuel (end_of rs + n + 8) (used n) rs
        (n_aligned, n_pos, OnlyHeader-headed.own, headed_prev, Down-headed)
        (omega (arith, extent, fits)) enough

  -- The heap with the request's block, and the rest of the top block above it.
  pub pushed : Heap
  pushed =
      counted rs (used n ∷ []) (end_of rs + n + 8) (size - n - 8) (end_of rs + n + 8) headed
        IsLoose-headed IsReady-headed

  pub pushed_run :
      (fuel : ℕ)
      → length rs + 1 < fuel
      → reserve_block fuel n (end_of rs) h ≡ some (end_of rs, pushed)
  unfolding pushed
  pushed_run fuel enough =
      let many_left = enough_left n size fits (omega (arith, extent)) in
      split_steps fuel n (end_of rs) (last_free rs) h split headed (rw (header, own.2) many_left.0)
        (rw (header, own.2) many_left.1) (split_run fuel (omega arith)) (unfold headed in refl)
        (walk fuel (omega arith))
        (relink_run rs (used n ∷ []) (end_of rs + n + 8) (size - n - 8) (end_of rs + n + 8) headed
          IsLoose-headed IsReady-headed fuel (omega arith))

  pub IsTiled-pushed : IsTiled (onto rs (used n ∷ [])) (end_of rs + n + 8) (size - n - 8) pushed
  unfolding pushed
  IsTiled-pushed =
      IsTiled-counted rs (used n ∷ []) (end_of rs + n + 8) (size - n - 8) (end_of rs + n + 8) headed
        IsLoose-headed IsReady-headed

  pub counter-pushed : pushed.counter ≡ h.counter + 1
  unfolding pushed
  counter-pushed = omega (
    arith,
    counter-counted rs (used n ∷ []) (end_of rs + n + 8) (size - n - 8) (end_of rs + n + 8) headed
        IsLoose-headed IsReady-headed,
    OnlyHeader-headed.same.count,
    after.same.count,
  )
