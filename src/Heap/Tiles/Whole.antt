-- ===== src/Heap/Tiles/Whole.antt =====
-- `malloc` at a free block that it reserves whole.
use armv7_os.Prelude.{
  length, ℕ, ◌+◌, ◌%◌, ◌^◌, ◌≤◌, ◌<◌, ◌≡◌, ◌≢◌, ◌∙◌, refl, false, true, some, List, ◌∷◌, arith, ap,
  ltb, ◌&&◌,
}
use armv7_os.Heap.Defs.{
  Heap, heap_base, mb_hexa, free_bit, top_bit, size_bits, find_prev_free, block_below, block_size,
  reserve_header, keep_rest, reserve_block, splits, sub32,
}
use armv7_os.Heap.Below.{plain_ctrl}
use armv7_os.Heap.Merge.{freed_ctrl}
use armv7_os.Heap.Tiles.{
  Tile, used, hole, end_of, size_below, last_free, onto, Up, Down, Up-le, Up-prev, Up-frame,
  Down-same, end_of-ge, IsTiled,
}
use armv7_os.Heap.Tiles.Walks.{find_prev_free-Down}
use armv7_os.Heap.Tiles.Mend.{IsLoose}
use armv7_os.Heap.Tiles.Split.{SameGlobals-trans}
use armv7_os.Heap.Tiles.Header.{OnlyHeader, OnlyHeader-reserve_header, OnlyHeader-keep_rest}
use armv7_os.Heap.Tiles.Reserve.{
  IsReady, IsReady-same, counted, relink_run, IsTiled-counted, counter-counted, whole_steps,
}

few_left :
    (n s : ℕ)
    → n ≤ s
    → s < n + 12
    → s < 2 ^ 31
    → ((ltb n s && splits s n) ≡ false) × (splits s n ≡ false)
few_left n s fits tight lt = ground arith

-- A free block that the request takes whole.
module _ (rs ts : List Tile) (z size s n : ℕ) (h : Heap) (ready : IsReady h)
    (down : Down h.word (end_of rs) rs) (up : Up h.word (end_of rs) (size_below rs) (hole s ∷ ts) z)
    (header : h.word z ≡ size + 3) (aligned : size % 4 ≡ 0)
    (extent : z + size ≡ heap_base + mb_hexa) (n_aligned : n % 4 ≡ 0) (n_pos : 4 ≤ n) (fits : n ≤ s)
    (tight : s < n + 12) where
  high : end_of rs + s + 8 ≤ z
  high = Up-le h.word (end_of rs + s + 8) s ts z up.5

  low : heap_base ≤ end_of rs
  low = end_of-ge rs

  own : (free_bit (s + 2) ≡ true) × (top_bit (s + 2) ≡ false) × (size_bits (s + 2) ≡ s)
  own = freed_ctrl s up.0 (omega (arith, high, extent))

  headed : Heap
  headed = reserve_header n (end_of rs) (block_below (end_of rs) h) h

  OnlyHeader-headed : OnlyHeader (end_of rs) n h headed
  unfolding headed
  OnlyHeader-headed =
      OnlyHeader-reserve_header n (end_of rs) rs h h down up.3 up.3 (omega (arith, high, extent))
        (rw (up.2, own.1) refl) (plain_ctrl n n_aligned (omega (arith, high, extent))).2

  filled : Heap
  filled = keep_rest (end_of rs) (sub32 s n) headed

  OnlyHeader-filled : OnlyHeader (end_of rs) s headed filled
  unfolding filled
  OnlyHeader-filled =
      OnlyHeader-keep_rest (end_of rs) n s headed OnlyHeader-headed.own fits
        (omega (arith, high, extent)) (OnlyHeader-headed.same.top ∙ ready.untopped)

  kept : (x : ℕ) → x ≢ end_of rs → filled.word x ≡ h.word x
  kept x other = OnlyHeader-filled.kept x other ∙ OnlyHeader-headed.kept x other

  IsLoose-filled : IsLoose rs (used s ∷ ts) z size (end_of rs) filled
  IsLoose-filled = record {
    down = Down-same h.word filled.word (end_of rs) rs (λ x p q. kept x (omega arith)) down;
    up = (
      up.0,
      up.1,
      OnlyHeader-filled.own,
      kept (end_of rs + 4) (omega arith) ∙ up.3,
      Up-frame h.word filled.word (end_of rs + s + 8) s s ts z (λ x p q. kept x (omega arith))
          (kept (end_of rs + s + 8 + 4) (omega arith)
            ∙ Up-prev h.word (end_of rs + s + 8) s ts z up.5)
          up.5,
    );
    header = kept z (omega (arith, high)) ∙ header;
    aligned = aligned;
    extent = extent;
    many = omega (arith, OnlyHeader-filled.same.count, OnlyHeader-headed.same.count, ready.many);
  }

  IsReady-filled : IsReady filled
  IsReady-filled =
      IsReady-same (SameGlobals-trans OnlyHeader-headed.same OnlyHeader-filled.same) ready

  no_split : ((ltb n s && splits s n) ≡ false) × (splits s n ≡ false)
  no_split = let sized : s < 2 ^ 31 = omega (arith, high, extent) in few_left n s fits tight sized

  rest : keep_rest (end_of rs) (sub32 (block_size (end_of rs) h) n) headed ≡ filled
  rest =
      unfold filled in
      ap (λ c. keep_rest (end_of rs) (sub32 c n) headed) (ap size_bits up.2 ∙ own.2)

  walk :
      (fuel : ℕ) → length rs < fuel → find_prev_free fuel (end_of rs) headed ≡ some (last_free rs)
  walk fuel enough =
      find_prev_free-Down headed fuel (end_of rs) (used n) rs
        (
          n_aligned,
          n_pos,
          OnlyHeader-headed.own,
          OnlyHeader-headed.kept (end_of rs + 4) (omega arith) ∙ up.3,
          Down-same h.word headed.word (end_of rs) rs
              (λ x p q. OnlyHeader-headed.kept x (omega arith)) down,
        )
        (omega (arith, high, extent)) enough

  pub whole : Heap
  whole = counted rs (used s ∷ ts) z size (end_of rs) filled IsLoose-filled IsReady-filled

  pub whole_run :
      (fuel : ℕ)
      → length rs + length ts + 1 < fuel
      → reserve_block fuel n (end_of rs) h ≡ some (end_of rs, whole)
  unfolding whole
  whole_run fuel enough =
      whole_steps fuel n (end_of rs) (last_free rs) h headed filled (rw (up.2, own.2) no_split.0)
        (rw (up.2, own.2) no_split.1) (unfold headed in refl) (walk fuel (omega arith)) rest
        (relink_run rs (used s ∷ ts) z size (end_of rs) filled IsLoose-filled IsReady-filled fuel
          (omega arith))

  pub IsTiled-whole : IsTiled (onto rs (used s ∷ ts)) z size whole
  unfolding whole
  IsTiled-whole =
      IsTiled-counted rs (used s ∷ ts) z size (end_of rs) filled IsLoose-filled IsReady-filled

  pub counter-whole : whole.counter ≡ h.counter + 1
  unfolding whole
  counter-whole = omega (
    arith,
    counter-counted rs (used s ∷ ts) z size (end_of rs) filled IsLoose-filled IsReady-filled,
    OnlyHeader-filled.same.count,
    OnlyHeader-headed.same.count,
  )
