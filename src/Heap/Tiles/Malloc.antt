-- ===== src/Heap/Tiles/Malloc.antt =====
-- `malloc` on such blocks is first fit.
use armv7_os.Prelude.{
  length, ℕ, zero, suc, ◌+◌, ◌%◌, ◌^◌, ◌≤◌, ◌<◌, ◌≡◌, inl, inr, ◌∙◌, refl, false, true, some, none,
  List, [], ◌∷◌, arith, ap, leb, Bool-cases, leb→le, subst, sym,
}
use armv7_os.Heap.Defs.{
  Heap, heap_base, mb_hexa, null, top_bit, size_bits, fitting_block, reserve_block, reserve_found,
  malloc, round_up,
}
use armv7_os.Heap.Below.{top_ctrl}
use armv7_os.Heap.Merge.{freed_ctrl}
use armv7_os.Heap.Malloc.{malloc_found, round_up_lem}
use armv7_os.Heap.Tiles.{
  Tile, used, hole, end_of, size_below, first_free, onto, Up, Down, Up-le, IsTiled,
}
use armv7_os.Heap.Tiles.Reserve.{IsReady}
use armv7_os.Heap.Tiles.Whole.{whole, whole_run, IsTiled-whole, counter-whole}
use armv7_os.Heap.Tiles.Cut.{divided, divided_run, IsTiled-divided, counter-divided}
use armv7_os.Heap.Tiles.Push.{pushed, pushed_run, IsTiled-pushed, counter-pushed}
use armv7_os.Heap.Tiles.FirstFit.{allocate, placed, remaining, top_at, HasRoom, AllSmall}

-- The search takes a free block in which the request fits, and else follows its link.
found_here :
    (fuel n b s : ℕ) (h : Heap)
    → size_bits (h.word b) ≡ s
    → n ≤ s
    → fitting_block (suc fuel) n b h ≡ some (some b)
unfolding fitting_block
found_here fuel n b s h size fits = ground (arith, size)

found_above :
    (fuel n b s q : ℕ) (h : Heap)
    → b + 8 < 2 ^ 32
    → size_bits (h.word b) ≡ s
    → top_bit (h.word b) ≡ false
    → h.word (b + 8) ≡ q
    → s < n
    → fitting_block (suc fuel) n b h ≡ fitting_block fuel n q h
unfolding fitting_block
found_above fuel n b s q h lt size no_top link large = ground (arith, size, no_top, link)

-- With fuel `f` for the search, `malloc` finds and reserves the block that first fit says.
abbrev FirstFits : (n fuel f : ℕ) (rs ts : List Tile) (z size : ℕ) → Heap → Type 0
FirstFits n fuel f rs ts z size h =
    (h' : Heap) × (fitting_block f n (first_free (end_of rs) ts) h
      ≡ some (some (placed n (end_of rs) ts)))
    × (reserve_block fuel n (placed n (end_of rs) ts) h ≡ some (placed n (end_of rs) ts, h'))
    × IsTiled (onto rs (allocate n ts)) (top_at n z ts) (remaining n size ts) h'
    × (h'.counter ≡ h.counter + 1)

module _ (n fuel size : ℕ) (h : Heap) (ready : IsReady h) (aligned : size % 4 ≡ 0)
    (n_aligned : n % 4 ≡ 0) (n_pos : 4 ≤ n) where
  -- The top block is the only free one left.
  fits_on_top :
      (f : ℕ) (rs : List Tile)
      → Down h.word (end_of rs) rs
      → h.word (end_of rs + 4) ≡ size_below rs
      → h.word (end_of rs) ≡ size + 3
      → end_of rs + size ≡ heap_base + mb_hexa
      → n + 12 ≤ size
      → length rs + 1 < fuel
      → FirstFits n fuel (suc f) rs [] (end_of rs) size h
  fits_on_top f rs down prev header extent fits enough =
      let sized : size_bits (h.word (end_of rs)) ≡ size =
        ap size_bits header ∙ (top_ctrl size aligned (omega (arith, extent))).2 in
      (
        pushed rs size n h ready down prev header aligned extent n_aligned n_pos fits,
        found_here f n (end_of rs) size h sized (omega arith),
        pushed_run rs size n h ready down prev header aligned extent n_aligned n_pos fits fuel
            enough,
        IsTiled-pushed rs size n h ready down prev header aligned extent n_aligned n_pos fits,
        counter-pushed rs size n h ready down prev header aligned extent n_aligned n_pos fits,
      )

  module _ (z : ℕ) (header : h.word z ≡ size + 3) (extent : z + size ≡ heap_base + mb_hexa) where
    fits_in_hole :
        (f s : ℕ) (rs ts : List Tile)
        → Down h.word (end_of rs) rs
        → Up h.word (end_of rs) (size_below rs) (hole s ∷ ts) z
        → leb n s ≡ true
        → length rs + length ts + 2 < fuel
        → FirstFits n fuel (suc f) rs (hole s ∷ ts) z size h
    fits_in_hole f s rs ts down up fit enough =
        let high : end_of rs + s + 8 ≤ z = Up-le h.word (end_of rs + s + 8) s ts z up.5 in
        let own : size_bits (h.word (end_of rs)) ≡ s =
          ap size_bits up.2 ∙ (freed_ctrl s up.0 (omega (arith, high, extent))).2 in
        let here = found_here f n (end_of rs) s h own (leb→le n s fit) in
        elim (Bool-cases (leb (n + 12) s)) [
          | inl cut ↦
              rw (fit, cut)
                (
                  divided rs ts z size s n h ready down up header aligned extent n_aligned n_pos
                      (leb→le (n + 12) s cut),
                  here,
                  divided_run rs ts z size s n h ready down up header aligned extent n_aligned n_pos
                      (leb→le (n + 12) s cut) fuel enough,
                  IsTiled-divided rs ts z size s n h ready down up header aligned extent n_aligned
                      n_pos (leb→le (n + 12) s cut),
                  counter-divided rs ts z size s n h ready down up header aligned extent n_aligned
                      n_pos (leb→le (n + 12) s cut),
                )
          | inr tight ↦
              rw (fit, tight)
                (
                  whole rs ts z size s n h ready down up header aligned extent n_aligned n_pos
                      (leb→le n s fit) (ground arith),
                  here,
                  whole_run rs ts z size s n h ready down up header aligned extent n_aligned n_pos
                      (leb→le n s fit) (ground arith) fuel (omega arith),
                  IsTiled-whole rs ts z size s n h ready down up header aligned extent n_aligned
                      n_pos (leb→le n s fit) (ground arith),
                  counter-whole rs ts z size s n h ready down up header aligned extent n_aligned
                      n_pos (leb→le n s fit) (ground arith),
                )
        ]

    first_fits :
        (f : ℕ) (rs ts : List Tile)
        → Down h.word (first_free (end_of rs) ts) rs
        → Up h.word (end_of rs) (size_below rs) ts z
        → HasRoom n size ts
        → length rs + length ts + 2 < fuel
        → length ts < f
        → FirstFits n fuel f rs ts z size h
    first_fits zero rs ts down up room enough left = absurd (omega arith)
    first_fits (suc f) rs [] down up room enough left =
        subst (λ y. FirstFits n fuel (suc f) rs [] y size h) up.0
          (fits_on_top f rs down up.1 (subst (λ y. h.word y ≡ size + 3) (sym up.0) header)
            (omega (arith, up.0, extent)) room (omega arith))
    first_fits (suc f) rs (used s ∷ ts) down up room enough left =
        first_fits (suc f) (used s ∷ rs) ts (up.0, up.1, up.2, up.3, down) up.4 room (omega arith)
          (omega arith)
    first_fits (suc f) rs (hole s ∷ ts) down up room enough left = elim (Bool-cases (leb n s)) [
      | inl fit ↦ fits_in_hole f s rs ts down up fit (omega arith)
      | inr large ↦
          let less : s < n = ground arith in
          let high : end_of rs + s + 8 ≤ z = Up-le h.word (end_of rs + s + 8) s ts z up.5 in
          let own = freed_ctrl s up.0 (omega (arith, high, extent)) in
          let (h', found, run, tiled, count) =
            first_fits f (hole s ∷ rs) ts (up.0, up.1, up.2, up.3, up.4, down) up.5 (room less)
              (omega arith) (omega arith) in
          rw large (
            h',
            found_above f n (end_of rs) s (first_free (end_of rs + s + 8) ts) h
                  (omega (arith, high, extent)) (ap size_bits up.2 ∙ own.2)
                  (ap top_bit up.2 ∙ own.1) up.4 less
                ∙ found,
            run,
            tiled,
            count,
          )
    ]

IsTiled-IsReady :
    (ts : List Tile) (z size : ℕ) (h : Heap)
    → IsTiled ts z size h
    → h.counter + 1 < 2 ^ 31
    → IsReady h
IsTiled-IsReady ts z size h tiled few = record {
  ready = tiled.ready;
  space = tiled.space;
  unmerged = tiled.unmerged;
  untopped = tiled.untopped;
  many = (tiled.many.0, few);
}

-- After more than 15 calls and before the call of number 2 ^ 31, at which the count wraps around: a
-- request of at least one byte that fits in a free block, or leaves the top block at least 4 bytes
-- besides the header of the rest, succeeds and is counted. `malloc` returns the address that
-- first fit gives, and leaves the blocks that first fit leaves, with their headers, sizes and links
-- in order. The fuel only has to exceed the number of blocks by 2.
pub malloc_first_fit :
    (ts : List Tile) (z size nbytes fuel : ℕ) (h : Heap)
    → IsTiled ts z size h
    → h.counter + 1 < 2 ^ 31
    → 1 ≤ nbytes
    → nbytes + 3 < 2 ^ 32
    → HasRoom (round_up nbytes) size ts
    → length ts + 2 < fuel
    → (h' : Heap) × (malloc fuel nbytes h ≡ some (placed (round_up nbytes) heap_base ts, h'))
      × IsTiled
          (allocate (round_up nbytes) ts)
          (top_at (round_up nbytes) z ts)
          (remaining (round_up nbytes) size ts)
          h'
      × (h'.counter ≡ h.counter + 1)
malloc_first_fit ts z size nbytes fuel h tiled few some_bytes small room enough =
    let n = round_up nbytes in
    let rounded = round_up_lem nbytes small in
    let (h', found, run, after, count) =
      first_fits n fuel size h (IsTiled-IsReady ts z size h tiled few) tiled.aligned rounded.0
        (omega (arith, rounded)) z tiled.header tiled.extent fuel [] ts tt tiled.blocks room
        (omega arith) (omega arith) in
    (
      h',
      malloc_found fuel nbytes h tiled.space tiled.ready
            (ap (λ b. fitting_block fuel n b h) tiled.first ∙ found)
          ∙ (unfold reserve_found in run),
      after,
      count,
    )

found_none :
    (n f size z : ℕ) (h : Heap) (a p : ℕ) (ts : List Tile)
    → h.word z ≡ size + 3
    → size % 4 ≡ 0
    → z + size ≡ heap_base + mb_hexa
    → Up h.word a p ts z
    → AllSmall n ts
    → size < n
    → length ts < f
    → fitting_block f n (first_free a ts) h ≡ some none
found_none n zero size z h a p ts header aligned extent up small large enough = absurd (omega arith)
found_none n (suc f) size z h a p [] header aligned extent up small large enough =
    let header' : h.word a ≡ size + 3 = subst (λ y. h.word y ≡ size + 3) (sym up.0) header in
    unfold fitting_block in ground (arith, header', top_ctrl size aligned, extent)
found_none n (suc f) size z h a p (used s ∷ ts) header aligned extent up small large enough =
    found_none n (suc f) size z h (a + s + 8) s ts header aligned extent up.4 small large
      (omega arith)
found_none n (suc f) size z h a p (hole s ∷ ts) header aligned extent up small large enough =
    let high : a + s + 8 ≤ z = Up-le h.word (a + s + 8) s ts z up.5 in
    let own = freed_ctrl s up.0 (omega (arith, high, extent)) in
    found_above f n a s (first_free (a + s + 8) ts) h (omega (arith, high, extent))
      (ap size_bits up.2 ∙ own.2) (ap top_bit up.2 ∙ own.1) up.4 small.0
    ∙ found_none n f size z h (a + s + 8) s ts header aligned extent up.5 small.1 large
        (omega arith)

-- After more than 15 calls and before the call of number 2 ^ 31: a request that is larger than every free block and the top block returns
-- NULL and changes nothing.
pub malloc_no_fit :
    (ts : List Tile) (z size nbytes fuel : ℕ) (h : Heap)
    → IsTiled ts z size h
    → AllSmall (round_up nbytes) ts
    → size < round_up nbytes
    → length ts < fuel
    → malloc fuel nbytes h ≡ some (null, h)
malloc_no_fit ts z size nbytes fuel h tiled small large enough =
    malloc_found fuel nbytes h tiled.space tiled.ready (
      ap (λ b. fitting_block fuel (round_up nbytes) b h) tiled.first
      ∙ found_none (round_up nbytes) fuel size z h heap_base 0 ts tiled.header tiled.aligned
          tiled.extent tiled.blocks small large enough)
    ∙ (unfold reserve_found in refl)
