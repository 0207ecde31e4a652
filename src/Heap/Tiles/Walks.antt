-- ===== src/Heap/Tiles/Walks.antt =====
-- The searches of user/heap.c on such blocks.
use armv7_os.Prelude.{
  length, ℕ, zero, suc, ◌+◌, ◌%◌, ◌≤◌, ◌<◌, ◌≡◌, ◌≢◌, ◌∙◌, refl, true, false, some, List, [], ◌∷◌,
  arith, ap, ◌^◌,
}
use armv7_os.Heap.Defs.{
  Heap, heap_base, mb_hexa, null, free_bit, top_bit, size_bits, block_below, find_prev_free,
  find_next_free, next_free_loop, first_free_loop,
}
use armv7_os.Heap.Below.{plain_ctrl, top_ctrl}
use armv7_os.Heap.Merge.{freed_ctrl}
use armv7_os.Heap.Tiles.{
  Tile, used, hole, size_of, end_of, size_below, last_free, first_free, Up, Down, Up-le, end_of-ge,
}

-- The walks upwards end at the top block of `size` bytes at `z`.
module _ (h : Heap) (z size : ℕ) (header : h.word z ≡ size + 3) (aligned : size % 4 ≡ 0)
    (extent : z + size ≡ heap_base + mb_hexa) where
  tops : (free_bit (h.word z) ≡ true) × (top_bit (h.word z) ≡ true) × (size_bits (h.word z) ≡ size)
  tops = rw header (top_ctrl size aligned (omega (arith, extent)))

  pub first_free_loop-Up :
      (fuel a p : ℕ) (ts : List Tile)
      → Up h.word a p ts z
      → length ts < fuel
      → first_free_loop fuel a h ≡ some (record h { first_free_block = first_free a ts })
  unfolding first_free_loop
  first_free_loop-Up zero a p ts up enough = absurd (omega arith)
  first_free_loop-Up (suc fuel) a p [] up enough = ground (arith, tops, up)
  first_free_loop-Up (suc fuel) a p (used s ∷ ts) up enough = ground (
    arith,
    plain_ctrl s,
    up.0,
    up.2,
    Up-le h.word (a + s + 8) s ts z up.4,
    extent,
    first_free_loop-Up fuel (a + s + 8) s ts up.4,
  )
  first_free_loop-Up (suc fuel) a p (hole s ∷ ts) up enough =
      ground (arith, freed_ctrl s, up.0, up.2, Up-le h.word (a + s + 8) s ts z up.5, extent)

  pub next_free_loop-Up :
      (fuel a p : ℕ) (ts : List Tile)
      → Up h.word a p ts z
      → length ts < fuel
      → next_free_loop fuel a h ≡ some (first_free a ts)
  unfolding next_free_loop
  next_free_loop-Up zero a p ts up enough = absurd (omega arith)
  next_free_loop-Up (suc fuel) a p [] up enough = ground (arith, tops, up)
  next_free_loop-Up (suc fuel) a p (used s ∷ ts) up enough = ground (
    arith,
    plain_ctrl s,
    up.0,
    up.2,
    Up-le h.word (a + s + 8) s ts z up.4,
    extent,
    next_free_loop-Up fuel (a + s + 8) s ts up.4,
  )
  next_free_loop-Up (suc fuel) a p (hole s ∷ ts) up enough =
      ground (arith, freed_ctrl s, up.0, up.2, Up-le h.word (a + s + 8) s ts z up.5, extent)

pub find_prev_free_step :
    (h : Heap) (fuel b c : ℕ)
    → heap_base ≤ b
    → free_bit (h.word b) ≡ false
    → block_below b h ≡ c
    → heap_base ≤ c
    → c ≤ heap_base + mb_hexa
    → find_prev_free (suc fuel) b h ≡ find_prev_free fuel c h
unfolding find_prev_free
find_prev_free_step h fuel b c ge reserved below low high = ground (arith, reserved, below)

pub block_below-Down :
    (h : Heap) (b q : ℕ) (t : Tile) (rs : List Tile)
    → b ≡ end_of (t ∷ rs)
    → h.word (b + 4) ≡ size_of t
    → b ≤ heap_base + mb_hexa
    → block_below b h ≡ end_of rs
block_below-Down h b q t rs place prev top = ground (arith, prev, end_of-ge rs)

-- The walk downwards from the highest of the blocks.
pub find_prev_free-Down :
    (h : Heap) (fuel q : ℕ) (t : Tile) (rs : List Tile)
    → Down h.word q (t ∷ rs)
    → end_of (t ∷ rs) ≤ heap_base + mb_hexa
    → length rs < fuel
    → find_prev_free fuel (end_of rs) h ≡ some (last_free (t ∷ rs))
unfolding find_prev_free
find_prev_free-Down h zero q t rs down top enough = absurd (omega arith)
find_prev_free-Down h (suc fuel) q (hole s) rs down top enough =
    ground (arith, freed_ctrl s, down.0, down.2, end_of-ge rs)
find_prev_free-Down h (suc fuel) q (used s) [] down top enough =
    ground (arith, plain_ctrl s, down.0, down.2, down.3)
find_prev_free-Down h (suc fuel) q (used s) (t ∷ rs) down top enough =
    find_prev_free_step h fuel (end_of (t ∷ rs)) (end_of rs) (end_of-ge (t ∷ rs)) reserved
      (block_below-Down h (end_of (t ∷ rs)) q t rs refl down.3 (omega arith)) (end_of-ge rs)
      (omega arith)
    ∙ find_prev_free-Down h fuel q t rs down.4 (omega arith) (omega arith)
  where
    reserved : free_bit (h.word (end_of (t ∷ rs))) ≡ false
    reserved = ap free_bit down.2 ∙ (plain_ctrl s down.0 (omega (arith, end_of-ge rs))).0

-- The search from the block below an address, which is that of an earlier heap `h`.
pub find_prev_free-below :
    (h h' : Heap) (fuel q : ℕ) (rs : List Tile)
    → Down h'.word q rs
    → h.word (end_of rs + 4) ≡ size_below rs
    → end_of rs ≤ heap_base + mb_hexa
    → length rs < fuel
    → find_prev_free fuel (block_below (end_of rs) h) h' ≡ some (last_free rs)
find_prev_free-below h h' zero q rs down prev top enough = absurd (omega arith)
find_prev_free-below h h' (suc fuel) q [] down prev top enough =
    unfold find_prev_free in ground (arith, prev)
find_prev_free-below h h' (suc fuel) q (t ∷ rs) down prev top enough =
    rw (block_below-Down h (end_of (t ∷ rs)) q t rs refl prev top)
      (find_prev_free-Down h' (suc fuel) q t rs down (omega arith) (omega arith))

-- The link of the highest free block below an address.
pub find_next_free-last :
    (h : Heap) (z size : ℕ)
    → h.word z ≡ size + 3
    → size % 4 ≡ 0
    → z + size ≡ heap_base + mb_hexa
    → (15 < h.counter) × (h.counter < 2 ^ 31)
    → (fuel q : ℕ) (rs ts : List Tile) → Down h.word q rs
    → Up h.word (end_of rs) (size_below rs) ts z
    → last_free rs ≢ null
    → length rs + length ts < fuel
    → find_next_free fuel (last_free rs) h ≡ some (first_free (end_of rs) ts)
find_next_free-last h z size header aligned extent many fuel q [] ts down up some_free enough =
    absurd (some_free refl)
find_next_free-last h z size header aligned extent many fuel q (used s ∷ rs) ts down up some_free
      enough =
    find_next_free-last h z size header aligned extent many fuel q rs (used s ∷ ts) down.4
      (down.0, down.1, down.2, down.3, up) some_free (omega arith)
find_next_free-last h z size header aligned extent many fuel q (hole s ∷ rs) ts down up some_free
      enough =
    unfold find_next_free in
    ground (
      arith,
      freed_ctrl s,
      down.0,
      down.2,
      end_of-ge rs,
      Up-le h.word (end_of rs + s + 8) s ts z up,
      extent,
      next_free_loop-Up h z size header aligned extent fuel (end_of rs + s + 8) s ts up,
    )
