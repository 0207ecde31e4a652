-- ===== src/Heap/Tiles/Header.antt =====
-- The header that `malloc` gives the block it reserves.
use armv7_os.Prelude.{
  ℕ, ◌+◌, ◌^◌, ◌≤◌, ◌<◌, ◌≡◌, ◌≢◌, ◌∙◌, refl, false, List, [], ◌∷◌, arith, ap, leb, ◌&&◌,
}
use armv7_os.Heap.Defs.{
  Heap, heap_base, mb_hexa, size_bits, block_below, block_is_top, block_size, reserve_header,
  keep_rest, sub32,
}
use armv7_os.Heap.Below.{plain_ctrl}
use armv7_os.Heap.Merge.{freed_ctrl}
use armv7_os.Heap.Tiles.{Tile, used, hole, size_of, end_of, size_below, Down, end_of-ge}
use armv7_os.Heap.Tiles.Walks.{block_below-Down}
use armv7_os.Heap.Tiles.Split.{SameGlobals}

-- The block at `b` has the control word `v`, and nothing else has changed.
pub record OnlyHeader (b v : ℕ) (h h' : Heap) : Type 0 where
  pub own : h'.word b ≡ v
  pub kept : (x : ℕ) → x ≢ b → h'.word x ≡ h.word x
  pub same : SameGlobals h h'

pub size_bits-Down :
    (w : ℕ → ℕ) (q : ℕ) (t : Tile) (rs : List Tile)
    → Down w q (t ∷ rs)
    → end_of (t ∷ rs) ≤ heap_base + mb_hexa
    → size_bits (w (end_of rs)) ≡ size_of t
size_bits-Down w q (used s) rs down top =
    ap size_bits down.2 ∙ (plain_ctrl s down.0 (omega (arith, end_of-ge rs))).2
size_bits-Down w q (hole s) rs down top =
    ap size_bits down.2 ∙ (freed_ctrl s down.0 (omega (arith, end_of-ge rs))).2

-- In a header whose prev_size is right, only the control word changes.
header_lowest :
    (n below : ℕ) (h : Heap)
    → (block_is_top heap_base h && leb (block_size heap_base h) n) ≡ false
    → size_bits n ≡ n
    → OnlyHeader heap_base n h (reserve_header n heap_base below h)
unfolding reserve_header
header_lowest n below h no_top plain = record {
  own = ground (arith, no_top, plain);
  kept = λ x other. ground (arith, no_top);
  same = rw no_top (ground arith);
}

header_above :
    (n b below s : ℕ) (h : Heap)
    → heap_base ≤ below
    → below < b
    → b ≤ heap_base + mb_hexa
    → size_bits (h.word below) ≡ s
    → h.word (b + 4) ≡ s
    → (block_is_top b h && leb (block_size b h) n) ≡ false
    → size_bits n ≡ n
    → OnlyHeader b n h (reserve_header n b below h)
unfolding reserve_header
header_above n b below s h ge lt top size prev no_top plain = record {
  own = rw no_top (ground (arith, plain));
  kept = λ x other. rw no_top (ground (arith, size, prev));
  same = rw no_top (ground arith);
}

pub OnlyHeader-reserve_header :
    (n q : ℕ) (rs : List Tile) (h h' : Heap)
    → Down h'.word q rs
    → h.word (end_of rs + 4) ≡ size_below rs
    → h'.word (end_of rs + 4) ≡ size_below rs
    → end_of rs ≤ heap_base + mb_hexa
    → (block_is_top (end_of rs) h' && leb (block_size (end_of rs) h') n) ≡ false
    → size_bits n ≡ n
    → OnlyHeader (end_of rs) n h' (reserve_header n (end_of rs) (block_below (end_of rs) h) h')
OnlyHeader-reserve_header n q [] h h' down before prev top no_top plain =
    header_lowest n (block_below heap_base h) h' no_top plain
OnlyHeader-reserve_header n q (t ∷ rs) h h' down before prev top no_top plain =
    rw (block_below-Down h (end_of (t ∷ rs)) q t rs refl before top) (
      header_above n (end_of (t ∷ rs)) (end_of rs) (size_of t) h' (end_of-ge rs) (omega arith) top
        (size_bits-Down h'.word q t rs down top) prev no_top plain)

-- The whole block is reserved.
pub OnlyHeader-keep_rest :
    (b n s : ℕ) (h : Heap)
    → h.word b ≡ n
    → n ≤ s
    → s < 2 ^ 31
    → h.top_block_flag ≡ 1
    → OnlyHeader b s h (keep_rest b (sub32 s n) h)
unfolding keep_rest
OnlyHeader-keep_rest b n s h header fits lt untopped = record {
  own = ground (arith, header, untopped);
  kept = λ x other. ground (arith, untopped);
  same = ground (arith, untopped);
}
