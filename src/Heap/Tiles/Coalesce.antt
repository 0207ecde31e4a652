-- ===== src/Heap/Tiles/Coalesce.antt =====
-- What `free` promises: the block becomes free, and one with the free blocks directly beside it.
use armv7_os.Prelude.{ℕ, ◌+◌, ◌-◌, List, [], ◌∷◌}
use armv7_os.Heap.Defs.{heap_base, mb_hexa}
use armv7_os.Heap.Tiles.{Tile, used, hole, end_of, onto}

-- The freed block of `s` bytes and the blocks `ts` above it; at the top block it is part of that.
abbrev pub with_above : ℕ → List Tile → List Tile
with_above s [] = []
with_above s (used t ∷ ts) = hole s ∷ used t ∷ ts
with_above s (hole t ∷ ts) = hole (s + t + 8) ∷ ts

-- The blocks `rs` below a free block, which `ts` begins with or which is the top block.
abbrev pub with_below : List Tile → List Tile → List Tile
with_below (hole r ∷ rs) (hole s ∷ ts) = onto rs (hole (r + s + 8) ∷ ts)
with_below (hole r ∷ rs) ts = onto rs ts
with_below rs ts = onto rs ts

-- The blocks after the block between `rs` and `ts` is freed.
abbrev pub released : List Tile → ℕ → List Tile → List Tile
released rs s ts = with_below rs (with_above s ts)

-- The top block from the free block at the end of `rs` on.
abbrev pub top_under : List Tile → ℕ
top_under (hole r ∷ rs) = end_of rs
top_under rs = end_of rs

-- The top block, at `z` before.
abbrev pub top_after : List Tile → List Tile → ℕ → ℕ
top_after rs [] z = top_under rs
top_after rs (t ∷ ts) z = z

-- The bytes from an address to the end of the heap.
abbrev pub bytes_from : ℕ → ℕ
bytes_from z = heap_base + mb_hexa - z
