-- ===== src/Heap/Tiles/FirstFit.antt =====
-- First fit on the list of blocks: what `malloc` promises.
use armv7_os.Prelude.{ℕ, ◌+◌, ◌-◌, ◌≤◌, ◌<◌, List, [], ◌∷◌, leb, if◌then◌else◌}
use armv7_os.Heap.Tiles.{Tile, used, hole}

-- The block of `n` bytes takes the lowest free block in which it fits: all of it, or so much that at
-- least 12 bytes are left, of which 8 are the header of the rest. Where none fits it is put on the top.
abbrev pub allocate : ℕ → List Tile → List Tile
allocate n [] = used n ∷ []
allocate n (used s ∷ ts) = used s ∷ allocate n ts
allocate n (hole s ∷ ts) =
    if leb n s
    then if leb (n + 12) s then used n ∷ hole (s - n - 8) ∷ ts else used s ∷ ts
    else hole s ∷ allocate n ts

-- The address of that block, for the blocks `ts` from `a` upwards.
abbrev pub placed : ℕ → ℕ → List Tile → ℕ
placed n a [] = a
placed n a (used s ∷ ts) = placed n (a + s + 8) ts
placed n a (hole s ∷ ts) = if leb n s then a else placed n (a + s + 8) ts

-- The top block, `size` bytes before, gives the bytes and a header only where nothing else fits.
abbrev pub remaining : ℕ → ℕ → List Tile → ℕ
remaining n size [] = size - n - 8
remaining n size (used s ∷ ts) = remaining n size ts
remaining n size (hole s ∷ ts) = if leb n s then size else remaining n size ts

abbrev pub top_at : ℕ → ℕ → List Tile → ℕ
top_at n z [] = z + n + 8
top_at n z (used s ∷ ts) = top_at n z ts
top_at n z (hole s ∷ ts) = if leb n s then z else top_at n z ts

-- Where no free block fits, the top block has room for the bytes and the header of its rest.
abbrev pub HasRoom : ℕ → ℕ → List Tile → Type 0
HasRoom n size [] = n + 12 ≤ size
HasRoom n size (used s ∷ ts) = HasRoom n size ts
HasRoom n size (hole s ∷ ts) = s < n → HasRoom n size ts

-- No free block has `n` bytes.
abbrev pub AllSmall : ℕ → List Tile → Type 0
AllSmall n [] = Unit {0}
AllSmall n (used s ∷ ts) = AllSmall n ts
AllSmall n (hole s ∷ ts) = (s < n) × AllSmall n ts
