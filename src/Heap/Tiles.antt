-- ===== src/Heap/Tiles.antt =====
-- The blocks of the heap of user/heap.c in their order, reserved and free, up to the top block.
pub mod Walks
pub mod Mend
pub mod Split
pub mod Header
pub mod Reserve
pub mod Whole
pub mod Cut
pub mod Push
pub mod FirstFit
pub mod Malloc
pub mod Above
pub mod Under
pub mod Finish
pub mod Settle
pub mod Joined
pub mod JoinedTop
pub mod Coalesce
pub mod Free
pub mod Reserved
pub mod Session
pub mod Begin
use armv7_os.Prelude.{
  ℕ, ◌+◌, ◌-◌, ◌%◌, ◌≤◌, ◌<◌, ◌≡◌, ◌≢◌, ◌⊎◌, inl, inr, ◌∙◌, refl, List, [], ◌∷◌, arith, ap, ◌^◌,
}
use armv7_os.Heap.Defs.{Heap, heap_base, mb_hexa, null}

-- A reserved block and a free one, of so many bytes.
pub data Tile : Type 0 where
  used : ℕ → Tile
  hole : ℕ → Tile

abbrev pub size_of : Tile → ℕ
size_of (used s) = s
size_of (hole s) = s

-- For the blocks `rs` below an address, the highest first: the address, and the size of the highest.
abbrev pub end_of : List Tile → ℕ
end_of [] = heap_base
end_of (t ∷ rs) = end_of rs + size_of t + 8

abbrev pub size_below : List Tile → ℕ
size_below [] = 0
size_below (t ∷ rs) = size_of t

-- The highest free block among them, or NULL.
abbrev pub last_free : List Tile → ℕ
last_free [] = null
last_free (used s ∷ rs) = last_free rs
last_free (hole s ∷ rs) = end_of rs

-- For the blocks `ts` from `a` upwards, the lowest first: the lowest free one, which is the top block
-- where all are reserved.
abbrev pub first_free : ℕ → List Tile → ℕ
first_free a [] = a
first_free a (used s ∷ ts) = first_free (a + s + 8) ts
first_free a (hole s ∷ ts) = a

-- `w` holds the headers of the blocks `ts` from `a` to the top block at `z`, and each free one's link
-- to the next; `p` is the size of the block below `a`.
abbrev pub Up : (ℕ → ℕ) → ℕ → ℕ → List Tile → ℕ → Type 0
Up w a p [] z = (a ≡ z) × (w (a + 4) ≡ p)
Up w a p (used s ∷ ts) z =
    (s % 4 ≡ 0) × (4 ≤ s) × (w a ≡ s) × (w (a + 4) ≡ p) × Up w (a + s + 8) s ts z
Up w a p (hole s ∷ ts) z =
    (s % 4 ≡ 0)
    × (4 ≤ s)
    × (w a ≡ s + 2)
    × (w (a + 4) ≡ p)
    × (w (a + 8) ≡ first_free (a + s + 8) ts)
    × Up w (a + s + 8) s ts z

-- The same for the blocks `rs`; `q` is the lowest free block above them.
abbrev pub Down : (ℕ → ℕ) → ℕ → List Tile → Type 0
Down w q [] = Unit {0}
Down w q (used s ∷ rs) =
    (s % 4 ≡ 0) × (4 ≤ s) × (w (end_of rs) ≡ s) × (w (end_of rs + 4) ≡ size_below rs) × Down w q rs
Down w q (hole s ∷ rs) =
    (s % 4 ≡ 0)
    × (4 ≤ s)
    × (w (end_of rs) ≡ s + 2)
    × (w (end_of rs + 4) ≡ size_below rs)
    × (w (end_of rs + 8) ≡ q)
    × Down w (end_of rs) rs

-- The blocks `rs`, and on them `ts`.
abbrev pub onto : List Tile → List Tile → List Tile
onto [] ts = ts
onto (t ∷ rs) ts = onto rs (t ∷ ts)

pub Up-le : (w : ℕ → ℕ) (a p : ℕ) (ts : List Tile) (z : ℕ) → Up w a p ts z → a ≤ z
Up-le w a p [] z up = omega arith
Up-le w a p (used s ∷ ts) z up = omega (arith, Up-le w (a + s + 8) s ts z up.4)
Up-le w a p (hole s ∷ ts) z up = omega (arith, Up-le w (a + s + 8) s ts z up.5)

pub end_of-ge : (rs : List Tile) → heap_base ≤ end_of rs
end_of-ge [] = omega arith
end_of-ge (t ∷ rs) = omega (arith, end_of-ge rs)

pub Up-prev : (w : ℕ → ℕ) (a p : ℕ) (ts : List Tile) (z : ℕ) → Up w a p ts z → w (a + 4) ≡ p
Up-prev w a p [] z up = up.1
Up-prev w a p (used s ∷ ts) z up = up.3
Up-prev w a p (hole s ∷ ts) z up = up.3

pub Up-apart : (w : ℕ → ℕ) (a p : ℕ) (ts : List Tile) (z : ℕ) → Up w a p ts z → z ≢ a + 4
Up-apart w a p [] z up = omega arith
Up-apart w a p (used s ∷ ts) z up = omega (arith, up.1, Up-le w (a + s + 8) s ts z up.4)
Up-apart w a p (hole s ∷ ts) z up = omega (arith, up.1, Up-le w (a + s + 8) s ts z up.5)

-- The highest free block, if there is one, has room for its link.
pub last_free_room :
    (w : ℕ → ℕ) (q : ℕ) (rs : List Tile)
    → Down w q rs
    → (last_free rs ≡ null) ⊎ ((heap_base ≤ last_free rs) × (last_free rs + 12 ≤ end_of rs))
last_free_room w q [] down = inl refl
last_free_room w q (used s ∷ rs) down = elim (last_free_room w q rs down.4) [
  | inl none_free ↦ inl none_free
  | inr room ↦ inr (room.0, omega (arith, room.1))
]
last_free_room w q (hole s ∷ rs) down = inr (end_of-ge rs, omega (arith, down.1))

-- A change of the size that the lowest block keeps of the one below it, and of nothing else.
pub Up-frame :
    (w w' : ℕ → ℕ) (a p p' : ℕ) (ts : List Tile) (z : ℕ)
    → ((x : ℕ) → a ≤ x → x ≢ a + 4 → w' x ≡ w x)
    → w' (a + 4) ≡ p'
    → Up w a p ts z
    → Up w' a p' ts z
Up-frame w w' a p p' [] z same prev up = (up.0, prev)
Up-frame w w' a p p' (used s ∷ ts) z same prev up = (
  up.0,
  up.1,
  same a (omega arith) (omega arith) ∙ up.2,
  prev,
  Up-frame w w' (a + s + 8) s s ts z (λ x q r. same x (omega arith) (omega arith))
      (same (a + s + 8 + 4) (omega arith) (omega arith) ∙ Up-prev w (a + s + 8) s ts z up.4) up.4,
)
Up-frame w w' a p p' (hole s ∷ ts) z same prev up = (
  up.0,
  up.1,
  same a (omega arith) (omega arith) ∙ up.2,
  prev,
  same (a + 8) (omega arith) (omega arith) ∙ up.4,
  Up-frame w w' (a + s + 8) s s ts z (λ x q r. same x (omega arith) (omega arith))
      (same (a + s + 8 + 4) (omega arith) (omega arith) ∙ Up-prev w (a + s + 8) s ts z up.5) up.5,
)

pub Down-same :
    (w w' : ℕ → ℕ) (q : ℕ) (rs : List Tile)
    → ((x : ℕ) → heap_base ≤ x → x < end_of rs → w' x ≡ w x)
    → Down w q rs
    → Down w' q rs
Down-same w w' q [] same down = down
Down-same w w' q (used s ∷ rs) same down = (
  down.0,
  down.1,
  same (end_of rs) (end_of-ge rs) (omega arith) ∙ down.2,
  same (end_of rs + 4) (omega (arith, end_of-ge rs)) (omega arith) ∙ down.3,
  Down-same w w' q rs (λ x a b. same x a (omega arith)) down.4,
)
Down-same w w' q (hole s ∷ rs) same down = (
  down.0,
  down.1,
  same (end_of rs) (end_of-ge rs) (omega arith) ∙ down.2,
  same (end_of rs + 4) (omega (arith, end_of-ge rs)) (omega arith) ∙ down.3,
  same (end_of rs + 8) (omega (arith, end_of-ge rs)) (omega (arith, down.1)) ∙ down.4,
  Down-same w w' (end_of rs) rs (λ x a b. same x a (omega arith)) down.5,
)

-- A change of the link of the highest free block, and of nothing else.
pub Down-frame :
    (w w' : ℕ → ℕ) (q q' : ℕ) (rs : List Tile)
    → ((x : ℕ) → heap_base ≤ x → x < end_of rs → x ≢ last_free rs + 8 → w' x ≡ w x)
    → (last_free rs ≢ null → w' (last_free rs + 8) ≡ q')
    → Down w q rs
    → Down w' q' rs
Down-frame w w' q q' [] same link down = tt
Down-frame w w' q q' (used s ∷ rs) same link down =
    let room = last_free_room w q rs down.4 in
    (
      down.0,
      down.1,
      same (end_of rs) (end_of-ge rs) (omega arith) (ground (arith, room, end_of-ge rs)) ∙ down.2,
      same (end_of rs + 4) (omega (arith, end_of-ge rs)) (omega arith)
            (ground (arith, room, end_of-ge rs))
          ∙ down.3,
      Down-frame w w' q q' rs (λ x a b c. same x a (omega arith) c) link down.4,
    )
Down-frame w w' q q' (hole s ∷ rs) same link down =
    let ge = end_of-ge rs in
    (
      down.0,
      down.1,
      same (end_of rs) ge (omega arith) (omega arith) ∙ down.2,
      same (end_of rs + 4) (omega arith) (omega arith) (omega arith) ∙ down.3,
      link (omega arith),
      Down-same w w' (end_of rs) rs (λ x a b. same x a (omega arith) (omega arith)) down.5,
    )

-- The blocks of a heap that has had more than 15 calls of `malloc` and fewer than 2 ^ 31, which
-- `find_next_free` needs to find its way: the blocks `ts`, and a free top block of `size` bytes at `z`.
pub record IsTiled (ts : List Tile) (z size : ℕ) (h : Heap) : Type 0 where
  pub blocks : Up h.word heap_base 0 ts z
  pub header : h.word z ≡ size + 3
  pub aligned : size % 4 ≡ 0
  pub extent : z + size ≡ heap_base + mb_hexa
  pub first : h.first_free_block ≡ first_free heap_base ts
  pub ready : h.heap_initialized ≡ 2
  pub space : h.no_free_space ≡ 1
  pub unmerged : h.merge_flag ≡ 1
  pub untopped : h.top_block_flag ≡ 1
  pub many : (15 < h.counter) × (h.counter < 2 ^ 31)

-- The heap seen from the address between the blocks `rs` and `ts`.
pub split_at :
    (w : ℕ → ℕ) (rs ts : List Tile) (z : ℕ)
    → Up w heap_base 0 (onto rs ts) z
    → Down w (first_free (end_of rs) ts) rs × Up w (end_of rs) (size_below rs) ts z
split_at w [] ts z up = (tt, up)
split_at w (used s ∷ rs) ts z up =
    let (down, up) = split_at w rs (used s ∷ ts) z up in ((up.0, up.1, up.2, up.3, down), up.4)
split_at w (hole s ∷ rs) ts z up =
    let (down, up) = split_at w rs (hole s ∷ ts) z up in
    ((up.0, up.1, up.2, up.3, up.4, down), up.5)

pub join :
    (w : ℕ → ℕ) (rs ts : List Tile) (z : ℕ)
    → Down w (first_free (end_of rs) ts) rs
    → Up w (end_of rs) (size_below rs) ts z
    → Up w heap_base 0 (onto rs ts) z
join w [] ts z down up = up
join w (used s ∷ rs) ts z down up =
    join w rs (used s ∷ ts) z down.4 (down.0, down.1, down.2, down.3, up)
join w (hole s ∷ rs) ts z down up =
    join w rs (hole s ∷ ts) z down.5 (down.0, down.1, down.2, down.3, down.4, up)
