-- ===== src/Heap/Tiles/Reserved.antt =====
-- A new block overlaps no block that is reserved.
use armv7_os.Prelude.{
  length, ℕ, ◌+◌, ◌^◌, ◌≤◌, ◌<◌, ◌≡◌, ◌⊎◌, inl, inr, ◌∙◌, some, List, [], ◌∷◌, arith, leb, leb→le,
  Bool-cases, subst, ap, sym,
}
use armv7_os.Heap.Defs.{Heap, heap_base, malloc, round_up}
use armv7_os.Heap.Tiles.{Tile, used, hole, IsTiled, Up}
use armv7_os.Heap.Tiles.FirstFit.{allocate, placed, top_at, HasRoom}
use armv7_os.Heap.Tiles.Malloc.{malloc_first_fit}

-- Among the blocks `ts` from `a` upwards the one at `b` is reserved, with `s` bytes.
abbrev pub ReservedAt : (b s a : ℕ) → List Tile → Type 0
ReservedAt b s a [] = ⊥
ReservedAt b s a (used t ∷ ts) = ((b ≡ a) × (s ≡ t)) ⊎ ReservedAt b s (a + t + 8) ts
ReservedAt b s a (hole t ∷ ts) = ReservedAt b s (a + t + 8) ts

ReservedAt-ge : (b s a : ℕ) (ts : List Tile) → ReservedAt b s a ts → a ≤ b
ReservedAt-ge b s a [] at = absurd at
ReservedAt-ge b s a (used t ∷ ts) (inl here) = omega arith
ReservedAt-ge b s a (used t ∷ ts) (inr above) =
    omega (arith, ReservedAt-ge b s (a + t + 8) ts above)
ReservedAt-ge b s a (hole t ∷ ts) at = omega (arith, ReservedAt-ge b s (a + t + 8) ts at)

placed-ge : (n a : ℕ) (ts : List Tile) → a ≤ placed n a ts
placed-ge n a [] = omega arith
placed-ge n a (used t ∷ ts) = omega (arith, placed-ge n (a + t + 8) ts)
placed-ge n a (hole t ∷ ts) = ground (arith, placed-ge n (a + t + 8) ts)

-- The headers and bytes of two blocks have no byte in common.
abbrev pub Apart : (b s c n : ℕ) → Type 0
Apart b s c n = (b + s + 8 ≤ c) ⊎ (c + n + 8 ≤ b)

ReservedAt-allocate :
    (b s n a : ℕ) (ts : List Tile)
    → ReservedAt b s a ts
    → ReservedAt b s a (allocate n ts) × Apart b s (placed n a ts) n
ReservedAt-allocate b s n a [] at = absurd at
ReservedAt-allocate b s n a (used t ∷ ts) (inl here) =
    (inl here, inl (omega (arith, placed-ge n (a + t + 8) ts)))
ReservedAt-allocate b s n a (used t ∷ ts) (inr above) =
    let (at, apart) = ReservedAt-allocate b s n (a + t + 8) ts above in (inr at, apart)
ReservedAt-allocate b s n a (hole t ∷ ts) at = elim (Bool-cases (leb n t)) [
  | inl fit ↦
      let fits : n ≤ t = leb→le n t fit in
      let above : a + t + 8 ≤ b = ReservedAt-ge b s (a + t + 8) ts at in
      elim (Bool-cases (leb (n + 12) t)) [
        | inl cut ↦
            let room : n + 12 ≤ t = leb→le (n + 12) t cut in
            rw (fit, cut)
              (inr (subst (λ x. ReservedAt b s x ts) (omega arith) at), inr (omega arith))
        | inr whole ↦ rw (fit, whole) (inr at, inr (omega arith))
      ]
  | inr large ↦
      let (at', apart) = ReservedAt-allocate b s n (a + t + 8) ts at in rw large (at', apart)
]

ReservedAt-header :
    (w : ℕ → ℕ) (b s a p : ℕ) (ts : List Tile) (z : ℕ)
    → Up w a p ts z
    → ReservedAt b s a ts
    → w b ≡ s
ReservedAt-header w b s a p [] z up at = absurd at
ReservedAt-header w b s a p (used t ∷ ts) z up (inl here) = ap w here.0 ∙ up.2 ∙ sym here.1
ReservedAt-header w b s a p (used t ∷ ts) z up (inr above) =
    ReservedAt-header w b s (a + t + 8) t ts z up.4 above
ReservedAt-header w b s a p (hole t ∷ ts) z up at =
    ReservedAt-header w b s (a + t + 8) t ts z up.5 at

-- After more than 15 calls and before the call of number 2 ^ 31: a request of at least one byte that
-- fits in a free block, or leaves the top block at least 12 bytes, succeeds, and then every block that
-- was reserved, with `s` bytes at `b`, is reserved still, its header is that of a reserved block of `s`
-- bytes, and neither its header nor its bytes overlap those of the new block.
pub malloc_keeps_reserved :
    (ts : List Tile) (z size nbytes fuel b s : ℕ) (h : Heap)
    → IsTiled ts z size h
    → h.counter + 1 < 2 ^ 31
    → 1 ≤ nbytes
    → nbytes + 3 < 2 ^ 32
    → HasRoom (round_up nbytes) size ts
    → length ts + 2 < fuel
    → ReservedAt b s heap_base ts
    → (c : ℕ) × (h' : Heap) × (malloc fuel nbytes h ≡ some (c, h'))
      × ReservedAt b s heap_base (allocate (round_up nbytes) ts)
      × (h'.word b ≡ s)
      × Apart b s c (round_up nbytes)
malloc_keeps_reserved ts z size nbytes fuel b s h tiled few some_bytes small room enough at =
    let n = round_up nbytes in
    let (h', run, after, _) =
      malloc_first_fit ts z size nbytes fuel h tiled few some_bytes small room enough in
    let (still, apart) = ReservedAt-allocate b s n heap_base ts at in
    (
      placed n heap_base ts,
      h',
      run,
      still,
      ReservedAt-header h'.word b s heap_base 0 (allocate n ts) (top_at n z ts) after.blocks still,
      apart,
    )
