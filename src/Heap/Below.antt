-- ===== src/Heap/Below.antt =====
-- The reserved blocks below an address, and what the searches of heap.c do on them.
use armv7_os.Prelude.{
  length, ℕ, zero, suc, ◌+◌, ◌-◌, ◌%◌, ◌^◌, ◌≤◌, ◌<◌, ◌≡◌, ◌∙◌, true, false, some, List, [], ◌∷◌,
  arith,
}
use armv7_os.Heap.Defs.{
  Heap, heap_base, mb_hexa, null, find_prev_free, first_free_loop, free_bit, top_bit, size_bits,
}
use armv7_os.Heap.Bits.{size_bits_lem, free_bit_iff, top_bit_iff}

-- From `a` downwards lie reserved blocks of the sizes `ss`, the highest first, down to the base of
-- the heap; `w` holds their headers, and each block's prev_size is the size of the one below.
abbrev pub Below : (ℕ → ℕ) → ℕ → List ℕ → Type 0
Below w a [] = (a ≡ heap_base) × (w (a + 4) ≡ 0)
Below w a (s ∷ ss) =
    (heap_base + s + 8 ≤ a)
    × (s % 4 ≡ 0)
    × (w (a + 4) ≡ s)
    × (w (a - s - 8) ≡ s)
    × Below w (a - s - 8) ss

pub Below-ge : (w : ℕ → ℕ) (a : ℕ) (ss : List ℕ) → Below w a ss → heap_base ≤ a
Below-ge w a [] h = omega arith
Below-ge w a (s ∷ ss) h = omega arith

-- It depends on the words from the base up to `a` and on the one at `a + 4`.
pub Below-frame :
    (w w' : ℕ → ℕ) (a : ℕ) (ss : List ℕ)
    → ((x : ℕ) → heap_base ≤ x → x < a → w' x ≡ w x)
    → w' (a + 4) ≡ w (a + 4)
    → Below w a ss
    → Below w' a ss
Below-frame w w' a [] same here h = (h.0, here ∙ h.1)
Below-frame w w' a (s ∷ ss) same here h =
    let ge : heap_base ≤ a - s - 8 = omega arith in
    (
      h.0,
      h.1,
      here ∙ h.2,
      same (a - s - 8) ge (omega arith) ∙ h.3,
      Below-frame w w' (a - s - 8) ss (λ x p q. same x p (omega arith))
          (same (a - s - 8 + 4) (omega arith) (omega arith)) h.4,
    )

-- A control word of a size alone: neither free nor top.
pub plain_ctrl :
    (s : ℕ)
    → s % 4 ≡ 0
    → s < 2 ^ 32
    → (free_bit s ≡ false) × (top_bit s ≡ false) × (size_bits s ≡ s)
plain_ctrl s aligned lt = (
  ground (arith, free_bit_iff s),
  ground (arith, top_bit_iff s),
  omega (arith, size_bits_lem s lt),
)

-- A control word of a free top block.
pub top_ctrl :
    (s : ℕ)
    → s % 4 ≡ 0
    → s < 2 ^ 31
    → (free_bit (s + 3) ≡ true) × (top_bit (s + 3) ≡ true) × (size_bits (s + 3) ≡ s)
top_ctrl s aligned lt = (
  (free_bit_iff (s + 3)).1 (omega arith),
  (top_bit_iff (s + 3)).1 (omega arith),
  omega (arith, size_bits_lem (s + 3) (omega arith)),
)

-- With reserved blocks only from `a` down to the base, the search for a free one yields NULL.
pub find_prev_free-null :
    (fuel a s : ℕ) (ss : List ℕ) (h : Heap)
    → Below h.word a ss
    → h.word a ≡ s
    → s % 4 ≡ 0
    → s < 2 ^ 31
    → a ≤ heap_base + mb_hexa
    → length ss < fuel
    → find_prev_free fuel a h ≡ some null
unfolding find_prev_free
find_prev_free-null zero a s ss h below here aligned lt top enough = absurd (omega arith)
find_prev_free-null (suc fuel) a s [] h below here aligned lt top enough =
    ground (arith, plain_ctrl s)
find_prev_free-null (suc fuel) a s (t ∷ ss) h below here aligned lt top enough =
    ground (arith, plain_ctrl s, find_prev_free-null fuel (a - t - 8) t ss h below.4 below.3)

-- The walk from the base passes the reserved blocks.
pub first_free_loop-Below :
    (f a : ℕ) (ss : List ℕ) (h : Heap)
    → Below h.word a ss
    → a ≤ heap_base + mb_hexa
    → (fuel : ℕ) → fuel ≡ length ss + f
    → first_free_loop fuel heap_base h ≡ first_free_loop f a h
first_free_loop-Below f a [] h below top fuel e = ground arith
first_free_loop-Below f a (s ∷ ss) h below top fuel e =
    first_free_loop-Below (suc f) (a - s - 8) ss h below.4 (omega arith) fuel (omega arith) ∙ passes
  where
    passes : first_free_loop (suc f) (a - s - 8) h ≡ first_free_loop f a h
    passes = unfold first_free_loop in ground (arith, plain_ctrl s)
