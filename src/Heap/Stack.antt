-- ===== src/Heap/Stack.antt =====
-- The heap of user/heap.c as a stack of reserved blocks under the top block.
use armv7_os.Prelude.{
  length, ℕ, zero, suc, ◌+◌, ◌-◌, ◌%◌, ◌≤◌, ◌<◌, ◌≡◌, ◌⊎◌, inl, inr, refl, ◌∙◌, true, false, some,
  List, [], ◌∷◌, arith, ap, sym, subst,
}
use armv7_os.Heap.Defs.{
  Heap, heap_base, mb_hexa, null, find_prev_free, free_bit, top_bit, size_bits, block_below, add32,
}
use armv7_os.Heap.Below.{Below, Below-ge, Below-frame, plain_ctrl, top_ctrl, find_prev_free-null}

-- The reserved blocks are of the sizes `ss`, the highest first, and the top block at `a` has
-- `size` bytes. The header of the top block is not counted in the extent of the heap.
pub record IsStack (ss : List ℕ) (a size : ℕ) (h : Heap) : Type 0 where
  pub blocks : Below h.word a ss
  pub header : h.word a ≡ size + 3
  pub aligned : size % 4 ≡ 0
  pub extent : a + size ≡ heap_base + mb_hexa
  pub first : h.first_free_block ≡ a
  pub ready : h.heap_initialized ≡ 2
  pub space : h.no_free_space ≡ 1
  pub unmerged : h.merge_flag ≡ 1

pub IsStack-resp :
    (ss : List ℕ) (h : Heap) {a a' size size' : ℕ}
    → a ≡ a'
    → size ≡ size'
    → IsStack ss a size h
    → IsStack ss a' size' h
IsStack-resp ss h {a' = a'} {size = size} place left stack =
    subst (λ y. IsStack ss a' y h) left (subst (λ x. IsStack ss x size h) place stack)

module _ (ss : List ℕ) (a size : ℕ) (h : Heap) (stack : IsStack ss a size h) where
  pub a_ge : heap_base ≤ a
  a_ge = Below-ge h.word a ss stack.blocks

  pub top_size :
      (free_bit (h.word a) ≡ true) × (top_bit (h.word a) ≡ true) × (size_bits (h.word a) ≡ size)
  top_size = rw stack.header (top_ctrl size stack.aligned (omega (arith, a_ge, stack.extent)))

-- The block below the address `a`, if there is any: below the reserved blocks `ss` end at `a`.
beneath_lowest : (a : ℕ) (h : Heap) → Below h.word a [] → block_below a h ≡ heap_base - 8
beneath_lowest a h blocks = ground (arith, prev_is, blocks)
  where
    prev_is : h.word (add32 a 4) ≡ 0
    prev_is = subst (λ x. h.word x ≡ 0) (omega (arith, blocks.0)) blocks.1

module _ (s : ℕ) (ss : List ℕ) (a : ℕ) (h : Heap) (blocks : Below h.word a (s ∷ ss))
    (top : a ≤ heap_base + mb_hexa) where
  pub beneath_top : block_below a h ≡ a - s - 8
  beneath_top = ground (arith, prev_is, blocks)
    where
      prev_is : h.word (add32 a 4) ≡ s
      prev_is = subst (λ x. h.word x ≡ s) (omega arith) blocks.2

  pub own_plain : (free_bit s ≡ false) × (top_bit s ≡ false) × (size_bits s ≡ s)
  own_plain = plain_ctrl s blocks.1 (omega (arith, blocks.0))

pub beneath_cases :
    (ss : List ℕ) (a : ℕ) (h : Heap)
    → Below h.word a ss
    → a ≤ heap_base + mb_hexa
    → ((a ≡ heap_base) × (block_below a h ≡ heap_base - 8))
      ⊎ ((heap_base ≤ block_below a h)
          × (block_below a h + 8 ≤ a)
          × (size_bits (h.word (block_below a h)) ≡ h.word (a + 4))
          × (free_bit (h.word (block_below a h)) ≡ false))
beneath_cases [] a h blocks top = inl (blocks.0, beneath_lowest a h blocks)
beneath_cases (s ∷ ss) a h blocks top = rw (beneath_top s ss a h blocks top) (
    inr (
      omega (arith, blocks),
      omega (arith, blocks),
      ap size_bits blocks.3 ∙ (own_plain s ss a h blocks top).2 ∙ sym blocks.2,
      ap free_bit blocks.3 ∙ (own_plain s ss a h blocks top).0,
    ))

-- The search from the block below `a`, in a heap with the same blocks below.
pub walk_down :
    (ss : List ℕ) (a : ℕ) (h : Heap)
    → Below h.word a ss
    → a ≤ heap_base + mb_hexa
    → (h' : Heap) → ((x : ℕ) → heap_base ≤ x → x < a → h'.word x ≡ h.word x)
    → (fuel : ℕ) → length ss < fuel
    → find_prev_free fuel (block_below a h) h' ≡ some null
unfolding find_prev_free
walk_down ss a h blocks top h' same zero enough = absurd (omega arith)
walk_down [] a h blocks top h' same (suc fuel) enough = rw (beneath_lowest a h blocks) refl
walk_down (s ∷ ss) a h blocks top h' same (suc fuel) enough = rw (beneath_top s ss a h blocks top) (
    find_prev_free-null (suc fuel) (a - s - 8) s ss h' kept
      (same (a - s - 8) (omega (arith, blocks.0)) (omega (arith, blocks.0)) ∙ blocks.3) blocks.1
      (omega (arith, blocks.0)) (omega arith) (omega arith))
  where
    kept : Below h'.word (a - s - 8) ss
    kept =
        Below-frame h.word h'.word (a - s - 8) ss (λ x p q. same x p (omega (arith, blocks.0)))
          (same (a - s - 8 + 4) (omega (arith, blocks.0)) (omega (arith, blocks.0))) blocks.4
