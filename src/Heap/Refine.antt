-- ===== src/Heap/Refine.antt =====
-- user/heap.c for a client that frees its blocks in the reverse of the order in which it got them:
-- an abstract stack of sizes.
use armv7_os.Prelude.{
  length, ℕ, zero, suc, ◌+◌, ◌-◌, ◌^◌, ◌≤◌, ◌<◌, ◌≡◌, ◌⊎◌, inl, inr, refl, true, false, arith,
  Option, some, List, [], ◌∷◌, ◌>>=◌, subst, if◌then◌else◌, leb, ◌==◌, Bool,
}
use armv7_os.Heap.Defs.{Heap, heap_base, mb_hexa, null, malloc, round_up}
use armv7_os.Heap.Free.{free}
use armv7_os.Heap.Stack.{IsStack, IsStack-resp}
use armv7_os.Heap.Malloc.{malloc-IsStack, malloc-null}
use armv7_os.Heap.Release.{free-IsStack}

pub data HeapOp : Type 0 where
  alloc : ℕ → HeapOp
  release : HeapOp

-- The client: the blocks that it holds, the last one first, and what `malloc` returns to it. With
-- no block it calls `free(NULL)`.
abbrev pub run_client : ℕ → List HeapOp → List ℕ → Heap → Option (List ℕ × Heap)
run_client fuel [] held h = some ([], h)
run_client fuel (alloc n ∷ ops) held h = do
  (b, h) ← malloc fuel n h
  (bs, h) ← run_client fuel ops (if b == null then held else b ∷ held) h
  some (b ∷ bs, h)
run_client fuel (release ∷ ops) [] h = do h ← free fuel null h; run_client fuel ops [] h
run_client fuel (release ∷ ops) (b ∷ held) h = do h ← free fuel b h; run_client fuel ops held h

-- The specification: a stack of sizes, each of them with 8 bytes for its header.
abbrev pub height : List ℕ → ℕ
height [] = heap_base
height (s ∷ ss) = height ss + s + 8

abbrev pub limit : ℕ
limit = heap_base + mb_hexa

abbrev pub addresses : List ℕ → List ℕ
addresses [] = []
addresses (s ∷ ss) = height ss ∷ addresses ss

abbrev pub fits : ℕ → List ℕ → Bool
fits n ss = leb (height ss + round_up n + 12) limit

abbrev pub replies : List HeapOp → List ℕ → List ℕ
replies [] ss = []
replies (alloc n ∷ ops) ss =
    let served = height ss ∷ replies ops (round_up n ∷ ss) in
    let refused = null ∷ replies ops ss in if fits n ss then served else refused
replies (release ∷ ops) [] = replies ops []
replies (release ∷ ops) (s ∷ ss) = replies ops ss

abbrev pub final : List HeapOp → List ℕ → List ℕ
final [] ss = ss
final (alloc n ∷ ops) ss =
    let served = final ops (round_up n ∷ ss) in
    let refused = final ops ss in if fits n ss then served else refused
final (release ∷ ops) [] = final ops []
final (release ∷ ops) (s ∷ ss) = final ops ss

-- Each request either leaves 4 bytes of the top block, the header of the rest counted, or is larger
-- than the top block; the block is not one that takes all of it.
abbrev pub Permitted : List HeapOp → List ℕ → Type 0
Permitted [] ss = Unit {0}
Permitted (alloc n ∷ ops) ss =
    (n + 3 < 2 ^ 32)
    × (((height ss + round_up n + 12 ≤ limit) × Permitted ops (round_up n ∷ ss))
        ⊎ ((limit < height ss + round_up n) × Permitted ops ss))
Permitted (release ∷ ops) [] = Permitted ops []
Permitted (release ∷ ops) (s ∷ ss) = Permitted ops ss

abbrev pub Implements : List ℕ → Heap → Type 0
Implements ss h = IsStack ss (height ss) (limit - height ss) h

height_ge : (ss : List ℕ) → heap_base ≤ height ss
height_ge [] = omega arith
height_ge (s ∷ ss) = omega (arith, height_ge ss)

free-null : (fuel : ℕ) (h : Heap) → free fuel null h ≡ some h
unfolding free
free-null fuel h = refl

-- On every heap that implements the stack of sizes `ss`, every permitted sequence of calls by a client
-- that frees in reverse order succeeds, `malloc` returns what the stack of sizes says, and the heap
-- implements the stack at the end. The fuel has to exceed the blocks held and the calls by 3.
pub heap_refines :
    (ops : List HeapOp) (ss : List ℕ) (fuel : ℕ) (h : Heap)
    → Implements ss h
    → Permitted ops ss
    → length ss + length ops + 3 < fuel
    → (h' : Heap) × (run_client fuel ops (addresses ss) h ≡ some (replies ops ss, h'))
      × Implements (final ops ss) h'
heap_refines [] ss fuel h stack permitted enough = (h, refl, stack)
heap_refines (alloc n ∷ ops) ss zero h stack permitted enough = absurd (omega arith)
heap_refines (alloc n ∷ ops) ss (suc fuel) h stack (small, inl (room, rest)) enough =
    let (h₁, run₁, stack₁) =
      malloc-IsStack ss (height ss) (limit - height ss) n (suc fuel) h stack (omega arith)
        (omega arith) (omega arith) in
    let (h₂, run₂, stack₂) =
      heap_refines ops (round_up n ∷ ss) (suc fuel) h₁
        (IsStack-resp (round_up n ∷ ss) h₁ (omega arith) (omega arith) stack₁) rest (omega arith) in
    let served : leb (height ss + round_up n + 12) limit ≡ true = ground arith in
    let some_block : (height ss == null) ≡ false = ground (arith, height_ge ss) in
    (h₂, rw (run₁, some_block, run₂, served) refl, rw served stack₂)
heap_refines (alloc n ∷ ops) ss (suc fuel) h stack (small, inr (large, rest)) enough =
    let (h₂, run₂, stack₂) = heap_refines ops ss (suc fuel) h stack rest (omega arith) in
    let refused : leb (height ss + round_up n + 12) limit ≡ false = ground arith in
    (
      h₂,
      rw
          (
            malloc-null ss (height ss) (limit - height ss) n fuel h stack
                (omega (arith, height_ge ss)),
            run₂,
            refused,
          )
          refl,
      rw refused stack₂,
    )
heap_refines (release ∷ ops) [] fuel h stack permitted enough =
    let (h₂, run₂, stack₂) = heap_refines ops [] fuel h stack permitted (omega arith) in
    (h₂, rw (free-null fuel h) run₂, stack₂)
heap_refines (release ∷ ops) (s ∷ ss) fuel h stack permitted enough =
    let (h₁, run₁, stack₁) =
      free-IsStack s ss (height (s ∷ ss)) (limit - height (s ∷ ss)) fuel h stack (omega arith) in
    let (h₂, run₂, stack₂) =
      heap_refines ops ss fuel h₁ (IsStack-resp ss h₁ (omega arith) (omega arith) stack₁) permitted
        (omega arith) in
    let place : height ss + s + 8 - s - 8 ≡ height ss = omega arith in
    let freed : free fuel (height ss) h ≡ some h₁ =
      subst (λ b. free fuel b h ≡ some h₁) place run₁ in
    (h₂, rw freed run₂, stack₂)
