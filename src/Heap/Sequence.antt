-- ===== src/Heap/Sequence.antt =====
-- Sequences of calls of `malloc`.
use armv7_os.Prelude.{
  length, ℕ, ◌+◌, ◌-◌, ◌^◌, ◌≤◌, ◌<◌, ◌≡◌, refl, arith, Option, some, List, [], ◌∷◌, ◌>>=◌,
}
use armv7_os.Heap.Defs.{Heap, malloc, round_up}
use armv7_os.Heap.Stack.{IsStack, IsStack-resp}
use armv7_os.Heap.Malloc.{malloc-IsStack}

-- The calls with the arguments `ns`, in their order, and their results.
abbrev pub malloc_all : ℕ → List ℕ → Heap → Option (List ℕ × Heap)
malloc_all fuel [] h = some ([], h)
malloc_all fuel (n ∷ ns) h = do
  (b, h) ← malloc fuel n h
  (bs, h) ← malloc_all fuel ns h
  some (b ∷ bs, h)

-- The blocks side by side from `a` on, each with its header, and the bytes that they take.
abbrev pub side_by_side : ℕ → List ℕ → List ℕ
side_by_side a [] = []
side_by_side a (n ∷ ns) = a ∷ side_by_side (a + round_up n + 8) ns

abbrev pub total : List ℕ → ℕ
total [] = 0
total (n ∷ ns) = round_up n + 8 + total ns

abbrev pub onto : List ℕ → List ℕ → List ℕ
onto [] ss = ss
onto (n ∷ ns) ss = onto ns (round_up n ∷ ss)

abbrev pub AllBelow : ℕ → List ℕ → Type 0
AllBelow bound [] = bound ≡ bound
AllBelow bound (n ∷ ns) = (n < bound) × AllBelow bound ns

-- On a heap whose reserved blocks are a stack under the top block at `a`, every sequence of requests
-- whose blocks, headers included, leave 4 bytes of the top block succeeds: the blocks lie side by
-- side from `a` on, and the heap is a stack again, with them on it.
pub malloc_all-IsStack :
    (ns : List ℕ) (ss : List ℕ) (a size fuel : ℕ) (h : Heap)
    → IsStack ss a size h
    → total ns + 4 ≤ size
    → length ss + length ns + 3 ≤ fuel
    → AllBelow (2 ^ 32 - 3) ns
    → (h' : Heap) × (malloc_all fuel ns h ≡ some (side_by_side a ns, h'))
      × IsStack (onto ns ss) (a + total ns) (size - total ns) h'
malloc_all-IsStack [] ss a size fuel h stack fits enough small =
    (h, refl, IsStack-resp ss h (omega arith) (omega arith) stack)
malloc_all-IsStack (n ∷ ns) ss a size fuel h stack fits enough small =
    let (h₁, run, stack₁) =
      malloc-IsStack ss a size n fuel h stack (omega arith) (omega arith) (omega arith) in
    let (h₂, run₂, stack₂) =
      malloc_all-IsStack ns (round_up n ∷ ss) (a + round_up n + 8) (size - round_up n - 8) fuel h₁
        stack₁ (omega arith) (omega arith) small.1 in
    (
      h₂,
      rw (run, run₂) refl,
      IsStack-resp (onto ns (round_up n ∷ ss)) h₂ (omega arith) (omega arith) stack₂,
    )
