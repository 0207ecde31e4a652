-- ===== src/User/Blocks.antt =====
-- What `init_ptrs_array` makes of a fresh heap.
use armv7_os.Prelude.{
  ℕ, zero, suc, ◌+◌, ◌-◌, ◌*◌, ◌≤◌, ◌<◌, ◌≡◌, ◌∙◌, refl, subst, arith, some, List, [], ◌∷◌, update,
  for_loop, length, ◌^◌,
}
use armv7_os.Heap.{Heap, heap_base, mb_hexa, round_up, malloc}
use armv7_os.Heap.Stack.{IsStack, IsStack-resp}
use armv7_os.Heap.Malloc.{first_counts, malloc_counts}
use armv7_os.User.MallocThread.{ptrs_array_length, Blocks, init_ptr, init_ptrs_array}

-- `n` blocks of 32 bytes on the blocks `ss`.
abbrev pub blocks_32 : ℕ → List ℕ → List ℕ
blocks_32 zero ss = ss
blocks_32 (suc n) ss = blocks_32 n (32 ∷ ss)

-- What the rounds from `i` on leave in `ptrs`.
record Filled (rounds i a : ℕ) (ptrs ptrs' : ℕ → ℕ) : Type 0 where
  new : (j : ℕ) → j < rounds → ptrs' (i + j) ≡ a + 40 * j
  old : (j : ℕ) → j < i → ptrs' j ≡ ptrs j

rounded : round_up 0x20 ≡ 32
unfolding round_up
rounded = refl

-- What `n` calls that find a block do to the globals that count them.
abbrev pub Counts : ℕ → Heap → Heap → Type 0
Counts n h h' = (h'.counter ≡ h.counter + n) × (h'.top_block_flag ≡ h.top_block_flag)

malloc_32 :
    (ss : List ℕ) (a size fuel : ℕ) (h : Heap)
    → IsStack ss a size h
    → 44 ≤ size
    → h.counter + 1 < 2 ^ 31
    → length ss + 3 ≤ fuel
    → (h' : Heap) × (malloc fuel 0x20 h ≡ some (a, h'))
      × IsStack (32 ∷ ss) (a + 40) (size - 40) h'
      × Counts 1 h h'
malloc_32 ss a size fuel h stack room few enough =
    let (h', run, stack', count, flag) =
      malloc_counts ss a size 0x20 fuel h stack (omega (arith, rounded)) (omega arith)
        (omega arith) in
    (
      h',
      run,
      IsStack-resp (32 ∷ ss) h' (omega arith) (omega arith)
          (subst (λ n. IsStack (n ∷ ss) (a + n + 8) (size - n - 8) h') rounded stack'),
      (omega (arith, count), flag),
    )

init_ptr_run :
    (fuel i a : ℕ) (ptrs : ℕ → ℕ) (h h' : Heap)
    → i < ptrs_array_length
    → malloc fuel 0x20 h ≡ some (a, h')
    → init_ptr fuel i (ptrs, h) ≡ some (update ptrs i a, h')
unfolding init_ptr
init_ptr_run fuel i a ptrs h h' lt run = ground (arith, run)

Filled-suc :
    (rounds i a : ℕ) (ptrs ptrs' : ℕ → ℕ)
    → Filled rounds (i + 1) (a + 40) (update ptrs i a) ptrs'
    → Filled (suc rounds) i a ptrs ptrs'
Filled-suc rounds i a ptrs ptrs' filled = record {
  new = places;
  old = λ j lt. filled.old j (omega arith) ∙ ground arith;
}
  where
    places : (j : ℕ) → j < suc rounds → ptrs' (i + j) ≡ a + 40 * j
    places zero lt = ground (arith, filled.old i (omega arith))
    places (suc j) lt =
        subst (λ x. ptrs' x ≡ a + 40 * suc j) (omega arith)
          (filled.new j (omega arith) ∙ omega arith)

fill :
    (rounds i a size fuel : ℕ) (ss : List ℕ) (ptrs : ℕ → ℕ) (h : Heap)
    → IsStack ss a size h
    → i + rounds ≤ ptrs_array_length
    → rounds * 40 + 4 ≤ size
    → h.counter + rounds < 2 ^ 31
    → length ss + rounds + 3 ≤ fuel
    → (ptrs' : ℕ → ℕ) × (h' : Heap) × (for_loop rounds i (init_ptr fuel) (ptrs, h)
        ≡ some (ptrs', h'))
      × Filled rounds i a ptrs ptrs'
      × IsStack (blocks_32 rounds ss) (a + 40 * rounds) (size - 40 * rounds) h'
      × Counts rounds h h'
unfolding for_loop
fill zero i a size fuel ss ptrs h stack few room countable enough = (
  ptrs,
  h,
  refl,
  record { new = λ j lt. absurd (omega arith); old = λ j lt. refl },
  IsStack-resp ss h (omega arith) (omega arith) stack,
  (omega arith, refl),
)
fill (suc rounds) i a size fuel ss ptrs h stack few room countable enough =
    let (h₁, run₁, stack₁, counts₁) =
      malloc_32 ss a size fuel h stack (omega arith) (omega arith) (omega arith) in
    let (ptrs', h', run, filled, stack', counts) =
      fill rounds (i + 1) (a + 40) (size - 40) fuel (32 ∷ ss) (update ptrs i a) h₁ stack₁
        (omega arith) (omega arith) (omega (arith, counts₁.0)) (omega arith) in
    (
      ptrs',
      h',
      rw (init_ptr_run fuel i a ptrs h h₁ (omega arith) run₁) run,
      Filled-suc rounds i a ptrs ptrs' filled,
      IsStack-resp (blocks_32 rounds (32 ∷ ss)) h' (omega arith) (omega arith) stack',
      (omega (arith, counts.0, counts₁.0), counts.1 ∙ counts₁.1),
    )

first_round :
    (fuel rounds : ℕ) (b : Blocks) {b' : Blocks}
    → init_ptr fuel 0 b ≡ some b'
    → for_loop (suc rounds) 0 (init_ptr fuel) b ≡ for_loop rounds 1 (init_ptr fuel) b'
unfolding for_loop
first_round fuel rounds b e = rw e refl

-- On a fresh heap `init_ptrs_array` succeeds, whatever `ptrs` held: the 64 pointers are those of blocks
-- side by side from the base, 40 bytes apart, and the heap is a stack of 64 blocks of 32 bytes.
-- All calls but the first are counted.
pub init_ptrs_array-IsStack :
    (fuel : ℕ) (ptrs : ℕ → ℕ) (h : Heap)
    → h.no_free_space ≡ 1
    → h.heap_initialized ≡ 1
    → h.merge_flag ≡ 1
    → h.counter + 63 < 2 ^ 31
    → 67 ≤ fuel
    → (ptrs' : ℕ → ℕ) × (h' : Heap) × (init_ptrs_array fuel (ptrs, h) ≡ some (ptrs', h'))
      × ((j : ℕ) → j < 64 → ptrs' j ≡ heap_base + 40 * j)
      × IsStack (blocks_32 64 []) (heap_base + 2560) (mb_hexa - 2560) h'
      × Counts 63 h h'
unfolding init_ptrs_array
init_ptrs_array-IsStack fuel ptrs h space fresh unmerged countable enough =
    let (h₁, run₁, stack₁, count₁, flag₁) =
      first_counts 0x20 fuel h space fresh unmerged (omega (arith, rounded)) (omega arith) in
    let (ptrs', h', run, filled, stack', counts) =
      fill 63 1 (heap_base + 40) (mb_hexa - 40) fuel (32 ∷ []) (update ptrs 0 heap_base) h₁
        (IsStack-resp (32 ∷ []) h₁ (omega arith) (omega arith)
          (subst (λ n. IsStack (n ∷ []) (heap_base + n + 8) (mb_hexa - n - 8) h₁) rounded stack₁))
        (omega arith) (omega arith) (omega (arith, count₁)) (omega arith) in
    let all_filled = Filled-suc 63 0 heap_base ptrs ptrs' filled in
    (
      ptrs',
      h',
      first_round fuel 63 (ptrs, h) (init_ptr_run fuel 0 heap_base ptrs h h₁ (omega arith) run₁)
          ∙ run,
      (λ j lt. subst (λ x. ptrs' x ≡ heap_base + 40 * j) (omega arith) (all_filled.new j lt)),
      stack',
      (omega (arith, counts.0, count₁), counts.1 ∙ flag₁),
    )
