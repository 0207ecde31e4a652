-- ===== src/Heap/Malloc.antt =====
-- `malloc` of user/heap.c on a heap that has no free block but the top one.
use armv7_os.Prelude.{
  length, ℕ, zero, suc, ◌+◌, ◌-◌, ◌%◌, ◌^◌, ◌≤◌, ◌<◌, ◌≡◌, refl, ◌∙◌, true, some, none, List, [],
  ◌∷◌, arith, Option,
}
use armv7_os.Heap.Defs.{
  Heap, heap_base, mb_hexa, null, fitting_block, malloc, first_malloc, reserve_found, round_up,
  size_bits, free_bit, top_bit,
}
use armv7_os.Heap.Below.{plain_ctrl, top_ctrl}
use armv7_os.Heap.Stack.{IsStack}
use armv7_os.Heap.Reserve.{reserved, reserve_block_run, IsStack-reserved, counted-reserved}

-- For a request below the wrap-around, `round_up` yields the least multiple of 4 not below it.
pub round_up_lem :
    (n : ℕ) → n + 3 < 2 ^ 32 → (round_up n % 4 ≡ 0) × (n ≤ round_up n) × (round_up n < n + 4)
unfolding round_up
round_up_lem n lt = (ground arith, ground arith, ground arith)

-- The first call on a fresh heap reserves the lowest block and leaves the rest as the top block.
pub first_malloc-IsStack :
    (n : ℕ) (h : Heap)
    → n % 4 ≡ 0
    → n + 8 ≤ mb_hexa
    → h.no_free_space ≡ 1
    → h.merge_flag ≡ 1
    → IsStack (n ∷ []) (heap_base + n + 8) (mb_hexa - n - 8) (first_malloc n h).1
unfolding first_malloc
first_malloc-IsStack n h aligned fits space unmerged = record {
  blocks = (
    omega arith,
    aligned,
    ground (arith, plain_ctrl n, rest),
    ground (arith, plain_ctrl n, rest),
    (omega arith, ground (arith, plain_ctrl n, rest)),
  );
  header = ground (arith, plain_ctrl n, rest);
  aligned = omega arith;
  extent = omega arith;
  first = omega arith;
  ready = refl;
  space = space;
  unmerged = unmerged;
}
  where
    rest : size_bits (mb_hexa - n - 8) ≡ mb_hexa - n - 8
    rest = (plain_ctrl (mb_hexa - n - 8) (omega arith) (omega arith)).2

-- The search ends at the top block, whether it fits or not.
found_top :
    (ss : List ℕ) (a size n fuel : ℕ) (h : Heap)
    → IsStack ss a size h
    → n ≤ size
    → fitting_block (suc fuel) n h.first_free_block h ≡ some (some a)
unfolding fitting_block
found_top ss a size n fuel h stack fits = ground (arith, stack.first, stack.header, sized)
  where
    sized : size_bits (size + 3) ≡ size
    sized = (top_ctrl size stack.aligned (omega (arith, stack.extent))).2

found_nothing :
    (ss : List ℕ) (a size n fuel : ℕ) (h : Heap)
    → IsStack ss a size h
    → size < n
    → fitting_block (suc fuel) n h.first_free_block h ≡ some none
unfolding fitting_block
found_nothing ss a size n fuel h stack large = ground (arith, stack.first, stack.header, sized)
  where
    sized :
        (free_bit (size + 3) ≡ true) × (top_bit (size + 3) ≡ true) × (size_bits (size + 3) ≡ size)
    sized = (top_ctrl size stack.aligned (omega (arith, stack.extent)))

pub malloc_found :
    (fuel nbytes : ℕ) (h : Heap) {found : Option ℕ}
    → h.no_free_space ≡ 1
    → h.heap_initialized ≡ 2
    → fitting_block fuel (round_up nbytes) h.first_free_block h ≡ some found
    → malloc fuel nbytes h ≡ reserve_found fuel (round_up nbytes) found h
unfolding malloc
malloc_found fuel nbytes h space ready scan = ground (arith, space, ready, scan)

-- The same request with the two globals that count it.
pub malloc_counts :
    (ss : List ℕ) (a size nbytes fuel : ℕ) (h : Heap)
    → IsStack ss a size h
    → round_up nbytes + 12 ≤ size
    → length ss + 3 ≤ fuel
    → nbytes + 3 < 2 ^ 32
    → (h' : Heap) × (malloc fuel nbytes h ≡ some (a, h'))
      × IsStack (round_up nbytes ∷ ss) (a + round_up nbytes + 8) (size - round_up nbytes - 8) h'
      × (h'.counter ≡ (h.counter + 1) % 2 ^ 32)
      × (h'.top_block_flag ≡ h.top_block_flag)
malloc_counts ss a size nbytes zero h stack fits enough small = absurd (omega arith)
malloc_counts ss a size nbytes (suc fuel) h stack fits enough small =
    let n = round_up nbytes in
    let aligned = (round_up_lem nbytes small).0 in
    (
      reserved ss a size n h stack aligned fits,
      malloc_found (suc fuel) nbytes h stack.space stack.ready
            (found_top ss a size n fuel h stack (omega arith))
          ∙ (unfold reserve_found in
              reserve_block_run ss a size n h stack aligned fits (suc fuel) (omega arith)),
      IsStack-reserved ss a size n h stack aligned fits,
      (counted-reserved ss a size n h stack aligned fits).0,
      (counted-reserved ss a size n h stack aligned fits).1,
    )

-- On a heap whose reserved blocks are a stack under the top block at `a`, a request that leaves
-- the top block at least 4 bytes, the header of the rest counted, reserves the top block, returns
-- its address `a`, and pushes its rounded size on the stack: all blocks below keep their headers.
-- The fuel only has to exceed the number of reserved blocks by 3.
pub malloc-IsStack :
    (ss : List ℕ) (a size nbytes fuel : ℕ) (h : Heap)
    → IsStack ss a size h
    → round_up nbytes + 12 ≤ size
    → length ss + 3 ≤ fuel
    → nbytes + 3 < 2 ^ 32
    → (h' : Heap) × (malloc fuel nbytes h ≡ some (a, h'))
      × IsStack (round_up nbytes ∷ ss) (a + round_up nbytes + 8) (size - round_up nbytes - 8) h'
malloc-IsStack ss a size nbytes fuel h stack fits enough small =
    let (h', run, after, _, _) = malloc_counts ss a size nbytes fuel h stack fits enough small in
    (h', run, after)

-- On such a heap a request above the size of the top block returns NULL and changes nothing.
pub malloc-null :
    (ss : List ℕ) (a size nbytes fuel : ℕ) (h : Heap)
    → IsStack ss a size h
    → size < round_up nbytes
    → malloc (suc fuel) nbytes h ≡ some (null, h)
malloc-null ss a size nbytes fuel h stack large =
    malloc_found (suc fuel) nbytes h stack.space stack.ready
      (found_nothing ss a size (round_up nbytes) fuel h stack large)
    ∙ (unfold reserve_found in refl)

-- The first call with the two globals, which it leaves.
pub first_counts :
    (nbytes fuel : ℕ) (h : Heap)
    → h.no_free_space ≡ 1
    → h.heap_initialized ≡ 1
    → h.merge_flag ≡ 1
    → round_up nbytes + 8 ≤ mb_hexa
    → nbytes + 3 < 2 ^ 32
    → (h' : Heap) × (malloc fuel nbytes h ≡ some (heap_base, h'))
      × IsStack
          (round_up nbytes ∷ [])
          (heap_base + round_up nbytes + 8)
          (mb_hexa - round_up nbytes - 8)
          h'
      × (h'.counter ≡ h.counter)
      × (h'.top_block_flag ≡ h.top_block_flag)
first_counts nbytes fuel h space fresh unmerged fits small = (
  (first_malloc (round_up nbytes) h).1,
  (unfold malloc in unfold first_malloc in rw (space, fresh) refl),
  first_malloc-IsStack (round_up nbytes) h (round_up_lem nbytes small).0 fits space unmerged,
  (unfold first_malloc in refl),
  (unfold first_malloc in refl),
)

-- The first call on a fresh heap, for a request of at most 1 MiB less 8 bytes, returns the base and leaves a stack of one block.
pub malloc-fresh :
    (nbytes fuel : ℕ) (h : Heap)
    → h.no_free_space ≡ 1
    → h.heap_initialized ≡ 1
    → h.merge_flag ≡ 1
    → round_up nbytes + 8 ≤ mb_hexa
    → nbytes + 3 < 2 ^ 32
    → (h' : Heap) × (malloc fuel nbytes h ≡ some (heap_base, h'))
      × IsStack
          (round_up nbytes ∷ [])
          (heap_base + round_up nbytes + 8)
          (mb_hexa - round_up nbytes - 8)
          h'
malloc-fresh nbytes fuel h space fresh unmerged fits small =
    let (h', run, after, _, _) = first_counts nbytes fuel h space fresh unmerged fits small in
    (h', run, after)
