-- ===== src/Tests/Heaps.antt =====
-- The heap of the user programs.
use armv7_os.Prelude.{
  ◌+◌, ◌-◌, ◌≡◌, refl, arith, some, List, [], ◌∷◌, inl, inr, false, if◌then◌else◌, ◌==◌,
}
use armv7_os.Heap.{
  Heap, heap_base, mb_hexa, malloc, round_up, first_malloc, null, free, block_is_free,
}
use armv7_os.Heap.Stack.{IsStack}
use armv7_os.Heap.Refine.{HeapOp, alloc, release, run_client, Permitted, Implements, heap_refines}
use armv7_os.Heap.Full.{malloc_full_again}
use armv7_os.Heap.FreeList.{malloc_reserved_again}
use armv7_os.Heap.Malloc.{first_malloc-IsStack, malloc-fresh}

-- The heap before the first call, and after `malloc(12)`.
abbrev pub blank_heap : Heap
blank_heap = record {
  word = λ x. 0;
  heap_initialized = 1;
  first_free_block = heap_base;
  counter = 1;
  merge_flag = 1;
  top_block_flag = 1;
  no_free_space = 1;
}

abbrev one_block : Heap
one_block = (first_malloc 12 blank_heap).1

one_block-IsStack : IsStack (12 ∷ []) (heap_base + 20) (mb_hexa - 20) one_block
one_block-IsStack = first_malloc-IsStack 12 blank_heap refl (omega arith) refl refl

malloc-fresh_example :
    (h' : Heap) × (malloc 0 10 blank_heap ≡ some (heap_base, h'))
    × IsStack (round_up 10 ∷ []) (heap_base + round_up 10 + 8) (mb_hexa - round_up 10 - 8) h'
malloc-fresh_example =
    malloc-fresh 10 0 blank_heap refl refl refl (unfold round_up in omega arith) (omega arith)

-- Reserved blocks of 12 and 20 bytes under the top block.
abbrev two_blocks : Heap
two_blocks = record {
  word = λ x.
      if x == heap_base
      then 12
      else if x == heap_base + 20
      then 20
      else if x == heap_base + 24
      then 12
      else if x == heap_base + 48
      then mb_hexa - 48 + 3
      else if x == heap_base + 52
      then 20
      else 0;
  heap_initialized = 2;
  first_free_block = heap_base + 48;
  counter = 2;
  merge_flag = 1;
  top_block_flag = 1;
  no_free_space = 1;
}

two_blocks-IsStack : IsStack (20 ∷ 12 ∷ []) (heap_base + 48) (mb_hexa - 48) two_blocks
two_blocks-IsStack = omega arith

-- A request is served, one is refused, and the three blocks are freed.
abbrev session : List HeapOp
session = alloc 5 ∷ alloc 0x20_0000 ∷ release ∷ release ∷ release ∷ release ∷ []

session-Permitted : Permitted session (20 ∷ 12 ∷ [])
session-Permitted = (
  omega arith,
  inl (unfold round_up in omega arith, (omega arith, inr (unfold round_up in omega arith, tt))),
)

heap_refines_example :
    (h' : Heap) × (run_client 12 session ((heap_base + 20) ∷ heap_base ∷ []) two_blocks
      ≡ some ((heap_base + 48) ∷ null ∷ [], h'))
    × Implements [] h'
unfolding round_up
heap_refines_example =
    heap_refines session (20 ∷ 12 ∷ []) 12 two_blocks two_blocks-IsStack session-Permitted
      (omega arith)

malloc_reserved_again_example :
    (h' h'' : Heap) × (free 2 heap_base two_blocks ≡ some h')
    × (block_is_free (heap_base + 20) h' ≡ false)
    × (malloc 2 16 h' ≡ some (heap_base + 20, h''))
malloc_reserved_again_example =
    malloc_reserved_again 20 12 [] (heap_base + 48) (mb_hexa - 48) 16 2 two_blocks
      two_blocks-IsStack (omega arith) (omega arith) (omega arith) (unfold round_up in omega arith)
      (unfold round_up in omega arith) (unfold round_up in omega arith) (omega arith)

-- The heap that `two_blocks` is, asked for all of its top block.
malloc_full_again_example :
    (h' h'' : Heap) × (malloc 3 (mb_hexa - 48) two_blocks ≡ some (heap_base + 48, h'))
    × (block_is_free (heap_base + 48) h' ≡ false)
    × (malloc 3 (mb_hexa - 49) h' ≡ some (heap_base + 48, h''))
malloc_full_again_example =
    malloc_full_again (20 ∷ 12 ∷ []) (heap_base + 48) (mb_hexa - 48) (mb_hexa - 48) (mb_hexa - 49) 3
      two_blocks two_blocks-IsStack (unfold round_up in omega arith)
      (unfold round_up in omega arith) (omega arith)
