-- ===== src/Tests/Tiles.antt =====
-- The heap with free blocks between reserved ones.
use armv7_os.Prelude.{
  ℕ, inl, inr, ◌+◌, ◌-◌, ◌==◌, ◌≡◌, if◌then◌else◌, refl, some, List, [], ◌∷◌, arith,
}
use armv7_os.Heap.{Heap, heap_base, mb_hexa, malloc, free, round_up}
use armv7_os.Heap.Tiles.{Tile, used, hole, IsTiled}
use armv7_os.Heap.Tiles.FirstFit.{allocate}
use armv7_os.Heap.Tiles.Malloc.{malloc_first_fit}
use armv7_os.Heap.Tiles.Reserved.{ReservedAt, Apart, malloc_keeps_reserved}
use armv7_os.Heap.Tiles.Session.{Call, request, give_back, Session}
use armv7_os.Heap.Tiles.Free.{free_coalesces}

abbrev sample_word : ℕ → ℕ
sample_word x =
    if x == heap_base
    then 12
    else if x == heap_base + 4
    then 0
    else if x == heap_base + 20
    then 102
    else if x == heap_base + 24
    then 12
    else if x == heap_base + 28
    then heap_base + 144
    else if x == heap_base + 128
    then 8
    else if x == heap_base + 132
    then 100
    else if x == heap_base + 144
    then mb_hexa - 141
    else if x == heap_base + 148
    then 8
    else 0

-- A free block of 100 bytes between reserved ones of 12 and 8.
abbrev sample : Heap
sample = record {
  word = sample_word;
  heap_initialized = 2;
  first_free_block = heap_base + 20;
  counter = 16;
  merge_flag = 1;
  top_block_flag = 1;
  no_free_space = 1;
}

abbrev sample_tiles : List Tile
sample_tiles = used 12 ∷ hole 100 ∷ used 8 ∷ []

sample-IsTiled : IsTiled sample_tiles (heap_base + 144) (mb_hexa - 144) sample
sample-IsTiled = record {
  blocks = omega arith;
  header = refl;
  aligned = refl;
  extent = refl;
  first = refl;
  ready = refl;
  space = refl;
  unmerged = refl;
  untopped = refl;
  many = omega arith;
}

-- A request of 30 bytes splits the free block.
malloc_first_fit_example :
    (h' : Heap) × (malloc 9 30 sample ≡ some (heap_base + 20, h'))
    × IsTiled (used 12 ∷ used 32 ∷ hole 60 ∷ used 8 ∷ []) (heap_base + 144) (mb_hexa - 144) h'
    × (h'.counter ≡ 17)
unfolding round_up
malloc_first_fit_example =
    malloc_first_fit sample_tiles (heap_base + 144) (mb_hexa - 144) 30 9 sample sample-IsTiled
      (omega arith) (omega arith) (omega arith) (λ few. absurd (omega arith)) (omega arith)

-- The block of 8 bytes and the free one below it become part of the top block.
free_coalesces_example :
    (h' : Heap) × (free 9 (heap_base + 128) sample ≡ some h')
    × IsTiled (used 12 ∷ []) (heap_base + 20) (mb_hexa - 20) h'
    × (h'.counter ≡ 16)
free_coalesces_example =
    free_coalesces (hole 100 ∷ used 12 ∷ []) 8 [] (heap_base + 144) (mb_hexa - 144) 9 sample
      sample-IsTiled (omega arith)

malloc_keeps_reserved_example :
    (c : ℕ) × (h' : Heap) × (malloc 9 30 sample ≡ some (c, h'))
    × ReservedAt (heap_base + 128) 8 heap_base (allocate 32 sample_tiles)
    × (h'.word (heap_base + 128) ≡ 8)
    × Apart (heap_base + 128) 8 c 32
unfolding round_up
malloc_keeps_reserved_example =
    malloc_keeps_reserved sample_tiles (heap_base + 144) (mb_hexa - 144) 30 9 (heap_base + 128) 8
      sample sample-IsTiled (omega arith) (omega arith) (omega arith) (λ few. absurd (omega arith))
      (omega arith) (inr (inl (refl, refl)))

-- 30 bytes in the free block, then the lowest block is freed, then more bytes than there are.
abbrev calls : List Call
calls = request 30 ∷ give_back heap_base ∷ request mb_hexa ∷ []

-- The second of the 64 blocks is freed, and 10 bytes are asked for.
abbrev after_ptrs : List Call
after_ptrs = give_back (heap_base + 40) ∷ request 10 ∷ []
