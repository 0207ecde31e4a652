-- ===== src/Heap/Tiles/Begin.antt =====
-- A heap of reserved blocks alone, once it has had more than 15 calls, as a list of blocks.
use armv7_os.Prelude.{
  ℕ, ◌+◌, ◌-◌, ◌≤◌, ◌<◌, ◌≡◌, refl, ◌∙◌, ap, sym, subst, List, [], ◌∷◌, map, arith, ◌^◌,
}
use armv7_os.Heap.Defs.{Heap, heap_base}
use armv7_os.Heap.Below.{Below}
use armv7_os.Heap.Stack.{IsStack}
use armv7_os.Heap.Tiles.{Tile, used, Up, onto, first_free, IsTiled}

-- The blocks of a stack, the lowest first.
abbrev pub stack_tiles : List ℕ → List Tile
stack_tiles ss = onto (map used ss) []

abbrev pub AllRoomy : List ℕ → Type 0
AllRoomy [] = Unit {0}
AllRoomy (s ∷ ss) = (4 ≤ s) × AllRoomy ss

-- The size of the highest one.
abbrev highest : List ℕ → ℕ
highest [] = 0
highest (s ∷ ss) = s

Below-highest : (w : ℕ → ℕ) (a : ℕ) (ss : List ℕ) → Below w a ss → w (a + 4) ≡ highest ss
Below-highest w a [] below = below.1
Below-highest w a (s ∷ ss) below = below.2

Up-onto :
    (w : ℕ → ℕ) (a z : ℕ) (ss : List ℕ) (ts : List Tile)
    → AllRoomy ss
    → Below w a ss
    → Up w a (highest ss) ts z
    → Up w heap_base 0 (onto (map used ss) ts) z
Up-onto w a z [] ts roomy below up = subst (λ x. Up w x 0 ts z) below.0 up
Up-onto w a z (s ∷ ss) ts roomy below up =
    Up-onto w (a - s - 8) z ss (used s ∷ ts) roomy.1 below.4 (
      below.1,
      roomy.0,
      below.3,
      Below-highest w (a - s - 8) ss below.4,
      subst (λ x. Up w x s ts z) (omega (arith, below.0)) up,
    )

first_free-onto :
    (w : ℕ → ℕ) (a : ℕ) (ss : List ℕ) (ts : List Tile)
    → Below w a ss
    → first_free heap_base (onto (map used ss) ts) ≡ first_free a ts
first_free-onto w a [] ts below = ap (λ x. first_free x ts) (sym below.0)
first_free-onto w a (s ∷ ss) ts below =
    first_free-onto w (a - s - 8) ss (used s ∷ ts) below.4
    ∙ ap (λ x. first_free x ts) (omega (arith, below.0))

pub IsStack-IsTiled :
    (ss : List ℕ) (a size : ℕ) (h : Heap)
    → IsStack ss a size h
    → AllRoomy ss
    → (15 < h.counter) × (h.counter < 2 ^ 31)
    → h.top_block_flag ≡ 1
    → IsTiled (stack_tiles ss) a size h
IsStack-IsTiled ss a size h stack roomy many marked = record {
  blocks =
      Up-onto h.word a a ss [] roomy stack.blocks (refl, Below-highest h.word a ss stack.blocks);
  header = stack.header;
  aligned = stack.aligned;
  extent = stack.extent;
  first = stack.first ∙ sym (first_free-onto h.word a ss [] stack.blocks);
  ready = stack.ready;
  space = stack.space;
  unmerged = stack.unmerged;
  untopped = marked;
  many = many;
}
