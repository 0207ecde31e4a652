-- ===== src/Heap/Draw.antt =====
-- The prints of the heap, `debug_heap` and `draw_heap` of user/heap.c, as lists of calls of
-- `usr_kprintf`.
use mathlib.Core.List.{append_assoc}
use armv7_os.Prelude.{
  length, String, sym, false, ℕ, zero, suc, ◌+◌, ◌-◌, ◌≤◌, ◌<◌, ◌≡◌, refl, ◌∙◌, ap, arith, Option,
  some, none, List, [], ◌∷◌, ◌++◌, ◌>>=◌, if◌then◌else◌, bit_and,
}
use armv7_os.Heap.Defs.{
  Heap, heap_base, mb_hexa, ctrl, prev_size, next_free, free_block, top_block, block_size,
  block_above, block_below, block_is_free, block_is_top,
}
use armv7_os.Heap.Below.{Below, plain_ctrl}
use armv7_os.Heap.Stack.{IsStack, top_size}

-- A format and the words of its arguments.
abbrev pub PrintCall : Type 0
PrintCall = String × List ℕ

abbrev pub header_words : ℕ → Heap → List ℕ
header_words b h =
    b
    ∷ block_size b h
    ∷ bit_and (ctrl b h) free_block
    ∷ bit_and (ctrl b h) top_block
    ∷ prev_size b h
    ∷ []

unfoldable pub debug_heap : ℕ → Heap → List PrintCall
debug_heap b h =
    (
      "memory available: %i\tfirst_free_block %p\n",
      block_size h.first_free_block h ∷ h.first_free_block ∷ [],
    )
    ∷ ("Block at %p\t size %i\t FREE %i TOP %i\t prev_size %i\n", header_words b h)
    ∷ ("Prev at %p\t size %i\t FREE %i TOP %i\t prev_size %i\n", header_words (block_below b h) h)
    ∷ ("Next at %p\t size %i\t FREE %i TOP %i\t prev_size %i\n\n", header_words (block_above b h) h)
    ∷ []

-- The three prints of `draw_heap` for a block.
unfoldable pub draw_block : ℕ → Heap → List PrintCall
draw_block b h =
    let next = block_above b h in
    let size = block_size b h ∷ prev_size b h ∷ [] in
    let last : PrintCall = (
      "TOP %i                         ----------- next %p size %i\n",
      bit_and (ctrl b h) top_block ∷ next ∷ block_size next h ∷ [],
    ) in
    if block_is_free b h
    then ("block at %p           -----------\t\t next_free at %p\n", b ∷ next_free b h ∷ [])
      ∷ ("size %i p_size %i    [        ]\n", size)
      ∷ last
      ∷ []
    else ("block at %p        -----------\n", b ∷ [])
      ∷ ("size %i p_size %i    [xxxxxxxxx]\n", size)
      ∷ last
      ∷ []

-- The do-while loop at block `b`, which stops behind a top block; the global `draw_heah_flag`, 1
-- before and after `draw_heap`, only ends it.
unfoldable pub draw_loop : ℕ → ℕ → Heap → Option (List PrintCall)
unfolding draw_block
draw_loop zero b h = none
draw_loop (suc fuel) b h =
    let rest = draw_loop fuel (block_above b h) h >>= λ calls. some (draw_block b h ++ calls) in
    if block_is_top b h then some (draw_block b h) else rest

unfoldable pub draw_heap : ℕ → Heap → Option (List PrintCall)
unfolding draw_loop
draw_heap fuel h = draw_loop fuel heap_base h

-- The prints for the reserved blocks of sizes `ss` below `a`, the lowest first.
abbrev pub drawn : ℕ → List ℕ → Heap → List PrintCall
drawn a [] h = []
drawn a (s ∷ ss) h = drawn (a - s - 8) ss h ++ draw_block (a - s - 8) h

draw_loop-Below :
    (f a : ℕ) (ss : List ℕ) (h : Heap) (calls : List PrintCall)
    → Below h.word a ss
    → a ≤ heap_base + mb_hexa
    → (fuel : ℕ) → fuel ≡ length ss + f
    → draw_loop f a h ≡ some calls
    → draw_loop fuel heap_base h ≡ some (drawn a ss h ++ calls)
draw_loop-Below f a [] h calls below top fuel e rest =
    let same : fuel ≡ f = omega arith in let place : a ≡ heap_base = below.0 in cc
draw_loop-Below f a (s ∷ ss) h calls below top fuel e rest =
    draw_loop-Below (suc f) (a - s - 8) ss h (draw_block (a - s - 8) h ++ calls) below.4
      (omega arith) fuel (omega arith) passes
    ∙ ap some (sym (append_assoc (drawn (a - s - 8) ss h) (draw_block (a - s - 8) h) calls))
  where
    passes : draw_loop (suc f) (a - s - 8) h ≡ some (draw_block (a - s - 8) h ++ calls)
    passes =
        let not_top : block_is_top (a - s - 8) h ≡ false = ground (arith, plain_ctrl s) in
        let above : block_above (a - s - 8) h ≡ a = ground (arith, plain_ctrl s) in
        unfold draw_loop in rw (not_top, above, rest) refl

-- On a heap whose reserved blocks are a stack under the top block, `draw_heap` ends, with fuel for as
-- many rounds as there are blocks, and prints every block once, from the lowest to the top block.
pub draw_heap-IsStack :
    (ss : List ℕ) (a size fuel : ℕ) (h : Heap)
    → IsStack ss a size h
    → length ss < fuel
    → draw_heap fuel h ≡ some (drawn a ss h ++ draw_block a h)
unfolding draw_heap
draw_heap-IsStack ss a size fuel h stack enough =
    draw_loop-Below (suc (fuel - length ss - 1)) a ss h (draw_block a h) stack.blocks
      (omega (arith, stack.extent)) fuel (omega arith)
      (unfold draw_loop in ground (arith, top_size ss a size h stack))
