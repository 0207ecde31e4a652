-- ===== src/Heap/Tiles/Finish.antt =====
-- The last steps of `free`, after its merges.
use armv7_os.Prelude.{
  length, ℕ, ◌+◌, ◌%◌, ◌≤◌, ◌<◌, ◌≡◌, ◌∙◌, refl, some, Option, List, [], ◌∷◌, arith, ap,
  if◌then◌else◌, ◌==◌, ◌>>=◌, ◌^◌,
}
use armv7_os.Heap.Defs.{
  Heap, heap_base, mb_hexa, null, free_bit, find_prev_free, find_next_free, update_first_free_block,
  block_below, set_next_free,
}
use armv7_os.Heap.Free.{check_merge_with_top, check_merge_with_bottom, release_block}
use armv7_os.Heap.Below.{plain_ctrl}
use armv7_os.Heap.Tiles.{
  Tile, used, hole, end_of, size_below, last_free, first_free, onto, Up, Down, Up-le, end_of-ge,
  IsTiled,
}
use armv7_os.Heap.Tiles.Walks.{find_prev_free-below, block_below-Down}
use armv7_os.Heap.Tiles.Mend.{
  IsLoose, mended, link_run, first_run, mended_blocks, mended_header, mended_first, same_mended,
}
use armv7_os.Heap.Tiles.Under.{under_lowest, under_used}

abbrev pub reset : Heap → Heap
reset h = record h { top_block_flag = 1; no_free_space = 1; merge_flag = 1 }

abbrev pub link : ℕ → ℕ → Heap → Option Heap
link fuel p h =
    if p == null then some h else find_next_free fuel p h >>= λ q. some (set_next_free p q h)

pub release_steps :
    (fuel b prev next p : ℕ) (h h₁ h₂ : Heap) {h₃ h₄ : Heap}
    → check_merge_with_top fuel b h ≡ some h₁
    → check_merge_with_bottom b h₁ ≡ h₂
    → find_next_free fuel (if h₂.merge_flag == 2 then prev else b) h₂ ≡ some next
    → find_prev_free fuel prev (set_next_free b next h₂) ≡ some p
    → link fuel p (set_next_free b next h₂) ≡ some h₃
    → update_first_free_block fuel h₃ ≡ some h₄
    → release_block fuel b prev h ≡ some (reset h₄)
unfolding release_block
release_steps fuel b prev next p h h₁ h₂ merge below follows walk links first =
    rw (merge, below, follows, walk, links, first) refl

pub IsTiled-reset :
    (ts : List Tile) (z size : ℕ) (h : Heap)
    → Up h.word heap_base 0 ts z
    → h.word z ≡ size + 3
    → size % 4 ≡ 0
    → z + size ≡ heap_base + mb_hexa
    → h.first_free_block ≡ first_free heap_base ts
    → h.heap_initialized ≡ 2
    → (15 < h.counter) × (h.counter < 2 ^ 31)
    → IsTiled ts z size (reset h)
IsTiled-reset ts z size h blocks header aligned extent first ready many = record {
  blocks = blocks;
  header = header;
  aligned = aligned;
  extent = extent;
  first = first;
  ready = ready;
  space = refl;
  unmerged = refl;
  untopped = refl;
  many = many;
}

-- After the link of a free block the rest is the same whether it has been merged or not.
module _ (rs ts : List Tile) (z size q : ℕ) (h : Heap) (loose : IsLoose rs ts z size q h)
    (ready : h.heap_initialized ≡ 2) where
  unfoldable pub finished : Heap
  finished = reset (mended rs ts z size q h loose)

  pub IsTiled-finished : IsTiled (onto rs ts) z size finished
  unfolding finished
  IsTiled-finished =
      IsTiled-reset (onto rs ts) z size (mended rs ts z size q h loose)
        (mended_blocks rs ts z size q h loose) (mended_header rs ts z size q h loose) loose.aligned
        loose.extent (mended_first rs ts z size q h loose)
        ((same_mended rs ts z size q h loose).ready ∙ ready)
        (omega (arith, (same_mended rs ts z size q h loose).count, loose.many))

  pub counter-finished : finished.counter ≡ h.counter
  unfolding finished
  counter-finished = (same_mended rs ts z size q h loose).count

-- No free block lies directly below.
abbrev pub NotOnHole : List Tile → Type 0
NotOnHole [] = Unit {0}
NotOnHole (used s ∷ rs) = Unit {0}
NotOnHole (hole s ∷ rs) = ⊥

pub no_merge_below :
    (q : ℕ) (rs : List Tile) (h : Heap)
    → NotOnHole rs
    → Down h.word q rs
    → h.word (end_of rs + 4) ≡ size_below rs
    → end_of rs ≤ heap_base + mb_hexa
    → check_merge_with_bottom (end_of rs) h ≡ h
no_merge_below q [] h not_on down prev high = under_lowest heap_base h (ground (arith, prev))
no_merge_below q (used s ∷ rs) h not_on down prev high =
    under_used (end_of (used s ∷ rs)) (end_of rs) h
      (block_below-Down h (end_of (used s ∷ rs)) q (used s) rs refl prev high)
      (ap free_bit down.2 ∙ (plain_ctrl s down.0 (omega (arith, end_of-ge rs))).0)
no_merge_below q (hole s ∷ rs) h not_on down prev high = absurd not_on

-- `h` is the heap before the merge with the block above, and `h₁` after it.
module _ (rs ts : List Tile) (z size q next : ℕ) (h₀ h h₁ : Heap)
    (loose : IsLoose rs ts z size q (set_next_free (end_of rs) next h₁))
    (ready : h₁.heap_initialized ≡ 2) (unmerged : h₁.merge_flag ≡ 1) (not_on : NotOnHole rs)
    (prev₀ : h₀.word (end_of rs + 4) ≡ size_below rs) where
  pub plain_run :
      (fuel : ℕ)
      → length rs + length ts < fuel
      → check_merge_with_top fuel (end_of rs) h ≡ some h₁
      → check_merge_with_bottom (end_of rs) h₁ ≡ h₁
      → find_next_free fuel (end_of rs) h₁ ≡ some next
      → release_block fuel (end_of rs) (block_below (end_of rs) h₀) h
        ≡ some (finished rs ts z size q (set_next_free (end_of rs) next h₁) loose ready)
  unfolding finished
  plain_run fuel enough merge below follows =
      release_steps fuel (end_of rs) (block_below (end_of rs) h₀) next (last_free rs) h h₁ h₁ merge
        below
        (ap (λ m. find_next_free fuel (if m == 2 then block_below (end_of rs) h₀ else end_of rs) h₁)
            unmerged
          ∙ follows)
        (find_prev_free-below h₀ (set_next_free (end_of rs) next h₁) fuel q rs loose.down prev₀
          (omega (
            arith,
            Up-le (set_next_free (end_of rs) next h₁).word (end_of rs) (size_below rs) ts z
                loose.up,
            loose.extent,
          ))
          (omega arith))
        (link_run rs ts z size q (set_next_free (end_of rs) next h₁) loose fuel enough)
        (first_run rs ts z size q (set_next_free (end_of rs) next h₁) loose fuel enough)
