-- ===== src/Heap/Tiles/Mend.antt =====
-- The last steps of `malloc` and `free`: the link of the free block before the one that changed, and
-- the pointer to the first free block.
use armv7_os.Prelude.{
  length, ℕ, ◌+◌, ◌%◌, ◌^◌, ◌≤◌, ◌<◌, ◌≡◌, ◌≢◌, ◌⊎◌, inl, inr, ◌∙◌, refl, some, List, [], ◌∷◌,
  arith, ◌==◌, if◌then◌else◌, ◌>>=◌, Bool-cases,
}
use armv7_os.Heap.Defs.{
  Heap, heap_base, mb_hexa, null, find_next_free, update_first_free_block, set_next_free,
}
use armv7_os.Heap.Tiles.{
  Tile, end_of, size_below, last_free, first_free, onto, Up, Down, Up-le, Up-prev, Up-frame,
  Down-frame, end_of-ge, last_free_room, join,
}
use armv7_os.Heap.Tiles.Split.{SameGlobals}
use armv7_os.Heap.Tiles.Walks.{first_free_loop-Up, find_next_free-last}

-- The blocks `rs` and `ts` with all links in order but perhaps the one across the address between them.
pub record IsLoose (rs ts : List Tile) (z size q : ℕ) (h : Heap) : Type 0 where
  pub down : Down h.word q rs
  pub up : Up h.word (end_of rs) (size_below rs) ts z
  pub header : h.word z ≡ size + 3
  pub aligned : size % 4 ≡ 0
  pub extent : z + size ≡ heap_base + mb_hexa
  pub many : (15 < h.counter) × (h.counter < 2 ^ 31)

pub length-onto : (rs ts : List Tile) → length (onto rs ts) ≡ length rs + length ts
length-onto [] ts = omega arith
length-onto (r ∷ rs) ts = omega (arith, length-onto rs (r ∷ ts))

-- The link to `q` from the free block at `p`, if that is one.
pub link_from : ℕ → ℕ → Heap → Heap
link_from p q h = if p == null then h else set_next_free p q h

link_from_kept :
    (p q x : ℕ) (h : Heap) → p + 8 < 2 ^ 32 → x ≢ p + 8 → (link_from p q h).word x ≡ h.word x
unfolding link_from
link_from_kept p q x h low other = ground arith

link_from_link :
    (p q : ℕ) (h : Heap) → p + 8 < 2 ^ 32 → p ≢ null → (link_from p q h).word (p + 8) ≡ q
unfolding link_from
link_from_link p q h low some_free = ground arith

link_from_same : (p q : ℕ) (h : Heap) → SameGlobals h (link_from p q h)
unfolding link_from
link_from_same p q h = ground arith

module _ (rs ts : List Tile) (z size q : ℕ) (h : Heap) (loose : IsLoose rs ts z size q h) where
  pub linked : Heap
  linked = link_from (last_free rs) (first_free (end_of rs) ts) h

  pub mended : Heap
  mended = record linked { first_free_block = first_free heap_base (onto rs ts) }

  room : (last_free rs ≡ null) ⊎ ((heap_base ≤ last_free rs) × (last_free rs + 12 ≤ end_of rs))
  room = last_free_room h.word q rs loose.down

  low : end_of rs ≤ heap_base + mb_hexa
  low = omega (arith, Up-le h.word (end_of rs) (size_below rs) ts z loose.up, loose.extent)

  last_low : last_free rs + 8 < 2 ^ 32
  last_low = elim room [
    | inl none_free ↦ omega (arith, none_free)
    | inr some_free ↦ omega (arith, some_free, low)
  ]

  linked_kept : (x : ℕ) → x ≢ last_free rs + 8 → linked.word x ≡ h.word x
  unfolding linked
  linked_kept x other = link_from_kept (last_free rs) (first_free (end_of rs) ts) x h last_low other

  linked_link : last_free rs ≢ null → linked.word (last_free rs + 8) ≡ first_free (end_of rs) ts
  unfolding linked
  linked_link some_free =
      link_from_link (last_free rs) (first_free (end_of rs) ts) h last_low some_free

  blocks : Up linked.word heap_base 0 (onto rs ts) z
  blocks =
      join linked.word rs ts z
        (Down-frame h.word linked.word q (first_free (end_of rs) ts) rs
          (λ x a b other. linked_kept x other) linked_link loose.down)
        (Up-frame h.word linked.word (end_of rs) (size_below rs) (size_below rs) ts z
          (λ x a other. linked_kept x (ground (arith, room, end_of-ge rs)))
          (linked_kept (end_of rs + 4) (ground (arith, room, end_of-ge rs))
            ∙ Up-prev h.word (end_of rs) (size_below rs) ts z loose.up)
          loose.up)

  same_header : linked.word z ≡ size + 3
  same_header =
      linked_kept z
        (ground (arith, room, end_of-ge rs, Up-le h.word (end_of rs) (size_below rs) ts z loose.up))
      ∙ loose.header

  module _ (fuel : ℕ) (enough : length rs + length ts < fuel) where
    pub link_run :
        (if last_free rs == null
          then some h
          else (find_next_free fuel (last_free rs) h >>= λ n.
              some (set_next_free (last_free rs) n h)))
        ≡ some linked
    unfolding linked link_from
    link_run = elim (Bool-cases (last_free rs == null)) [
      | inl none_free ↦ rw none_free refl
      | inr some_free ↦
          rw
            (
              some_free,
              find_next_free-last h z size loose.header loose.aligned loose.extent loose.many fuel q
                  rs ts loose.down loose.up (ground arith) enough,
            )
            refl
    ]

    pub first_run : update_first_free_block fuel linked ≡ some mended
    unfolding update_first_free_block mended
    first_run =
        first_free_loop-Up linked z size same_header loose.aligned loose.extent fuel heap_base 0
          (onto rs ts) blocks (omega (arith, length-onto rs ts))

  pub mended_blocks : Up mended.word heap_base 0 (onto rs ts) z
  unfolding mended
  mended_blocks = blocks

  pub mended_header : mended.word z ≡ size + 3
  unfolding mended
  mended_header = same_header

  pub mended_first : mended.first_free_block ≡ first_free heap_base (onto rs ts)
  unfolding mended
  mended_first = refl

  pub same_mended : SameGlobals h mended
  unfolding mended linked
  same_mended =
      let same = link_from_same (last_free rs) (first_free (end_of rs) ts) h in
      record {
        ready = same.ready;
        space = same.space;
        merge = same.merge;
        top = same.top;
        count = same.count;
      }
