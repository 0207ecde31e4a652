-- ===== src/Heap/Tiles/Split.antt =====
-- The split of a free block in `malloc`: the block keeps `n` bytes, and the rest is a block of its own.
use armv7_os.Prelude.{ℕ, ◌+◌, ◌-◌, ◌%◌, ◌≤◌, ◌≡◌, ◌≢◌, ◌∙◌, refl, true, false, some, arith}
use armv7_os.Heap.Defs.{
  Heap, heap_base, mb_hexa, null, free_bit, top_bit, size_bits, set_top, block_below,
  find_prev_free, find_next_free, add32, sub32, split_header, split_links, split_block,
  set_next_free, set_ctrl, ctrl,
}
use armv7_os.Heap.Bits.{set_top_lem}
use armv7_os.Heap.Below.{top_ctrl}
use armv7_os.Heap.Merge.{freed_ctrl}

-- The globals of the heap but the pointer to the first free block.
pub record SameGlobals (h h' : Heap) : Type 0 where
  pub ready : h'.heap_initialized ≡ h.heap_initialized
  pub space : h'.no_free_space ≡ h.no_free_space
  pub merge : h'.merge_flag ≡ h.merge_flag
  pub top : h'.top_block_flag ≡ h.top_block_flag
  pub count : h'.counter ≡ h.counter

pub SameGlobals-refl : (h : Heap) → SameGlobals h h
SameGlobals-refl h = record { ready = refl; space = refl; merge = refl; top = refl; count = refl }

pub SameGlobals-trans :
    {h h' h'' : Heap} → SameGlobals h h' → SameGlobals h' h'' → SameGlobals h h''
SameGlobals-trans f g = record {
  ready = g.ready ∙ f.ready;
  space = g.space ∙ f.space;
  merge = g.merge ∙ f.merge;
  top = g.top ∙ f.top;
  count = g.count ∙ f.count;
}

-- The block at `b` has `s` bytes.
module _ (b s n : ℕ) (h : Heap) (low : heap_base ≤ b) (high : b + s ≤ heap_base + mb_hexa)
    (aligned : s % 4 ≡ 0) (n_aligned : n % 4 ≡ 0) (fits : n + 12 ≤ s) where
  -- What `split_header` leaves; `e` is 1 for the top block, else 0.
  pub record AfterHeader (e : ℕ) (h' : Heap) : Type 0 where
    pub kept : (x : ℕ) → x ≢ b + n + 8 → x ≢ b + n + 12 → x ≢ b + s + 12 → h'.word x ≡ h.word x
    pub new_header : h'.word (b + n + 8) ≡ s - n - 8 + 2 + e
    pub new_prev : h'.word (b + n + 12) ≡ n
    pub above_prev : h'.word (b + s + 12) ≡ s - n - 8
    pub same : SameGlobals h h'

  -- What the split leaves; `p` is the free block before it or NULL, and `q` the one after it.
  pub record AfterSplit (e p q : ℕ) (h' : Heap) : Type 0 where
    pub kept :
        (x : ℕ)
        → x ≢ p + 8
        → x ≢ b + n + 8
        → x ≢ b + n + 12
        → x ≢ b + n + 16
        → x ≢ b + s + 12
        → h'.word x ≡ h.word x
    pub before : h'.word (p + 8) ≡ b + n + 8
    pub new_header : h'.word (b + n + 8) ≡ s - n - 8 + 2 + e
    pub new_prev : h'.word (b + n + 12) ≡ n
    pub new_link : h'.word (b + n + 16) ≡ q
    pub above_prev : h'.word (b + s + 12) ≡ s - n - 8
    pub same : SameGlobals h h'

  places :
      (add32 (add32 b n) 8 ≡ b + n + 8)
      × (add32 (sub32 (sub32 s n) 8) 2 ≡ s - n - 8 + 2)
      × (set_top (s - n - 8 + 2) ≡ s - n - 8 + 3)
      × (set_top (s - n - 8 + 3) ≡ s - n - 8 + 3)
  places = (
    omega arith,
    omega arith,
    omega (arith, set_top_lem (s - n - 8 + 2)),
    omega (arith, set_top_lem (s - n - 8 + 3)),
  )

  rest_hole :
      (free_bit (s - n - 8 + 2) ≡ true)
      × (top_bit (s - n - 8 + 2) ≡ false)
      × (size_bits (s - n - 8 + 2) ≡ s - n - 8)
  rest_hole = freed_ctrl (s - n - 8) (omega arith) (omega arith)

  rest_top :
      (free_bit (s - n - 8 + 3) ≡ true)
      × (top_bit (s - n - 8 + 3) ≡ true)
      × (size_bits (s - n - 8 + 3) ≡ s - n - 8)
  rest_top = top_ctrl (s - n - 8) (omega arith) (omega arith)

  module _ (header : h.word b ≡ s + 2) where
    own : (free_bit (s + 2) ≡ true) × (top_bit (s + 2) ≡ false) × (size_bits (s + 2) ≡ s)
    own = freed_ctrl s aligned (omega arith)

    pub AfterHeader-hole : AfterHeader 0 (split_header n b h)
    unfolding split_header
    AfterHeader-hole = record {
      kept = λ x p q r. ground (arith, header, own, places, rest_hole);
      new_header = ground (arith, header, own, places, rest_hole);
      new_prev = ground (arith, header, own, places, rest_hole);
      above_prev = ground (arith, header, own, places, rest_hole);
      same = ground (arith, header, own);
    }

    -- The links, where the search from the new block finds `q`.
    module _ (p q : ℕ) (h' : Heap) (under : p + 12 ≤ b) (after : AfterHeader 0 h') where
      abbrev between : Heap
      between = set_next_free p (b + n + 8) h'

      pub linked_hole : Heap
      linked_hole = set_next_free (b + n + 8) q between

      pub split_links_hole :
          (fuel : ℕ)
          → find_next_free fuel (b + n + 8) between ≡ some q
          → split_links fuel b (add32 (add32 b n) 8) p h' ≡ some linked_hole
      unfolding split_links linked_hole
      split_links_hole fuel found = rw (places.0, kept_top, found) refl
        where
          kept_top : top_bit (between.word b) ≡ false
          kept_top = ground (arith, after.kept b, header, own)

      pub AfterSplit-linked_hole : AfterSplit 0 p q linked_hole
      unfolding linked_hole
      AfterSplit-linked_hole = record {
        kept = λ x e o r t u. ground (arith, after.kept x);
        before = ground arith;
        new_header = ground (arith, after.new_header);
        new_prev = ground (arith, after.new_prev);
        new_link = ground arith;
        above_prev = ground (arith, after.above_prev);
        same = record {
          ready = after.same.ready;
          space = after.same.space;
          merge = after.same.merge;
          top = after.same.top;
          count = after.same.count;
        };
      }

  module _ (header : h.word b ≡ s + 3) where
    tops : (free_bit (s + 3) ≡ true) × (top_bit (s + 3) ≡ true) × (size_bits (s + 3) ≡ s)
    tops = top_ctrl s aligned (omega arith)

    pub AfterHeader-top : AfterHeader 1 (split_header n b h)
    unfolding split_header
    AfterHeader-top = record {
      kept = λ x p q r. ground (arith, header, tops, places, rest_top);
      new_header = ground (arith, header, tops, places, rest_top);
      new_prev = ground (arith, header, tops, places, rest_top);
      above_prev = ground (arith, header, tops, places, rest_top);
      same = ground (arith, header, tops);
    }

    module _ (p : ℕ) (h' : Heap) (under : p + 12 ≤ b) (after : AfterHeader 1 h') where
      pub linked_top : Heap
      linked_top =
          let h' = set_next_free p (b + n + 8) h' in
          let h' = set_next_free (b + n + 8) null h' in
          set_ctrl (b + n + 8) (set_top (ctrl (b + n + 8) h')) h'

      pub split_links_top :
          (fuel : ℕ) → split_links fuel b (add32 (add32 b n) 8) p h' ≡ some linked_top
      unfolding split_links linked_top
      split_links_top fuel = rw (places.0, kept_top) refl
        where
          kept_top : top_bit ((set_next_free p (b + n + 8) h').word b) ≡ true
          kept_top = ground (arith, after.kept b, header, tops)

      pub AfterSplit-linked_top : AfterSplit 1 p null linked_top
      unfolding linked_top
      AfterSplit-linked_top = record {
        kept = λ x e o r t u. ground (arith, after.kept x);
        before = ground arith;
        new_header = ground (arith, after.new_header, places);
        new_prev = ground (arith, after.new_prev);
        new_link = ground arith;
        above_prev = ground (arith, after.above_prev);
        same = record {
          ready = after.same.ready;
          space = after.same.space;
          merge = after.same.merge;
          top = after.same.top;
          count = after.same.count;
        };
      }

pub split_block_run :
    (fuel n b p : ℕ) (h : Heap) {h' : Heap}
    → find_prev_free fuel (block_below b h) (split_header n b h) ≡ some p
    → split_links fuel b (add32 (add32 b n) 8) p (split_header n b h) ≡ some h'
    → split_block fuel n b h ≡ some h'
unfolding split_block
split_block_run fuel n b p h walk links = rw (walk, links) refl
