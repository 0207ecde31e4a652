-- ===== src/Heap/Tiles/Under.antt =====
-- `check_merge_with_bottom` of `free`, at a block that has been marked as free.
use armv7_os.Prelude.{
  ℕ, zero, suc, ◌+◌, ◌-◌, ◌/◌, ◌%◌, ◌≤◌, ◌<◌, ◌≡◌, ◌≢◌, refl, false, true, arith, bit_or,
}
use armv7_os.Bits.{bit_or_split, bit_or-zero}
use armv7_os.Heap.Defs.{
  Heap, heap_base, mb_hexa, free_bit, top_bit, size_bits, set_top, block_below,
}
use armv7_os.Heap.Free.{check_merge_with_bottom, merge_below, set_free}
use armv7_os.Heap.Bits.{set_top_lem}
use armv7_os.Heap.Below.{top_ctrl}
use armv7_os.Heap.Merge.{freed_ctrl}

-- No block lies below, or a reserved one.
pub under_lowest :
    (b : ℕ) (h : Heap) → block_below b h ≡ heap_base - 8 → check_merge_with_bottom b h ≡ h
unfolding check_merge_with_bottom
under_lowest b h lowest = ground (arith, lowest)

pub under_used :
    (b prev : ℕ) (h : Heap)
    → block_below b h ≡ prev
    → free_bit (h.word prev) ≡ false
    → check_merge_with_bottom b h ≡ h
unfolding check_merge_with_bottom
under_used b prev h below reserved = ground (arith, below, reserved)

pub under_free :
    (b prev : ℕ) (h : Heap)
    → block_below b h ≡ prev
    → heap_base ≤ prev
    → free_bit (h.word prev) ≡ true
    → check_merge_with_bottom b h ≡ merge_below b prev h
unfolding check_merge_with_bottom
under_free b prev h below ge is_free = ground (arith, below, is_free)

two_bits : (r : ℕ) → r < 4 → r / 2 % 2 ≡ 1 → bit_or r 2 ≡ r
two_bits zero lt is_free = absurd (omega arith)
two_bits (suc zero) lt is_free = absurd (omega arith)
two_bits (suc (suc zero)) lt is_free = refl
two_bits (suc (suc (suc zero))) lt is_free = refl
two_bits (suc (suc (suc (suc r)))) lt is_free = absurd (omega arith)

set_free_lem : (c : ℕ) → c / 2 % 2 ≡ 1 → set_free c ≡ c
unfolding set_free
set_free_lem c is_free =
    ground (arith, bit_or_split 2 (c / 4) (c % 4) 0 2, bit_or-zero (c / 4), two_bits (c % 4))

-- The block below, of `r` bytes, is free; `b` has `s` bytes and is not the top block.
module _ (prev r s : ℕ) (h : Heap) (low : heap_base ≤ prev)
    (high : prev + r + 8 + s + 8 ≤ heap_base + mb_hexa) (header : h.word prev ≡ r + 2)
    (aligned : r % 4 ≡ 0) (room : 4 ≤ s) (s_aligned : s % 4 ≡ 0) where
  abbrev b : ℕ
  b = prev + r + 8

  -- What the merge leaves.
  pub record AfterUnder (h' : Heap) : Type 0 where
    pub kept : (x : ℕ) → x ≢ prev → x ≢ b → x ≢ b + 8 → x ≢ b + s + 12 → h'.word x ≡ h.word x
    pub own_header : h'.word prev ≡ r + s + 8 + 2
    pub above_prev : h'.word (b + s + 12) ≡ r + s + 8
    pub ready : h'.heap_initialized ≡ h.heap_initialized
    pub count : h'.counter ≡ h.counter
    pub marked : h'.merge_flag ≡ 2

  module _ (own_header : h.word b ≡ s + 2) where
    own : (free_bit (s + 2) ≡ true) × (top_bit (s + 2) ≡ false) × (size_bits (s + 2) ≡ s)
    own = freed_ctrl s s_aligned (omega arith)

    still_free : set_free (s + 2) ≡ s + 2
    still_free = set_free_lem (s + 2) (omega arith)

    sum : size_bits (r + s + 8 + 2) ≡ r + s + 8
    sum = (freed_ctrl (r + s + 8) (omega arith) (omega arith)).2

    pub AfterUnder-merge_below : AfterUnder (merge_below b prev h)
    unfolding merge_below
    AfterUnder-merge_below = record {
      kept = λ x o p q v. ground (arith, header, own_header, own, still_free, sum);
      own_header = ground (arith, header, own_header, own, still_free, sum);
      above_prev = ground (arith, header, own_header, own, still_free, sum);
      ready = ground (arith, header, own_header, own, still_free, sum);
      count = ground (arith, header, own_header, own, still_free, sum);
      marked = refl;
    }

-- The block below is free, and `b` is the top block.
module _ (prev r s : ℕ) (h : Heap) (low : heap_base ≤ prev)
    (extent : prev + r + 8 + s ≡ heap_base + mb_hexa) (header : h.word prev ≡ r + 2)
    (aligned : r % 4 ≡ 0) (s_aligned : s % 4 ≡ 0) (own_header : h.word (prev + r + 8) ≡ s + 3) where
  -- What the merge leaves.
  pub record AfterUnderTop (h' : Heap) : Type 0 where
    pub kept : (x : ℕ) → x ≢ prev → x ≢ prev + r + 8 → x ≢ prev + r + 16 → h'.word x ≡ h.word x
    pub top_header : h'.word prev ≡ r + s + 8 + 3
    pub ready : h'.heap_initialized ≡ h.heap_initialized
    pub count : h'.counter ≡ h.counter
    pub marked : h'.merge_flag ≡ 2

  tops : (free_bit (s + 3) ≡ true) × (top_bit (s + 3) ≡ true) × (size_bits (s + 3) ≡ s)
  tops = top_ctrl s s_aligned (omega (arith, extent))

  still_top : set_free (s + 3) ≡ s + 3
  still_top = set_free_lem (s + 3) (omega arith)

  now_top : set_top (r + s + 8 + 2) ≡ r + s + 8 + 3
  now_top = omega (arith, set_top_lem (r + s + 8 + 2))

  pub AfterUnderTop-merge_below : AfterUnderTop (merge_below (prev + r + 8) prev h)
  unfolding merge_below
  AfterUnderTop-merge_below = record {
    kept = λ x o p q. ground (arith, header, own_header, tops, still_top, extent);
    top_header = ground (arith, header, own_header, tops, still_top, now_top, extent);
    ready = ground (arith, header, own_header, tops, still_top, extent);
    count = ground (arith, header, own_header, tops, still_top, extent);
    marked = refl;
  }
