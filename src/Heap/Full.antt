-- ===== src/Heap/Full.antt =====
-- `malloc` of exactly the bytes that the top block has, and the next call.
use armv7_os.Prelude.{
  length, ℕ, zero, suc, ◌+◌, ◌-◌, ◌%◌, ◌^◌, ◌≤◌, ◌<◌, ◌≡◌, ◌≢◌, inl, inr, refl, ◌∙◌, true, false,
  some, List, arith, ltb,
}
use armv7_os.Heap.Defs.{
  Heap, heap_base, mb_hexa, null, find_prev_free, first_free_loop, free_bit, top_bit, size_bits,
  block_below, block_size, block_is_free, reserve_header, keep_rest, relink, reserve_block, splits,
  sub32, fitting_block, reserve_found, malloc, round_up,
}
use armv7_os.Heap.Bits.{size_bits_lem, free_bit_iff, top_bit_iff}
use armv7_os.Heap.Below.{Below, Below-frame, plain_ctrl, find_prev_free-null, first_free_loop-Below}
use armv7_os.Heap.Stack.{IsStack, a_ge, top_size, beneath_cases}
use armv7_os.Heap.Malloc.{malloc_found}

unsplit_steps :
    (fuel n b : ℕ) (h : Heap) {h₂ h₃ h₄ : Heap}
    → ltb n (block_size b h) ≡ false
    → splits (block_size b h) n ≡ false
    → reserve_header n b (block_below b h) h ≡ h₂
    → find_prev_free fuel b h₂ ≡ some null
    → keep_rest b (sub32 (block_size b h) n) h₂ ≡ h₃
    → relink fuel null h₃ ≡ some h₄
    → reserve_block fuel n b h ≡ some (b, h₄)
unfolding reserve_block
unsplit_steps fuel n b h smaller splits header walk rest linked =
    rw (smaller, splits, header, walk, rest, linked) refl

-- The control word of a reserved top block.
reserved_top_ctrl :
    (s : ℕ)
    → s % 4 ≡ 0
    → s < 2 ^ 31
    → (free_bit (s + 1) ≡ false) × (top_bit (s + 1) ≡ true) × (size_bits (s + 1) ≡ s)
reserved_top_ctrl s aligned lt = (
  ground (arith, free_bit_iff (s + 1)),
  (top_bit_iff (s + 1)).1 (omega arith),
  omega (arith, size_bits_lem (s + 1) (omega arith)),
)

-- The reserved blocks of sizes `ss`, and above them the top block, reserved or free, where the
-- search of `malloc` starts.
record IsWhole (ss : List ℕ) (a n : ℕ) (h : Heap) : Type 0 where
  blocks : Below h.word a ss
  tops : (top_bit (h.word a) ≡ true) × (size_bits (h.word a) ≡ n)
  base_le : heap_base ≤ a
  aligned : n % 4 ≡ 0
  extent : a + n ≡ heap_base + mb_hexa
  first : h.first_free_block ≡ a
  ready : h.heap_initialized ≡ 2
  space : h.no_free_space ≡ 1

IsStack-IsWhole : (ss : List ℕ) (a n : ℕ) (h : Heap) → IsStack ss a n h → IsWhole ss a n h
IsStack-IsWhole ss a n h stack = record {
  blocks = stack.blocks;
  tops = ((top_size ss a n h stack).1, (top_size ss a n h stack).2);
  base_le = a_ge ss a n h stack;
  aligned = stack.aligned;
  extent = stack.extent;
  first = stack.first;
  ready = stack.ready;
  space = stack.space;
}

module _ (ss : List ℕ) (a n : ℕ) (h : Heap) (whole : IsWhole ss a n h) where
  open whole use {tops, base_le}

  plain : (free_bit n ≡ false) × (top_bit n ≡ false) × (size_bits n ≡ n)
  plain = plain_ctrl n whole.aligned (omega (arith, whole.extent))

  headed : Heap
  headed = reserve_header n a (block_below a h) h

  record AfterHeader (h' : Heap) : Type 0 where
    kept : (x : ℕ) → x ≢ a → x ≢ a + 4 → h'.word x ≡ h.word x
    own_header : h'.word a ≡ n
    own_prev : h'.word (a + 4) ≡ h.word (a + 4)
    marked : h'.top_block_flag ≡ 2
    same_ready : h'.heap_initialized ≡ 2
    same_space : h'.no_free_space ≡ 1

  AfterHeader-headed : AfterHeader headed
  unfolding headed reserve_header
  AfterHeader-headed = record {
    kept = λ x p q. ground (arith, plain, tops, whole.extent);
    own_header = ground (arith, plain, tops, whole.extent);
    own_prev = elim (beneath_cases ss a h whole.blocks (omega (arith, whole.extent))) [
      | inl lowest ↦ ground (arith, plain, tops, lowest, whole.extent, base_le)
      | inr above ↦ ground (arith, plain, tops, above, whole.extent, base_le)
    ];
    marked = ground (arith, plain, tops);
    same_ready = ground (arith, plain, tops, whole.ready);
    same_space = ground (arith, plain, tops, whole.space);
  }

  same_blocks :
      (h' : Heap)
      → ((x : ℕ) → x ≢ a → x ≢ a + 4 → h'.word x ≡ h.word x)
      → h'.word (a + 4) ≡ h.word (a + 4)
      → Below h'.word a ss
  same_blocks h' kept prev =
      Below-frame h.word h'.word a ss (λ x p q. kept x (omega arith) (omega arith)) prev
        whole.blocks

  -- The top block with all its bytes reserved, and its flag TOP_BLOCK kept.
  filled : Heap
  filled = keep_rest a (sub32 (block_size a h) n) headed

  filled_header : filled.word a ≡ n + 1
  unfolding filled keep_rest
  filled_header =
      ground (arith, AfterHeader-headed.own_header, AfterHeader-headed.marked, tops, whole.extent)

  filled_kept : (x : ℕ) → x ≢ a → filled.word x ≡ headed.word x
  unfolding filled keep_rest
  filled_kept x p = ground (arith, AfterHeader-headed.marked)

  filled_flags : (filled.heap_initialized ≡ 2) × (filled.no_free_space ≡ 1)
  unfolding filled keep_rest
  filled_flags = (
    ground (arith, AfterHeader-headed.marked, AfterHeader-headed.same_ready),
    ground (arith, AfterHeader-headed.marked, AfterHeader-headed.same_space),
  )

  abbrev full : Heap
  full = record filled { first_free_block = a; counter = (filled.counter + 1) % 2 ^ 32 }

  full_top : (free_bit (n + 1) ≡ false) × (top_bit (n + 1) ≡ true) × (size_bits (n + 1) ≡ n)
  full_top = reserved_top_ctrl n whole.aligned (omega (arith, whole.extent))

  relink_run : (fuel : ℕ) → length ss < fuel → relink fuel null filled ≡ some full
  unfolding relink
  relink_run fuel enough = rw walk refl
    where
      stops :
          (f : ℕ) → first_free_loop (suc f) a filled ≡ some (record filled { first_free_block = a })
      stops f = unfold first_free_loop in ground (arith, full_top, filled_header)

      walk : first_free_loop fuel heap_base filled ≡ some (record filled { first_free_block = a })
      walk =
          first_free_loop-Below (suc (fuel - length ss - 1)) a ss filled
            (same_blocks filled (λ x p q. filled_kept x p ∙ AfterHeader-headed.kept x p q)
              (filled_kept (a + 4) (omega arith) ∙ AfterHeader-headed.own_prev))
            (omega (arith, whole.extent)) fuel (omega arith)
          ∙ stops (fuel - length ss - 1)

  reserve_all : (fuel : ℕ) → length ss < fuel → reserve_block fuel n a h ≡ some (a, full)
  unfolding headed filled
  reserve_all fuel enough =
      unsplit_steps fuel n a h (ground (arith, tops)) (ground (arith, tops)) refl
        (find_prev_free-null fuel a n ss headed
          (same_blocks headed AfterHeader-headed.kept AfterHeader-headed.own_prev)
          AfterHeader-headed.own_header whole.aligned (omega (arith, whole.extent))
          (omega (arith, whole.extent)) enough)
        refl (relink_run fuel enough)

  found : (fuel m : ℕ) → m ≤ n → fitting_block (suc fuel) m h.first_free_block h ≡ some (some a)
  unfolding fitting_block
  found fuel m fits = ground (arith, whole.first, tops)

  takes_all :
      (fuel nbytes : ℕ)
      → round_up nbytes ≡ n
      → length ss < suc fuel
      → malloc (suc fuel) nbytes h ≡ some (a, full)
  takes_all fuel nbytes size enough =
      malloc_found (suc fuel) nbytes h whole.space whole.ready
        (found fuel (round_up nbytes) (omega arith))
      ∙ (unfold reserve_found in rw size (reserve_all (suc fuel) enough))

  full-IsWhole : IsWhole ss a n full
  full-IsWhole = record {
    blocks =
        same_blocks full (λ x p q. filled_kept x p ∙ AfterHeader-headed.kept x p q)
          (filled_kept (a + 4) (omega arith) ∙ AfterHeader-headed.own_prev);
    tops = ground (arith, filled_header, full_top);
    base_le = base_le;
    aligned = whole.aligned;
    extent = whole.extent;
    first = refl;
    ready = filled_flags.0;
    space = filled_flags.1;
  }

-- On a stack of reserved blocks, a request whose rounded size is that of the top block succeeds with the
-- top block, which is then reserved; and a second request of that rounded size succeeds with the same
-- block once more.
pub malloc_full_again :
    (ss : List ℕ) (a size nbytes again fuel : ℕ) (h : Heap)
    → IsStack ss a size h
    → round_up nbytes ≡ size
    → round_up again ≡ size
    → length ss < fuel
    → (h' h'' : Heap) × (malloc fuel nbytes h ≡ some (a, h'))
      × (block_is_free a h' ≡ false)
      × (malloc fuel again h' ≡ some (a, h''))
malloc_full_again ss a size nbytes again zero h stack first second enough = absurd (omega arith)
malloc_full_again ss a size nbytes again (suc fuel) h stack first second enough =
    let whole = IsStack-IsWhole ss a size h stack in
    let h' = full ss a size h whole in
    let whole' = full-IsWhole ss a size h whole in
    (
      h',
      full ss a size h' whole',
      takes_all ss a size h whole fuel nbytes first enough,
      ground (arith, filled_header ss a size h whole, (full_top ss a size h whole).0),
      takes_all ss a size h' whole' fuel again second enough,
    )
