-- ===== src/Heap/Reserve.antt =====
-- The rest of `malloc` after the split of the top block.
use armv7_os.Prelude.{
  ap, length, ℕ, suc, ◌+◌, ◌-◌, ◌%◌, ◌≤◌, ◌<◌, ◌≡◌, ◌≢◌, inl, inr, refl, ◌∙◌, true, some, List, ◌∷◌,
  arith, sym, subst, ltb, ◌^◌,
}
use armv7_os.Heap.Defs.{
  Heap, heap_base, null, find_prev_free, first_free_loop, free_bit, top_bit, size_bits, block_below,
  block_size, split_block, reserve_header, relink, reserve_block, splits,
}
use armv7_os.Heap.Below.{
  Below, Below-frame, plain_ctrl, top_ctrl, find_prev_free-null, first_free_loop-Below,
}
use armv7_os.Heap.Stack.{IsStack, a_ge, top_size, beneath_cases}
use armv7_os.Heap.Split.{AfterSplit, split_result, split_block_run, AfterSplit-split_result}

reserve_block_steps :
    (fuel n b : ℕ) (h h₁ : Heap) {h₂ h₃ : Heap}
    → ltb n (block_size b h) ≡ true
    → splits (block_size b h) n ≡ true
    → split_block fuel n b h ≡ some h₁
    → reserve_header n b (block_below b h) h₁ ≡ h₂
    → find_prev_free fuel b h₂ ≡ some null
    → relink fuel null h₂ ≡ some h₃
    → reserve_block fuel n b h ≡ some (b, h₃)
unfolding reserve_block
reserve_block_steps fuel n b h h₁ smaller splits split header walk linked =
    rw (smaller, splits, split, header, walk, linked) refl

module _ (ss : List ℕ) (a size n : ℕ) (h : Heap) (stack : IsStack ss a size h)
    (n_aligned : n % 4 ≡ 0) (n_fits : n + 12 ≤ size) where
  base_le : heap_base ≤ a
  base_le = a_ge ss a size h stack

  record AfterReserve (h' : Heap) : Type 0 where
    kept :
        (x : ℕ)
        → x ≢ 8
        → x ≢ a
        → x ≢ a + 4
        → x ≢ a + n + 8
        → x ≢ a + n + 12
        → x ≢ a + n + 16
        → x ≢ a + size + 12
        → h'.word x ≡ h.word x
    own_header : h'.word a ≡ n
    own_prev : h'.word (a + 4) ≡ h.word (a + 4)
    new_header : h'.word (a + n + 8) ≡ size - n - 8 + 3
    new_prev : h'.word (a + n + 12) ≡ n
    same_ready : h'.heap_initialized ≡ h.heap_initialized
    same_space : h'.no_free_space ≡ h.no_free_space
    same_merge : h'.merge_flag ≡ h.merge_flag
    same_count : h'.counter ≡ h.counter
    same_flag : h'.top_block_flag ≡ h.top_block_flag

  n_plain : size_bits n ≡ n
  n_plain = (plain_ctrl n n_aligned (omega (arith, stack.extent))).2

  tops : (free_bit (h.word a) ≡ true) × (top_bit (h.word a) ≡ true) × (size_bits (h.word a) ≡ size)
  tops = top_size ss a size h stack

  module _ (h' : Heap) (after : AfterSplit a size n h h') where
    same_top : h'.word a ≡ h.word a
    same_top =
        after.kept a (omega (arith, base_le)) (omega arith) (omega arith) (omega arith)
          (omega arith)

    own_prev_kept : (reserve_header n a (block_below a h) h').word (a + 4) ≡ h.word (a + 4)
    unfolding reserve_header
    own_prev_kept = elim (beneath_cases ss a h stack.blocks (omega (arith, stack.extent))) [
      | inl lowest ↦
          ground (arith, n_plain, same_top, tops, after.kept (a + 4), lowest, stack.extent, base_le)
      | inr above ↦ ground (
        arith,
        n_plain,
        same_top,
        tops,
        after.kept (block_below a h),
        after.kept (a + 4),
        above,
        stack.extent,
        base_le,
      )
    ]

    AfterReserve-reserve_header : AfterReserve (reserve_header n a (block_below a h) h')
    unfolding reserve_header
    AfterReserve-reserve_header = record {
      kept = λ x e o p q r t u. ground (arith, after.kept x, same_top, tops, stack.extent, base_le);
      own_header = ground (arith, n_plain, same_top, tops, stack.extent, base_le);
      own_prev = own_prev_kept;
      new_header = ground (arith, after.new_header, same_top, tops, stack.extent, base_le);
      new_prev = ground (arith, after.new_prev, same_top, tops, stack.extent, base_le);
      same_ready = ground (arith, after.same_ready, same_top, tops);
      same_space = ground (arith, after.same_space, same_top, tops);
      same_merge = ground (arith, after.same_merge, same_top, tops);
      same_count = ground (arith, after.same_count, same_top, tops);
      same_flag = ground (arith, after.same_flag, same_top, tops, stack.extent);
    }

  module _ (h' : Heap) (after : AfterReserve h') where
    same_blocks : Below h'.word a ss
    same_blocks =
        Below-frame h.word h'.word a ss
          (λ x p q.
            after.kept x (omega arith) (omega arith) (omega arith) (omega arith) (omega arith)
              (omega arith) (omega (arith, stack.extent)))
          after.own_prev stack.blocks

    -- The stack with the new block on it, before the walk from the base.
    pushed_blocks : Below h'.word (a + n + 8) (n ∷ ss)
    pushed_blocks = (
      omega (arith, base_le),
      n_aligned,
      subst (λ x. h'.word x ≡ n) (omega arith) after.new_prev,
      subst (λ x. h'.word x ≡ n) (sym own) after.own_header,
      subst (λ x. Below h'.word x ss) (sym own) same_blocks,
    )
      where
        own : a + n + 8 - n - 8 ≡ a
        own = omega arith

    abbrev pushed : Heap
    pushed = record h' { first_free_block = a + n + 8; counter = (h'.counter + 1) % 2 ^ 32 }

    module _ (fuel : ℕ) (enough : length ss + 2 < fuel) where
      no_free_before : find_prev_free fuel a h' ≡ some null
      no_free_before =
          find_prev_free-null fuel a n ss h' same_blocks after.own_header n_aligned
            (omega (arith, stack.extent)) (omega (arith, stack.extent)) (omega arith)

      relink_run : relink fuel null h' ≡ some pushed
      unfolding relink
      relink_run = rw walk refl
        where
          new_top : free_bit (size - n - 8 + 3) ≡ true
          new_top =
              (top_ctrl (size - n - 8) (omega (arith, stack.aligned))
                (omega (arith, stack.extent))).0

          stops :
              (f : ℕ)
              → first_free_loop (suc f) (a + n + 8) h'
                ≡ some (record h' { first_free_block = a + n + 8 })
          stops f = unfold first_free_loop in ground (arith, new_top, after.new_header)

          walk :
              first_free_loop fuel heap_base h' ≡ some (record h' { first_free_block = a + n + 8 })
          walk =
              first_free_loop-Below (suc (fuel - length ss - 2)) (a + n + 8) (n ∷ ss) h'
                pushed_blocks (omega (arith, stack.extent)) fuel (omega arith)
              ∙ stops (fuel - length ss - 2)

  headed : Heap
  headed = reserve_header n a (block_below a h) (split_result a n h)

  AfterReserve-headed : AfterReserve headed
  unfolding headed
  AfterReserve-headed =
      AfterReserve-reserve_header (split_result a n h)
        (AfterSplit-split_result ss a size n h stack n_aligned n_fits)

  -- The heap after the block is reserved, and what it looks like.
  pub reserved : Heap
  reserved = pushed headed AfterReserve-headed

  pub reserve_block_run :
      (fuel : ℕ) → length ss + 2 < fuel → reserve_block fuel n a h ≡ some (a, reserved)
  unfolding reserved headed
  reserve_block_run fuel enough =
      reserve_block_steps fuel n a h (split_result a n h) fits.0 fits.1
        (split_block_run ss a size n h stack n_aligned n_fits fuel (omega arith)) refl
        (no_free_before headed AfterReserve-headed fuel enough)
        (relink_run headed AfterReserve-headed fuel enough)
    where
      fits : (ltb n (block_size a h) ≡ true) × (splits (block_size a h) n ≡ true)
      fits = ground (arith, tops, stack.extent)

  pub IsStack-reserved : IsStack (n ∷ ss) (a + n + 8) (size - n - 8) reserved
  unfolding reserved
  IsStack-reserved = record {
    blocks = pushed_blocks headed AfterReserve-headed;
    header = AfterReserve-headed.new_header;
    aligned = omega (arith, stack.aligned);
    extent = omega (arith, stack.extent);
    first = refl;
    ready = AfterReserve-headed.same_ready ∙ stack.ready;
    space = AfterReserve-headed.same_space ∙ stack.space;
    unmerged = AfterReserve-headed.same_merge ∙ stack.unmerged;
  }

  -- The call is counted, and the top block stays marked.
  pub counted-reserved :
      (reserved.counter ≡ (h.counter + 1) % 2 ^ 32) × (reserved.top_block_flag ≡ h.top_block_flag)
  unfolding reserved
  counted-reserved =
      (ap (λ x. (x + 1) % 2 ^ 32) AfterReserve-headed.same_count, AfterReserve-headed.same_flag)
