-- ===== src/Heap/FreeList.antt =====
-- `free` of a block under a reserved one, and the search of the next `malloc`.
use armv7_os.Prelude.{
  length, ℕ, zero, suc, ◌+◌, ◌-◌, ◌%◌, ◌^◌, ◌≤◌, ◌<◌, ◌≡◌, inl, inr, refl, ◌∙◌, true, false, some,
  List, ◌∷◌, arith,
}
use armv7_os.Heap.Defs.{
  Heap, heap_base, mb_hexa, null, find_prev_free, find_next_free, first_free_loop,
  update_first_free_block, fitting_block, malloc, round_up, reserve_found, free_bit, top_bit,
  size_bits, block_below, block_is_free, set_ctrl, set_next_free,
}
use armv7_os.Heap.Free.{check_merge_with_top, check_merge_with_bottom, free}
use armv7_os.Heap.Below.{Below, Below-frame, plain_ctrl, first_free_loop-Below}
use armv7_os.Heap.Stack.{IsStack, beneath_cases, walk_down}
use armv7_os.Heap.Merge.{freed_ctrl}
use armv7_os.Heap.Release.{release_steps, free_enters}
use armv7_os.Heap.Malloc.{malloc_found, round_up_lem}
use armv7_os.Heap.Twice.{IsLooped, twice, reserve_twice}

-- The blocks `b` and, above it, `c` are reserved, with the blocks of sizes `ss` below.
module _ (r s : ℕ) (ss : List ℕ) (c : ℕ) (h : Heap) (blocks : Below h.word c (s ∷ ss))
    (header : h.word c ≡ r) (r_aligned : r % 4 ≡ 0) (c_below : c + r + 8 ≤ heap_base + mb_hexa)
    (room : 4 ≤ s) where
  abbrev b : ℕ
  b = c - s - 8

  abbrev marked : Heap
  marked = set_ctrl b (s + 2) h

  abbrev unlinked : Heap
  unlinked = set_next_free b c marked

  own_bits : (free_bit (s + 2) ≡ true) × (top_bit (s + 2) ≡ false) × (size_bits (s + 2) ≡ s)
  own_bits = freed_ctrl s blocks.1 (omega (arith, blocks.0))

  no_merge_above : (fuel : ℕ) → check_merge_with_top fuel b marked ≡ some marked
  unfolding check_merge_with_top
  no_merge_above fuel = ground (arith, own_bits, plain, blocks.0)
    where
      plain : free_bit r ≡ false
      plain = (plain_ctrl r r_aligned (omega (arith, blocks.0))).0

  same_blocks : Below marked.word b ss
  same_blocks = Below-frame h.word marked.word b ss (λ x p q. ground arith) (ground arith) blocks.4

  no_merge_below : check_merge_with_bottom b marked ≡ marked
  unfolding check_merge_with_bottom
  no_merge_below = elim (beneath_cases ss b marked same_blocks (omega arith)) [
    | inl lowest ↦ ground (arith, lowest)
    | inr under ↦ ground (arith, under)
  ]

  next_is_above : (fuel : ℕ) → h.counter ≤ 15 → find_next_free fuel b marked ≡ some c
  unfolding find_next_free
  next_is_above fuel few = ground (arith, own_bits, blocks.0)

  walk : (fuel : ℕ) → length ss < fuel → find_prev_free fuel (block_below b h) unlinked ≡ some null
  walk fuel enough =
      walk_down ss b h blocks.4 (omega arith) unlinked (λ x p q. ground arith) fuel enough

  first_found :
      (fuel : ℕ)
      → length ss < fuel
      → update_first_free_block fuel unlinked ≡ some (record unlinked { first_free_block = b })
  unfolding update_first_free_block
  first_found fuel enough =
      first_free_loop-Below (suc (fuel - length ss - 1)) b ss unlinked blocks_below (omega arith)
        fuel (omega arith)
      ∙ (unfold first_free_loop in ground (arith, own_bits, blocks.0))
    where
      blocks_below : Below unlinked.word b ss
      blocks_below =
          Below-frame h.word unlinked.word b ss (λ x p q. ground arith) (ground arith) blocks.4

  -- The heap after `free` of `b`: its link leads to the reserved block `c`.
  pub freed : Heap
  freed = record unlinked {
    first_free_block = b;
    top_block_flag = 1;
    no_free_space = 1;
    merge_flag = 1;
  }

  pub free_run :
      (fuel : ℕ) → length ss < fuel → h.counter ≤ 15 → h.merge_flag ≡ 1 → free fuel b h ≡ some freed
  unfolding freed
  free_run fuel enough few unmerged =
      free_enters fuel b s h (omega (arith, blocks.0)) blocks.3 (omega (arith, blocks.0))
        (plain_ctrl s blocks.1 (omega (arith, blocks.0))).0 own_bits.1
      ∙ release_steps fuel b (block_below b h) c marked marked (no_merge_above fuel) no_merge_below
          unmerged (next_is_above fuel few) (walk fuel enough) (first_found fuel enough)

  pub search_passes_to_above :
      (fuel n : ℕ)
      → s < n
      → n ≤ r
      → fitting_block (suc (suc fuel)) n freed.first_free_block freed ≡ some (some c)
  unfolding freed fitting_block
  search_passes_to_above fuel n large fits = ground (arith, own_bits, plain, header, blocks.0)
    where
      plain : (free_bit r ≡ false) × (top_bit r ≡ false) × (size_bits r ≡ r)
      plain = plain_ctrl r r_aligned (omega (arith, blocks.0))

  pub still_reserved : block_is_free c freed ≡ false
  unfolding freed
  still_reserved =
      ground (arith, header, (plain_ctrl r r_aligned (omega (arith, blocks.0))).0, blocks.0)

  IsLooped-freed : h.counter ≤ 15 → IsLooped r s ss c freed
  unfolding freed
  IsLooped-freed few = record {
    place = blocks.0;
    extent = c_below;
    r_aligned = r_aligned;
    s_aligned = blocks.1;
    room = room;
    own = ground (arith, header, blocks.0);
    prev = ground (arith, blocks.2, blocks.0);
    under = ground (arith, blocks.0);
    blocks = Below-frame h.word unlinked.word b ss (λ x p q. ground arith) (ground arith) blocks.4;
    few = few;
    flag = refl;
  }

-- While `counter` is at most 15: on a stack of reserved blocks whose two highest have the sizes `r` and
-- `s`, `free` of the second succeeds, and leaves the highest one reserved. A request that follows, whose
-- rounded size is above `s`, at most `r` and less than 12 bytes below it, then succeeds, and is given
-- the address of the highest block, which is still reserved.
pub malloc_reserved_again :
    (r s : ℕ) (ss : List ℕ) (a size nbytes fuel : ℕ) (h : Heap)
    → IsStack (r ∷ s ∷ ss) a size h
    → h.counter ≤ 15
    → 4 ≤ s
    → nbytes + 3 < 2 ^ 32
    → s < round_up nbytes
    → round_up nbytes ≤ r
    → r < round_up nbytes + 12
    → length ss + 2 ≤ fuel
    → (h' h'' : Heap) × (free fuel (a - r - 8 - s - 8) h ≡ some h')
      × (block_is_free (a - r - 8) h' ≡ false)
      × (malloc fuel nbytes h' ≡ some (a - r - 8, h''))
malloc_reserved_again r s ss a size nbytes zero h stack few room small large fits tight enough =
    absurd (omega arith)
malloc_reserved_again r s ss a size nbytes (suc zero) h stack few room small large fits tight
      enough =
    absurd (omega arith)
malloc_reserved_again r s ss a size nbytes (suc (suc fuel)) h stack few room small large fits tight
      enough =
    let n = round_up nbytes in
    let header : h.word (a - r - 8) ≡ r = stack.blocks.3 in
    let below : a - r - 8 + r + 8 ≤ heap_base + mb_hexa =
      omega (arith, stack.extent, stack.blocks.0) in
    let r_aligned : r % 4 ≡ 0 = stack.blocks.1 in
    let h' : Heap = freed r s ss (a - r - 8) h stack.blocks.4 header r_aligned below room in
    let looped =
      IsLooped-freed r s ss (a - r - 8) h stack.blocks.4 header r_aligned below room few in
    let aligned = (round_up_lem nbytes small).0 in
    (
      h',
      twice r s ss (a - r - 8) h' looped n aligned fits tight,
      free_run r s ss (a - r - 8) h stack.blocks.4 header r_aligned below room (suc (suc fuel))
          (omega arith) few stack.unmerged,
      still_reserved r s ss (a - r - 8) h stack.blocks.4 header r_aligned below room,
      malloc_found (suc (suc fuel)) nbytes h' (unfold freed in refl) (unfold freed in stack.ready) (
            search_passes_to_above r s ss (a - r - 8) h stack.blocks.4 header r_aligned below room
              fuel n large fits)
          ∙ (unfold reserve_found in
              reserve_twice r s ss (a - r - 8) h' looped n aligned fits tight fuel (omega arith)),
    )
