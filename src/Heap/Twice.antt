-- ===== src/Heap/Twice.antt =====
-- The reservation of a block that is reserved already, by way of a free block below it.
use armv7_os.Prelude.{
  length, ℕ, suc, ◌+◌, ◌-◌, ◌%◌, ◌^◌, ◌≤◌, ◌<◌, ◌≡◌, refl, ◌∙◌, ap, true, false, some, List, arith,
  ◌==◌, Bool-cases, inl, inr, ◌≢◌,
}
use armv7_os.Heap.Defs.{
  Heap, heap_base, mb_hexa, null, find_prev_free, find_next_free, update_first_free_block,
  first_free_loop, reserve_block, reserve_header, keep_rest, relink, sub32, block_size, block_below,
  set_next_free, free_bit, top_bit, size_bits,
}
use armv7_os.Heap.Below.{Below, Below-frame, plain_ctrl, first_free_loop-Below}
use armv7_os.Heap.Tiles.Reserve.{whole_steps}
use armv7_os.Heap.Merge.{freed_ctrl}

-- The block `c` is reserved, and the one below it, of `s` bytes, is free and the lowest free one.
pub record IsLooped (r s : ℕ) (ss : List ℕ) (c : ℕ) (h : Heap) : Type 0 where
  pub place : heap_base + s + 8 ≤ c
  pub extent : c + r + 8 ≤ heap_base + mb_hexa
  pub r_aligned : r % 4 ≡ 0
  pub s_aligned : s % 4 ≡ 0
  pub room : 4 ≤ s
  pub own : h.word c ≡ r
  pub prev : h.word (c + 4) ≡ s
  pub under : h.word (c - s - 8) ≡ s + 2
  pub blocks : Below h.word (c - s - 8) ss
  pub few : h.counter ≤ 15
  pub flag : h.top_block_flag ≡ 1

module _ (r s : ℕ) (ss : List ℕ) (c : ℕ) (h : Heap) (looped : IsLooped r s ss c h) (n : ℕ)
    (aligned : n % 4 ≡ 0) (fits : n ≤ r) (tight : r < n + 12) where
  abbrev b : ℕ
  b = c - s - 8

  plain : (free_bit r ≡ false) × (top_bit r ≡ false) × (size_bits r ≡ r)
  plain = plain_ctrl r looped.r_aligned (omega (arith, looped.extent))

  plain_n : (free_bit n ≡ false) × (top_bit n ≡ false) × (size_bits n ≡ n)
  plain_n = plain_ctrl n aligned (omega (arith, looped.extent))

  under_bits : (free_bit (s + 2) ≡ true) × (top_bit (s + 2) ≡ false) × (size_bits (s + 2) ≡ s)
  under_bits = freed_ctrl s looped.s_aligned (omega (arith, looped.place, looped.extent))

  is_below : block_below c h ≡ b
  is_below = ground (arith, looped.prev, looped.place, looped.extent)

  abbrev headed : Heap
  headed = reserve_header n c (block_below c h) h

  facts :
      (c == heap_base ≡ false)
      × (block_below c h ≡ b)
      × (top_bit (h.word c) ≡ false)
      × (size_bits (h.word c) ≡ r)
      × (size_bits (h.word b) ≡ s)
  facts = (
    ground (arith, looped.place),
    is_below,
    ap top_bit looped.own ∙ plain.1,
    ap size_bits looped.own ∙ plain.2,
    ap size_bits looped.under ∙ under_bits.2,
  )

  headed_other : (x : ℕ) → x ≢ c → headed.word x ≡ h.word x
  unfolding reserve_header
  headed_other x other = ground (arith, facts, plain_n, looped.prev, looped.place, looped.extent)

  headed_own : headed.word c ≡ n
  unfolding reserve_header
  headed_own = ground (arith, facts, plain_n, looped.place, looped.extent)

  headed_globals : (headed.counter ≡ h.counter) × (headed.top_block_flag ≡ h.top_block_flag)
  unfolding reserve_header
  headed_globals = ground (arith, facts)

  abbrev kept : Heap
  kept = keep_rest c (sub32 (block_size c h) n) headed

  kept_word : (x : ℕ) → kept.word x ≡ h.word x
  unfolding keep_rest
  kept_word x = elim (Bool-cases (x == c)) [
    | inl here ↦
        ground (arith, facts, headed_own, headed_globals, looped.flag, looped.own, looped.extent)
    | inr other ↦ ground (arith, facts, headed_other x, headed_globals, looped.flag, looped.extent)
  ]

  kept_count : kept.counter ≡ h.counter
  unfolding keep_rest
  kept_count = ground (arith, headed_globals, looped.flag)

  walk : (fuel : ℕ) → find_prev_free (suc (suc fuel)) c headed ≡ some b
  unfolding find_prev_free
  walk fuel = ground (
    arith,
    headed_own,
    plain_n,
    headed_other (c + 4),
    headed_other b,
    looped.prev,
    looped.under,
    under_bits,
    looped.place,
    looped.extent,
  )

  abbrev relinked : Heap
  relinked = set_next_free b c kept

  next_is : (fuel : ℕ) → find_next_free fuel b kept ≡ some c
  unfolding find_next_free
  next_is fuel = ground (
    arith,
    kept_word b,
    kept_count,
    looped.under,
    looped.few,
    under_bits,
    looped.place,
    looped.extent,
  )

  relinked_other : (x : ℕ) → x ≢ b + 8 → relinked.word x ≡ h.word x
  relinked_other x other = ground (arith, kept_word x, looped.place, looped.extent)

  first_found :
      (fuel : ℕ)
      → length ss < fuel
      → update_first_free_block fuel relinked ≡ some (record relinked { first_free_block = b })
  unfolding update_first_free_block
  first_found fuel enough =
      first_free_loop-Below (suc (fuel - length ss - 1)) b ss relinked blocks
        (omega (arith, looped.extent)) fuel (omega arith)
      ∙ (unfold first_free_loop in
          ground (arith, relinked_other b, looped.under, under_bits, looped.place))
    where
      blocks : Below relinked.word b ss
      blocks =
          Below-frame h.word relinked.word b ss (λ x p q. relinked_other x (omega arith))
            (relinked_other (b + 4) (omega arith)) looped.blocks

  abbrev pub twice : Heap
  twice = record relinked { first_free_block = b; counter = (relinked.counter + 1) % 2 ^ 32 }

  relink_run : (fuel : ℕ) → length ss < fuel → relink fuel b kept ≡ some twice
  unfolding relink
  relink_run fuel enough = rw (no_null, next_is fuel, first_found fuel enough) refl
    where
      no_null : (b == null) ≡ false
      no_null = ground (arith, looped.place)

  pub reserve_twice :
      (fuel : ℕ)
      → length ss < suc (suc fuel)
      → reserve_block (suc (suc fuel)) n c h ≡ some (c, twice)
  reserve_twice fuel enough =
      whole_steps (suc (suc fuel)) n c b h headed kept (rw facts.3 (ground arith))
        (rw facts.3 (ground arith)) refl (walk fuel) refl (relink_run (suc (suc fuel)) enough)
