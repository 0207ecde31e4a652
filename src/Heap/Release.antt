-- ===== src/Heap/Release.antt =====
-- `free` of the highest reserved block, on a heap whose other blocks are all reserved.
use armv7_os.Prelude.{
  length, ℕ, zero, suc, ◌+◌, ◌-◌, ◌^◌, ◌<◌, ◌≡◌, ◌≢◌, inl, inr, refl, ◌∙◌, false, some, List, ◌∷◌,
  arith, subst,
}
use armv7_os.Heap.Defs.{
  Heap, null, find_prev_free, find_next_free, first_free_loop, update_first_free_block, free_bit,
  top_bit, block_below, set_ctrl, set_next_free, add32, ctrl,
}
use armv7_os.Heap.Free.{check_merge_with_top, check_merge_with_bottom, release_block, free}
use armv7_os.Heap.Below.{Below-frame, plain_ctrl, first_free_loop-Below}
use armv7_os.Heap.Stack.{IsStack, top_size, beneath_cases, walk_down}
use armv7_os.Heap.Merge.{own_bits, joined, IsStack-joined, same_below, join_run}

-- On a stack the functions after the merge with the top block only set links.
module _ (ss : List ℕ) (a size : ℕ) (h : Heap) (stack : IsStack ss a size h) where
  no_merge_below : check_merge_with_bottom a h ≡ h
  unfolding check_merge_with_bottom
  no_merge_below = elim (beneath_cases ss a h stack.blocks (omega (arith, stack.extent))) [
    | inl lowest ↦ ground (arith, lowest)
    | inr above ↦ ground (arith, above)
  ]

  no_next_free : (fuel : ℕ) → find_next_free fuel a h ≡ some null
  unfolding find_next_free
  no_next_free fuel = rw (top_size ss a size h stack).1 refl

  IsStack-set_next_free : (v : ℕ) → IsStack ss a size (set_next_free a v h)
  IsStack-set_next_free v = record {
    blocks =
        Below-frame h.word (set_next_free a v h).word a ss (λ x p q. ground (arith, stack.extent))
          (ground (arith, stack.extent)) stack.blocks;
    header = ground (arith, stack.header, stack.extent);
    aligned = stack.aligned;
    extent = stack.extent;
    first = stack.first;
    ready = stack.ready;
    space = stack.space;
    unmerged = stack.unmerged;
  }

  first_found :
      (fuel : ℕ)
      → length ss < fuel
      → update_first_free_block fuel h ≡ some (record h { first_free_block = a })
  unfolding update_first_free_block
  first_found fuel enough =
      first_free_loop-Below (suc (fuel - length ss - 1)) a ss h stack.blocks
        (omega (arith, stack.extent)) fuel (omega arith)
      ∙ (unfold first_free_loop in ground (arith, (top_size ss a size h stack).0))

pub release_steps :
    (fuel b prev next : ℕ) (h h₁ : Heap) {h₂ : Heap}
    → check_merge_with_top fuel b h ≡ some h₁
    → check_merge_with_bottom b h₁ ≡ h₁
    → h₁.merge_flag ≡ 1
    → find_next_free fuel b h₁ ≡ some next
    → find_prev_free fuel prev (set_next_free b next h₁) ≡ some null
    → update_first_free_block fuel (set_next_free b next h₁) ≡ some h₂
    → release_block fuel b prev h
      ≡ some (record h₂ { top_block_flag = 1; no_free_space = 1; merge_flag = 1 })
unfolding release_block
release_steps fuel b prev next h h₁ merge below unmerged follows walk first =
    ground (arith, merge, below, unmerged, follows, walk, first)

pub free_enters :
    (fuel b s : ℕ) (h : Heap)
    → b ≢ null
    → ctrl b h ≡ s
    → s < 2 ^ 31
    → free_bit s ≡ false
    → top_bit (s + 2) ≡ false
    → free fuel b h ≡ release_block fuel b (block_below b h) (set_ctrl b (s + 2) h)
unfolding free
free_enters fuel b s h some_block header small reserved not_top =
    ground (arith, sum, header, reserved, not_top)
  where
    sum : add32 (h.word b) 2 ≡ s + 2
    sum = omega (arith, header)

-- Freed from a stack, the highest reserved block becomes part of the top block again, and the blocks
-- below it are a stack as before. The fuel only has to exceed the number of reserved blocks.
pub free-IsStack :
    (s : ℕ) (ss : List ℕ) (a size fuel : ℕ) (h : Heap)
    → IsStack (s ∷ ss) a size h
    → length (s ∷ ss) < fuel
    → (h' : Heap) × (free fuel (a - s - 8) h ≡ some h') × IsStack ss (a - s - 8) (size + s + 8) h'
free-IsStack s ss a size zero h stack enough = absurd (omega arith)
free-IsStack s ss a size (suc fuel) h stack enough = (
  record (set_next_free b null (joined s ss a size h stack)) {
    first_free_block = b;
    top_block_flag = 1;
    no_free_space = 1;
    merge_flag = 1;
  },
  enters ∙ released,
  record {
    blocks = unlinked.blocks;
    header = unlinked.header;
    aligned = unlinked.aligned;
    extent = unlinked.extent;
    first = refl;
    ready = unlinked.ready;
    space = refl;
    unmerged = refl;
  },
)
  where
    b : ℕ
    b = a - s - 8

    h₁ : Heap
    h₁ = joined s ss a size h stack

    stack₁ : IsStack ss b (size + s + 8) h₁
    stack₁ = IsStack-joined s ss a size h stack

    unlinked : IsStack ss b (size + s + 8) (set_next_free b null h₁)
    unlinked = IsStack-set_next_free ss b (size + s + 8) h₁ stack₁ null

    walk : find_prev_free (suc fuel) (block_below b h) (set_next_free b null h₁) ≡ some null
    walk =
        subst (λ x. find_prev_free (suc fuel) x (set_next_free b null h₁) ≡ some null)
          (same_below s ss a size h stack)
          (walk_down ss b h₁ stack₁.blocks (omega (arith, stack₁.extent)) (set_next_free b null h₁)
            (λ x p q. ground (arith, stack₁.extent)) (suc fuel) (omega arith))

    released :
        release_block (suc fuel) b (block_below b h) (set_ctrl b (s + 2) h)
        ≡ some (record (set_next_free b null h₁) {
          first_free_block = b;
          top_block_flag = 1;
          no_free_space = 1;
          merge_flag = 1;
        })
    released =
        release_steps (suc fuel) b (block_below b h) null (set_ctrl b (s + 2) h) h₁
          (join_run s ss a size h stack fuel) (no_merge_below ss b (size + s + 8) h₁ stack₁)
          stack₁.unmerged (no_next_free ss b (size + s + 8) h₁ stack₁ (suc fuel)) walk
          (first_found ss b (size + s + 8) (set_next_free b null h₁) unlinked (suc fuel)
            (omega arith))

    enters :
        free (suc fuel) b h ≡ release_block (suc fuel) b (block_below b h) (set_ctrl b (s + 2) h)
    enters =
        free_enters (suc fuel) b s h (omega (arith, stack.blocks.0)) stack.blocks.3
          (omega (arith, stack.blocks.0, stack.extent))
          (plain_ctrl s stack.blocks.1 (omega (arith, stack.blocks.0, stack.extent))).0
          (own_bits s ss a size h stack).1
