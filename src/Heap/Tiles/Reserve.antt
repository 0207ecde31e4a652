-- ===== src/Heap/Tiles/Reserve.antt =====
-- `malloc` at a free block among such blocks.
use armv7_os.Prelude.{
  length, ℕ, ◌+◌, ◌%◌, ◌^◌, ◌≤◌, ◌<◌, ◌≡◌, ◌≢◌, inl, inr, ◌∙◌, refl, false, true, some, List, arith,
  ltb, ◌&&◌,
}
use armv7_os.Heap.Defs.{
  Heap, find_prev_free, find_next_free, next_free_loop, block_below, block_size, split_block,
  reserve_header, keep_rest, relink, reserve_block, splits, sub32, set_next_free,
}
use armv7_os.Heap.Merge.{freed_ctrl}
use armv7_os.Heap.Tiles.{Tile, end_of, last_free, onto, Down, end_of-ge, last_free_room, IsTiled}
use armv7_os.Heap.Tiles.Mend.{
  IsLoose, mended, link_run, first_run, mended_blocks, mended_header, mended_first, same_mended,
}
use armv7_os.Heap.Tiles.Split.{SameGlobals}

-- The globals between two calls, with one more call to count.
pub record IsReady (h : Heap) : Type 0 where
  pub ready : h.heap_initialized ≡ 2
  pub space : h.no_free_space ≡ 1
  pub unmerged : h.merge_flag ≡ 1
  pub untopped : h.top_block_flag ≡ 1
  pub many : (15 < h.counter) × (h.counter + 1 < 2 ^ 31)

pub IsReady-same : {h h' : Heap} → SameGlobals h h' → IsReady h → IsReady h'
IsReady-same same ready = record {
  ready = same.ready ∙ ready.ready;
  space = same.space ∙ ready.space;
  unmerged = same.merge ∙ ready.unmerged;
  untopped = same.top ∙ ready.untopped;
  many = omega (arith, same.count, ready.many);
}

-- The last steps of `malloc`.
module _ (rs ts : List Tile) (z size q : ℕ) (h : Heap) (loose : IsLoose rs ts z size q h)
    (ready : IsReady h) where
  abbrev pub counted : Heap
  counted =
      let h' = mended rs ts z size q h loose in record h' { counter = (h'.counter + 1) % 2 ^ 32 }

  pub relink_run :
      (fuel : ℕ) → length rs + length ts < fuel → relink fuel (last_free rs) h ≡ some counted
  unfolding relink
  relink_run fuel enough =
      rw (link_run rs ts z size q h loose fuel enough, first_run rs ts z size q h loose fuel enough)
        refl

  pub IsTiled-counted : IsTiled (onto rs ts) z size counted
  IsTiled-counted =
      let same = IsReady-same (same_mended rs ts z size q h loose) ready in
      record {
        blocks = mended_blocks rs ts z size q h loose;
        header = mended_header rs ts z size q h loose;
        aligned = loose.aligned;
        extent = loose.extent;
        first = mended_first rs ts z size q h loose;
        ready = same.ready;
        space = same.space;
        unmerged = same.unmerged;
        untopped = same.untopped;
        many = omega (arith, same.many);
      }

  pub counter-counted : counted.counter ≡ h.counter + 1
  counter-counted = omega (arith, (same_mended rs ts z size q h loose).count, ready.many)

-- The steps of `reserve_block`, with a split and without.
pub split_steps :
    (fuel n b p : ℕ) (h h₁ h₂ : Heap) {h₃ : Heap}
    → ltb n (block_size b h) ≡ true
    → splits (block_size b h) n ≡ true
    → split_block fuel n b h ≡ some h₁
    → reserve_header n b (block_below b h) h₁ ≡ h₂
    → find_prev_free fuel b h₂ ≡ some p
    → relink fuel p h₂ ≡ some h₃
    → reserve_block fuel n b h ≡ some (b, h₃)
unfolding reserve_block
split_steps fuel n b p h h₁ h₂ smaller splits split header walk linked =
    rw (smaller, splits, split, header, walk, linked) refl

pub whole_steps :
    (fuel n b p : ℕ) (h h₂ h₃ : Heap) {h₄ : Heap}
    → (ltb n (block_size b h) && splits (block_size b h) n) ≡ false
    → splits (block_size b h) n ≡ false
    → reserve_header n b (block_below b h) h ≡ h₂
    → find_prev_free fuel b h₂ ≡ some p
    → keep_rest b (sub32 (block_size b h) n) h₂ ≡ h₃
    → relink fuel p h₃ ≡ some h₄
    → reserve_block fuel n b h ≡ some (b, h₄)
unfolding reserve_block
whole_steps fuel n b p h h₂ h₃ no_split splits header walk rest linked =
    rw (no_split, splits, header, walk, rest, linked) refl

-- What the splits share.
pub store_other :
    (p q x : ℕ) (h : Heap) → p + 8 < 2 ^ 32 → x ≢ p + 8 → (set_next_free p q h).word x ≡ h.word x
store_other p q x h low other = ground arith

pub store_own : (p q : ℕ) (h : Heap) → p + 8 < 2 ^ 32 → (set_next_free p q h).word (p + 8) ≡ q
store_own p q h low = ground arith

pub find_next_free-hole :
    (h : Heap) (fuel c r d : ℕ)
    → h.word c ≡ r + 2
    → r % 4 ≡ 0
    → c + r + 8 < 2 ^ 31
    → c + r + 8 ≡ d
    → (15 < h.counter) × (h.counter < 2 ^ 31)
    → find_next_free fuel c h ≡ next_free_loop fuel d h
unfolding find_next_free
find_next_free-hole h fuel c r d header aligned lt place many =
    ground (arith, header, freed_ctrl r aligned)

pub enough_left : (n s : ℕ) → n + 12 ≤ s → s < 2 ^ 31 → (ltb n s ≡ true) × (splits s n ≡ true)
enough_left n s fits lt = ground arith

pub under_link : (w : ℕ → ℕ) (q : ℕ) (rs : List Tile) → Down w q rs → last_free rs + 12 ≤ end_of rs
under_link w q rs down = elim (last_free_room w q rs down) [
  | inl none_free ↦ omega (arith, none_free, end_of-ge rs)
  | inr room ↦ room.1
]
