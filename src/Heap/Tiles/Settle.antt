-- ===== src/Heap/Tiles/Settle.antt =====
-- `free` after the merge with the block above, where no free block lies directly below.
use armv7_os.Prelude.{
  length, ℕ, ◌+◌, ◌%◌, ◌≤◌, ◌<◌, ◌≡◌, ◌≢◌, ◌∙◌, refl, some, List, [], ◌∷◌, arith, ◌^◌,
}
use armv7_os.Heap.Defs.{Heap, heap_base, mb_hexa, null, find_next_free, block_below, set_next_free}
use armv7_os.Heap.Free.{check_merge_with_top, release_block}
use armv7_os.Heap.Below.{top_ctrl}
use armv7_os.Heap.Tiles.{
  Tile, hole, end_of, size_below, first_free, onto, Up, Down, Up-le, Up-prev, Up-frame, Down-same,
  IsTiled,
}
use armv7_os.Heap.Tiles.Walks.{next_free_loop-Up}
use armv7_os.Heap.Tiles.Mend.{IsLoose}
use armv7_os.Heap.Tiles.Reserve.{store_other, store_own, find_next_free-hole}
use armv7_os.Heap.Tiles.Finish.{
  finished, IsTiled-finished, counter-finished, NotOnHole, no_merge_below, plain_run,
}

-- The block at `end_of rs` is free, of `s` bytes, and its link is not set.
pub record IsMarked (rs : List Tile) (s : ℕ) (ts : List Tile) (z size q : ℕ) (h : Heap)
    : Type 0 where
  pub down : Down h.word q rs
  pub own : h.word (end_of rs) ≡ s + 2
  pub prev : h.word (end_of rs + 4) ≡ size_below rs
  pub s_aligned : s % 4 ≡ 0
  pub space : 4 ≤ s
  pub up : Up h.word (end_of rs + s + 8) s ts z
  pub header : h.word z ≡ size + 3
  pub aligned : size % 4 ≡ 0
  pub extent : z + size ≡ heap_base + mb_hexa
  pub ready : h.heap_initialized ≡ 2
  pub unmerged : h.merge_flag ≡ 1
  pub many : (15 < h.counter) × (h.counter < 2 ^ 31)

-- It is the top block.
pub record IsRaised (rs : List Tile) (size q : ℕ) (h : Heap) : Type 0 where
  pub down : Down h.word q rs
  pub own : h.word (end_of rs) ≡ size + 3
  pub prev : h.word (end_of rs + 4) ≡ size_below rs
  pub aligned : size % 4 ≡ 0
  pub extent : end_of rs + size ≡ heap_base + mb_hexa
  pub ready : h.heap_initialized ≡ 2
  pub unmerged : h.merge_flag ≡ 1
  pub many : (15 < h.counter) × (h.counter < 2 ^ 31)

module _ (rs : List Tile) (s : ℕ) (ts : List Tile) (z size q : ℕ) (h : Heap)
    (marked : IsMarked rs s ts z size q h) where
  high : end_of rs + s + 8 ≤ z
  high = Up-le h.word (end_of rs + s + 8) s ts z marked.up

  abbrev follower : ℕ
  follower = first_free (end_of rs + s + 8) ts

  kept : (x : ℕ) → x ≢ end_of rs + 8 → (set_next_free (end_of rs) follower h).word x ≡ h.word x
  kept x other = store_other (end_of rs) follower x h (omega (arith, high, marked.extent)) other

  IsLoose-linked : IsLoose rs (hole s ∷ ts) z size q (set_next_free (end_of rs) follower h)
  IsLoose-linked = record {
    down =
        Down-same h.word (set_next_free (end_of rs) follower h).word q rs
          (λ x a b. kept x (omega arith)) marked.down;
    up = (
      marked.s_aligned,
      marked.space,
      kept (end_of rs) (omega arith) ∙ marked.own,
      kept (end_of rs + 4) (omega arith) ∙ marked.prev,
      store_own (end_of rs) follower h (omega (arith, high, marked.extent)),
      Up-frame h.word (set_next_free (end_of rs) follower h).word (end_of rs + s + 8) s s ts z
          (λ x a b. kept x (omega (arith, marked.space)))
          (kept (end_of rs + s + 8 + 4) (omega arith)
            ∙ Up-prev h.word (end_of rs + s + 8) s ts z marked.up)
          marked.up,
    );
    header = kept z (omega (arith, high, marked.space)) ∙ marked.header;
    aligned = marked.aligned;
    extent = marked.extent;
    many = marked.many;
  }

  pub follows : (fuel : ℕ) → length ts < fuel → find_next_free fuel (end_of rs) h ≡ some follower
  follows fuel enough =
      find_next_free-hole h fuel (end_of rs) s (end_of rs + s + 8) marked.own marked.s_aligned
        (omega (arith, high, marked.extent)) refl marked.many
      ∙ next_free_loop-Up h z size marked.header marked.aligned marked.extent fuel
          (end_of rs + s + 8) s ts marked.up enough

  pub settled : Heap
  settled =
      finished rs (hole s ∷ ts) z size q (set_next_free (end_of rs) follower h) IsLoose-linked
        marked.ready

  pub settled_run :
      (fuel : ℕ) (h₀ h' : Heap)
      → length rs + length ts + 1 < fuel
      → NotOnHole rs
      → h₀.word (end_of rs + 4) ≡ size_below rs
      → check_merge_with_top fuel (end_of rs) h' ≡ some h
      → release_block fuel (end_of rs) (block_below (end_of rs) h₀) h' ≡ some settled
  unfolding settled
  settled_run fuel h₀ h' enough not_on prev₀ merge =
      plain_run rs (hole s ∷ ts) z size q follower h₀ h' h IsLoose-linked marked.ready
        marked.unmerged not_on prev₀ fuel (omega arith) merge
        (no_merge_below q rs h not_on marked.down marked.prev (omega (arith, high, marked.extent)))
        (follows fuel (omega arith))

  pub IsTiled-settled : IsTiled (onto rs (hole s ∷ ts)) z size settled
  unfolding settled
  IsTiled-settled =
      IsTiled-finished rs (hole s ∷ ts) z size q (set_next_free (end_of rs) follower h)
        IsLoose-linked marked.ready

  pub counter-settled : settled.counter ≡ h.counter
  unfolding settled
  counter-settled =
      counter-finished rs (hole s ∷ ts) z size q (set_next_free (end_of rs) follower h)
        IsLoose-linked marked.ready

module _ (rs : List Tile) (size q : ℕ) (h : Heap) (raised : IsRaised rs size q h) where
  unlinked : Heap
  unlinked = set_next_free (end_of rs) null h

  kept_raised : (x : ℕ) → x ≢ end_of rs + 8 → unlinked.word x ≡ h.word x
  unfolding unlinked
  kept_raised x other = store_other (end_of rs) null x h (omega (arith, raised.extent)) other

  IsLoose-unlinked : IsLoose rs [] (end_of rs) size q unlinked
  IsLoose-unlinked = record {
    down = Down-same h.word unlinked.word q rs (λ x a b. kept_raised x (omega arith)) raised.down;
    up = (refl, kept_raised (end_of rs + 4) (omega arith) ∙ raised.prev);
    header = kept_raised (end_of rs) (omega arith) ∙ raised.own;
    aligned = raised.aligned;
    extent = raised.extent;
    many = (unfold unlinked in raised.many);
  }

  pub none_follows : (fuel : ℕ) → find_next_free fuel (end_of rs) h ≡ some null
  unfolding find_next_free
  none_follows fuel =
      rw (raised.own, (top_ctrl size raised.aligned (omega (arith, raised.extent))).1) refl

  pub settled_top : Heap
  unfolding unlinked
  settled_top = finished rs [] (end_of rs) size q unlinked IsLoose-unlinked raised.ready

  pub settled_top_run :
      (fuel : ℕ) (h₀ h' : Heap)
      → length rs + 1 < fuel
      → NotOnHole rs
      → h₀.word (end_of rs + 4) ≡ size_below rs
      → check_merge_with_top fuel (end_of rs) h' ≡ some h
      → release_block fuel (end_of rs) (block_below (end_of rs) h₀) h' ≡ some settled_top
  unfolding settled_top unlinked
  settled_top_run fuel h₀ h' enough not_on prev₀ merge =
      plain_run rs [] (end_of rs) size q null h₀ h' h IsLoose-unlinked raised.ready raised.unmerged
        not_on prev₀ fuel (omega arith) merge
        (no_merge_below q rs h not_on raised.down raised.prev (omega (arith, raised.extent)))
        (none_follows fuel)

  pub IsTiled-settled_top : IsTiled (onto rs []) (end_of rs) size settled_top
  unfolding settled_top unlinked
  IsTiled-settled_top =
      IsTiled-finished rs [] (end_of rs) size q unlinked IsLoose-unlinked raised.ready

  pub counter-settled_top : settled_top.counter ≡ h.counter
  unfolding settled_top unlinked
  counter-settled_top =
      counter-finished rs [] (end_of rs) size q unlinked IsLoose-unlinked raised.ready
