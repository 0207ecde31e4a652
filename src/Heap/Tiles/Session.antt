-- ===== src/Heap/Tiles/Session.antt =====
-- Sequences of calls of `malloc` and `free`, in any order.
use armv7_os.Prelude.{ℕ, ◌+◌, ◌^◌, ◌≤◌, ◌<◌, ◌≡◌, some, Option, List, [], ◌∷◌, ◌>>=◌}
use armv7_os.Heap.Defs.{Heap, heap_base, null, malloc, round_up}
use armv7_os.Heap.Free.{free}
use armv7_os.Heap.Tiles.{Tile, used, end_of, onto}
use armv7_os.Heap.Tiles.FirstFit.{allocate, placed, top_at, HasRoom, AllSmall}
use armv7_os.Heap.Tiles.Coalesce.{released, top_after, bytes_from}

-- A call of `malloc` with a number of bytes, or of `free` with an address.
pub data Call : Type 0 where
  request : ℕ → Call
  give_back : ℕ → Call

-- The calls of the code, with what the calls of `malloc` return.
abbrev pub run_calls : ℕ → List Call → Heap → Option (List ℕ × Heap)
run_calls fuel [] h = some ([], h)
run_calls fuel (request n ∷ calls) h = do
  (b, h) ← malloc fuel n h
  (bs, h) ← run_calls fuel calls h
  some (b ∷ bs, h)
run_calls fuel (give_back b ∷ calls) h = do h ← free fuel b h; run_calls fuel calls h

-- What the calls do to the list of the blocks below the top block at `z`, with their replies: first
-- fit, or NULL where nothing fits, and the joining of free blocks.
pub data Session : List Tile → ℕ → List Call → List ℕ → List Tile → ℕ → Type 0 where
  over : (ts : List Tile) (z : ℕ) → Session ts z [] [] ts z
  fitting :
      {ts ts' : List Tile} {z z' : ℕ} {calls : List Call} {replies : List ℕ} (n : ℕ)
      → 1 ≤ n
      → n + 3 < 2 ^ 32
      → HasRoom (round_up n) (bytes_from z) ts
      → Session (allocate (round_up n) ts) (top_at (round_up n) z ts) calls replies ts' z'
      → (reply : ℕ) → reply ≡ placed (round_up n) heap_base ts
      → Session ts z (request n ∷ calls) (reply ∷ replies) ts' z'
  too_large :
      {ts ts' : List Tile} {z z' : ℕ} {calls : List Call} {replies : List ℕ} (n : ℕ)
      → AllSmall (round_up n) ts
      → bytes_from z < round_up n
      → Session ts z calls replies ts' z'
      → (reply : ℕ) → reply ≡ null
      → Session ts z (request n ∷ calls) (reply ∷ replies) ts' z'
  giving :
      {ts ts' : List Tile} {z z' : ℕ} {calls : List Call} {replies : List ℕ} (rs : List Tile)
      (s : ℕ) (above : List Tile)
      → ts ≡ onto rs (used s ∷ above)
      → (b : ℕ) → b ≡ end_of rs
      → Session (released rs s above) (top_after rs above z) calls replies ts' z'
      → Session ts z (give_back b ∷ calls) replies ts' z'
