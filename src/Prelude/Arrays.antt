-- ===== src/Prelude/Arrays.antt =====
-- C arrays of a fixed size as functions from the index, and a total store of words or bytes. An
-- access of an array out of its range is undefined in C: here it is `none`.
use Prim.Native.Nat.{ℕ}
use mathlib.Core.Option.{Option, none, some}
use armv7_os.Prelude.Int.{ℤ, pos, negsuc}
use armv7_os.Prelude.Tests.{ltb, ◌==◌, if◌then◌else◌}

module _ {ℓ} {A : Type ℓ} where
  abbrev pub update : (ℕ → A) → ℕ → A → ℕ → A
  update f i v j = if i == j then v else f j

  -- `a[i]` and `a[i] = v` for an array of `size` elements.
  abbrev pub read : ℕ → (ℕ → A) → ℕ → Option A
  read size a i = if ltb i size then some (a i) else none

  abbrev pub write : ℕ → (ℕ → A) → ℕ → A → Option (ℕ → A)
  write size a i v = if ltb i size then some (update a i v) else none

  -- The same with an index of type `int`.
  abbrev pub read_int : ℕ → (ℕ → A) → ℤ → Option A
  read_int size a (pos i) = read size a i
  read_int size a (negsuc i) = none

  abbrev pub write_int : ℕ → (ℕ → A) → ℤ → A → Option (ℕ → A)
  write_int size a (pos i) v = write size a i v
  write_int size a (negsuc i) v = none
