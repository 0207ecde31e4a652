-- ===== src/Prelude/Ranges.antt =====
-- Two functions that agree at every number below a bound, by evaluation.
use Prim.Native.Nat.{ℕ, zero, suc, ◌<◌}
use mathlib.Core.Path.{◌≡◌}
use mathlib.Core.Bool.{Bool, true, ◌&&◌}
use native.Mathlib.Omega.{arith}
use armv7_os.Prelude.Tests.{◌==◌}

unfoldable pub agree : (ℕ → ℕ) → (ℕ → ℕ) → ℕ → Bool
agree f g zero = true
agree f g (suc bound) = agree f g bound && f bound == g bound

pub eq_below : (f g : ℕ → ℕ) (bound x : ℕ) → x < bound → agree f g bound ≡ true → f x ≡ g x
unfolding agree
eq_below f g zero x below same = elim below [ ]
eq_below f g (suc bound) x below same = ground (arith, eq_below f g bound x)
