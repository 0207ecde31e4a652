-- ===== src/Prelude/Loops.antt =====
-- Chains of steps that may fail, and counted loops over them.
use Prim.Native.Nat.{ℕ, zero, suc, ◌+◌, ◌≤◌}
use mathlib.Core.Path.{◌≡◌, refl, fun_ext, ap, subst, ◌≡⟨◌⟩◌, ◌∎}
use mathlib.Core.Bool.{Bool, ◌&&◌}
use mathlib.Core.Option.{Option, none, some, some-injective}
use native.Mathlib.Omega.{arith}
use armv7_os.Prelude.Arrays.{update, read, write}
use armv7_os.Prelude.Tests.{ltb, leb, if◌then◌else◌}

infixl 5 ◌>>=◌ ◌>>◌
abbrev pub ◌>>=◌ {ℓ κ} : {A : Type ℓ} {B : Type κ} → Option A → (A → Option B) → Option B
none >>= f = none
some a >>= f = f a

abbrev pub ◌>>◌ {ℓ κ} : {A : Type ℓ} {B : Type κ} → Option A → Option B → Option B
none >> k = none
some a >> k = k

-- What holds of the result of a chain, if it succeeds.
abbrev pub Ensures {ℓ κ} : {A : Type ℓ} → (A → Type κ) → Option A → Type (ℓ ⊔ κ)
Ensures {A} P m = (a : A) → m ≡ some a → P a

pub Ensures->>= {ℓ κ ι} :
    {A B : Type ℓ} (Q : A → Type κ) (P : B → Type ι) (m : Option A) (f : A → Option B)
    → Ensures Q m
    → ((a : A) → Q a → Ensures P (f a))
    → Ensures P (m >>= f)
Ensures->>= Q P none f first rest b e = cc
Ensures->>= Q P (some a) f first rest b e = rest a (first a refl) b e

pub Ensures-some {ℓ κ} : {A : Type ℓ} (P : A → Type κ) (a : A) → P a → Ensures P (some a)
Ensures-some P a h b e = subst P (some-injective a b e) h

-- Inversion of a chain that succeeds.
pub >>=-eq-some {ℓ κ} :
    {A : Type ℓ} {B : Type κ} (m : Option A) (f : A → Option B) {b : B}
    → (m >>= f) ≡ some b
    → (a : A) × (m ≡ some a) × (f a ≡ some b)
>>=-eq-some none f h = cc
>>=-eq-some (some a) f h = (a, refl, h)

-- `for (i = lo; i < lo + rounds; i++) body(i)`, by the rounds left.
unfoldable pub for_loop {ℓ} : {S : Type ℓ} → ℕ → ℕ → (ℕ → S → Option S) → S → Option S
for_loop zero i body s = some s
for_loop (suc rounds) i body s = body i s >>= for_loop rounds (i + 1) body

-- A test for lo <= j < hi.
abbrev pub within : ℕ → ℕ → ℕ → Bool
within lo hi j = leb lo j && ltb j hi

module _ {ℓ} {A : Type ℓ} (size : ℕ) (g : ℕ → A → A) where
  -- The body `a[i] = g(i, a[i])`.
  abbrev pub modify : ℕ → (ℕ → A) → Option (ℕ → A)
  modify i a = do x ← read size a i; write size a i (g i x)

  pub for_loop-modify :
      (rounds lo : ℕ) (a : ℕ → A)
      → lo + rounds ≤ size
      → for_loop rounds lo modify a
        ≡ some (λ j. if within lo (lo + rounds) j then g j (a j) else a j)
  unfolding for_loop
  for_loop-modify zero lo a fits = ap some (fun_ext λ j. ground arith)
  for_loop-modify (suc rounds) lo a fits =
      for_loop (suc rounds) lo modify a
      ≡⟨ ground arith ⟩ for_loop rounds (lo + 1) modify (update a lo (g lo (a lo)))
      ≡⟨ for_loop-modify rounds (lo + 1) (update a lo (g lo (a lo))) (omega arith) ⟩ _
      ≡⟨ ap some (fun_ext λ j. ground arith) ⟩
        some (λ j. if within lo (lo + suc rounds) j then g j (a j) else a j) ∎
