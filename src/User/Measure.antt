-- ===== src/User/Measure.antt =====
-- A measure that every step of the counting threads lowers.
use armv7_os.Prelude.{
  ℕ, zero, suc, ◌+◌, ◌-◌, ◌*◌, ◌%◌, ◌^◌, ◌≤◌, ◌<◌, ◌≡◌, ◌≢◌, refl, ap, ◌∙◌, arith, List, [], ◌∷◌,
  ◌++◌, ltb, length, if◌then◌else◌, Bool-cases, ◌⊎◌, inl, inr,
}
use armv7_os.User.Counting.{
  Place, waiting, testing, loading, printing, done, storing, Thread, move_at,
}

-- Three times the weight of the next lower height, and 1.
unfoldable pub weight : ℕ → ℕ
weight zero = 0
weight (suc k) = 3 * weight k + 1

-- The height of a place falls with the counter value that its thread will use.
abbrev pub height_of : ℕ → Place → ℕ
height_of counter waiting = if ltb counter 15 then 17 - counter else 1
height_of counter testing = if ltb counter 15 then 17 - counter else 1
height_of counter printing = if ltb counter 15 then 17 - counter else 1
height_of counter loading = if ltb counter 15 then 17 - counter else 2
height_of counter (storing v) = if ltb v 15 then 17 - v else 2
height_of counter done = 0

-- The steps to the next store.
abbrev pub rank : Place → ℕ
rank waiting = 4
rank printing = 4
rank testing = 3
rank loading = 2
rank (storing v) = 1
rank done = 0

unfoldable pub potential : ℕ → List Thread → ℕ
potential counter [] = 0
potential counter (t ∷ ts) = weight (height_of counter t.place) + potential counter ts

unfoldable pub ranks : List Thread → ℕ
ranks [] = 0
ranks (t ∷ ts) = rank t.place + ranks ts

weight_mono : (j k : ℕ) → j ≤ k → weight j ≤ weight k
unfolding weight
weight_mono zero k le = omega arith
weight_mono (suc j) zero le = absurd (omega arith)
weight_mono (suc j) (suc k) le = omega (arith, weight_mono j k)

pub potential-append :
    (counter : ℕ) (xs ys : List Thread)
    → potential counter (xs ++ ys) ≡ potential counter xs + potential counter ys
unfolding potential
potential-append counter [] ys = omega arith
potential-append counter (x ∷ xs) ys = omega (arith, potential-append counter xs ys)

pub ranks-append : (xs ys : List Thread) → ranks (xs ++ ys) ≡ ranks xs + ranks ys
unfolding ranks
ranks-append [] ys = omega arith
ranks-append (x ∷ xs) ys = omega (arith, ranks-append xs ys)

-- After a store of `v + 1` the heights of the others are no higher than before, or below that of the
-- storing thread.
heights_after_store :
    (v counter k : ℕ) (p : Place)
    → height_of counter (storing v) ≡ suc k
    → (height_of (v + 1) p ≤ height_of counter p) ⊎ (height_of (v + 1) p ≤ k)
heights_after_store v counter k waiting is = inr (ground arith)
heights_after_store v counter k testing is = inr (ground arith)
heights_after_store v counter k printing is = inr (ground arith)
heights_after_store v counter k loading is = elim (Bool-cases (ltb v 15)) [
  | inl low ↦ inr (ground (arith, low))
  | inr high ↦ inl (ground (arith, high))
]
heights_after_store v counter k (storing u) is = inl (omega arith)
heights_after_store v counter k done is = inl (omega arith)

potential_after_store :
    (v counter k : ℕ) (ts : List Thread)
    → height_of counter (storing v) ≡ suc k
    → potential (v + 1) ts ≤ potential counter ts + length ts * weight k
unfolding potential
potential_after_store v counter k [] is = omega arith
potential_after_store v counter k (t ∷ ts) is = elim (heights_after_store v counter k t.place is) [
  | inl kept ↦ grind (
    arith,
    weight_mono (height_of (v + 1) t.place) (height_of counter t.place) kept,
    potential_after_store v counter k ts is,
  )
  | inr lower ↦ grind (
    arith,
    weight_mono (height_of (v + 1) t.place) k lower,
    potential_after_store v counter k ts is,
  )
]

first_weights : (weight 0 ≡ 0) × (weight 1 ≡ 1)
unfolding weight
first_weights = (refl, refl)

weight_step : (k : ℕ) → weight (suc k) ≡ 3 * weight k + 1
unfolding weight
weight_step k = refl

few_times : (n w : ℕ) → n ≤ 2 → n * w ≤ 2 * w
few_times n w few = grind arith

-- A store lowers the potential: the three threads are then below the one that stored.
pub store_lowers :
    (v counter : ℕ) (others : List Thread)
    → length others ≤ 2
    → weight (height_of (v + 1) printing) + potential (v + 1) others
      < weight (height_of counter (storing v)) + potential counter others
store_lowers v counter others few =
    let k : ℕ = height_of counter (storing v) - 1 in
    let is : height_of counter (storing v) ≡ suc k = ground arith in
    let own : height_of (v + 1) printing ≤ k = ground arith in
    let whole : weight (height_of counter (storing v)) ≡ 3 * weight k + 1 =
      ap weight is ∙ weight_step k in
    omega (
      arith,
      whole,
      weight_mono (height_of (v + 1) printing) k own,
      potential_after_store v counter k others is,
      few_times (length others) (weight k) few,
    )

-- What a step of `t` at place `p` does to the measures, among at most two other threads.
pub record Lower (counter counter' : ℕ) (others : List Thread) (p p' : Place) : Type 0 where
  pub potential_le :
      weight (height_of counter' p') + potential counter' others
      ≤ weight (height_of counter p) + potential counter others
  pub lower :
      4 * (weight (height_of counter' p') + potential counter' others) + rank p'
      < 4 * (weight (height_of counter p) + potential counter others) + rank p

pub move_at-Lower :
    (p : Place) (counter char : ℕ) (t : Thread) (others : List Thread)
    → p ≢ done
    → length others ≤ 2
    → ((v : ℕ) → p ≡ storing v → v + 1 < 2 ^ 32)
    → Lower counter (move_at p counter char t).0 others p (move_at p counter char t).1.place
unfolding move_at
move_at-Lower waiting counter char t others active few small = record {
  potential_le = omega arith;
  lower = omega arith;
}
move_at-Lower printing counter char t others active few small = record {
  potential_le = omega arith;
  lower = omega arith;
}
move_at-Lower testing counter char t others active few small = elim (Bool-cases (ltb counter 15)) [
  | inl low ↦ record { potential_le = ground (arith, low); lower = ground (arith, low) }
  | inr high ↦ record {
    potential_le = ground (arith, high, first_weights);
    lower = ground (arith, high, first_weights);
  }
]
move_at-Lower loading counter char t others active few small = record {
  potential_le = omega arith;
  lower = omega arith;
}
move_at-Lower (storing v) counter char t others active few small =
    let plain : (v + 1) % 2 ^ 32 ≡ v + 1 = omega (arith, small v refl) in
    rw plain (record {
      potential_le = omega (arith, store_lowers v counter others few);
      lower = omega (arith, store_lowers v counter others few);
    })
move_at-Lower done counter char t others active few small = absurd (active refl)
