-- ===== src/Process/Free.antt =====
-- The search of `find_free_process_address`.
use armv7_os.Prelude.{
  ℕ, zero, suc, ◌+◌, ◌≤◌, ◌<◌, ℤ, pos, minus_one, ◌≡◌, ◌≢◌, ◌⊎◌, inl, inr, refl, Option, some, ◌==◌,
  Bool-cases, arith,
}
use armv7_os.Mmu.{max_processes}
use armv7_os.Process.Defs.{Process, Kernel, find_free_from, find_free_process_address}

-- The outcome of a search that starts at index `i`.
abbrev pub FirstFree : ℕ → (ℕ → Process) → Option ℤ → Type 0
FirstFree i processes result =
    ((n : ℕ) × (result ≡ some (pos n))
      × (n < max_processes)
      × ((processes n).reserved ≡ 0)
      × ((j : ℕ) → i ≤ j → j < n → (processes j).reserved ≢ 0))
    ⊎ ((result ≡ some minus_one)
        × ((j : ℕ) → i ≤ j → j < max_processes → (processes j).reserved ≢ 0))

find_free_from-FirstFree :
    (rounds i : ℕ) (processes : ℕ → Process)
    → i + rounds ≡ max_processes
    → FirstFree i processes (find_free_from rounds i processes)
unfolding find_free_from
find_free_from-FirstFree zero i processes e = inr (refl, λ j a b. absurd (omega arith))
find_free_from-FirstFree (suc rounds) i processes e =
    elim (Bool-cases ((processes i).reserved == 0)) [
      | inl free ↦ inl (i, ground arith, omega arith, ground arith, λ j a b. absurd (omega arith))
      | inr taken ↦ elim (find_free_from-FirstFree rounds (i + 1) processes (omega arith)) [
        | inl (n, found, lt, free, before) ↦
            inl (n, ground arith, lt, free, λ j a b. ground (arith, before j))
        | inr (none_found, before) ↦ inr (ground arith, λ j a b. ground (arith, before j))
      ]
    ]

-- The search returns the first process that is not reserved, and -1 exactly when all 8 are.
pub find_free_process_address-FirstFree :
    (k : Kernel) → FirstFree 0 k.process_array (find_free_process_address k)
unfolding find_free_process_address
find_free_process_address-FirstFree k =
    find_free_from-FirstFree max_processes 0 k.process_array (omega arith)
