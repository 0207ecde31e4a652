-- ===== src/Scheduler/Schedule.antt =====
-- `scheduler_on_schedule`: the running thread sees the user data of its own process.
use native.Mathlib.Decide.{dec_lt}
use armv7_os.Prelude.{
  ℕ, ◌+◌, ◌<◌, ℤ, pos, negsuc, minus_one, ◌≡◌, inl, inr, refl, ◌∙◌, some, eq_ℤ, eq_ℤ_sound, ltb,
  if◌then◌else◌, Bool-cases, arith, ap, subst, sym,
}
use armv7_os.Mmu.{max_processes, max_threads}
use armv7_os.Mmu.Init.{IsKernelTable, section_entry}
use armv7_os.Mmu.Remap.{IsMappedTo, IsMappedTo-IsKernelTable, map_userdata_to-IsMappedTo}
use armv7_os.Process.{Kernel, process_switch, get_process_id}
use armv7_os.Scheduler.Defs.{scheduler_on_schedule}

-- What the switch relies on and keeps: the table outside the user sections, and the sections of
-- the processes.
pub record IsLaidOut (k : Kernel) : Type 0 where
  pub table : IsKernelTable k.mmu
  pub addresses : (p : ℕ) → p < max_processes → (k.process_array p).data_address ≡ 8 + p

-- The user data of the running thread, if it belongs to a process, is that process's section.
abbrev pub Sees : ℤ → Kernel → Type 0
Sees running k =
    (t p : ℕ)
    → running ≡ pos t
    → t < max_threads
    → k.thread_process_arr t ≡ pos p
    → k.mmu.l1_table 6 ≡ section_entry (8 + p)

-- Everything but the MMU is as it was.
pub record SameTables (k k' : Kernel) : Type 0 where
  pub processes : k'.process_array ≡ k.process_array
  pub threads : k'.thread_process_arr ≡ k.thread_process_arr
  pub current : k'.scheduler_pid ≡ k.scheduler_pid

-- A switch that succeeds was to a process of the table, and mapped its data.
abbrev pub Switched : ℤ → Kernel → Kernel → Type 0
Switched pid k k' =
    (p : ℕ) × (pid ≡ pos p) × (p < max_processes) × IsMappedTo p k.mmu k'.mmu × SameTables k k'

process_switch-Switched :
    (pid : ℤ) (k k' : Kernel) → IsLaidOut k → process_switch pid k ≡ some k' → Switched pid k k'
unfolding process_switch
process_switch-Switched (negsuc n) k k' laid h = cc
process_switch-Switched (pos p) k k' laid h = elim (dec_lt p max_processes) [
  | no out ↦ absurd (ground arith)
  | yes lt ↦
      let (m', runs, mapped) = map_userdata_to-IsMappedTo p k.mmu lt laid.table in
      let here : record k { mmu = m' } ≡ k' = ground (arith, laid.addresses p, runs) in
      subst (λ x. Switched (pos p) k x) here
        (p, refl, lt, mapped, record { processes = refl; threads = refl; current = refl })
]

get_process_id-pos :
    (id : ℤ) (p : ℕ) (k : Kernel)
    → get_process_id id k ≡ some (pos p)
    → (t : ℕ) × (id ≡ pos t) × (t < max_threads) × (k.thread_process_arr t ≡ pos p)
unfolding get_process_id
get_process_id-pos (negsuc n) p k h = cc
get_process_id-pos (pos t) p k h = (t, refl, ground arith, ground arith)

get_process_id-runs :
    (t : ℕ) (k : Kernel)
    → t < max_threads
    → get_process_id (pos t) k ≡ some (k.thread_process_arr t)
unfolding get_process_id
get_process_id-runs t k lt = ground arith

get_process_id-total : (id : ℤ) (k : Kernel) → (pid : ℤ) × (get_process_id id k ≡ some pid)
unfolding get_process_id
get_process_id-total (negsuc n) k = (minus_one, refl)
get_process_id-total (pos t) k =
    (if ltb 31 t then minus_one else k.thread_process_arr t, ground arith)

abbrev KeptView : ℤ → Kernel → Kernel → Type 0
KeptView next k k' = IsLaidOut k' × Sees next k' × SameTables k k'

unchanged : (next : ℤ) (k : Kernel) → IsLaidOut k → Sees next k → KeptView next k k
unchanged next k laid sees =
    (laid, sees, record { processes = refl; threads = refl; current = refl })

module _ (old next : ℤ) (k k' : Kernel) (laid : IsLaidOut k) (sees : Sees old k) where
  -- Both threads belong to one process: the old thread's view serves the next.
  same_process :
      (pid : ℤ) → get_process_id old k ≡ some pid → get_process_id next k ≡ some pid → Sees next k
  same_process pid old_is next_is t p e lt owned =
      let next_pid : get_process_id next k ≡ some (pos p) =
        rw e (rw (get_process_id-runs t k lt) (ap some owned)) in
      let both : some pid ≡ some (pos p) = sym next_is ∙ next_pid in
      let (t', e', lt', owned') = get_process_id-pos old p k (old_is ∙ both) in
      sees t' p e' lt' owned'

  switch-KeptView :
      (pid : ℤ) → get_process_id next k ≡ some pid → Switched pid k k' → KeptView next k k'
  switch-KeptView pid next_is (q, e, lt, mapped, same) = (
    record {
      table = IsMappedTo-IsKernelTable mapped laid.table;
      addresses = λ p p_lt. rw same.processes (laid.addresses p p_lt);
    },
    λ t p is t_lt owned.
        let next_pid : get_process_id next k ≡ some (k.thread_process_arr t) =
          rw is (get_process_id-runs t k t_lt) in
        let q_is_p : q ≡ p = ground (arith, next_is, next_pid, e, owned, same.threads) in
        rw (← q_is_p) mapped.data_entry,
    same,
  )

  -- If the old thread sees its process's user data, then after a call of the hook that succeeds the
  -- next thread sees that of its own process; the process tables are unchanged.
  pub scheduler_on_schedule-Sees : scheduler_on_schedule old next k ≡ some k' → KeptView next k k'
  unfolding scheduler_on_schedule
  scheduler_on_schedule-Sees h =
      let (a, old_is) = get_process_id-total old k in
      let (b, next_is) = get_process_id-total next k in
      elim (Bool-cases (eq_ℤ next minus_one)) [
        | inl idle ↦
            let same : k ≡ k' = ground arith in
            subst (λ x. KeptView next k x) same
              (unchanged next k laid
                (λ t p is _ _. absurd (ground (arith, eq_ℤ_sound next minus_one))))
        | inr busy ↦ elim (Bool-cases (eq_ℤ a b)) [
          | inl one ↦
              let same : k ≡ k' = ground (arith, old_is, next_is) in
              subst (λ x. KeptView next k x) same
                (unchanged next k laid (same_process b (rw (← eq_ℤ_sound a b one) old_is) next_is))
          | inr two ↦
              let switches : process_switch b k ≡ some k' = ground (arith, old_is, next_is) in
              switch-KeptView b next_is (process_switch-Switched b k k' laid switches)
        ]
      ]
