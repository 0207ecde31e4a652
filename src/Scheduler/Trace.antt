-- ===== src/Scheduler/Trace.antt =====
-- Every order of creations, exits and switches of threads.
use armv7_os.Prelude.{ℕ, ℤ, ◌≡◌, ◌≢◌, ◌∙◌, some, arith, ap, sym, subst, inl, inr}
use armv7_os.Process.{Kernel}
use armv7_os.Scheduler.Defs.{scheduler_on_create, scheduler_on_exit, scheduler_on_schedule}
use armv7_os.Scheduler.Schedule.{IsLaidOut, Sees, scheduler_on_schedule-Sees}
use armv7_os.Scheduler.Frame.{
  Frame, scheduler_on_create-Framed, scheduler_on_exit-Frame, scheduler_on_exit-Unowned,
}

-- The state between two calls of a hook, with the id of the running thread (-1: the idle thread).
pub record Running : Type 0 where
  pub kernel : Kernel
  pub current : ℤ

-- The calls that the scheduler makes: it creates threads other than the running one, ends the
-- running one, and switches from it to any other. A call that runs out of a table makes no step.
pub data Step (walk : (ℕ → ℕ) → ℕ → ℕ) (s : Running) : Running → Type 0 where
  create :
      (id : ℤ) (flags : ℕ) (result : ℤ) (k : Kernel)
      → id ≢ s.current
      → scheduler_on_create walk id flags s.kernel ≡ some (result, k)
      → Step walk s (record { kernel = k; current = s.current })
  exit :
      (k : Kernel)
      → scheduler_on_exit s.current s.kernel ≡ some k
      → Step walk s (record { kernel = k; current = s.current })
  switch :
      (next : ℤ) (k : Kernel)
      → scheduler_on_schedule s.current next s.kernel ≡ some k
      → Step walk s (record { kernel = k; current = next })

pub data Reach (walk : (ℕ → ℕ) → ℕ → ℕ) (s : Running) : Running → Type 0 where
  start : Reach walk s s
  then_step : {t u : Running} → Reach walk s t → Step walk t u → Reach walk s u

-- The running thread sees the user data of the process that it belongs to.
pub record IsIsolated (s : Running) : Type 0 where
  pub laid_out : IsLaidOut s.kernel
  pub sees : Sees s.current s.kernel

Frame-IsLaidOut : {id : ℤ} {k k' : Kernel} → Frame id k k' → IsLaidOut k → IsLaidOut k'
Frame-IsLaidOut f laid = record {
  table = record {
    fixed = λ j lt a b. ap (λ (t : ℕ → ℕ). t j) f.same_table ∙ laid.table.fixed j lt a b;
    template_entry = f.same_template ∙ laid.table.template_entry;
  };
  addresses = λ p lt. f.same_address p ∙ laid.addresses p lt;
}

-- A thread whose process did not change keeps its view.
Frame-Sees :
    {id : ℤ} {k k' : Kernel} (running : ℤ)
    → Frame id k k'
    → id ≢ running
    → Sees running k
    → Sees running k'
Frame-Sees running f ne sees t p is lt owned =
    ap (λ (table : ℕ → ℕ). table 6) f.same_table
    ∙ sees t p is lt (sym (f.other_threads t (λ e. ne (e ∙ sym is))) ∙ owned)

Step-IsIsolated :
    {walk : (ℕ → ℕ) → ℕ → ℕ} {s t : Running} → Step walk s t → IsIsolated s → IsIsolated t
Step-IsIsolated {walk} {s} (create id flags result k ne e) h =
    let f = scheduler_on_create-Framed walk id s.kernel flags (result, k) e in
    record { laid_out = Frame-IsLaidOut f h.laid_out; sees = Frame-Sees s.current f ne h.sees }
Step-IsIsolated {s} (exit k e) h = record {
  laid_out = Frame-IsLaidOut (scheduler_on_exit-Frame s.current s.kernel k e) h.laid_out;
  sees = elim (scheduler_on_exit-Unowned s.current s.kernel k e) [
    | inl same ↦ subst (Sees s.current) same h.sees
    | inr gone ↦ λ t p is lt owned. absurd (ground (arith, gone t is))
  ];
}
Step-IsIsolated {s} (switch next k e) h =
    let (laid, sees, _) =
      scheduler_on_schedule-Sees s.current next s.kernel k h.laid_out h.sees e in
    record { laid_out = laid; sees = sees }

-- In whatever order threads are created, ended and switched, as long as no call runs out of a
-- table, the running thread sees the data section of the process that it belongs to.
pub Reach-IsIsolated :
    {walk : (ℕ → ℕ) → ℕ → ℕ} {s t : Running} → IsIsolated s → Reach walk s t → IsIsolated t
Reach-IsIsolated h start = h
Reach-IsIsolated h (then_step r st) = Step-IsIsolated st (Reach-IsIsolated h r)
