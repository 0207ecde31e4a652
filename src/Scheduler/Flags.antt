-- ===== src/Scheduler/Flags.antt =====
-- What `scheduler_on_create` does where the flags are not PARENT.
use armv7_os.Prelude.{
  ℕ, ℤ, pos, negsuc, minus_one, eq_ℤ, ◌≡◌, ◌≢◌, ◌∙◌, refl, not, ◌&&◌, ◌==◌, Ensures, Ensures->>=,
  Ensures-some, Bool-cases, arith, inl, inr, false,
}
use armv7_os.Process.{Kernel, assign_thread}
use armv7_os.Scheduler.Defs.{scheduler_on_create, create_child, count_up, parent, child}

-- No process is newly reserved or freed.
abbrev pub SameReserved : Kernel → Kernel → Type 0
SameReserved k k' = (q : ℕ) → (k'.process_array q).reserved ≡ (k.process_array q).reserved

count_up-SameReserved : (pid : ℤ) (k : Kernel) → Ensures (SameReserved k) (count_up pid k)
unfolding count_up
count_up-SameReserved (negsuc n) k k' h q = cc
count_up-SameReserved (pos n) k k' h q = ground arith

assign_thread-SameReserved :
    (id pid : ℤ) (k : Kernel) → Ensures (SameReserved k) (assign_thread id pid k)
unfolding assign_thread
assign_thread-SameReserved (negsuc n) pid k k' h q = cc
assign_thread-SameReserved (pos n) pid k k' h q = ground arith

module _ (walk : (ℕ → ℕ) → ℕ → ℕ) (id : ℤ) (flags : ℕ) (k : Kernel) (ne : flags ≢ parent) where
  abbrev Kept : ℤ × Kernel → Type 0
  Kept r = SameReserved k r.1

  create_child-Kept : Ensures Kept (create_child id k)
  unfolding create_child
  create_child-Kept =
      Ensures->>= (SameReserved k) Kept (assign_thread id k.scheduler_pid k) _
        (assign_thread-SameReserved id k.scheduler_pid k)
        λ l f.
          Ensures->>= (SameReserved k) Kept (count_up l.scheduler_pid l) _
            (λ m e q. count_up-SameReserved l.scheduler_pid l m e q ∙ f q)
            λ m g. Ensures-some Kept (pos 0, m) g

  -- Flags other than PARENT never reserve a process.
  pub not_parent-SameReserved : Ensures Kept (scheduler_on_create walk id flags k)
  unfolding scheduler_on_create
  not_parent-SameReserved = elim (Bool-cases (eq_ℤ id minus_one)) [
    | inl idle ↦ rw idle (Ensures-some Kept (pos 0, k) (λ q. refl))
    | inr thread ↦
        let other : (flags == parent) ≡ false = ground arith in
        rw (thread, other)
          (elim (Bool-cases (flags == child && not (eq_ℤ k.scheduler_pid minus_one))) [
            | inl c ↦ rw c create_child-Kept
            | inr nc ↦ rw nc (Ensures-some Kept (pos 0, k) (λ q. refl))
          ])
  ]
