-- ===== src/Scheduler/Frame.antt =====
-- What the creation or the exit of a thread leaves alone.
use armv7_os.Prelude.{
  ℕ, ℤ, pos, negsuc, minus_one, ◌≡◌, ◌≢◌, ◌⊎◌, inl, inr, refl, ◌∙◌, ◌==◌, eq_ℤ, Bool-cases, arith,
  Ensures, Ensures->>=, Ensures-some, read, read_int, not, ◌&&◌, ◌||◌, is_nonpos,
}
use armv7_os.Mmu.{Mmu, max_processes, l1_table_size, copy_userdata_template, kmemcpy, copy_bytes}
use armv7_os.Process.{
  Process, Kernel, modify_process, assign_thread, process_create, reserve_process,
  find_free_process_address, get_process_id,
}
use armv7_os.Scheduler.Defs.{
  scheduler_on_create, scheduler_on_exit, create_parent, create_child, end_thread, count_up,
  count_down, free_if_done, parent, child,
}

-- What a creation or an exit leaves alone: the translation table, the processes' sections, and the
-- process of every thread but `id`.
pub record Frame (id : ℤ) (k k' : Kernel) : Type 0 where
  pub same_table : k'.mmu.l1_table ≡ k.mmu.l1_table
  pub same_template : k'.mmu.template ≡ k.mmu.template
  pub same_address : (p : ℕ) → (k'.process_array p).data_address ≡ (k.process_array p).data_address
  pub other_threads : (u : ℕ) → id ≢ pos u → k'.thread_process_arr u ≡ k.thread_process_arr u

Frame-refl : (id : ℤ) (k : Kernel) → Frame id k k
Frame-refl id k = record {
  same_table = refl;
  same_template = refl;
  same_address = λ p. refl;
  other_threads = λ u ne. refl;
}

Frame-trans : {id : ℤ} {k l m : Kernel} → Frame id k l → Frame id l m → Frame id k m
Frame-trans f g = record {
  same_table = g.same_table ∙ f.same_table;
  same_template = g.same_template ∙ f.same_template;
  same_address = λ p. g.same_address p ∙ f.same_address p;
  other_threads = λ u ne. g.other_threads u ne ∙ f.other_threads u ne;
}

modify_process-Frame :
    (id pid : ℤ) (f : Process → Process) (k : Kernel)
    → ((x : Process) → (f x).data_address ≡ x.data_address)
    → Ensures (Frame id k) (modify_process pid f k)
unfolding modify_process
modify_process-Frame id (negsuc p) f k keeps k' h = cc
modify_process-Frame id (pos p) f k keeps k' h = record {
  same_table = ground arith;
  same_template = ground arith;
  same_address = λ q. ground (arith, keeps (k.process_array p));
  other_threads = λ u ne. ground arith;
}

assign_thread-Frame : (id pid : ℤ) (k : Kernel) → Ensures (Frame id k) (assign_thread id pid k)
unfolding assign_thread
assign_thread-Frame (negsuc p) pid k k' h = cc
assign_thread-Frame (pos p) pid k k' h = record {
  same_table = ground arith;
  same_template = ground arith;
  same_address = λ q. ground arith;
  other_threads = λ u ne. ground arith;
}

abbrev SameMap : Mmu → Mmu → Type 0
SameMap m m' = (m'.l1_table ≡ m.l1_table) × (m'.template ≡ m.template)

copy-SameMap :
    (walk : (ℕ → ℕ) → ℕ → ℕ) (address : ℕ) (m : Mmu)
    → Ensures (SameMap m) (copy_userdata_template walk address m)
unfolding copy_userdata_template kmemcpy
copy-SameMap walk address m =
    Ensures->>= (λ _. Unit {0}) (SameMap m) (read l1_table_size m.l1_table address) _ (λ _ _. tt)
      λ entry _.
        Ensures->>= (λ _. Unit {0}) (SameMap m) (copy_bytes walk m.l1_table _ _ _ m.memory) _
          (λ _ _. tt)
          λ memory _. Ensures-some (SameMap m) (record m { memory = memory }) (refl, refl)

module _ (walk : (ℕ → ℕ) → ℕ → ℕ) (id : ℤ) (k : Kernel) where
  abbrev Framed : ℤ × Kernel → Type 0
  Framed r = Frame id k r.1

  reserve_process-Framed : (new : ℤ) → Ensures Framed (reserve_process walk id new k)
  unfolding reserve_process
  reserve_process-Framed new =
      Ensures->>= (Frame id k) Framed (assign_thread id new k) _ (assign_thread-Frame id new k)
        λ k₁ f.
          Ensures->>= (Frame id k) Framed (modify_process new _ k₁) _
            (λ k₂ e. Frame-trans f (modify_process-Frame id new _ k₁ (λ x. refl) k₂ e))
            λ k₂ g.
              Ensures->>= (λ _. Unit {0}) Framed (read_int max_processes k₂.process_array new) _
                (λ _ _. tt)
                λ p _.
                  Ensures->>= (SameMap k₂.mmu) Framed
                    (copy_userdata_template walk p.data_address k₂.mmu) _
                    (copy-SameMap walk p.data_address k₂.mmu)
                    λ m same.
                      Ensures-some Framed (new, record k₂ { mmu = m })
                        (Frame-trans g (record {
                          same_table = same.0;
                          same_template = same.1;
                          same_address = λ _. refl;
                          other_threads = λ _ _. refl;
                        }))

  process_create-Framed : Ensures Framed (process_create walk id k)
  unfolding process_create
  process_create-Framed =
      Ensures->>= (λ _. Unit {0}) Framed (find_free_process_address k) _ (λ _ _. tt)
        λ new _. elim (Bool-cases (eq_ℤ new minus_one)) [
          | inl full ↦ rw full (Ensures-some Framed (minus_one, k) (Frame-refl id k))
          | inr found ↦ rw found (reserve_process-Framed new)
        ]

  count_up-Frame : (pid : ℤ) (l : Kernel) → Frame id k l → Ensures (Frame id k) (count_up pid l)
  unfolding count_up
  count_up-Frame pid l f l' e = Frame-trans f (modify_process-Frame id pid _ l (λ x. refl) l' e)

  Frame-scheduler_pid :
      (l : Kernel) (pid : ℤ) → Frame id k l → Frame id k (record l { scheduler_pid = pid })
  Frame-scheduler_pid l pid f = record {
    same_table = f.same_table;
    same_template = f.same_template;
    same_address = f.same_address;
    other_threads = f.other_threads;
  }

  create_parent-Framed : Ensures Framed (create_parent walk id k)
  unfolding create_parent
  create_parent-Framed =
      Ensures->>= Framed Framed (process_create walk id k) _ process_create-Framed λ r f.
        Ensures->>= (Frame id k) Framed (count_up r.0 r.1) _ (count_up-Frame r.0 r.1 f) λ l g.
          elim (Bool-cases (eq_ℤ r.0 minus_one)) [
            | inl full ↦ rw full (Ensures-some Framed (minus_one, l) g)
            | inr found ↦ rw found (
                Ensures-some Framed (pos 0, record l { scheduler_pid = r.0 })
                  (Frame-scheduler_pid l r.0 g))
          ]

  create_child-Framed : Ensures Framed (create_child id k)
  unfolding create_child
  create_child-Framed =
      Ensures->>= (Frame id k) Framed (assign_thread id k.scheduler_pid k) _
        (assign_thread-Frame id k.scheduler_pid k)
        λ l f.
          Ensures->>= (Frame id k) Framed (count_up l.scheduler_pid l) _
            (count_up-Frame l.scheduler_pid l f) λ m g. Ensures-some Framed (pos 0, m) g

  -- A creation that succeeds changes neither the translation table nor the sections of the
  -- processes nor the process of any thread but the new one.
  pub scheduler_on_create-Framed :
      (flags : ℕ) → Ensures Framed (scheduler_on_create walk id flags k)
  unfolding scheduler_on_create
  scheduler_on_create-Framed flags = elim (Bool-cases (eq_ℤ id minus_one)) [
    | inl idle ↦ rw idle (Ensures-some Framed (pos 0, k) (Frame-refl id k))
    | inr thread ↦ rw thread (elim (Bool-cases (flags == parent)) [
      | inl p ↦ rw p create_parent-Framed
      | inr np ↦ rw np (elim (Bool-cases (flags == child && not (eq_ℤ k.scheduler_pid minus_one))) [
        | inl c ↦ rw c create_child-Framed
        | inr nc ↦ rw nc (Ensures-some Framed (pos 0, k) (Frame-refl id k))
      ])
    ])
  ]

module _ (id : ℤ) (k : Kernel) where
  free_if_done-Frame :
      (pid : ℤ) (l : Kernel) → Frame id k l → Ensures (Frame id k) (free_if_done id pid l)
  unfolding free_if_done
  free_if_done-Frame pid l f =
      Ensures->>= (λ _. Unit {0}) (Frame id k) (read_int max_processes l.process_array pid) _
        (λ _ _. tt)
        λ p _. elim (Bool-cases (is_nonpos p.threads_active)) [
          | inl done ↦ rw done (
              Ensures->>= (λ _. Unit {0}) (Frame id k) (get_process_id id l) _ (λ _ _. tt)
                λ own _ m e. Frame-trans f (modify_process-Frame id own _ l (λ x. refl) m e))
          | inr busy ↦ rw busy (Ensures-some (Frame id k) l f)
        ]

  end_thread-Frame : Ensures (Frame id k) (end_thread id k)
  unfolding end_thread
  end_thread-Frame =
      Ensures->>= (λ _. Unit {0}) (Frame id k) (get_process_id id k) _ (λ _ _. tt)
        λ pid _.
          Ensures->>= (Frame id k) (Frame id k) (count_down pid k) _
            (unfold count_down in modify_process-Frame id pid _ k (λ x. refl))
            λ l f.
              Ensures->>= (Frame id k) (Frame id k) (free_if_done id pid l) _
                (free_if_done-Frame pid l f)
                λ m g. λ n e. Frame-trans g (assign_thread-Frame id minus_one m n e)

  -- An exit that succeeds leaves the same alone.
  pub scheduler_on_exit-Frame : Ensures (Frame id k) (scheduler_on_exit id k)
  unfolding scheduler_on_exit
  scheduler_on_exit-Frame = elim (Bool-cases (eq_ℤ id minus_one || eq_ℤ id (pos 1))) [
    | inl kept ↦ rw kept (Ensures-some (Frame id k) k (Frame-refl id k))
    | inr ends ↦ rw ends end_thread-Frame
  ]

-- Thread `id` belongs to no process.
abbrev pub Unowned : ℤ → Kernel → Type 0
Unowned id k = (t : ℕ) → id ≡ pos t → k.thread_process_arr t ≡ minus_one

assign_thread-Unowned : (id : ℤ) (k : Kernel) → Ensures (Unowned id) (assign_thread id minus_one k)
unfolding assign_thread
assign_thread-Unowned (negsuc n) k k' h t e = cc
assign_thread-Unowned (pos n) k k' h t e = ground arith

-- An exit that succeeds changes nothing, or leaves the thread without a process.
pub scheduler_on_exit-Unowned :
    (id : ℤ) (k : Kernel) → Ensures (λ k'. (k ≡ k') ⊎ Unowned id k') (scheduler_on_exit id k)
unfolding scheduler_on_exit end_thread
scheduler_on_exit-Unowned id k =
    let After : Kernel → Type 0 = λ k'. (k ≡ k') ⊎ Unowned id k' in
    elim (Bool-cases (eq_ℤ id minus_one || eq_ℤ id (pos 1))) [
      | inl kept ↦ rw kept (Ensures-some After k (inl refl))
      | inr ends ↦ rw ends (
          Ensures->>= (λ _. Unit {0}) After (get_process_id id k) _ (λ _ _. tt)
            λ pid _.
              Ensures->>= (λ _. Unit {0}) After (count_down pid k) _ (λ _ _. tt)
                λ l _.
                  Ensures->>= (λ _. Unit {0}) After (free_if_done id pid l) _ (λ _ _. tt)
                    λ m _ n e. inr (assign_thread-Unowned id m n e))
    ]
