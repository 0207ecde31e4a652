-- ===== src/Scheduler/Exit.antt =====
-- `scheduler_on_exit`: what it frees, and what it leaves behind.
use armv7_os.Prelude.{
  ℕ, zero, suc, ◌+◌, ◌<◌, pos, minus_one, ◌≡◌, ◌≢◌, ◌↔◌, refl, ◌∙◌, none, some, ◌==◌, if◌then◌else◌,
  update, arith, ap, fun_ext,
}
use armv7_os.Mmu.{max_processes, max_threads}
use armv7_os.Process.{Process, Kernel}
use armv7_os.Scheduler.Count.{count-update, names-le-count}
use armv7_os.Scheduler.Steps.{with_process, with_owner}
use armv7_os.Scheduler.Consistent.{IsConsistent, threads_of}
use armv7_os.Scheduler.Defs.{scheduler_on_exit}

update-update :
    {A : Type 0} (a : ℕ → A) (i : ℕ) (x y : A) → update (update a i x) i y ≡ update a i y
update-update a i x y = fun_ext λ j. ground arith

-- Process `p` after one of its threads ended.
abbrev left : Process → ℕ → Process
left x rest = record x { threads_active = pos rest; reserved = if rest == 0 then 0 else x.reserved }

module _ (t p : ℕ) (k : Kernel) (t_lt : t < max_threads) (p_lt : p < max_processes)
    (owned : k.thread_process_arr t ≡ pos p) (consistent : IsConsistent k) where
  threads-without :
      (q : ℕ) → threads_of q (with_owner t minus_one k) + (if p == q then 1 else 0) ≡ threads_of q k
  threads-without q =
      ground (arith, owned, count-update max_threads q k.thread_process_arr t minus_one)

  ended : ℕ → Kernel
  ended rest = with_owner t minus_one (with_process p (left (k.process_array p) rest) k)

  ended-IsConsistent : (rest : ℕ) → threads_of p k ≡ suc rest → IsConsistent (ended rest)
  unfolding ended
  ended-IsConsistent rest e = record {
    table = consistent.table;
    addresses = λ q lt. ground (arith, consistent.addresses q);
    active = λ q lt. ground (arith, consistent.active q, threads-without q);
    reserved = λ q lt. ground (arith, consistent.reserved q, threads-without q);
  }

  active_suc :
      (rest : ℕ) → threads_of p k ≡ suc rest → (k.process_array p).threads_active ≡ pos (suc rest)
  active_suc rest e = consistent.active p p_lt ∙ ap pos e

  exit_runs :
      (rest : ℕ)
      → threads_of p k ≡ suc rest
      → t ≢ 1
      → scheduler_on_exit (pos t) k ≡ some (ended rest)
  unfolding scheduler_on_exit ended
  exit_runs zero e ne =
      ground (arith, owned, active_suc zero e)
      ∙ ap (λ a. some (with_owner t minus_one (record k { process_array = a })))
          (update-update k.process_array p (record (k.process_array p) { threads_active = pos 0 })
            (left (k.process_array p) 0))
  exit_runs (suc rest) e ne = ground (arith, owned, active_suc (suc rest) e)

  -- When a thread other than thread 1 that belongs to process `p` ends, the hook succeeds and the
  -- tables stay consistent: the thread has no process, `p` has one thread less, and `p` is free
  -- exactly if this was its last one.
  pub exit-IsConsistent :
      t ≢ 1
      → (k' : Kernel) × (scheduler_on_exit (pos t) k ≡ some k')
        × IsConsistent k'
        × (k'.thread_process_arr t ≡ minus_one)
        × (threads_of p k' + 1 ≡ threads_of p k)
        × (((k'.process_array p).reserved ≡ 0) ↔ (threads_of p k ≡ 1))
  exit-IsConsistent ne = go (threads_of p k) refl
    where
      go :
          (c : ℕ)
          → threads_of p k ≡ c
          → (k' : Kernel) × (scheduler_on_exit (pos t) k ≡ some k')
            × IsConsistent k'
            × (k'.thread_process_arr t ≡ minus_one)
            × (threads_of p k' + 1 ≡ threads_of p k)
            × (((k'.process_array p).reserved ≡ 0) ↔ (threads_of p k ≡ 1))
      go zero e =
          absurd (ground (arith, owned, names-le-count max_threads p k.thread_process_arr t t_lt))
      go (suc rest) e = (
        ended rest,
        exit_runs rest e ne,
        ended-IsConsistent rest e,
        unfold ended in ground arith,
        unfold ended in ground (arith, threads-without p),
        unfold ended in ground (arith, consistent.reserved p),
      )

-- The end of a thread that belongs to no process, other than thread 1, makes the hook decrement the
-- thread count of process -1, outside `process_array`.
pub exit-overrun :
    (t : ℕ) (k : Kernel)
    → t < max_threads
    → t ≢ 1
    → k.thread_process_arr t ≡ minus_one
    → scheduler_on_exit (pos t) k ≡ none
unfolding scheduler_on_exit
exit-overrun t k lt ne unowned = ground arith
