-- ===== src/Scheduler/Create.antt =====
-- `scheduler_on_create` keeps the tables consistent where a process is to be had.
use native.Mathlib.Decide.{dec_le}
use armv7_os.Prelude.{
  ℕ, ◌+◌, ◌*◌, ◌^◌, ◌≤◌, ◌<◌, bit_and, pos, inc, minus_one, ◌≡◌, ◌≢◌, inl, inr, refl, none, some,
  ◌==◌, if◌then◌else◌, arith,
}
use armv7_os.Mmu.{max_processes, max_threads, mb, physical_address_bits}
use armv7_os.Mmu.Copy.{IsSectionWalk, copied, copy_userdata_template-copied}
use armv7_os.Process.{Process, Kernel, find_free_process_address, process_create}
use armv7_os.Process.Free.{find_free_process_address-FirstFree}
use armv7_os.Scheduler.Count.{count-update}
use armv7_os.Scheduler.Steps.{with_process, with_owner}
use armv7_os.Scheduler.Consistent.{IsConsistent, threads_of}
use armv7_os.Scheduler.Defs.{scheduler_on_create, parent, child}

-- Thread `t`, which had no process, joins process `p`.
module _ (t p : ℕ) (k : Kernel) (t_lt : t < max_threads) (p_lt : p < max_processes)
    (unowned : k.thread_process_arr t ≡ minus_one) (consistent : IsConsistent k) where
  threads-with_owner :
      (q : ℕ) → threads_of q (with_owner t (pos p) k) ≡ (if p == q then 1 else 0) + threads_of q k
  threads-with_owner q =
      ground (arith, unowned, count-update max_threads q k.thread_process_arr t (pos p))

  abbrev joined : Process → Kernel
  joined x = with_process p x (with_owner t (pos p) k)

  joined-IsConsistent :
      (x : Process)
      → x.data_address ≡ 8 + p
      → x.threads_active ≡ pos (threads_of p k + 1)
      → x.reserved ≡ 1
      → IsConsistent (joined x)
  joined-IsConsistent x address active reserved = record {
    table = consistent.table;
    addresses = λ q lt. ground (arith, consistent.addresses q);
    active = λ q lt. ground (arith, consistent.active q, threads-with_owner q);
    reserved = λ q lt. ground (arith, consistent.reserved q, threads-with_owner q);
  }

  -- With a reserved process `p` as the current one, a new child thread `t` joins it: the hook
  -- succeeds and the tables stay consistent.
  pub create-child-IsConsistent :
      (walk : (ℕ → ℕ) → ℕ → ℕ)
      → k.scheduler_pid ≡ pos p
      → (k.process_array p).reserved ≡ 1
      → (k' : Kernel) × (scheduler_on_create walk (pos t) child k ≡ some (pos 0, k'))
        × IsConsistent k'
        × (k'.thread_process_arr t ≡ pos p)
        × (threads_of p k' ≡ threads_of p k + 1)
  unfolding scheduler_on_create
  create-child-IsConsistent walk current live = (
    joined x,
    runs,
    joined-IsConsistent x (consistent.addresses p p_lt) counted live,
    ground arith,
    ground (arith, threads-with_owner p),
  )
    where
      x : Process
      x = record (k.process_array p) { threads_active = inc (k.process_array p).threads_active }

      counted : inc (k.process_array p).threads_active ≡ pos (threads_of p k + 1)
      counted = rw (consistent.active p p_lt) refl

      runs : scheduler_on_create walk (pos t) child k ≡ some (pos 0, joined x)
      runs = ground arith

-- The state after `process_create` gave process `p` to thread `t` and the hook counted it.
abbrev created : (t p : ℕ) → (ℕ → ℕ) → Kernel → Kernel
created t p memory k =
    let x = k.process_array p in
    let k = with_owner t (pos p) k in
    let k = with_process p (record x { reserved = 1; threads_active = inc x.threads_active }) k in
    record k { mmu = record k.mmu { memory = memory }; scheduler_pid = pos p }

module _ (walk : (ℕ → ℕ) → ℕ → ℕ) (walks : IsSectionWalk walk) (t : ℕ) (k : Kernel)
    (t_lt : t < max_threads) (unowned : k.thread_process_arr t ≡ minus_one)
    (consistent : IsConsistent k) where
  -- The user data that process `p` is given.
  abbrev new_memory : ℕ → ℕ → ℕ
  new_memory p =
      copied ((8 + p) * 2 ^ 20) (bit_and (k.mmu.l1_table 6) physical_address_bits) mb k.mmu.memory

  create_parent_runs :
      (p : ℕ)
      → p < max_processes
      → find_free_process_address k ≡ some (pos p)
      → scheduler_on_create walk (pos t) parent k ≡ some (pos 0, created t p (new_memory p) k)
  unfolding scheduler_on_create process_create
  create_parent_runs p lt found = ground (
    arith,
    found,
    consistent.addresses p lt,
    copy_userdata_template-copied walk walks p k.mmu lt consistent.table,
  )

  -- While a process is free, a new parent thread `t` gets the first free one, as its only thread:
  -- the hook succeeds, the process becomes the current one, and the tables stay consistent.
  pub create-parent-IsConsistent :
      (q : ℕ)
      → q < max_processes
      → (k.process_array q).reserved ≡ 0
      → (p : ℕ) × (k' : Kernel) × (scheduler_on_create walk (pos t) parent k ≡ some (pos 0, k'))
        × (p ≤ q)
        × ((k.process_array p).reserved ≡ 0)
        × IsConsistent k'
        × (k'.thread_process_arr t ≡ pos p)
        × (k'.scheduler_pid ≡ pos p)
        × (threads_of p k' ≡ 1)
  create-parent-IsConsistent q q_lt q_free = elim (find_free_process_address-FirstFree k) [
    | inl (p, found, lt, free, first) ↦ (
      p,
      created t p (new_memory p) k,
      create_parent_runs p lt found,
      elim (dec_le p q) [
        | yes le ↦ le
        | no gt ↦ absurd (first q (omega arith) (omega arith) q_free)
      ],
      free,
      created-IsConsistent p lt free,
      ground arith,
      refl,
      ground (arith, threads-with_owner t p k t_lt lt unowned consistent p, nobody p lt free),
    )
    | inr (_, all_taken) ↦ absurd (all_taken q (omega arith) q_lt q_free)
  ]
    where
      nobody : (p : ℕ) → p < max_processes → (k.process_array p).reserved ≡ 0 → threads_of p k ≡ 0
      nobody p lt free = ground (arith, consistent.reserved p lt)

      created-IsConsistent :
          (p : ℕ)
          → p < max_processes
          → (k.process_array p).reserved ≡ 0
          → IsConsistent (created t p (new_memory p) k)
      created-IsConsistent p lt free =
          let x = k.process_array p in
          let y : Process = record x { reserved = 1; threads_active = inc x.threads_active } in
          let c =
            joined-IsConsistent t p k t_lt lt unowned consistent y (consistent.addresses p lt)
              (rw (consistent.active p lt) refl) refl in
          record {
            table = record { fixed = c.table.fixed; template_entry = c.table.template_entry };
            addresses = c.addresses;
            active = c.active;
            reserved = c.reserved;
          }

-- With all 8 processes reserved, a new parent thread makes the hook increment the thread count of
-- process -1, outside `process_array`, before it looks at the failure.
pub create-parent-overrun :
    (walk : (ℕ → ℕ) → ℕ → ℕ) (t : ℕ) (k : Kernel)
    → ((p : ℕ) → p < max_processes → (k.process_array p).reserved ≢ 0)
    → scheduler_on_create walk (pos t) parent k ≡ none
unfolding scheduler_on_create process_create
create-parent-overrun walk t k full = elim (find_free_process_address-FirstFree k) [
  | inl (p, found, lt, free, first) ↦ absurd (full p lt free)
  | inr (none_found, _) ↦ ground arith
]
