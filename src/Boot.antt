-- ===== src/Boot.antt =====
-- system/start.c: the stacks that the kernel asks for, and the first thread, which initialises the
-- MMU and the process tables and starts the user part.
pub mod Entry
use armv7_os.Prelude.{
  ℕ, ◌+◌, ◌*◌, ◌^◌, ◌<◌, ℤ, ◌≡◌, Option, some, List, [], ◌∷◌, ◌>>=◌, arith, ap, refl, sym, subst,
}
use armv7_os.Mmu.{Cp15, mmu_init}
use armv7_os.Mmu.Init.{IsInitialised, IsInitialised-IsKernelTable}
use armv7_os.Mmu.Control.{mmu_init_lem}
use armv7_os.Process.{Kernel, process_init}
use armv7_os.Process.Init.{process_init-IsFresh}
use armv7_os.Scheduler.Consistent.{IsConsistent, IsFresh-IsConsistent}
use armv7_os.Scheduler.Schedule.{IsLaidOut}
use armv7_os.Scheduler.Trace.{Running, Reach, IsIsolated, Reach-IsIsolated}

-- `struct stack_setup` of include/kernel.h.
pub record StackSetup : Type 0 where
  pub abt_sp : ℕ
  pub svc_sp : ℕ
  pub und_sp : ℕ
  pub irq_sp : ℕ
  pub tasks_sp : ℕ
  pub tasks_sp_size : ℕ
  pub tasks_same_stack : ℕ

abbrev pub stack_base : ℕ
stack_base = 0xF0000

abbrev pub stack_size : ℕ
stack_size = 1024

unfoldable pub stacks : StackSetup
stacks = record {
  abt_sp = stack_base + stack_size * 3 + stack_size * 32;
  svc_sp = stack_base + stack_size * 4 + stack_size * 32;
  und_sp = stack_base + stack_size * 2 + stack_size * 32;
  irq_sp = stack_base + stack_size * 0;
  tasks_sp = stack_base + stack_size * 1;
  tasks_sp_size = stack_size;
  tasks_same_stack = 0;
}

-- The calls of `init` that leave the kernel's own code, in their order.
pub data DeviceCall : Type 0 where
  uart_irq_enable timer_start syscall_exec_start_usr : DeviceCall

-- `init`, from the coprocessor's registers and the kernel's state; `table` is the address of
-- L1_TABLE. The message that it prints is left out.
unfoldable pub init : ℕ → Cp15 → Kernel → Option (Cp15 × Kernel × List DeviceCall)
init table c k = do
  (c, m) ← mmu_init table c k.mmu
  k ← process_init (record k { mmu = m })
  some (c, k, uart_irq_enable ∷ timer_start ∷ syscall_exec_start_usr ∷ [])

-- From any state the first thread's initialisation succeeds and leaves an initialised translation
-- table and consistent process tables; and whichever thread runs first, the running thread sees the
-- data section of its process after any creations, exits and switches that follow.
pub init-IsIsolated :
    (walk : (ℕ → ℕ) → ℕ → ℕ) (table : ℕ) (c : Cp15) (k : Kernel)
    → c.sctlr < 2 ^ 32
    → (c' : Cp15) × (k' : Kernel) × (init table c k
        ≡ some (c', k', uart_irq_enable ∷ timer_start ∷ syscall_exec_start_usr ∷ []))
      × IsInitialised k'.mmu
      × IsConsistent k'
      × ((first : ℤ) (t : Running)
          → Reach walk (record { kernel = k'; current = first }) t
          → IsIsolated t)
unfolding init
init-IsIsolated walk table c k h =
    let (c', m, runs, done, _, _, _, _) = mmu_init_lem table c k.mmu h in
    let (k', starts, fresh, same_mmu, _) = process_init-IsFresh (record k { mmu = m }) in
    let booted : IsInitialised k'.mmu = subst IsInitialised (sym same_mmu) done in
    let laid : IsLaidOut k' = record {
      table = IsInitialised-IsKernelTable booted;
      addresses = λ p lt. ap (λ x. x.data_address) (fresh.all_free p lt);
    } in
    (
      c',
      k',
      rw (runs, starts) refl,
      booted,
      IsFresh-IsConsistent (IsInitialised-IsKernelTable booted) fresh,
      λ first t r.
          Reach-IsIsolated
            (record {
              laid_out = laid;
              sees = λ u p is lt owned. absurd (ground (arith, fresh.no_owner u lt));
            })
            r,
    )
