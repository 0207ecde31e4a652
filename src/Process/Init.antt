-- ===== src/Process/Init.antt =====
-- The tables after `process_init`.
use armv7_os.Prelude.{
  ℕ, ◌+◌, ◌<◌, pos, minus_one, ◌≡◌, refl, some, within, if◌then◌else◌, for_loop-modify, arith,
}
use armv7_os.Mmu.{max_processes, max_threads}
use armv7_os.Process.Defs.{Process, Kernel, process_init}

abbrev pub fresh_process : ℕ → Process
fresh_process i = record { id = i; reserved = 0; data_address = 8 + i; threads_active = pos 0 }

pub record IsFresh (k : Kernel) : Type 0 where
  pub no_owner : (t : ℕ) → t < max_threads → k.thread_process_arr t ≡ minus_one
  pub all_free : (p : ℕ) → p < max_processes → k.process_array p ≡ fresh_process p
  pub stacks : (t : ℕ) → t < max_threads → k.thread_stack_array t ≡ 8 + t

abbrev started : Kernel → Kernel
started k = record k {
  thread_process_arr = λ j. if within 0 (0 + 32) j then minus_one else k.thread_process_arr j;
  process_array = λ j. if within 0 (0 + 8) j then fresh_process j else k.process_array j;
  thread_stack_array = λ j. if within 0 (0 + 32) j then 8 + j else k.thread_stack_array j;
}

process_init_runs : (k : Kernel) → process_init k ≡ some (started k)
unfolding process_init
process_init_runs k =
    rw
      (
        for_loop-modify max_threads (λ i _. minus_one) 32 0 k.thread_process_arr (omega arith),
        for_loop-modify max_processes
            (λ i p. record p { id = i; reserved = 0; threads_active = pos 0; data_address = 8 + i })
            8 0 k.process_array (omega arith),
        for_loop-modify max_threads (λ i _. 8 + i) 32 0 k.thread_stack_array (omega arith),
      )
      refl

-- From any state `process_init` succeeds: no thread belongs to a process, all 8 processes are free
-- and have their own data sections, and the MMU and `scheduler_pid` are as before.
pub process_init-IsFresh :
    (k : Kernel)
    → (k' : Kernel) × (process_init k ≡ some k')
      × IsFresh k'
      × (k'.mmu ≡ k.mmu)
      × (k'.scheduler_pid ≡ k.scheduler_pid)
process_init-IsFresh k = (
  started k,
  process_init_runs k,
  record {
    no_owner = λ t lt. ground arith;
    all_free = λ p lt. ground arith;
    stacks = λ t lt. ground arith;
  },
  refl,
  refl,
)
