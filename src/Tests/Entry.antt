-- ===== src/Tests/Entry.antt =====
-- The cores from their reset on.
use armv7_os.Prelude.{ℕ, ◌+◌, ◌%◌, ◌≡◌, ◌↔◌, refl, arith}
use armv7_os.Boot.Entry.{
  Processor, at_start, halting, in_start_kernel, run, step_at, at_reset, IsEntered,
  core_zero_enters, start_kernel_iff,
}

-- A core with the number `id`, in the hypervisor mode.
abbrev hyper_core : ℕ → Processor
hyper_core id = record {
  place = halting;
  cpsr = 0x6000_01DA;
  mpidr = 0x8000_0F00 + id;
  r0 = 0;
  r1 = 0;
  sp = 0;
  lr = halting;
  elr_hyp = at_start;
  spsr_hyp = 0;
}

core_three_halts : (run 9 (at_reset (hyper_core 3))).place ≡ halting
unfolding run step_at
core_three_halts = refl

core_zero_enters_example : (n : ℕ) × IsEntered (hyper_core 0) (run n (at_reset (hyper_core 0)))
core_zero_enters_example = core_zero_enters (hyper_core 0) (omega arith) refl

start_kernel_iff_example :
    ((n : ℕ) × ((run n (at_reset (hyper_core 2))).place ≡ in_start_kernel))
    ↔ ((hyper_core 2).mpidr % 4 ≡ 0)
start_kernel_iff_example = start_kernel_iff (hyper_core 2) (omega arith)
