-- ===== src/Tests/Threads.antt =====
-- The process tables, the scheduler's hooks and the boot.
use armv7_os.Prelude.{
  ℕ, ◌+◌, ◌≤◌, ℤ, pos, minus_one, ◌≡◌, ◌↔◌, refl, some, none, [], ◌∷◌, update, arith,
}
use armv7_os.Mmu.{map_userdata_to, Cp15}
use armv7_os.Mmu.Init.{IsInitialised}
use armv7_os.Process.{Kernel, find_free_process_address}
use armv7_os.Process.Free.{FirstFree, find_free_process_address-FirstFree}
use armv7_os.Scheduler.{
  scheduler_on_create, scheduler_on_exit, scheduler_on_schedule, parent, child,
}
use armv7_os.Scheduler.Consistent.{IsConsistent, threads_of}
use armv7_os.Scheduler.Create.{
  create-child-IsConsistent, create-parent-IsConsistent, create-parent-overrun,
}
use armv7_os.Scheduler.Exit.{exit-IsConsistent, exit-overrun}
use armv7_os.Scheduler.Schedule.{IsLaidOut, Sees, SameTables, scheduler_on_schedule-Sees}
use armv7_os.Scheduler.Trace.{
  Running, switch, Reach, start, then_step, IsIsolated, Reach-IsIsolated,
}
use armv7_os.Boot.{init, init-IsIsolated, uart_irq_enable, timer_start, syscall_exec_start_usr}
use armv7_os.Tests.Samples.{
  mapped_mmu, section_walk, section_walk-IsSectionWalk, reset_cp15, two_processes,
  two_processes-IsConsistent, process_1_mapped, process_1_mapped-IsLaidOut, process_1_mapped-Sees,
  eight_processes,
}

-- Process 2 is the first free one.
first_free : find_free_process_address two_processes ≡ some (pos 2)
unfolding find_free_process_address
first_free = refl

create-child-IsConsistent_example :
    (k' : Kernel) × (scheduler_on_create section_walk (pos 5) child two_processes
      ≡ some (pos 0, k'))
    × IsConsistent k'
    × (k'.thread_process_arr 5 ≡ pos 1)
    × (threads_of 1 k' ≡ threads_of 1 two_processes + 1)
create-child-IsConsistent_example =
    create-child-IsConsistent 5 1 two_processes (omega arith) (omega arith) refl
      two_processes-IsConsistent section_walk refl refl

create-parent-IsConsistent_example :
    (p : ℕ) × (k' : Kernel) × (scheduler_on_create section_walk (pos 5) parent two_processes
      ≡ some (pos 0, k'))
    × (p ≤ 6)
    × ((two_processes.process_array p).reserved ≡ 0)
    × IsConsistent k'
    × (k'.thread_process_arr 5 ≡ pos p)
    × (k'.scheduler_pid ≡ pos p)
    × (threads_of p k' ≡ 1)
create-parent-IsConsistent_example =
    create-parent-IsConsistent section_walk section_walk-IsSectionWalk 5 two_processes (omega arith)
      refl two_processes-IsConsistent 6 (omega arith) refl

find_free_process_address-FirstFree_example :
    FirstFree 0 two_processes.process_array (find_free_process_address two_processes)
find_free_process_address-FirstFree_example = find_free_process_address-FirstFree two_processes

exit-overrun_example : scheduler_on_exit (pos 0) two_processes ≡ none
exit-overrun_example = exit-overrun 0 two_processes (omega arith) (omega arith) refl

create-parent-overrun_example :
    scheduler_on_create section_walk (pos 5) parent eight_processes ≡ none
create-parent-overrun_example =
    create-parent-overrun section_walk 5 eight_processes (λ p lt. omega arith)

exit-IsConsistent_example :
    (k' : Kernel) × (scheduler_on_exit (pos 3) two_processes ≡ some k')
    × IsConsistent k'
    × (k'.thread_process_arr 3 ≡ minus_one)
    × (threads_of 1 k' + 1 ≡ threads_of 1 two_processes)
    × (((k'.process_array 1).reserved ≡ 0) ↔ (threads_of 1 two_processes ≡ 1))
exit-IsConsistent_example =
    exit-IsConsistent 3 1 two_processes (omega arith) (omega arith) refl two_processes-IsConsistent
      (omega arith)

-- The switch from thread 3 of process 1 to thread 2 of process 0.
abbrev process_0_mapped : Kernel
process_0_mapped =
    let mapped = mapped_mmu 1 in
    let table = update (update mapped.l1_table 6 (mapped.l1_table 8)) 7 (mapped.l1_table 24) in
    record two_processes { mmu = record mapped { l1_table = table } }

switch_runs : scheduler_on_schedule (pos 3) (pos 2) process_1_mapped ≡ some process_0_mapped
unfolding scheduler_on_schedule map_userdata_to
switch_runs = refl

scheduler_on_schedule-Sees_example :
    IsLaidOut process_0_mapped
    × Sees (pos 2) process_0_mapped
    × SameTables process_1_mapped process_0_mapped
scheduler_on_schedule-Sees_example =
    scheduler_on_schedule-Sees (pos 3) (pos 2) process_1_mapped process_0_mapped
      process_1_mapped-IsLaidOut process_1_mapped-Sees switch_runs

abbrev before_switch : Running
before_switch = record { kernel = process_1_mapped; current = pos 3 }

abbrev after_switch : Running
after_switch = record { kernel = process_0_mapped; current = pos 2 }

before_switch-IsIsolated : IsIsolated before_switch
before_switch-IsIsolated = record {
  laid_out = process_1_mapped-IsLaidOut;
  sees = process_1_mapped-Sees;
}

switch_reaches : Reach section_walk before_switch after_switch
switch_reaches = then_step start (switch (pos 2) process_0_mapped switch_runs)

Reach-IsIsolated_example : IsIsolated after_switch
Reach-IsIsolated_example = Reach-IsIsolated before_switch-IsIsolated switch_reaches

init-IsIsolated_example :
    (c' : Cp15) × (k' : Kernel) × (init 0x30_0000 reset_cp15 two_processes
      ≡ some (c', k', uart_irq_enable ∷ timer_start ∷ syscall_exec_start_usr ∷ []))
    × IsInitialised k'.mmu
    × IsConsistent k'
    × ((first : ℤ) (t : Running)
        → Reach section_walk (record { kernel = k'; current = first }) t
        → IsIsolated t)
init-IsIsolated_example =
    init-IsIsolated section_walk 0x30_0000 reset_cp15 two_processes (omega arith)
