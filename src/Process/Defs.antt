-- ===== src/Process/Defs.antt =====
-- The tables of include/process.h and the functions of system/process.c. An access of a table out
-- of its range is `none`.
use mathlib.Core.Bool.{true, false}
use armv7_os.Prelude.{
  ℕ, zero, suc, ◌+◌, ℤ, pos, negsuc, minus_one, eq_ℤ, Option, some, ltb, ◌==◌, if◌then◌else◌, ◌>>=◌,
  for_loop, read, read_int, write_int, modify,
}
use armv7_os.Mmu.{Mmu, max_processes, max_threads, map_userdata_to, copy_userdata_template}

-- `_process`. The section number `data_address` is never negative.
pub record Process : Type 0 where
  pub id : ℕ
  pub reserved : ℕ
  pub data_address : ℕ
  pub threads_active : ℤ

-- The global state of the kernel's C code: the MMU's, the tables of process.h and `scheduler_pid`
-- of scheduler/scheduler.c.
pub record Kernel : Type 0 where
  pub mmu : Mmu
  pub process_array : ℕ → Process
  pub thread_process_arr : ℕ → ℤ
  pub thread_stack_array : ℕ → ℕ
  pub scheduler_pid : ℤ

-- An assignment to fields of process_array[pid].
unfoldable pub modify_process : ℤ → (Process → Process) → Kernel → Option Kernel
modify_process pid f k = do
  p ← read_int max_processes k.process_array pid
  processes ← write_int max_processes k.process_array pid (f p)
  some (record k { process_array = processes })

-- thread_process_arr[tid] = pid.
unfoldable pub assign_thread : ℤ → ℤ → Kernel → Option Kernel
assign_thread tid pid k = do
  threads ← write_int max_threads k.thread_process_arr tid pid
  some (record k { thread_process_arr = threads })

unfoldable pub process_switch : ℤ → Kernel → Option Kernel
process_switch new k = do
  p ← read_int max_processes k.process_array new
  mmu ← map_userdata_to p.data_address k.mmu
  some (record k { mmu = mmu })

unfoldable pub free_process : ℤ → Kernel → Option Kernel
unfolding modify_process
free_process id = modify_process id (λ p. record p { reserved = 0 })

-- The loop of `find_free_process_address` at index `i`, with `rounds` left.
unfoldable pub find_free_from : ℕ → ℕ → (ℕ → Process) → Option ℤ
find_free_from zero i processes = some minus_one
find_free_from (suc rounds) i processes = do
  p ← read max_processes processes i
  elim (p.reserved == 0) [ true ↦ some (pos i) | false ↦ find_free_from rounds (i + 1) processes ]

unfoldable pub find_free_process_address : Kernel → Option ℤ
unfolding find_free_from
find_free_process_address k = find_free_from max_processes 0 k.process_array

-- The rest of `process_create`, once a free process is found.
unfoldable pub reserve_process : ((ℕ → ℕ) → ℕ → ℕ) → ℤ → ℤ → Kernel → Option (ℤ × Kernel)
unfolding modify_process assign_thread
reserve_process walk parent_tid new_pid k = do
  k ← assign_thread parent_tid new_pid k
  k ← modify_process new_pid (λ p. record p { reserved = 1 }) k
  p ← read_int max_processes k.process_array new_pid
  mmu ← copy_userdata_template walk p.data_address k.mmu
  some (new_pid, record k { mmu = mmu })

unfoldable pub process_create : ((ℕ → ℕ) → ℕ → ℕ) → ℤ → Kernel → Option (ℤ × Kernel)
unfolding reserve_process
process_create walk parent_tid k = do
  new_pid ← find_free_process_address k
  if eq_ℤ new_pid minus_one then some (minus_one, k) else reserve_process walk parent_tid new_pid k

unfoldable pub get_process_id : ℤ → Kernel → Option ℤ
get_process_id (negsuc _) k = some minus_one
get_process_id (pos tid) k =
    if ltb 31 tid then some minus_one else read max_threads k.thread_process_arr tid

unfoldable pub reset_thread_process_relation : ℤ → Kernel → Option Kernel
unfolding assign_thread
reset_thread_process_relation id = assign_thread id minus_one

unfoldable pub init_thread_process_arr : Kernel → Option Kernel
init_thread_process_arr k = do
  threads ← for_loop max_threads 0 (modify max_threads (λ i _. minus_one)) k.thread_process_arr
  some (record k { thread_process_arr = threads })

unfoldable pub init_processes_array : Kernel → Option Kernel
init_processes_array k = do
  processes ←
      for_loop max_processes 0
        (modify max_processes
          (λ i p. record p { id = i; reserved = 0; threads_active = pos 0; data_address = 8 + i }))
        k.process_array
  some (record k { process_array = processes })

unfoldable pub init_thread_stack_arrays : Kernel → Option Kernel
init_thread_stack_arrays k = do
  stacks ← for_loop max_threads 0 (modify max_threads (λ i _. 8 + i)) k.thread_stack_array
  some (record k { thread_stack_array = stacks })

unfoldable pub process_init : Kernel → Option Kernel
unfolding init_thread_process_arr init_processes_array init_thread_stack_arrays
process_init k = do
  k ← init_thread_process_arr k
  k ← init_processes_array k
  init_thread_stack_arrays k
