-- ===== src/Scheduler/Steps.antt =====
-- The assignments to the two tables, where the index is in range.
use armv7_os.Prelude.{ℕ, ◌<◌, ℤ, pos, ◌≡◌, some, update, arith}
use armv7_os.Mmu.{max_processes, max_threads}
use armv7_os.Process.{Process, Kernel, modify_process, assign_thread}

abbrev pub with_process : ℕ → Process → Kernel → Kernel
with_process p x k = record k { process_array = update k.process_array p x }

abbrev pub with_owner : ℕ → ℤ → Kernel → Kernel
with_owner t x k = record k { thread_process_arr = update k.thread_process_arr t x }

pub modify_process_in_range :
    (p : ℕ) (f : Process → Process) (k : Kernel)
    → p < max_processes
    → modify_process (pos p) f k ≡ some (with_process p (f (k.process_array p)) k)
unfolding modify_process
modify_process_in_range p f k lt = ground arith

pub assign_thread_in_range :
    (t : ℕ) (x : ℤ) (k : Kernel)
    → t < max_threads
    → assign_thread (pos t) x k ≡ some (with_owner t x k)
unfolding assign_thread
assign_thread_in_range t x k lt = ground arith
