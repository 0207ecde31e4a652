-- ===== src/Scheduler/Consistent.antt =====
-- The invariant of the process tables.
use armv7_os.Prelude.{
  ℕ, zero, suc, ◌+◌, ◌<◌, ℤ, pos, minus_one, ◌≡◌, refl, ◌==◌, if◌then◌else◌, arith,
}
use armv7_os.Mmu.{max_processes, max_threads}
use armv7_os.Mmu.Init.{IsKernelTable}
use armv7_os.Process.{Kernel}
use armv7_os.Process.Init.{IsFresh}
use armv7_os.Scheduler.Count.{count}

abbrev pub threads_of : ℕ → Kernel → ℕ
threads_of p k = count max_threads p k.thread_process_arr

-- The number of active threads of each process is the number of threads that belong to it, and a
-- process is reserved exactly while it has one.
pub record IsConsistent (k : Kernel) : Type 0 where
  pub table : IsKernelTable k.mmu
  pub addresses : (p : ℕ) → p < max_processes → (k.process_array p).data_address ≡ 8 + p
  pub active :
      (p : ℕ) → p < max_processes → (k.process_array p).threads_active ≡ pos (threads_of p k)
  pub reserved :
      (p : ℕ)
      → p < max_processes
      → (k.process_array p).reserved ≡ (if threads_of p k == 0 then 0 else 1)

count_none :
    (n p : ℕ) (threads : ℕ → ℤ) → ((t : ℕ) → t < n → threads t ≡ minus_one) → count n p threads ≡ 0
unfolding count
count_none zero p threads h = refl
count_none (suc n) p threads h =
    ground (arith, h n, count_none n p threads (λ t lt. h t (omega arith)))

-- The tables that `process_init` leaves are consistent.
pub IsFresh-IsConsistent : {k : Kernel} → IsKernelTable k.mmu → IsFresh k → IsConsistent k
IsFresh-IsConsistent {k} table fresh = record {
  table = table;
  addresses = λ p lt. ground (arith, fresh.all_free p);
  active = λ p lt. ground (arith, fresh.all_free p, nobody p);
  reserved = λ p lt. ground (arith, fresh.all_free p, nobody p);
}
  where
    nobody : (p : ℕ) → threads_of p k ≡ 0
    nobody p = count_none max_threads p k.thread_process_arr fresh.no_owner
