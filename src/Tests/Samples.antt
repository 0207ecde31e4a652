-- ===== src/Tests/Samples.antt =====
-- The states that the tests share.
use armv7_os.Prelude.{
  ℕ, ◌+◌, ◌/◌, ◌%◌, ◌^◌, bit_and, pos, minus_one, refl, ◌==◌, if◌then◌else◌, arith,
}
use armv7_os.Mmu.{Mmu, Cp15, physical_address_bits}
use armv7_os.Mmu.Copy.{IsSectionWalk}
use armv7_os.Mmu.Remap.{IsMappedTo, IsMappedTo-IsKernelTable}
use armv7_os.Mmu.Init.{IsInitialised, IsKernelTable, IsInitialised-IsKernelTable, section_entry}
use armv7_os.Process.{Kernel}
use armv7_os.Process.Init.{fresh_process}
use armv7_os.Scheduler.Count.{count}
use armv7_os.Scheduler.Consistent.{IsConsistent}
use armv7_os.Scheduler.Schedule.{IsLaidOut, Sees}

-- The MMU as it is before the initialisation and after it.
abbrev pub blank_mmu : Mmu
blank_mmu = record { l1_table = λ j. 0; template = 0; memory = λ a. a % 251 }

abbrev pub table_mmu : Mmu
table_mmu = record { l1_table = section_entry; template = section_entry 6; memory = λ a. a % 251 }

pub table_mmu-IsInitialised : IsInitialised table_mmu
table_mmu-IsInitialised = record { entries = λ j lt. refl; template_entry = refl }

pub table_mmu-IsKernelTable : IsKernelTable table_mmu
table_mmu-IsKernelTable = IsInitialised-IsKernelTable table_mmu-IsInitialised

-- The same with process `p` mapped.
abbrev pub mapped_mmu : ℕ → Mmu
mapped_mmu p = record table_mmu {
  l1_table = λ j.
      if j == 6
      then section_entry (8 + p)
      else if j == 7
      then section_entry (24 + p)
      else section_entry j;
}

pub mapped_mmu-IsMappedTo : (p : ℕ) → IsMappedTo p table_mmu (mapped_mmu p)
mapped_mmu-IsMappedTo p = record {
  data_entry = refl;
  heap_entry = refl;
  others = λ j a b. ground arith;
  same_template = refl;
  same_memory = refl;
}

abbrev pub section_walk : (ℕ → ℕ) → ℕ → ℕ
section_walk t a = bit_and (t (a / 2 ^ 20)) physical_address_bits + a % 2 ^ 20

pub section_walk-IsSectionWalk : IsSectionWalk section_walk
section_walk-IsSectionWalk t a lt = refl

abbrev pub reset_cp15 : Cp15
reset_cp15 = record { sctlr = 0x00C5_1878; ttbr0 = 0; ttbcr = 0; dacr = 0 }

-- Threads 2 and 4 belong to process 0 and thread 3 to process 1; the other processes are free.
abbrev pub two_processes : Kernel
two_processes = record {
  mmu = table_mmu;
  process_array = λ p.
      if p == 0
      then record { id = 0; reserved = 1; data_address = 8; threads_active = pos 2 }
      else if p == 1
      then record { id = 1; reserved = 1; data_address = 9; threads_active = pos 1 }
      else fresh_process p;
  thread_process_arr =
      λ t. if t == 2 then pos 0 else if t == 3 then pos 1 else if t == 4 then pos 0 else minus_one;
  thread_stack_array = λ t. 8 + t;
  scheduler_pid = pos 1;
}

-- All 8 processes are reserved, by thread 10 + p.
abbrev pub eight_processes : Kernel
eight_processes = record two_processes {
  process_array =
      λ p. record { id = p; reserved = 1; data_address = 8 + p; threads_active = pos 1 };
}

pub two_processes-IsConsistent : IsConsistent two_processes
unfolding count
two_processes-IsConsistent = record {
  table = table_mmu-IsKernelTable;
  addresses = λ p lt. ground arith;
  active = λ p lt. ground arith;
  reserved = λ p lt. ground arith;
}

-- Process 1 is the one that is mapped.
abbrev pub process_1_mapped : Kernel
process_1_mapped = record two_processes { mmu = mapped_mmu 1 }

pub process_1_mapped-IsLaidOut : IsLaidOut process_1_mapped
process_1_mapped-IsLaidOut = record {
  table = IsMappedTo-IsKernelTable (mapped_mmu-IsMappedTo 1) table_mmu-IsKernelTable;
  addresses = λ p lt. ground arith;
}

pub process_1_mapped-Sees : Sees (pos 3) process_1_mapped
process_1_mapped-Sees t p is lt owned = ground arith
