-- ===== src/Lib.antt =====
-- ARMv7-OS: a model of the kernel and of its user library, with the theorems that hold of it.
--
-- The kernel maps memory in sections of 1 MiB by one translation table. Each process has its own
-- section of user data; on a switch of threads a hook remaps the sections USER_DATA and USER_HEAP to
-- those of the process of the next thread. The scheduler, the drivers of UART and timer and kprintf
-- are a precompiled object of the repository (out/e4.o): they are parameters of the model. By
-- include/exceptions.h that object also answers interrupts and the five known system calls itself,
-- and calls the exception handler of system/exceptions.c for faults and for system calls with an
-- unknown number.
--
-- The parts, and the files that model them:
--   Prelude.antt, Prelude/   the shared names; out-of-range accesses of arrays (read, write and
--                            their signed forms give `none`), C's counting loops (for_loop), `int`
--                            as an integer without bounds (pos, negsuc).
--   Bits.antt                bitwise operations on words as sums of their parts.
--   Mmu.antt, Mmu/           memory/mmu.c and memory/mmu_assembly_funcs.S: the state is L1_TABLE,
--                            template and the physical bytes (Mmu), and the registers of
--                            coprocessor 15 (Cp15). Functions have the source's names in lower
--                            case. kmemcpy takes the hardware's translation of an address by the
--                            table as an argument, and one hypothesis states the architecture's
--                            rule for a section (IsSectionWalk). In Tlb the remapping runs on a
--                            core with a TLB that may fetch entries at any time; everywhere else
--                            a translation reads the table. Debug is the print of the table.
--   Process.antt, Process/   system/process.c: the state (Kernel) is the three arrays, the pid of
--                            the scheduler's hooks and the MMU.
--   Scheduler.antt, Scheduler/
--                            scheduler/scheduler.c: the three hooks that the scheduler calls, and
--                            every sequence of such calls as a step relation (Steps, Trace).
--   Exceptions.antt, Exceptions/
--                            system/exceptions.c: the handler, over a record of the operations
--                            that it calls (Platform). Its branches for interrupts and for the
--                            known system calls are modelled as they are written, although they
--                            are not reached.
--   Boot.antt, Boot/         system/start.c; and system/entry.S, jump by jump (Entry).
--   Heap.antt, Heap/         user/heap.c and user/include/heap.h: the headers of the blocks as words
--                            of a memory, the six globals (Heap), malloc and free; the prints of the
--                            heap as lists of calls of usr_kprintf (Draw); and the blocks of a heap
--                            in their order, with first fit and the joining of free blocks as
--                            functions on that list (Tiles).
--   Print.antt, Print/       user/user_kprintf.c, on the output of syscall_putc as a list of
--                            characters (Printer); a format is the list of its characters, and its
--                            meaning is given apart from the code (Format). The string functions
--                            work on a memory of bytes (Strings).
--   User.antt, User/         user/user_thread.c, user/user_thread_functions.c, user/src/usr_start.c and
--                            user/user_thread_routine.c: the threads that count, as a step relation
--                            with a step for each access of the shared counter; one round of the
--                            thread that allocates, and its start joined with any calls of the
--                            heap after it (Clients); the others as lists of what they ask for.
--   Stubs.antt               user/syscall.S: the five stubs, over what the kernel does at svc.
--   Led.antt                 driver/led.c.
--   Tests.antt, Tests/       runs on small inputs and the theorems at concrete inputs.
--
-- Fallible operations return Option: `none` is an access outside an array, or, in the heap and the
-- string functions, a loop that used up its fuel; in usr_intToStr it is also the least integer. The
-- counting loops recurse on the number of rounds that the source gives. The searches of the heap
-- follow links in memory and take fuel; the theorems on malloc and on strings state how much is
-- enough, the number of blocks and a constant, or more than the length of the text. Words have 32
-- bits and wrap around, the addresses of the string functions excepted; array indices, thread counts
-- and loop counters are numbers without bounds, and stay below 4096; the count of the calls of malloc
-- is the word of its int. The thread ids and process ids are signed, with -1 for none.
--
-- Not modelled: the prints of the kernel other than debug_L1_Table; permission faults of user code;
-- the stubs of user/syscall_funcs.S, which follow another convention than user/syscall.S; two threads that are in usr_kprintf at the same time. The permission checks of the
-- hardware are not part of the model: the theorems speak of the bits in the table.
pub mod Prelude
pub mod Bits
pub mod Mmu
pub mod Process
pub mod Scheduler
pub mod Boot
pub mod Exceptions
pub mod Heap
pub mod Print
pub mod User
pub mod Stubs
pub mod Led
pub mod Tests
