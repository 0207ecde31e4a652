-- ===== src/Tests/Handler.antt =====
-- The exception handler, over a platform of small parts.
use armv7_os.Prelude.{
  ℕ, ℤ, pos, ◌≡◌, ◌≢◌, ◌↔◌, ◌%◌, refl, some, none, Option, true, false, List, [], ◌∷◌, ◌++◌,
}
use armv7_os.Process.{Kernel}
use armv7_os.Scheduler.{scheduler_on_create}
use armv7_os.Exceptions.{Platform, Regs, Machine, exception, e_swi, e_irq, e_pabt, usr}
use armv7_os.Exceptions.Dispatch.{machine_of, is_halted, is_halted_iff}
use armv7_os.Tests.Samples.{section_walk, two_processes}

-- A world of the kernel's tables, the characters to read, those written, and a log of the calls.
record Desk : Type 0 where
  kernel : Kernel
  input : List ℕ
  output : List ℕ
  calls : List ℕ

called : ℕ → Desk → Desk
called n d = record d { calls = n ∷ d.calls }

next_char : List ℕ → Desk → ℕ × Desk
next_char [] d = (0, d)
next_char (c ∷ cs) d = (c, record d { input = cs })

-- The tables after a call of the hook, which a call out of a table leaves as they were.
hooked : Option (ℤ × Kernel) → Kernel → Kernel
hooked none k = k
hooked (some (result, k')) k = k'

-- Its scheduler creates every thread as thread 5.
abbrev desk : Platform
desk = record {
  World = Desk;
  RegsPointer = ℤ;
  end_current_thread = λ regs d. (regs, called 1 d);
  round_robin = λ regs d. (regs, called 2 d);
  schedule_next = λ regs d. (regs, called 3 d);
  new_thread = λ func arg size flags d. record d {
    kernel = hooked (scheduler_on_create section_walk (pos 5) flags d.kernel) d.kernel;
  };
  get_current_thread = λ d. pos 3;
  get_regs = λ id d. id;
  current_sleep = λ regs n d. called 5 d;
  uart_getc = λ d. next_char d.input d;
  uart_peekc = λ d. next_char d.input d;
  uart_putc = λ c d. record d { output = d.output ++ (c ∷ []) };
  uart_read_available = λ d. true;
  uart_irq_pending = λ d. true;
  timer_pending_irq = λ d. false;
  kprintf = λ s args d. d;
  debug_print_register = λ regs d. d;
  debug_print_psr = λ psr d. d;
  debug_print_banked = λ mode d. d;
  load_byte = λ a d. (0, called 6 d);
  jump = λ a d. called 7 d;
}

abbrev with_call : ℕ → ℕ → Regs
with_call r0 r7 = record {
  r0 = r0;
  r1 = 1;
  r2 = 2;
  r3 = 0;
  r4 = 4;
  r5 = 5;
  r6 = 6;
  r7 = r7;
  r8 = 8;
  r9 = 9;
  r10 = 10;
  r11 = 11;
  r12 = 12;
  sp = 13;
  lr = 14;
  psr = 0x10;
  pc = 16;
}

abbrev asks : ℕ → ℕ → List ℕ → Machine Desk
asks r0 r7 output = record {
  regs = with_call r0 r7;
  time = 0;
  id = pos 0;
  world = record { kernel = two_processes; input = b'N' ∷ b'b' ∷ []; output = output; calls = [] };
}

abbrev sys : ℕ
sys = 0x1F

-- An unknown number whose lowest byte is that of EXIT ends the thread and schedules another.
exit_calls : (machine_of (exception desk e_swi usr (asks 0 0x100 []))).world.calls ≡ 2 ∷ 1 ∷ []
unfolding exception called
exit_calls = refl

-- The key N reads address 0 in the interrupt handler.
interrupt_reads_null : (machine_of (exception desk e_irq usr (asks 0 0 []))).world.calls ≡ 6 ∷ []
unfolding exception called next_char
interrupt_reads_null = refl

is_halted_iff_example :
    (is_halted (exception desk e_pabt sys (asks 0 0 [])) ≡ true)
    ↔ ((◌≡◌ {A = ℕ} e_pabt e_pabt) × (sys % 32 ≢ usr))
is_halted_iff_example = is_halted_iff desk e_pabt sys (asks 0 0 [])
