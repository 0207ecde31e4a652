-- ===== src/Exceptions/Defs.antt =====
-- The registers, the platform and the handler of system/exceptions.c.
use armv7_os.Prelude.{
  ℕ, ◌%◌, ◌^◌, ℤ, pos, minus_one, eq_ℤ, Bool, bit_and, String, List, [], ◌∷◌, ◌==◌, if◌then◌else◌,
}

-- `struct regs` of include/exceptions.h.
pub record Regs : Type 0 where
  pub r0 : ℕ
  pub r1 : ℕ
  pub r2 : ℕ
  pub r3 : ℕ
  pub r4 : ℕ
  pub r5 : ℕ
  pub r6 : ℕ
  pub r7 : ℕ
  pub r8 : ℕ
  pub r9 : ℕ
  pub r10 : ℕ
  pub r11 : ℕ
  pub r12 : ℕ
  pub sp : ℕ
  pub lr : ℕ
  pub psr : ℕ
  pub pc : ℕ

-- `enum EXCEPTION_MODE`.
abbrev pub e_und : ℕ
e_und = 1

abbrev pub e_swi : ℕ
e_swi = 2

abbrev pub e_pabt : ℕ
e_pabt = 3

abbrev pub e_dabt : ℕ
e_dabt = 4

abbrev pub e_irq : ℕ
e_irq = 6

-- The numbers of the system calls.
abbrev pub svc_exit : ℕ
svc_exit = 0

abbrev pub svc_exec : ℕ
svc_exec = 1

abbrev pub svc_putc : ℕ
svc_putc = 2

abbrev pub svc_getc : ℕ
svc_getc = 3

abbrev pub svc_sleep : ℕ
svc_sleep = 4

abbrev pub ls_byte : ℕ
ls_byte = 0xFF

-- The mode bits of a program status register.
abbrev pub usr : ℕ
usr = 0x10

abbrev pub first5 : ℕ
first5 = 0x1F

abbrev pub psr_modes : List ℕ
psr_modes = 0x1f ∷ 0x13 ∷ 0x17 ∷ 0x12 ∷ 0x1b ∷ []

-- What the handler calls: functions on the state `World` of everything behind them.
pub record Platform : Type 1 where
  pub World : Type 0
  pub RegsPointer : Type 0
  pub end_current_thread : Regs → World → Regs × World
  pub round_robin : Regs → World → Regs × World
  pub schedule_next : Regs → World → Regs × World
  pub new_thread : ℕ → ℕ → ℕ → ℕ → World → World
  pub get_current_thread : World → ℤ
  pub get_regs : ℤ → World → RegsPointer
  pub current_sleep : RegsPointer → ℕ → World → World
  pub uart_getc : World → ℕ × World
  pub uart_peekc : World → ℕ × World
  pub uart_putc : ℕ → World → World
  pub uart_read_available : World → Bool
  pub uart_irq_pending : World → Bool
  pub timer_pending_irq : World → Bool
  pub kprintf : String → List ℤ → World → World
  pub debug_print_register : Regs → World → World
  pub debug_print_psr : ℕ → World → World
  pub debug_print_banked : ℕ → World → World
  pub load_byte : ℕ → World → ℕ × World
  pub jump : ℕ → World → World

-- The saved registers, the globals `time` and `id`, and the world.
pub record Machine (World : Type 0) : Type 0 where
  pub regs : Regs
  pub time : ℕ
  pub id : ℤ
  pub world : World

-- The handler returns, or stays in `while(1);`.
pub data Outcome (World : Type 0) : Type 0 where
  returned : Machine World → Outcome World
  halted : Machine World → Outcome World

-- `spsr` is the saved status register of the exception's mode.
unfoldable pub user_responsible : ℕ → Bool
user_responsible spsr = bit_and spsr first5 == usr

module _ (p : Platform) where
  open p use {
    World, end_current_thread, round_robin, schedule_next, new_thread, get_current_thread, get_regs,
    current_sleep, uart_getc, uart_peekc, uart_putc, uart_read_available, uart_irq_pending,
    timer_pending_irq, kprintf, debug_print_register, debug_print_psr, debug_print_banked,
    load_byte, jump,
  }

  -- The `switch` of `uart_interrupt_cases` on the pressed key.
  unfoldable pub violation : ℕ → World → World
  violation c w =
      if c == b'N'
      then (let w =
            kprintf "%c pressed. activate lesender Zugriff auf Null-Pointer\n" (pos c ∷ []) w in
          (load_byte 0 w).1)
      else if c == b'P'
      then jump 0 (kprintf "%c pressed. activate Sprung auf Null-Pointer.\n" (pos c ∷ []) w)
      else if c == b'C'
      then kprintf "%c pressed. activate schreibender Zugriff auf eigenen Code.\n" (pos c ∷ []) w
      else if c == b'U'
      then (let w =
            kprintf "%c pressed. activate esender Zugriff auf nicht zugeordnete Adresse.\n"
              (pos c ∷ []) w in
          let (c, w) = load_byte 0xFFFF_FFF1 w in
          kprintf "not supposed to read anything %c\n" (pos c ∷ []) w)
      else if c == b'X'
      then kprintf "%c pressed. activate Sprung auf User Code.\n" (pos c ∷ []) w
      else w

  unfoldable pub uart_interrupt_cases : World → World
  unfolding violation
  uart_interrupt_cases w =
      if uart_read_available w then (let (c, w) = uart_peekc w in violation c w) else w

  -- `scheduler_end_current_thread` and, of a system call, `scheduler_round_robin` after it.
  unfoldable pub end_thread : Machine World → Machine World
  end_thread m =
      let (regs, w) = end_current_thread m.regs m.world in record m { regs = regs; world = w }

  unfoldable pub end_and_schedule : Machine World → Machine World
  unfolding end_thread
  end_and_schedule m =
      let m = end_thread m in
      let (regs, w) = round_robin m.regs m.world in record m { regs = regs; world = w }

  unfoldable pub sleep : Machine World → Machine World
  sleep m =
      let time = m.regs.r0 in
      let id = get_current_thread m.world in
      if eq_ℤ id minus_one
      then (let w = current_sleep (get_regs id m.world) time m.world in
          record m { id = id; time = 0; world = w })
      else (let (regs, w) = schedule_next m.regs m.world in
          record { regs = regs; id = id; time = 0; world = w })

  print_banked : List ℕ → World → World
  print_banked [] w = w
  print_banked (mode ∷ modes) w = print_banked modes (debug_print_banked mode w)

  unfoldable pub unknown_call : ℕ → Machine World → Machine World
  unfolding end_and_schedule print_banked
  unknown_call mode m =
      let w = kprintf " ** Unknown SWI convention %i **\n" (pos mode ∷ []) m.world in
      let w = debug_print_psr m.regs.psr (debug_print_register m.regs w) in
      end_and_schedule (record m { world = print_banked psr_modes w })

  -- The `switch` on the number of the system call.
  unfoldable pub system_call : ℕ → ℕ → Machine World → Machine World
  unfolding end_and_schedule sleep unknown_call
  system_call mode number m =
      if number == svc_exit
      then end_and_schedule m
      else if number == svc_exec
      then record m { world = new_thread m.regs.r0 m.regs.r1 m.regs.r2 m.regs.r7 m.world }
      else if number == svc_sleep
      then sleep m
      else if number == svc_getc
      then (let (c, w) = uart_getc m.world in
          let regs = m.regs in record m { regs = record regs { r0 = c }; world = w })
      else if number == svc_putc
      then record m { world = uart_putc (m.regs.r0 % 2 ^ 8) m.world }
      else unknown_call mode m

  unfoldable pub prefetch_abort : ℕ → ℕ → Machine World → Outcome World
  unfolding user_responsible end_thread
  prefetch_abort mode spsr m =
      let w =
        kprintf "## Prefetch Abort released by thread %i ##\n" (get_current_thread m.world ∷ [])
          m.world in
      let w =
        debug_print_psr m.regs.psr (debug_print_banked mode (debug_print_register m.regs w)) in
      if user_responsible spsr
      then returned
          (end_thread (record m { world = kprintf "User Responsible for the Abort\n" [] w }))
      else halted (record m {
        world = kprintf "Kernel Responsible for the Abort !! System angehalten\n" [] w;
      })

  unfoldable pub data_abort : ℕ → Machine World → Outcome World
  unfolding user_responsible end_thread
  data_abort spsr m =
      let m = record m { world = kprintf "## Data Abort released ##\n" [] m.world } in
      if user_responsible spsr
      then returned
          (end_thread (record m { world = kprintf "User Responsible for the Abort\n" [] m.world }))
      else returned m

  unfoldable pub interrupt : World → World
  unfolding uart_interrupt_cases
  interrupt w =
      let w =
        if uart_irq_pending w
        then uart_interrupt_cases (kprintf "## IRQ released ##\n" [] w)
        else w in
      if timer_pending_irq w then kprintf "## Timer IRQ released ##\n" [] w else w

  unfoldable pub exception : ℕ → ℕ → Machine World → Outcome World
  unfolding system_call prefetch_abort data_abort interrupt
  exception mode spsr m =
      if mode == e_und
      then returned m
      else if mode == e_swi
      then (let m = record m { world = kprintf "## SWI released ##\n" [] m.world } in
          returned (system_call mode (bit_and m.regs.r7 ls_byte) m))
      else if mode == e_pabt
      then prefetch_abort mode spsr m
      else if mode == e_dabt
      then data_abort spsr m
      else if mode == e_irq
      then returned (record m { world = interrupt m.world })
      else returned (record m { world = kprintf "unknown exeption\n" [] m.world })
