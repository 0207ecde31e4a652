-- ===== src/Exceptions/Dispatch.antt =====
-- Which exceptions stop the kernel, end the thread, or return to it as it was.
use armv7_os.Prelude.{ℕ, ◌%◌, ◌≡◌, ◌≢◌, ◌↔◌, ◌⊎◌, Bool, true, false, arith}
use armv7_os.Bits.{bit_and_mask}
use armv7_os.Exceptions.Defs.{
  Platform, Machine, Outcome, returned, halted, exception, user_responsible, e_swi, e_pabt, e_dabt,
  usr,
}

abbrev pub is_halted : {W : Type 0} → Outcome W → Bool
is_halted (returned m) = false
is_halted (halted m) = true

abbrev pub machine_of : {W : Type 0} → Outcome W → Machine W
machine_of (returned m) = m
machine_of (halted m) = m

-- The mode bits of the saved status register decide who is responsible.
pub user_responsible_iff : (spsr : ℕ) → (user_responsible spsr ≡ true) ↔ (spsr % 32 ≡ usr)
unfolding user_responsible
user_responsible_iff spsr = ground (arith, bit_and_mask 5 spsr)

module _ (p : Platform) where
  open p use {World}

  -- The kernel stops exactly on a prefetch abort that comes from another mode than user mode.
  pub is_halted_iff :
      (mode spsr : ℕ) (m : Machine World)
      → (is_halted (exception p mode spsr m) ≡ true) ↔ ((mode ≡ e_pabt) × (spsr % 32 ≢ usr))
  unfolding exception
  is_halted_iff mode spsr m = ground (arith, user_responsible_iff spsr)

  -- An exception that is no system call and no abort from user mode returns to saved registers that
  -- are as they were, or stops the kernel with them.
  pub regs-exception :
      (mode spsr : ℕ) (m : Machine World)
      → mode ≢ e_swi
      → (spsr % 32 ≢ usr) ⊎ ((mode ≢ e_pabt) × (mode ≢ e_dabt))
      → (machine_of (exception p mode spsr m)).regs ≡ m.regs
  unfolding exception
  regs-exception mode spsr m ne other = ground (arith, user_responsible_iff spsr)

  -- The global `time` is 0 again after every exception.
  pub time-exception :
      (mode spsr : ℕ) (m : Machine World)
      → m.time ≡ 0
      → (machine_of (exception p mode spsr m)).time ≡ 0
  unfolding exception
  time-exception mode spsr m h = ground arith
