-- ===== src/Stubs.antt =====
-- The stubs of the system calls, user/syscall.S. What the kernel does at `svc` is a parameter: the
-- precompiled object answers the known numbers itself.
use armv7_os.Prelude.{ℕ, ◌≡◌, refl}
use armv7_os.Exceptions.{Regs}

module _ (World : Type 0) (answer : Regs → World → Regs × World) where
  -- `mov r7` and `svc`, with r0 to r3 as the caller leaves them.
  unfoldable pub svc : ℕ → Regs → World → Regs × World
  svc number regs w = answer (record regs { r7 = number }) w

  -- `push {r7,lr}` before the call and `pop {r7,lr}` after it.
  unfoldable pub stub : ℕ → Regs → World → Regs × World
  unfolding svc
  stub number saved w =
      let (regs, w) = svc number saved w in (record regs { r7 = saved.r7; lr = saved.lr }, w)

  -- This stub has no instruction behind its `svc`.
  unfoldable pub call_exit : Regs → World → Regs × World
  unfolding svc
  call_exit regs w = svc 0 regs w

  -- With the arguments of the C call in r0 to r3, and its result in r0.
  unfoldable pub call_exec : (func arg size flags : ℕ) → Regs → World → Regs × World
  unfolding stub
  call_exec func arg size flags regs w =
      stub 1 (record regs { r0 = func; r1 = arg; r2 = size; r3 = flags }) w

  unfoldable pub call_putc : ℕ → Regs → World → Regs × World
  unfolding stub
  call_putc c regs w = stub 2 (record regs { r0 = c }) w

  unfoldable pub call_getc : Regs → World → Regs × World
  unfolding stub
  call_getc regs w = stub 3 regs w

  unfoldable pub call_sleep : ℕ → Regs → World → Regs × World
  unfolding stub
  call_sleep count regs w = stub 4 (record regs { r0 = count }) w

  -- A call of `syscall_exec` hands the four arguments and its number to the kernel, whose effects and
  -- whose r0 it returns, with the caller's r7 and lr.
  pub call_exec_lem :
      (func arg size flags : ℕ) (regs : Regs) (w : World)
      → let asked = answer (record regs { r0 = func; r1 = arg; r2 = size; r3 = flags; r7 = 1 }) w in
        let returned = call_exec func arg size flags regs w in
        (returned.1 ≡ asked.1)
        × (returned.0.r0 ≡ asked.0.r0)
        × (returned.0.r7 ≡ regs.r7)
        × (returned.0.lr ≡ regs.lr)
  unfolding call_exec stub svc
  call_exec_lem func arg size flags regs w = (refl, refl, refl, refl)
