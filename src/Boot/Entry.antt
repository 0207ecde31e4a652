-- ===== src/Boot/Entry.antt =====
-- system/entry.S: from the reset of a core to the call of `start_kernel`.
use armv7_os.Prelude.{
  ℕ, zero, suc, ◌+◌, ◌-◌, ◌*◌, ◌/◌, ◌%◌, ◌^◌, ◌<◌, bit_and, bit_or, ◌≡◌, ◌≢◌, ◌↔◌, refl, ◌∙◌, ap,
  sym, arith, ◌==◌, if◌then◌else◌, true, false, Bool-cases, inl, inr, subst, Bool, not, leb, ◌&&◌,
}
use armv7_os.Bits.{bit_and_split, bit_and_mask, bit_or_split, bit_or-zero, bit_and-zero}
use armv7_os.Mmu.{complement32}

-- The labels of the file, `.Lend` as `halting`, and the body of the C function.
pub data Label : Type 0 where
  at_start : Label
  loop_cores : Label
  at_bsprak : Label
  halting : Label
  exit_hyper : Label
  in_start_kernel : Label

-- The core: its place, the status register, the identification that coprocessor 15 answers, the
-- registers used, and those of the hypervisor mode.
pub record Processor : Type 0 where
  pub place : Label
  pub cpsr : ℕ
  pub mpidr : ℕ
  pub r0 : ℕ
  pub r1 : ℕ
  pub sp : ℕ
  pub lr : Label
  pub elr_hyp : Label
  pub spsr_hyp : ℕ

-- The status register with the condition flags N, Z, C and V, its top four bits, one after another.
abbrev pub set_flags : (n z c v psr : ℕ) → ℕ
set_flags n z c v psr = ((n * 2 + z) * 2 + c) * 2 ^ 29 + v * 2 ^ 28 + psr % 2 ^ 28

abbrev pub bit_if : Bool → ℕ
bit_if b = if b then 1 else 0

-- The flags of `cmp x, y`: of the difference of the words, its carry and its overflow.
unfoldable pub cmp_flags : (x y psr : ℕ) → ℕ
cmp_flags x y psr =
    let difference = (x + 2 ^ 32 - y) % 2 ^ 32 in
    let opposite = not (x / 2 ^ 31 == y / 2 ^ 31) in
    let turned = not (difference / 2 ^ 31 == x / 2 ^ 31) in
    set_flags (difference / 2 ^ 31) (bit_if (difference == 0)) (bit_if (leb y x))
      (bit_if (opposite && turned)) psr

-- The flags of `tst x, y` with a small constant, which leaves C and V.
unfoldable pub tst_flags : (x y psr : ℕ) → ℕ
tst_flags x y psr =
    let common = bit_and x y in
    set_flags (common / 2 ^ 31) (bit_if (common == 0)) (psr / 2 ^ 29 % 2) (psr / 2 ^ 28 % 2) psr

abbrev pub z_flag : ℕ → Bool
z_flag psr = psr / 2 ^ 30 % 2 == 1

-- The instructions from a label to the next jump. `start_kernel` returns to its caller.
unfoldable pub step_at : Label → Processor → Processor
unfolding cmp_flags tst_flags
step_at at_start c =
    let mode = bit_and c.cpsr 0x1F in
    let psr = cmp_flags mode 0x1A c.cpsr in
    record c {
      r0 = mode;
      r1 = 0x1A;
      cpsr = psr;
      place = if z_flag psr then exit_hyper else loop_cores;
    }
step_at loop_cores c =
    let psr = tst_flags c.mpidr 3 c.cpsr in
    record c { r0 = c.mpidr; cpsr = psr; place = if z_flag psr then at_bsprak else halting }
step_at at_bsprak c = record c { sp = 0x20000; lr = halting; place = in_start_kernel }
step_at halting c = c
step_at exit_hyper c =
    let psr = bit_or (bit_and c.cpsr (complement32 0x1F)) 0x13 in
    let c = record c { lr = loop_cores; elr_hyp = loop_cores; r0 = psr; spsr_hyp = psr } in
    record c { cpsr = c.spsr_hyp; place = c.elr_hyp }
step_at in_start_kernel c = record c { place = c.lr }

unfoldable pub run : ℕ → Processor → Processor
run zero c = c
run (suc n) c = run n (step_at c.place c)

bit_if-lt : (b : Bool) → bit_if b < 2
bit_if-lt b = ground arith

-- What an update of the flags keeps and sets.
set_flags_lem :
    (n z c v psr : ℕ)
    → n < 2
    → z < 2
    → c < 2
    → v < 2
    → (set_flags n z c v psr % 2 ^ 28 ≡ psr % 2 ^ 28)
      × (set_flags n z c v psr < 2 ^ 32)
      × (set_flags n z c v psr / 2 ^ 30 % 2 ≡ z)
set_flags_lem n z c v psr hn hz hc hv = (omega arith, omega arith, omega arith)

-- After a comparison of two modes, and after the test of the number of the core.
cmp_flags_lem :
    (x y psr : ℕ)
    → x < 32
    → y < 32
    → (cmp_flags x y psr % 2 ^ 28 ≡ psr % 2 ^ 28)
      × (cmp_flags x y psr < 2 ^ 32)
      × (z_flag (cmp_flags x y psr) ≡ (x == y))
unfolding cmp_flags
cmp_flags_lem x y psr hx hy =
    let d = (x + 2 ^ 32 - y) % 2 ^ 32 in
    let v = not (x / 2 ^ 31 == y / 2 ^ 31) && not (d / 2 ^ 31 == x / 2 ^ 31) in
    let set =
      set_flags_lem (d / 2 ^ 31) (bit_if (d == 0)) (bit_if (leb y x)) (bit_if v) psr (omega arith)
        (bit_if-lt (d == 0)) (bit_if-lt (leb y x)) (bit_if-lt v) in
    (set.0, set.1, rw set.2 (ground arith))

tst_flags_lem :
    (x psr : ℕ)
    → (tst_flags x 3 psr % 2 ^ 28 ≡ psr % 2 ^ 28)
      × (tst_flags x 3 psr < 2 ^ 32)
      × (z_flag (tst_flags x 3 psr) ≡ (x % 4 == 0))
unfolding tst_flags
tst_flags_lem x psr =
    let common = bit_and x 3 in
    let small : common < 4 = omega (arith, core_bits x) in
    let set =
      set_flags_lem (common / 2 ^ 31) (bit_if (common == 0)) (psr / 2 ^ 29 % 2) (psr / 2 ^ 28 % 2)
        psr (omega arith) (bit_if-lt (common == 0)) (omega arith) (omega arith) in
    (set.0, set.1, rw set.2 (ground (arith, core_bits x)))
  where
    core_bits : (x : ℕ) → bit_and x 3 ≡ x % 4
    core_bits x = bit_and_mask 2 x

mode_bits : (x : ℕ) → bit_and x 0x1F ≡ x % 32
mode_bits x = bit_and_mask 5 x

-- The mode bits of the status register, replaced by those of the supervisor mode.
supervisor_bits :
    (x : ℕ) → x < 2 ^ 32 → bit_or (bit_and x (complement32 0x1F)) 0x13 ≡ x / 32 * 32 + 0x13
supervisor_bits x h = ground (
  arith,
  bit_and_split 5 (x / 32) (x % 32) (2 ^ 27 - 1) 0,
  bit_and_mask 27 (x / 32),
  bit_and-zero (x % 32),
  bit_or_split 5 (x / 32) 0 0 0x13,
  bit_or-zero (x / 32),
)

-- The places of a core that never calls `start_kernel`.
abbrev IsApart : Label → Type 0
IsApart at_bsprak = ⊥
IsApart in_start_kernel = ⊥
IsApart p = Unit {0}

-- A core that calls `start_kernel` for the first time, with the status register that `c` had but for
-- the flags, the top four bits, and for a hypervisor mode, which is now the supervisor mode.
abbrev pub IsEntered : Processor → Processor → Type 0
IsEntered c e =
    (e.place ≡ in_start_kernel)
    × (e.sp ≡ 0x20000)
    × (e.cpsr % 2 ^ 28 / 32 ≡ c.cpsr % 2 ^ 28 / 32)
    × (e.cpsr % 32 ≡ (if c.cpsr % 32 == 0x1A then 0x13 else c.cpsr % 32))

-- The core at its reset.
abbrev pub at_reset : Processor → Processor
at_reset c = record c { place = at_start }

-- Core 0 calls `start_kernel` after three or four jumps, with the stack at 0x20000, in the mode of its
-- reset, or in the supervisor mode where that was the hypervisor mode, and with the bits 5 to 27 of its
-- status register as they were.
pub core_zero_enters :
    (c : Processor) → c.cpsr < 2 ^ 32 → c.mpidr % 4 ≡ 0 → (n : ℕ) × IsEntered c (run n (at_reset c))
unfolding run step_at
core_zero_enters c h zero_core =
    let mode = bit_and c.cpsr 0x1F in
    let psr = cmp_flags mode 0x1A c.cpsr in
    let compared = cmp_flags_lem mode 0x1A c.cpsr (omega (arith, mode_bits c.cpsr)) (omega arith) in
    let hyp_psr = bit_or (bit_and psr (complement32 0x1F)) 0x13 in
    let tested = tst_flags_lem c.mpidr psr in
    let tested_hyp = tst_flags_lem c.mpidr hyp_psr in
    let is_zero : (c.mpidr % 4 == 0) ≡ true = ground (arith, zero_core) in
    elim (Bool-cases (mode == 0x1A)) as (λ _. (n : ℕ) × IsEntered c (run n (at_reset c))) [
      | inl hyp ↦ (
        4,
        rw (compared.2 ∙ hyp, tested_hyp.2 ∙ is_zero)
            (
              refl,
              refl,
              omega (arith, tested_hyp.0, supervisor_bits psr compared.1, compared.0),
              ground (
                arith,
                tested_hyp.0,
                supervisor_bits psr compared.1,
                compared.0,
                mode_bits c.cpsr,
                hyp,
              ),
            ),
      )
      | inr other ↦ (
        3,
        rw (compared.2 ∙ other, tested.2 ∙ is_zero)
            (
              refl,
              refl,
              omega (arith, tested.0, compared.0),
              ground (arith, tested.0, compared.0, mode_bits c.cpsr, other),
            ),
      )
    ]

step_at-IsApart :
    (p : Label) (c : Processor)
    → c.mpidr % 4 ≢ 0
    → IsApart p
    → c.place ≡ p
    → IsApart (step_at p c).place × ((step_at p c).mpidr ≡ c.mpidr)
unfolding step_at
step_at-IsApart at_start c other apart eq =
    elim (Bool-cases (z_flag (cmp_flags (bit_and c.cpsr 0x1F) 0x1A c.cpsr))) [
      | inl h ↦ rw h (tt, refl)
      | inr h ↦ rw h (tt, refl)
    ]
step_at-IsApart loop_cores c other apart eq =
    let not_zero : (c.mpidr % 4 == 0) ≡ false = ground (arith, other) in
    rw ((tst_flags_lem c.mpidr c.cpsr).2 ∙ not_zero) (tt, refl)
step_at-IsApart at_bsprak c other apart eq = absurd apart
step_at-IsApart halting c other apart eq = (rw eq tt, refl)
step_at-IsApart exit_hyper c other apart eq = (tt, refl)
step_at-IsApart in_start_kernel c other apart eq = absurd apart

run-IsApart : (n : ℕ) (c : Processor) → c.mpidr % 4 ≢ 0 → IsApart c.place → IsApart (run n c).place
unfolding run
run-IsApart zero c other apart = apart
run-IsApart (suc n) c other apart =
    let stepped = step_at-IsApart c.place c other apart refl in
    run-IsApart n (step_at c.place c) (λ eq. other (ap (λ x. x % 4) (sym stepped.1) ∙ eq)) stepped.0

IsApart-kernel : (p : Label) → IsApart p → p ≢ in_start_kernel
IsApart-kernel p apart eq = subst IsApart eq apart

IsApart-never :
    (c : Processor) (n : ℕ) → c.mpidr % 4 ≢ 0 → (run n (at_reset c)).place ≢ in_start_kernel
IsApart-never c n other =
    IsApart-kernel (run n (at_reset c)).place (run-IsApart n (at_reset c) other tt)

-- After a reset a core gets to `start_kernel` exactly if it is core 0; the others never do.
pub start_kernel_iff :
    (c : Processor)
    → c.cpsr < 2 ^ 32
    → ((n : ℕ) × ((run n (at_reset c)).place ≡ in_start_kernel)) ↔ (c.mpidr % 4 ≡ 0)
start_kernel_iff c h = (
  λ reached. elim (Bool-cases (c.mpidr % 4 == 0)) as (λ _. c.mpidr % 4 ≡ 0) [
    | inl is_zero ↦ ground (arith, is_zero)
    | inr not_zero ↦ absurd (IsApart-never c reached.0 (ground (arith, not_zero)) reached.1)
  ],
  λ zero_core. let entered = core_zero_enters c h zero_core in (entered.0, entered.1.0),
)
