-- ===== src/User/Rights.antt =====
-- The translation table does not refuse the accesses of user/user_thread_routine.c.
use armv7_os.Prelude.{ℕ, ◌/◌, ◌^◌, ◌≡◌, refl, ◌∙◌, some, List, [], ◌∷◌, ◌++◌, arith}
use armv7_os.Mmu.{Mmu, translate_ap}
use armv7_os.Mmu.Init.{IsInitialised}
use armv7_os.Mmu.Access.{region_rights, translate_ap-region_rights}
use armv7_os.User.Breach.{
  Action, say, exec, load, jump, overflow_stack, run_program, create_security_breach,
}

-- The addresses that actions read through a pointer or jump to, those of the threads that they start included.
abbrev pub own_addresses : List Action → List ℕ
own_addresses [] = []
own_addresses (load a ∷ rest) = a ∷ own_addresses rest
own_addresses (jump a ∷ rest) = a ∷ own_addresses rest
own_addresses (say format c ∷ rest) = own_addresses rest
own_addresses (exec program ∷ rest) = own_addresses rest
own_addresses (overflow_stack ∷ rest) = own_addresses rest

abbrev pub addresses : (ℕ → ℕ) → List Action → List ℕ
addresses peek [] = []
addresses peek (load a ∷ rest) = a ∷ addresses peek rest
addresses peek (jump a ∷ rest) = a ∷ addresses peek rest
addresses peek (say format c ∷ rest) = addresses peek rest
addresses peek (exec program ∷ rest) =
    own_addresses (run_program peek program) ++ addresses peek rest
addresses peek (overflow_stack ∷ rest) = addresses peek rest

-- The section of each address has full access.
abbrev pub AllOpen : Mmu → List ℕ → Type 0
AllOpen m [] = Unit {0}
AllOpen m (a ∷ rest) = (translate_ap m (a / 2 ^ 20) ≡ some "AP_FULL_ACCESS") × AllOpen m rest

-- After the initialisation of the table, and for every key: each address that `create_security_breach`,
-- or a thread that it starts, reads through a pointer or jumps to lies in a section whose entry in the
-- table gives full access. The recursion of the key s, which reads no address of its own, is left out.
pub create_security_breach-AllOpen :
    (m : Mmu) (peek : ℕ → ℕ) (c : ℕ)
    → IsInitialised m
    → AllOpen m (addresses peek (create_security_breach peek c))
unfolding create_security_breach run_program
create_security_breach-AllOpen m peek c init = ground (arith, null_open, last_open)
  where
    null_open : translate_ap m 0 ≡ some "AP_FULL_ACCESS"
    null_open =
        (translate_ap-region_rights m 0 init (omega arith)).0 ∙ (unfold region_rights in refl)

    last_open : translate_ap m 4095 ≡ some "AP_FULL_ACCESS"
    last_open =
        (translate_ap-region_rights m 4095 init (omega arith)).0 ∙ (unfold region_rights in refl)
