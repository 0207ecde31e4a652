-- ===== src/Tests/Users.antt =====
-- The threads of the user library.
use armv7_os.Prelude.{
  ℕ, zero, suc, ◌+◌, ◌*◌, ◌≤◌, ◌≡◌, ◌≢◌, ◌⊎◌, inl, inr, refl, [], ◌∷◌, ◌++◌, length,
}
use armv7_os.Heap.{mb_hexa, round_up}
use armv7_os.User.{
  start_usr, anwendung, reduce_to_4_bit, request_after, request_after_bounds,
  create_security_breach, State, move, Step, pick, Run, start, next, started,
}
use armv7_os.User.Rights.{addresses, AllOpen, create_security_breach-AllOpen}
use armv7_os.User.Termination.{AllDone, done_or_active, counting_terminates}
use armv7_os.User.Lines.{total, local, lines_of_counting}
use armv7_os.Tests.Samples.{table_mmu, table_mmu-IsInitialised}

request_after_bounds_example :
    (x : ℕ) × (request_after 0x70_0028 ≡ 0x111 * x)
    × (1 ≤ x)
    × (x ≤ 15)
    × (reduce_to_4_bit 0x70_0028 ≢ 0 → x ≡ reduce_to_4_bit 0x70_0028)
    × (64 * (round_up (request_after 0x70_0028) + 8) + 12 ≤ mb_hexa)
request_after_bounds_example = request_after_bounds 0x70_0028

-- 7 xor 2 xor 8 is 13.
request_after_runs : request_after 0x70_0028 ≡ 0xDDD
unfolding request_after
request_after_runs = refl

create_security_breach-AllOpen_example :
    AllOpen table_mmu (addresses (λ a. 0) (create_security_breach (λ a. 0) b'u'))
create_security_breach-AllOpen_example =
    create_security_breach-AllOpen table_mmu (λ a. 0) b'u' table_mmu-IsInitialised

-- A schedule: the first thread that has not ended takes the next step.
record Reached (s : State) : Type 0 where
  steps : ℕ
  last : State
  run : Run s steps last

advance : (s : State) → ℕ → Reached s
unfolding done_or_active move
advance s zero = record { steps = 0; last = s; run = start }
advance s (suc n) = continue (advance s n)
  where
    continue : Reached s → Reached s
    continue r = elim (done_or_active r.last.threads) [
      | inl all ↦ r
      | inr (pre, t, post, split, active) ↦ record {
        steps = suc r.steps;
        last = move pre t post r.last;
        run = next r.run (pick pre t post split active);
      }
    ]

-- All threads run to their end.
abbrev to_the_end : Reached (started b'a')
to_the_end = advance (started b'a') 80

ended_steps : to_the_end.steps ≡ 65
unfolding advance
ended_steps = refl

to_the_end-AllDone : AllDone to_the_end.last.threads
unfolding advance
to_the_end-AllDone = (refl, (refl, (refl, tt)))

counting_terminates_example :
    (to_the_end.steps ≤ 774_840_983)
    × (to_the_end.last.global_counter ≤ 193_710_243)
    × (AllDone to_the_end.last.threads ⊎ ((v : State) × Step to_the_end.last v))
counting_terminates_example =
    counting_terminates b'a' to_the_end.steps to_the_end.last to_the_end.run

lines_of_counting_example :
    (length to_the_end.last.lines ≡ total local to_the_end.last.threads)
    × (15 ≤ length to_the_end.last.lines)
lines_of_counting_example =
    lines_of_counting b'a' to_the_end.steps to_the_end.last to_the_end.run to_the_end-AllDone

-- A key that is no ASCII character is passed over.
start_usr_runs :
    start_usr (b'm' ∷ 200 ∷ b'q' ∷ []) ≡ start_usr [] ++ (anwendung b'm' ++ (anwendung b'q' ++ []))
unfolding start_usr
start_usr_runs = refl
