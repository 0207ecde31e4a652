-- ===== src/User/Counting.antt =====
-- user/user_thread_functions.c: the parent and its children count one shared counter up. A step is one
-- access of the volatile counter, and an interrupt may come between any two. A line is printed as a
-- whole.
use armv7_os.Prelude.{ℕ, ◌+◌, ◌%◌, ◌^◌, ◌≡◌, ◌≢◌, suc, List, [], ◌∷◌, ◌++◌, ltb, if◌then◌else◌}

abbrev pub loop_length : ℕ
loop_length = 15

-- Where a thread stands: before its start, at the test of its loop, before the load and before the
-- store of `global_counter++`, before the load for its line, and at its end.
pub data Place : Type 0 where
  waiting testing loading printing done : Place
  storing : ℕ → Place

-- A thread with its argument, `*(char *) c` or `id1`, and its `local_counter`.
pub record Thread : Type 0 where
  pub place : Place
  pub id : ℕ
  pub local_counter : ℕ

-- A line `%c:%x (%c:%i)` of the output.
pub record Line : Type 0 where
  pub char : ℕ
  pub counter : ℕ
  pub id : ℕ
  pub local_counter : ℕ

pub record State : Type 0 where
  pub global_counter : ℕ
  pub global_char : ℕ
  pub threads : List Thread
  pub lines : List Line

-- What thread `t` does at place `p`: the counter, the thread and the lines after it.
unfoldable pub move_at : Place → ℕ → ℕ → Thread → ℕ × Thread × List Line
move_at waiting counter char t = (counter, record t { place = testing }, [])
move_at testing counter char t = (
  counter,
  (if ltb counter loop_length
      then record t { place = loading; local_counter = t.local_counter + 1 }
      else record t { place = done }),
  [],
)
move_at loading counter char t = (counter, record t { place = storing counter }, [])
move_at (storing v) counter char t = ((v + 1) % 2 ^ 32, record t { place = printing }, [])
move_at printing counter char t = (
  counter,
  record t { place = testing },
  record { char = char; counter = counter; id = t.id; local_counter = t.local_counter } ∷ [],
)
move_at done counter char t = (counter, t, [])

-- One step of the thread `t` among the others.
unfoldable pub move : List Thread → Thread → List Thread → State → State
unfolding move_at
move pre t post s =
    let (counter, t', lines) = move_at t.place s.global_counter s.global_char t in
    record s { global_counter = counter; threads = pre ++ (t' ∷ post); lines = s.lines ++ lines }

-- The scheduler picks any thread that has not ended.
pub data Step (s : State) : State → Type 0 where
  pick :
      (pre : List Thread) (t : Thread) (post : List Thread)
      → s.threads ≡ pre ++ (t ∷ post)
      → t.place ≢ done
      → Step s (move pre t post s)

pub data Run (s : State) : ℕ → State → Type 0 where
  start : Run s 0 s
  next : {k : ℕ} {t u : State} → Run s k t → Step t u → Run s (suc k) u

-- `user_parent_runner` for the key `c`, after its assignments: `id1` is '1', and the two children may
-- start at any time.
abbrev pub started : ℕ → State
started c = record {
  global_counter = 0;
  global_char = c;
  threads =
      record { place = testing; id = b'1'; local_counter = 0 }
      ∷ record { place = waiting; id = b'2'; local_counter = 0 }
      ∷ record { place = waiting; id = b'3'; local_counter = 0 }
      ∷ [];
  lines = [];
}
