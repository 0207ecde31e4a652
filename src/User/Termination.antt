-- ===== src/User/Termination.antt =====
-- Every run of the counting threads ends.
use armv7_os.Prelude.{
  ℕ, suc, ◌+◌, ◌*◌, ◌%◌, ◌^◌, ◌≤◌, ◌<◌, ◌≡◌, ◌≢◌, refl, ap, ◌∙◌, arith, true, false, Bool, List, [],
  ◌∷◌, ◌++◌, ltb, length, ◌⊎◌, inl, inr, if◌then◌else◌, subst,
}
use armv7_os.User.Counting.{
  loop_length, Place, waiting, testing, loading, printing, done, storing, Thread, State, move_at,
  move, Line, Step, pick, Run, start, next, started,
}
use armv7_os.User.Measure.{
  weight, height_of, rank, potential, ranks, potential-append, ranks-append, store_lowers, Lower,
  move_at-Lower,
}

-- No value that a thread is about to store is above `c` less the potential.
abbrev PlaceBelow : ℕ → ℕ → Place → Type 0
PlaceBelow c room (storing v) = v + room ≤ c
PlaceBelow c room p = Unit {0}

abbrev AllBelow : ℕ → ℕ → List Thread → Type 0
AllBelow c room [] = Unit {0}
AllBelow c room (t ∷ ts) = PlaceBelow c room t.place × AllBelow c room ts

PlaceBelow-mono :
    (c room room' : ℕ) (p : Place) → room' ≤ room → PlaceBelow c room p → PlaceBelow c room' p
PlaceBelow-mono c room room' (storing v) le h = omega arith
PlaceBelow-mono c room room' waiting le h = tt
PlaceBelow-mono c room room' p le h = tt

AllBelow-mono :
    (c room room' : ℕ) (ts : List Thread) → room' ≤ room → AllBelow c room ts → AllBelow c room' ts
AllBelow-mono c room room' [] le h = tt
AllBelow-mono c room room' (t ∷ ts) le h =
    (PlaceBelow-mono c room room' t.place le h.0, AllBelow-mono c room room' ts le h.1)

AllBelow-append :
    (c room : ℕ) (xs ys : List Thread)
    → AllBelow c room xs
    → AllBelow c room ys
    → AllBelow c room (xs ++ ys)
AllBelow-append c room [] ys hx hy = hy
AllBelow-append c room (x ∷ xs) ys hx hy = (hx.0, AllBelow-append c room xs ys hx.1 hy)

AllBelow-split :
    (c room : ℕ) (xs ys : List Thread)
    → AllBelow c room (xs ++ ys)
    → AllBelow c room xs × AllBelow c room ys
AllBelow-split c room [] ys h = (tt, h)
AllBelow-split c room (x ∷ xs) ys h =
    let (hx, hy) = AllBelow-split c room xs ys h.1 in ((h.0, hx), hy)

-- The bound on the counter, three times the weight of the height of 0.
abbrev bound : ℕ
bound = 193_710_243

abbrev room_of : State → ℕ
room_of s = potential s.global_counter s.threads

abbrev pub measure : State → ℕ
measure s = 4 * potential s.global_counter s.threads + ranks s.threads

record IsBounded (s : State) : Type 0 where
  three : length s.threads ≡ 3
  counter_below : s.global_counter + room_of s ≤ bound
  held_below : AllBelow bound (room_of s) s.threads

either_below :
    (b : Bool) (room : ℕ) (x y : Thread)
    → PlaceBelow bound room x.place
    → PlaceBelow bound room y.place
    → PlaceBelow bound room (if b then x else y).place
either_below true room x y hx hy = hx
either_below false room x y hx hy = hy

-- The counter and the own place after a step of one of three threads.
counter_after :
    (p : Place) (counter char : ℕ) (t : Thread) (others : List Thread)
    → p ≢ done
    → length others ≤ 2
    → counter + (weight (height_of counter p) + potential counter others) ≤ bound
    → PlaceBelow bound (weight (height_of counter p) + potential counter others) p
    → Lower counter (move_at p counter char t).0 others p (move_at p counter char t).1.place
    → ((move_at p counter char t).0
          + (weight (height_of (move_at p counter char t).0 (move_at p counter char t).1.place)
              + potential (move_at p counter char t).0 others)
        ≤ bound)
      × PlaceBelow bound
          (weight (height_of (move_at p counter char t).0 (move_at p counter char t).1.place)
            + potential (move_at p counter char t).0 others)
          (move_at p counter char t).1.place
unfolding move_at
counter_after (storing v) counter char t others active few below held lower =
    let plain : (v + 1) % 2 ^ 32 ≡ v + 1 = omega (arith, held) in
    rw plain (omega (arith, below, held, store_lowers v counter others few), tt)
counter_after testing counter char t others active few below held lower = (
  omega (arith, lower.potential_le),
  either_below (ltb counter loop_length)
      (weight (height_of counter (move_at testing counter char t).1.place)
        + potential counter others)
      (record t { place = loading; local_counter = t.local_counter + 1 })
      (record t { place = done }) tt tt,
)
counter_after waiting counter char t others active few below held lower =
    (omega (arith, lower.potential_le), tt)
counter_after printing counter char t others active few below held lower =
    (omega (arith, lower.potential_le), tt)
counter_after loading counter char t others active few below held lower =
    (omega (arith, lower.potential_le), omega (arith, lower.potential_le))
counter_after done counter char t others active few below held lower = absurd (active refl)

potential_pick :
    (counter : ℕ) (pre : List Thread) (t : Thread) (post : List Thread)
    → potential counter (pre ++ (t ∷ post))
      ≡ weight (height_of counter t.place) + potential counter (pre ++ post)
unfolding potential
potential_pick counter pre t post =
    omega (arith, potential-append counter pre (t ∷ post), potential-append counter pre post)

ranks_pick :
    (pre : List Thread) (t : Thread) (post : List Thread)
    → ranks (pre ++ (t ∷ post)) ≡ rank t.place + ranks (pre ++ post)
unfolding ranks
ranks_pick pre t post = omega (arith, ranks-append pre (t ∷ post), ranks-append pre post)

length_pick :
    (pre : List Thread) (t : Thread) (post : List Thread)
    → length (pre ++ (t ∷ post)) ≡ suc (length (pre ++ post))
length_pick [] t post = refl
length_pick (x ∷ pre) t post = ap suc (length_pick pre t post)

module _ (s : State) (pre : List Thread) (t : Thread) (post : List Thread)
    (split : s.threads ≡ pre ++ (t ∷ post)) (active : t.place ≢ done) (bounded : IsBounded s) where
  abbrev others : List Thread
  others = pre ++ post

  few : length others ≤ 2
  few = omega (arith, ap (length {A = Thread}) split, length_pick pre t post, bounded.three)

  room_is :
      room_of s ≡ weight (height_of s.global_counter t.place) + potential s.global_counter others
  room_is = ap (potential s.global_counter) split ∙ potential_pick s.global_counter pre t post

  all_below : AllBelow bound (room_of s) pre × AllBelow bound (room_of s) (t ∷ post)
  all_below =
      AllBelow-split bound (room_of s) pre (t ∷ post)
        (subst (AllBelow bound (room_of s)) split bounded.held_below)

  own_below : (v : ℕ) → t.place ≡ storing v → v + room_of s ≤ bound
  own_below v here = subst (PlaceBelow bound (room_of s)) here all_below.1.0

  lowered :
      Lower s.global_counter
        (move_at t.place s.global_counter s.global_char t).0
        others
        t.place
        (move_at t.place s.global_counter s.global_char t).1.place
  lowered =
      move_at-Lower t.place s.global_counter s.global_char t others active few
        (λ v here. omega (arith, own_below v here))

  abbrev after : ℕ × Thread × List Line
  after = move_at t.place s.global_counter s.global_char t

  room_after :
      potential after.0 (pre ++ (after.1 ∷ post))
      ≡ weight (height_of after.0 after.1.place) + potential after.0 others
  room_after = potential_pick after.0 pre after.1 post

  kept :
      (after.0 + potential after.0 (pre ++ (after.1 ∷ post)) ≤ bound)
      × PlaceBelow bound (potential after.0 (pre ++ (after.1 ∷ post))) after.1.place
  kept = rw room_after (
      counter_after t.place s.global_counter s.global_char t others active few
        (rw room_is at bounded.counter_below) (rw room_is at all_below.1.0) lowered)

  room_le : potential after.0 (pre ++ (after.1 ∷ post)) ≤ room_of s
  room_le = omega (arith, room_after, room_is, lowered.potential_le)

  move-IsBounded : IsBounded (move pre t post s)
  unfolding move
  move-IsBounded = record {
    three = omega (
      arith,
      few,
      length_pick pre after.1 post,
      length_pick pre t post,
      ap (length {A = Thread}) split,
      bounded.three,
    );
    counter_below = kept.0;
    held_below =
        AllBelow-append bound (potential after.0 (pre ++ (after.1 ∷ post))) pre (after.1 ∷ post)
          (AllBelow-mono bound (room_of s) (potential after.0 (pre ++ (after.1 ∷ post))) pre room_le
            all_below.0)
          (
            kept.1,
            AllBelow-mono bound (room_of s) (potential after.0 (pre ++ (after.1 ∷ post))) post
                room_le all_below.1.1,
          );
  }

  measure-move-lt : measure (move pre t post s) < measure s
  unfolding move
  measure-move-lt = omega (
    arith,
    room_after,
    room_is,
    lowered.lower,
    ranks_pick pre after.1 post,
    ranks_pick pre t post,
    ap ranks split,
  )

Step-IsBounded : {s u : State} → Step s u → IsBounded s → IsBounded u × (measure u < measure s)
Step-IsBounded {s} (pick pre t post split active) bounded = (
  move-IsBounded s pre t post split active bounded,
  measure-move-lt s pre t post split active bounded,
)

Run-IsBounded :
    {s u : State} {k : ℕ} → Run s k u → IsBounded s → IsBounded u × (k + measure u ≤ measure s)
Run-IsBounded start bounded = (bounded, omega arith)
Run-IsBounded (next run step) bounded =
    let (bounded', so_far) = Run-IsBounded run bounded in
    let (bounded'', less) = Step-IsBounded step bounded' in (bounded'', omega arith)

abbrev pub AllDone : List Thread → Type 0
AllDone [] = Unit {0}
AllDone (t ∷ ts) = (t.place ≡ done) × AllDone ts

-- A list of threads has ended, or some thread of it has not.
unfoldable pub done_or_active :
    (ts : List Thread)
    → AllDone ts
      ⊎ ((pre : List Thread) × (t : Thread) × (post : List Thread) × (ts ≡ pre ++ (t ∷ post))
          × (t.place ≢ done))
done_or_active [] = inl tt
done_or_active (t ∷ ts) = elim (is_done t.place) [
  | inr active ↦ inr ([], t, ts, refl, active)
  | inl ended ↦ elim (done_or_active ts) [
    | inl all ↦ inl (ended, all)
    | inr (pre, u, post, split, active) ↦ inr (t ∷ pre, u, post, ap (λ us. t ∷ us) split, active)
  ]
]
  where
    is_done : (p : Place) → (p ≡ done) ⊎ (p ≢ done)
    is_done done = inl refl
    is_done waiting = inr (λ e. cc)
    is_done testing = inr (λ e. cc)
    is_done loading = inr (λ e. cc)
    is_done printing = inr (λ e. cc)
    is_done (storing v) = inr (λ e. cc)

started-IsBounded : (c : ℕ) → IsBounded (started c) × (measure (started c) ≡ 774_840_983)
unfolding potential ranks weight
started-IsBounded c =
    (record { three = refl; counter_below = omega arith; held_below = (tt, (tt, (tt, tt))) }, refl)

-- For every key and every interleaving of the three threads, in steps of one access of the counter
-- each: no run has more than 774840983 steps, the counter never exceeds 193710243, so it does not
-- wrap around, and as long as not all threads have ended, some thread can take a step.
pub counting_terminates :
    (c k : ℕ) (u : State)
    → Run (started c) k u
    → (k ≤ 774_840_983)
      × (u.global_counter ≤ 193_710_243)
      × (AllDone u.threads ⊎ ((v : State) × Step u v))
counting_terminates c k u run =
    let (bounded, fresh) = started-IsBounded c in
    let (bounded', so_far) = Run-IsBounded run bounded in
    (omega (arith, fresh), omega (arith, bounded'.counter_below), ends_or_moves)
  where
    ends_or_moves : AllDone u.threads ⊎ ((v : State) × Step u v)
    ends_or_moves = elim (done_or_active u.threads) [
      | inl all ↦ inl all
      | inr (pre, t, post, split, active) ↦ inr (move pre t post u, pick pre t post split active)
    ]

pub three_threads : (c k : ℕ) (u : State) → Run (started c) k u → length u.threads ≡ 3
three_threads c k u run = (Run-IsBounded run (started-IsBounded c).0).0.three
