-- ===== src/User/Lines.antt =====
-- How many lines the counting threads print.
use armv7_os.Prelude.{
  ℕ, ◌+◌, ◌≤◌, ◌<◌, ◌≡◌, ◌≢◌, refl, ap, ◌∙◌, arith, List, [], ◌∷◌, ◌++◌, length, subst,
}
use armv7_os.User.Counting.{
  loop_length, Place, waiting, testing, loading, printing, done, storing, Thread, Line, State,
  move_at, move, pick, Run, start, next, started,
}
use armv7_os.User.Termination.{AllDone, three_threads}

unfoldable pub total : (Thread → ℕ) → List Thread → ℕ
total f [] = 0
total f (t ∷ ts) = f t + total f ts

total_pick :
    (f : Thread → ℕ) (pre : List Thread) (t : Thread) (post : List Thread)
    → total f (pre ++ (t ∷ post)) ≡ f t + total f (pre ++ post)
unfolding total
total_pick f [] t post = refl
total_pick f (x ∷ pre) t post = omega (arith, total_pick f pre t post)

length-append : (xs ys : List Line) → length (xs ++ ys) ≡ length xs + length ys
length-append [] ys = omega arith
length-append (x ∷ xs) ys = omega (arith, length-append xs ys)

abbrev pub local : Thread → ℕ
local t = t.local_counter

-- Counted in `local_counter` but not yet in the counter, or not yet printed.
abbrev pending_at : Place → ℕ
pending_at loading = 1
pending_at (storing v) = 1
pending_at p = 0

abbrev unprinted_at : Place → ℕ
unprinted_at loading = 1
unprinted_at (storing v) = 1
unprinted_at printing = 1
unprinted_at p = 0

abbrev pending : Thread → ℕ
pending t = pending_at t.place

abbrev unprinted : Thread → ℕ
unprinted t = unprinted_at t.place

-- What is known at a place, of the numbers of pending and of all increments.
abbrev Known : ℕ → ℕ → Place → Type 0
Known waits sum (storing v) = v + waits ≤ sum
Known waits sum done = loop_length ≤ sum
Known waits sum p = Unit {0}

abbrev AllKnown : ℕ → ℕ → List Thread → Type 0
AllKnown waits sum [] = Unit {0}
AllKnown waits sum (t ∷ ts) = Known waits sum t.place × AllKnown waits sum ts

module _ (waits sum waits' sum' : ℕ) (more : sum ≤ sum')
    (closer : sum + waits' ≤ sum' + waits) where
  Known-mono : (p : Place) → Known waits sum p → Known waits' sum' p
  Known-mono (storing v) h = omega arith
  Known-mono done h = omega arith
  Known-mono waiting h = tt
  Known-mono testing h = tt
  Known-mono loading h = tt
  Known-mono printing h = tt

  -- The list with `t` replaced.
  AllKnown-replace :
      (pre : List Thread) (t t' : Thread) (post : List Thread)
      → AllKnown waits sum (pre ++ (t ∷ post))
      → Known waits' sum' t'.place
      → AllKnown waits' sum' (pre ++ (t' ∷ post))
  AllKnown-replace [] t t' post h own = (own, rest post h.1)
    where
      rest : (ts : List Thread) → AllKnown waits sum ts → AllKnown waits' sum' ts
      rest [] h = tt
      rest (t ∷ ts) h = (Known-mono t.place h.0, rest ts h.1)
  AllKnown-replace (x ∷ pre) t t' post h own =
      (Known-mono x.place h.0, AllKnown-replace pre t t' post h.1 own)

own_fact :
    (waits sum : ℕ) (pre : List Thread) (t : Thread) (post : List Thread)
    → AllKnown waits sum (pre ++ (t ∷ post))
    → Known waits sum t.place
own_fact waits sum [] t post h = h.0
own_fact waits sum (x ∷ pre) t post h = own_fact waits sum pre t post h.1

record IsCounted (s : State) : Type 0 where
  counted : s.global_counter + total pending s.threads ≤ total local s.threads
  printed : length s.lines + total unprinted s.threads ≡ total local s.threads
  known : AllKnown (total pending s.threads) (total local s.threads) s.threads

-- A step of a thread with the sums `waits` and `sum` of the others.
record Accounted (counter counter' waits sum n : ℕ) (t t' : Thread) : Type 0 where
  more : local t ≤ local t'
  closer : local t + pending t' ≤ local t' + pending t
  counted : counter' + (pending t' + waits) ≤ local t' + sum
  printed : n + unprinted t' + local t ≡ unprinted t + local t'
  known : Known (pending t' + waits) (local t' + sum) t'.place

move_at-Accounted :
    (p : Place) (counter char waits sum : ℕ) (t : Thread)
    → t.place ≡ p
    → p ≢ done
    → counter + (pending t + waits) ≤ local t + sum
    → Known (pending t + waits) (local t + sum) p
    → Accounted counter
        (move_at p counter char t).0
        waits
        sum
        (length (move_at p counter char t).2)
        t
        (move_at p counter char t).1
unfolding move_at
move_at-Accounted waiting counter char waits sum t here active counted known = ground arith
move_at-Accounted testing counter char waits sum t here active counted known = ground arith
move_at-Accounted loading counter char waits sum t here active counted known = ground arith
move_at-Accounted printing counter char waits sum t here active counted known = ground arith
move_at-Accounted (storing v) counter char waits sum t here active counted known = ground arith
move_at-Accounted done counter char waits sum t here active counted known = absurd (active refl)

move-IsCounted :
    (s : State) (pre : List Thread) (t : Thread) (post : List Thread)
    → s.threads ≡ pre ++ (t ∷ post)
    → t.place ≢ done
    → IsCounted s
    → IsCounted (move pre t post s)
unfolding move
move-IsCounted s pre t post split active is = record {
  counted = rw (waits', sum') accounted.counted;
  printed = omega (
    arith,
    length-append s.lines after.2,
    accounted.printed,
    is.printed,
    sum,
    sum',
    ap (total unprinted) split,
    total_pick unprinted pre t post,
    total_pick unprinted pre after.1 post,
  );
  known =
      AllKnown-replace (total pending s.threads) (total local s.threads)
        (total pending (pre ++ (after.1 ∷ post))) (total local (pre ++ (after.1 ∷ post)))
        (omega (arith, sum, sum', accounted.more))
        (omega (arith, waits, waits', sum, sum', accounted.closer)) pre t after.1 post
        (subst (AllKnown (total pending s.threads) (total local s.threads)) split is.known)
        (rw (waits', sum') accounted.known);
}
  where
    after : ℕ × Thread × List Line
    after = move_at t.place s.global_counter s.global_char t

    waits : total pending s.threads ≡ pending t + total pending (pre ++ post)
    waits = ap (total pending) split ∙ total_pick pending pre t post

    waits' : total pending (pre ++ (after.1 ∷ post)) ≡ pending after.1 + total pending (pre ++ post)
    waits' = total_pick pending pre after.1 post

    sum : total local s.threads ≡ local t + total local (pre ++ post)
    sum = ap (total local) split ∙ total_pick local pre t post

    sum' : total local (pre ++ (after.1 ∷ post)) ≡ local after.1 + total local (pre ++ post)
    sum' = total_pick local pre after.1 post

    accounted :
        Accounted s.global_counter after.0
          (total pending (pre ++ post))
          (total local (pre ++ post))
          (length after.2)
          t
          after.1
    accounted =
        move_at-Accounted t.place s.global_counter s.global_char (total pending (pre ++ post))
          (total local (pre ++ post)) t refl active (omega (arith, is.counted, waits, sum))
          (rw (← waits, ← sum)
            (own_fact (total pending s.threads) (total local s.threads) pre t post
              (subst (AllKnown (total pending s.threads) (total local s.threads)) split is.known)))

Run-IsCounted : {s u : State} {k : ℕ} → Run s k u → IsCounted s → IsCounted u
Run-IsCounted start is = is
Run-IsCounted (next run (pick pre t post split active)) is =
    move-IsCounted _ pre t post split active (Run-IsCounted run is)

total-AllDone : (ts : List Thread) → AllDone ts → total unprinted ts ≡ 0
unfolding total
total-AllDone [] all = refl
total-AllDone (t ∷ ts) all = ground (arith, total-AllDone ts all.1)

first_fact :
    (waits sum : ℕ) (ts : List Thread)
    → AllKnown waits sum ts
    → AllDone ts
    → 0 < length ts
    → loop_length ≤ sum
first_fact waits sum [] known all some_thread = absurd (omega arith)
first_fact waits sum (t ∷ ts) known all some_thread = subst (Known waits sum) all.0 known.0

started-IsCounted : (c : ℕ) → IsCounted (started c)
unfolding total
started-IsCounted c = record { counted = omega arith; printed = refl; known = (tt, (tt, (tt, tt))) }

-- For every key and every interleaving of the three threads: once all have ended, each round of each
-- thread has printed one line, and there are at least 15 lines, whatever updates of the counter were
-- lost.
pub lines_of_counting :
    (c k : ℕ) (u : State)
    → Run (started c) k u
    → AllDone u.threads
    → (length u.lines ≡ total local u.threads) × (loop_length ≤ length u.lines)
lines_of_counting c k u run all =
    let is = Run-IsCounted run (started-IsCounted c) in
    let enough =
      first_fact (total pending u.threads) (total local u.threads) u.threads is.known all
        (omega (arith, three_threads c k u run)) in
    (
      omega (arith, is.printed, total-AllDone u.threads all),
      omega (arith, is.printed, total-AllDone u.threads all, enough),
    )
