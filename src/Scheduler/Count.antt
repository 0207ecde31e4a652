-- ===== src/Scheduler/Count.antt =====
-- How many threads belong to a process.
use armv7_os.Prelude.{
  ℕ, zero, suc, ◌+◌, ◌≤◌, ◌<◌, ℤ, pos, negsuc, ◌≡◌, if◌then◌else◌, update, ◌==◌, ltb, arith,
}

-- 1 if thread entry `x` names process `p`, else 0.
abbrev pub names : ℕ → ℤ → ℕ
names p (pos q) = if q == p then 1 else 0
names p (negsuc q) = 0

-- The number of entries below `n` that name process `p`.
unfoldable pub count : ℕ → ℕ → (ℕ → ℤ) → ℕ
count zero p threads = 0
count (suc n) p threads = names p (threads n) + count n p threads

pub count-update :
    (n p : ℕ) (threads : ℕ → ℤ) (t : ℕ) (x : ℤ)
    → count n p (update threads t x) + (if ltb t n then names p (threads t) else 0)
      ≡ count n p threads + (if ltb t n then names p x else 0)
unfolding count
count-update zero p threads t x = ground arith
count-update (suc n) p threads t x = ground (arith, count-update n p threads t x)

pub names-le-count :
    (n p : ℕ) (threads : ℕ → ℤ) (t : ℕ) → t < n → names p (threads t) ≤ count n p threads
unfolding count
names-le-count zero p threads t lt = absurd (omega arith)
names-le-count (suc n) p threads t lt = ground (arith, names-le-count n p threads t)
