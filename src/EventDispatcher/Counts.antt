-- ===== src/EventDispatcher/Counts.antt =====
-- lib/event_dispatcher.cc, `taskCount_`: what `++` and `--` do to one count and to the sum of
-- `pendingTasks`, modulo 2^64.
use libeventdisp.Base.{
  ℕ, suc, ◌+◌, ◌-◌, ◌%◌, ◌<◌, ◌≡◌, refl, List, [], ◌∷◌, ◌++◌, ◌==◌, if◌then◌else◌, word_size, incr,
  decr, arith,
}
use libeventdisp.EventDispatcher.Defs.{UnitTask, TaskCountMap, change, pending_loop}

-- The count of a group; an absent entry reads as 0.
unfoldable pub number : ℕ → TaskCountMap → ℕ
number id [] = 0
number id ((i, n) ∷ m) = if i == id then n else number id m

-- How many tasks of the list belong to the group.
unfoldable pub count_of : ℕ → List UnitTask → ℕ
count_of id [] = 0
count_of id (t ∷ q) = if t.id == id then suc (count_of id q) else count_of id q

pub number-change :
    (f : ℕ → ℕ) (i id : ℕ) (m : TaskCountMap)
    → number i (change f id m) ≡ (if id == i then f (number id m) else number i m)
unfolding number change
number-change f i id [] = refl
number-change f i id ((j, n) ∷ m) = ground (arith, number-change f i id m)

pub count_of-append :
    (id : ℕ) (q : List UnitTask) (t : UnitTask)
    → count_of id (q ++ t ∷ []) ≡ (if t.id == id then suc (count_of id q) else count_of id q)
unfolding count_of
count_of-append id [] t = refl
count_of-append id (s ∷ q) t = ground (arith, count_of-append id q t)

-- The sum of all counts, without wrap-around.
unfoldable pub total : TaskCountMap → ℕ
total [] = 0
total ((i, n) ∷ m) = n + total m

pending_loop-total :
    (a : ℕ) (m : TaskCountMap) → a < word_size → pending_loop a m ≡ (a + total m) % word_size
unfolding pending_loop total
pending_loop-total a [] h = omega arith
pending_loop-total a ((i, n) ∷ m) h =
    omega (arith, pending_loop-total ((a + n) % word_size) m (omega arith))

total-incr : (id : ℕ) (m : TaskCountMap) → total (change incr id m) % word_size ≡ incr (total m)
unfolding total change
total-incr id [] = omega arith
total-incr id ((i, n) ∷ m) = ground (arith, total-incr id m)

total-decr :
    (id : ℕ) (m : TaskCountMap)
    → total (change decr id m) % word_size ≡ (total m + word_size - 1) % word_size
unfolding total change
total-decr id [] = omega arith
total-decr id ((i, n) ∷ m) = ground (arith, total-decr id m)

pub pending-incr :
    (id : ℕ) (m : TaskCountMap) → pending_loop 0 (change incr id m) ≡ incr (pending_loop 0 m)
pending-incr id m = omega (
  arith,
  total-incr id m,
  pending_loop-total 0 m (omega arith),
  pending_loop-total 0 (change incr id m) (omega arith),
)

pub pending-decr :
    (id : ℕ) (m : TaskCountMap) → pending_loop 0 (change decr id m) ≡ decr (pending_loop 0 m)
pending-decr id m = omega (
  arith,
  total-decr id m,
  pending_loop-total 0 m (omega arith),
  pending_loop-total 0 (change decr id m) (omega arith),
)
