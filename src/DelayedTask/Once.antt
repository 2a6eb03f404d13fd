-- ===== src/DelayedTask/Once.antt =====
-- lib/delayed_task.cc: the timer and the destructor dispose of the task at most once between them, and a
-- notification that comes after the destructor is a use of a destroyed object.
use libeventdisp.Base.{ℕ, ◌≡◌, ◌⊎◌, true, false, [], ◌∷◌, ok, crash, arith}
use libeventdisp.DelayedTask.Defs.{
  enqueued, deleted, timer_deleted, DelayedTask, init, reset_timer, destroy, timeout_handler,
  dispose, time_out, Run, here, times_out, resets, destroys,
}

-- A new task has done nothing yet; a completed one has either been enqueued, or deleted, and its timer
-- has been deleted, each once.
abbrev pub Disposed : ℕ → DelayedTask → Type 0
Disposed task t =
    ((t.has_completed ≡ false) × (t.log ≡ []))
    ⊎ ((t.has_completed ≡ true)
        × ((t.log ≡ enqueued task ∷ timer_deleted ∷ [])
            ⊎ (t.log ≡ timer_deleted ∷ deleted task ∷ [])))

abbrev Fine : ℕ → DelayedTask → Type 0
Fine task t = (t.task ≡ task) × Disposed task t

init-Fine :
    (created result task delay : ℕ) {t : DelayedTask}
    → init created result task delay ≡ ok t
    → Fine task t
unfolding init
init-Fine created result task delay h = ground arith

timeout-Fine :
    {task : ℕ} (t : DelayedTask) {u : DelayedTask}
    → Fine task t
    → timeout_handler t ≡ ok u
    → Fine task u
unfolding timeout_handler time_out
timeout-Fine t (e, d) h = ground arith

destroy-Fine :
    {task : ℕ} (t : DelayedTask) {u : DelayedTask} → Fine task t → destroy t ≡ ok u → Fine task u
unfolding destroy dispose
destroy-Fine t (e, d) h = ground arith

reset-Fine :
    {task : ℕ} (t : DelayedTask) {u : DelayedTask} (result new_delay : ℕ)
    → Fine task t
    → reset_timer result new_delay t ≡ ok u
    → Fine task u
unfolding reset_timer
reset-Fine t result new_delay (e, d) h = ground arith

Run-Fine : {task : ℕ} {t u : DelayedTask} → Run t u → Fine task t → Fine task u
Run-Fine here f = f
Run-Fine (times_out r h) f = timeout-Fine _ (Run-Fine r f) h
Run-Fine (resets result new_delay r h) f = reset-Fine _ result new_delay (Run-Fine r f) h
Run-Fine (destroys r h) f = destroy-Fine _ (Run-Fine r f) h

-- After any sequence of notifications of the timer, resets and destructions of a new delayed task in
-- which nothing is called once the destructor has run (that would be a use of a destroyed object), the
-- task has been neither enqueued nor deleted and the timer is there; or exactly one of the two has
-- happened, once, and the timer has been deleted once.
pub Run-Disposed :
    (created result task delay : ℕ) {t u : DelayedTask}
    → init created result task delay ≡ ok t
    → Run t u
    → Disposed task u
Run-Disposed created result task delay h r = (Run-Fine r (init-Fine created result task delay h)).1

-- After any such sequence that ends with the destructor, the task has been enqueued or deleted, one of
-- the two and once, the timer has been deleted once, and a notification of the timer that still comes is
-- a use of the destroyed object, as is a reset: nothing in the destructor waits for a notification that
-- is under way.
pub late_timeout-crash :
    (created result task delay : ℕ) {t u v : DelayedTask}
    → init created result task delay ≡ ok t
    → Run t u
    → destroy u ≡ ok v
    → ((v.log ≡ enqueued task ∷ timer_deleted ∷ []) ⊎ (v.log ≡ timer_deleted ∷ deleted task ∷ []))
      × (timeout_handler v ≡ crash)
      × ((r new_delay : ℕ) → reset_timer r new_delay v ≡ crash)
unfolding destroy dispose timeout_handler reset_timer
late_timeout-crash created result task delay {u} h r d =
    let f = Run-Disposed created result task delay h r in
    let e = (Run-Fine r (init-Fine created result task delay h)).0 in
    (ground arith, ground arith, λ r new_delay. ground arith)
