-- ===== src/Dispatcher/Modes.antt =====
-- lib/dispatcher.cc: what the program can rely on in either mode.
use libeventdisp.Base.{
  ℕ, ◌<◌, ◌≡◌, Bool, true, false, some, ok, inl, inr, none, refl, ◌∙◌, subst, Outcome-cases, arith,
}
use libeventdisp.EventDispatcher
use libeventdisp.EventDispatcher.{EventDispatcher, UnitTask}
use libeventdisp.EventDispatcher.Order.{enqueue_cases, loop_step-Keeps, moves_when_outside}
use libeventdisp.EventDispatcher.Invariant.{enqueue-Reach}
use libeventdisp.MpEventDispatcher
use libeventdisp.MpEventDispatcher.{MpEventDispatcher}
use libeventdisp.MpEventDispatcher.Hashed
use libeventdisp.MpEventDispatcher.Hashed.{enqueue_hashed_returns}
use libeventdisp.Dispatcher.Defs.{
  Dispatcher, one, several, new_dispatcher, enqueue, Reach, start, enqueues, moves, moves_one,
}

-- The state of the implementation is reachable by its own steps.
Stands : (ℕ → ℕ) → ℕ → Dispatcher → Type 0
Stands hash n (one d) = EventDispatcher.Reach d × (d.entering ≡ none)
Stands hash n (several m) = Hashed.Reach hash n m

enqueue_outside :
    (t : UnitTask) (d : EventDispatcher)
    → d.entering ≡ none
    → (EventDispatcher.enqueue_task (some t) d).0.entering ≡ none
unfolding EventDispatcher.enqueue_task EventDispatcher.test_stopped EventDispatcher.push_entering
    EventDispatcher.push_task
enqueue_outside t d out = ground arith

enqueue-Stands :
    (hash : ℕ → ℕ) (n : ℕ) (d e : Dispatcher) {done : Bool} (t : UnitTask)
    → Stands hash n d
    → enqueue hash (some t) (some d) ≡ ok (some e, done)
    → Stands hash n e
unfolding Stands enqueue
enqueue-Stands hash n (one d) (one e) t s h =
    let same : (EventDispatcher.enqueue_task (some t) d).0 ≡ e = cc in
    subst (λ d. EventDispatcher.Reach d × (d.entering ≡ none)) same
      (enqueue-Reach (some t) s.0 s.1, enqueue_outside t d s.1)
enqueue-Stands hash n (one d) (several m) t s h = absurd cc
enqueue-Stands hash n (several m) e t s h =
    elim (Outcome-cases (MpEventDispatcher.enqueue_hashed hash (some t) m)) [
      | inl bad ↦ absurd (ground arith)
      | inr (r, sent) ↦
          let same : several r.0 ≡ e = ground arith in
          subst (Stands hash n) same (Hashed.enqueues t s sent)
    ]

start-Stands : (hash : ℕ → ℕ) (n : ℕ) (mode : Bool) → Stands hash n (new_dispatcher n mode)
unfolding Stands new_dispatcher
start-Stands hash n true = Hashed.start
start-Stands hash n false = (EventDispatcher.start, refl)

Reach-Stands :
    {hash : ℕ → ℕ} {n : ℕ} {mode : Bool} {d : Dispatcher} → Reach hash n mode d → Stands hash n d
unfolding Stands
Reach-Stands {hash} {n} {mode} start = start-Stands hash n mode
Reach-Stands {hash} {n} (enqueues {d} {e} t r h) = enqueue-Stands hash n d e t (Reach-Stands r) h
Reach-Stands (moves {d} r) =
    let (s, out) = Reach-Stands r in
    (
      EventDispatcher.next s (EventDispatcher.loops (moves_when_outside d.pc out)),
      (loop_step-Keeps d).entering ∙ out,
    )
Reach-Stands (moves_one i d r at_i) = Hashed.loops i d (Reach-Stands r) at_i

returns_in :
    (hash : ℕ → ℕ) {n : ℕ} (d : Dispatcher) (t : UnitTask)
    → 0 < n
    → Stands hash n d
    → (e : Dispatcher) × (enqueue hash (some t) (some d) ≡ ok (some e, true))
unfolding Stands enqueue
returns_in hash (one d) t pos s =
    (one (EventDispatcher.enqueue_task (some t) d).0, ground (arith, enqueue_cases (some t) d))
returns_in hash (several m) t pos s =
    let (m', e) = enqueue_hashed_returns hash pos t s in (several m', ground arith)

-- In either mode, with at least one event dispatcher, `enqueue` of a task on an instance made by `init`
-- never crashes and reports success, whatever has been enqueued and run before.
pub dispatcher_returns :
    (hash : ℕ → ℕ) {n : ℕ} {mode : Bool} {d : Dispatcher} (t : UnitTask)
    → 0 < n
    → Reach hash n mode d
    → (e : Dispatcher) × (enqueue hash (some t) (some d) ≡ ok (some e, true))
dispatcher_returns hash {n} {mode} {d} t pos r = returns_in hash d t pos (Reach-Stands r)
