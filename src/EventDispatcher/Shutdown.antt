-- ===== src/EventDispatcher/Shutdown.antt =====
-- lib/event_dispatcher.cc: the event loop by itself empties the queue, and the destructor's join ends.
use libeventdisp.Base.{
  ℕ, zero, suc, ◌+◌, ◌-◌, ◌*◌, ◌≤◌, ◌≡◌, refl, Bool, true, false, Option, none, some, List, [], ◌∷◌,
  ◌++◌, append-nil, append_assoc, inl, inr, ◌⊎◌, Option-cases, length-append, ◌≢◌, length, arith,
  sym, ◌∙◌,
}
use libeventdisp.EventDispatcher.Defs.{
  UnitTask, Pc, waiting, taken, running, done, returned, test_stopped, push_task, can_move,
  test_dying, EventDispatcher, stop, resume, destroy, take_front, run_task, pop_task, loop_at,
  loop_step, Step, enters, pushes, stops, resumes, destroys, loops, Reach,
}
use libeventdisp.EventDispatcher.Order.{moves_when_outside}
use libeventdisp.EventDispatcher.Invariant.{Held, holding, Inv, Step-Inv, Reach-Inv}

-- `n` moves of the event-loop thread with no other thread in between.
unfoldable pub loop_steps : ℕ → EventDispatcher → EventDispatcher
loop_steps zero d = d
loop_steps (suc n) d = loop_steps n (loop_step d)

-- One round of the loop on an alive dispatcher: take, test, run, pop.
record Round (d : EventDispatcher) (t : UnitTask) (q : List UnitTask) (e : EventDispatcher)
    : Type 0 where
  pc : e.pc ≡ waiting
  alive : e.is_dying ≡ false
  queue : e.task_queue ≡ q
  executed : e.executed ≡ d.executed ++ t ∷ []
  outside : e.entering ≡ none

four_moves :
    (d : EventDispatcher) (t : UnitTask) (q : List UnitTask)
    → d.pc ≡ waiting
    → d.is_dying ≡ false
    → d.entering ≡ none
    → d.task_queue ≡ t ∷ q
    → Round d t q (loop_step (loop_step (loop_step (loop_step d))))
unfolding loop_step
four_moves d t q p alive out e = ground arith

-- How many moves of the event loop are left before it returns, once the dispatcher is dying.
pub moves_left : Pc → List UnitTask → ℕ
moves_left waiting q = 3 * length q + 1
moves_left (taken t) q = 3 * length q
moves_left (running t) q = 3 * length q
moves_left (done t) q = 3 * length q - 1
moves_left returned q = 0

moves_left-le : (pc : Pc) (q : List UnitTask) → moves_left pc q ≤ 3 * length q + 1
unfolding moves_left
moves_left-le waiting q = omega arith
moves_left-le (taken t) q = omega arith
moves_left-le (running t) q = omega arith
moves_left-le (done t) q = omega arith
moves_left-le returned q = omega arith

-- The task of which the call has begun and not ended, and the call of `enqueueTask` past its test.
abbrev pub begun : Pc → List UnitTask
begun (running t) = t ∷ []
begun _ = []

abbrev pub entered : Option UnitTask → List UnitTask
entered none = []
entered (some t) = t ∷ []

-- The same with the moves for the task that is still to be pushed.
abbrev pub all_left : EventDispatcher → ℕ
all_left d = moves_left d.pc d.task_queue + 3 * length (entered d.entering)

-- What a step of any thread does to a dying dispatcher: what has run, or begun to, stays the same, and so
-- does what has been accepted, or is past the test.
pub record Fades (d e : EventDispatcher) : Type 0 where
  pub dying : e.is_dying ≡ true
  pub stopped : e.is_stopped ≡ true
  pub executed : e.executed ++ begun e.pc ≡ d.executed ++ begun d.pc
  pub accepted : e.accepted ++ entered e.entering ≡ d.accepted ++ entered d.entering
  pub left : all_left e ≤ all_left d

take_front-Fades :
    {d : EventDispatcher} (q : List UnitTask)
    → d.task_queue ≡ q
    → d.pc ≡ waiting
    → Inv d
    → d.is_dying ≡ true
    → Fades d (take_front q d) × (all_left (take_front q d) ≤ all_left d - 1)
unfolding take_front moves_left
take_front-Fades [] e p v h = ground arith
take_front-Fades (t ∷ q) e p v h = ground arith

test_dying-Fades :
    {d : EventDispatcher} (t : UnitTask)
    → d.pc ≡ taken t
    → Inv d
    → d.is_dying ≡ true
    → Fades d (test_dying t d) × (all_left (test_dying t d) ≤ all_left d - 1)
unfolding test_dying moves_left
test_dying-Fades {d} t p v h = let (_, r, e) = holding t (inl p) v in ground arith

run_task-Fades :
    {d : EventDispatcher} (t : UnitTask)
    → d.pc ≡ running t
    → Inv d
    → d.is_dying ≡ true
    → Fades d (run_task t d) × (all_left (run_task t d) ≤ all_left d - 1)
unfolding run_task moves_left
run_task-Fades {d} t p v h =
    let (_, r, e) = holding t (inr (inl p)) v in ground (arith, append-nil (d.executed ++ t ∷ []))

pop_task-Fades :
    {d : EventDispatcher} (t : UnitTask)
    → d.pc ≡ done t
    → Inv d
    → d.is_dying ≡ true
    → Fades d (pop_task t d) × (all_left (pop_task t d) ≤ all_left d - 1)
unfolding pop_task moves_left
pop_task-Fades {d} t p v h = let (_, r, e) = holding t (inr (inr p)) v in ground arith

loop_at-Fades :
    {d : EventDispatcher} (pc : Pc)
    → d.pc ≡ pc
    → Inv d
    → d.is_dying ≡ true
    → Fades d (loop_at pc d) × (all_left (loop_at pc d) ≤ all_left d - 1)
unfolding loop_at moves_left
loop_at-Fades {d} waiting p v h = take_front-Fades d.task_queue refl p v h
loop_at-Fades (taken t) p v h = test_dying-Fades t p v h
loop_at-Fades (running t) p v h = run_task-Fades t p v h
loop_at-Fades (done t) p v h = pop_task-Fades t p v h
loop_at-Fades {d} returned p v h = (
  record { dying = h; stopped = v.dying h; executed = refl; accepted = refl; left = omega arith },
  let out = v.outside p in ground arith,
)

test_stopped-Fades :
    {d : EventDispatcher} (t : UnitTask) → Inv d → d.is_dying ≡ true → Fades d (test_stopped t d)
unfolding test_stopped
test_stopped-Fades t v h = ground arith

moves_left-push :
    (pc : Pc) (q : List UnitTask) (t : UnitTask)
    → pc ≢ returned
    → moves_left pc (q ++ t ∷ []) ≤ moves_left pc q + 3
unfolding moves_left
moves_left-push waiting q t stays = omega (arith, length-append q (t ∷ []))
moves_left-push (taken s) q t stays = omega (arith, length-append q (t ∷ []))
moves_left-push (running s) q t stays = omega (arith, length-append q (t ∷ []))
moves_left-push (done s) q t stays = omega (arith, length-append q (t ∷ []))
moves_left-push returned q t stays = absurd (stays refl)

push_task-Fades :
    {d : EventDispatcher} (t : UnitTask)
    → d.entering ≡ some t
    → Inv d
    → d.is_dying ≡ true
    → Fades d (push_task t d)
unfolding push_task
push_task-Fades {d} t inside v h =
    let stays : d.pc ≢ returned = λ p. ground (arith, v.outside p, inside) in
    let more = moves_left-push d.pc d.task_queue t stays in
    ground (arith, append-nil (d.accepted ++ t ∷ []))

-- Every step of any thread only brings the end nearer.
pub Step-Fades : {d e : EventDispatcher} → Step d e → Inv d → d.is_dying ≡ true → Fades d e
unfolding stop resume destroy
Step-Fades (enters t out) v h = test_stopped-Fades t v h
Step-Fades (pushes t inside) v h = push_task-Fades t inside v h
Step-Fades stops v h = ground arith
Step-Fades resumes v h = ground arith
Step-Fades destroys v h = ground arith
Step-Fades {d} (loops can) v h = unfold loop_step in (loop_at-Fades d.pc refl v h).0

-- Once its destructor has begun, a dispatcher stays dying and stopped whatever thread moves: of the calls
-- of `enqueueTask`, at most the one that was past its test still pushes its task, and `resume` changes
-- nothing.
pub dying_forever :
    {d e : EventDispatcher}
    → Reach d
    → Step d e
    → d.is_dying ≡ true
    → (e.is_dying ≡ true)
      × (e.is_stopped ≡ true)
      × (e.accepted ++ entered e.entering ≡ d.accepted ++ entered d.entering)
      × (resume e ≡ e)
unfolding resume
dying_forever {e} r s h =
    let f = Step-Fades s (Reach-Inv r) h in (f.dying, f.stopped, f.accepted, ground arith)

-- A run from `d` to a state, in which the event loop has moved at least `n` times between steps of
-- any threads.
pub data Run (d : EventDispatcher) : ℕ → EventDispatcher → Type 0 where
  here : Run d zero d
  other : {n : ℕ} {e f : EventDispatcher} → Run d n e → Step e f → Run d n f
  moved :
      {n : ℕ} {e : EventDispatcher}
      → Run d n e
      → can_move e.pc e.entering ≡ true
      → Run d (suc n) (loop_step e)

record Fading (d : EventDispatcher) (n : ℕ) (e : EventDispatcher) : Type 0 where
  inv : Inv e
  dying : e.is_dying ≡ true
  executed : e.executed ++ begun e.pc ≡ d.executed ++ begun d.pc
  accepted : e.accepted ++ entered e.entering ≡ d.accepted ++ entered d.entering
  left : all_left e ≤ all_left d - n

Run-Fading : {d e : EventDispatcher} {n : ℕ} → Run d n e → Inv d → d.is_dying ≡ true → Fading d n e
unfolding loop_step
Run-Fading here v h = record {
  inv = v;
  dying = h;
  executed = refl;
  accepted = refl;
  left = omega arith;
}
Run-Fading (other r s) v h =
    let was = Run-Fading r v h in
    let f = Step-Fades s was.inv was.dying in
    record {
      inv = Step-Inv s was.inv;
      dying = f.dying;
      executed = f.executed ∙ was.executed;
      accepted = f.accepted ∙ was.accepted;
      left = omega arith;
    }
Run-Fading (moved {e} r can) v h =
    let was = Run-Fading r v h in
    let f = loop_at-Fades e.pc refl was.inv was.dying in
    record {
      inv = Step-Inv (loops can) was.inv;
      dying = f.0.dying;
      executed = f.0.executed ∙ was.executed;
      accepted = f.0.accepted ∙ was.accepted;
      left = omega arith;
    }

no_moves_left :
    (pc : Pc) (q : List UnitTask) (executing dying : Bool)
    → Held pc q executing dying
    → moves_left pc q ≤ 0
    → (pc ≡ returned) × (q ≡ [])
unfolding moves_left
no_moves_left waiting q executing dying h m = absurd (omega arith)
no_moves_left (taken t) q executing dying (_, r, e) m = absurd (ground arith)
no_moves_left (running t) q executing dying (_, r, e) m = absurd (ground arith)
no_moves_left (done t) q executing dying (_, r, e) m = absurd (ground arith)
no_moves_left returned q executing dying (_, e, _) m = (refl, e)

-- Once the destructor has begun, three moves of the event loop for each task in the queue, three for a
-- call of `enqueueTask` that is past its test, and one more suffice for the loop to return, whatever
-- other threads do in between. Then the queue is empty; the tasks that have run since are the one that
-- was past the test of `isDying_`, if there was one; and those that have been accepted since are that of
-- the call of `enqueueTask`, if there was one.
pub join_returns :
    {d e : EventDispatcher} {n : ℕ}
    → Reach d
    → d.is_dying ≡ true
    → Run d n e
    → 3 * length d.task_queue + 3 * length (entered d.entering) + 1 ≤ n
    → (e.pc ≡ returned)
      × (e.task_queue ≡ [])
      × (e.executed ≡ d.executed ++ begun d.pc)
      × (e.accepted ≡ d.accepted ++ entered d.entering)
join_returns {d} {e} {n} reach h run enough =
    let f = Run-Fading run (Reach-Inv reach) h in
    let (p, q) =
      no_moves_left e.pc e.task_queue e.is_executing e.is_dying f.inv.held
        (omega (arith, moves_left-le d.pc d.task_queue)) in
    let out = f.inv.outside p in
    (
      p,
      q,
      ground (arith, f.executed, append-nil e.executed),
      ground (arith, f.accepted, append-nil e.accepted),
    )

-- While the loop is held up by a call of `enqueueTask` past its test, that call can push, and then the
-- loop can move.
pub never_stuck :
    (d : EventDispatcher)
    → (can_move d.pc d.entering ≡ true)
      ⊎ ((t : UnitTask) × (d.entering ≡ some t)
          × (can_move (push_task t d).pc (push_task t d).entering ≡ true))
unfolding push_task
never_stuck d = elim (Option-cases d.entering) [
  | inl out ↦ inl (moves_when_outside d.pc out)
  | inr (t, inside) ↦ inr (t, inside, moves_when_outside d.pc refl)
]

loop_steps-round :
    (n : ℕ) (d : EventDispatcher)
    → loop_steps (4 * suc n) d
      ≡ loop_steps (4 * n) (loop_step (loop_step (loop_step (loop_step d))))
unfolding loop_steps
loop_steps-round n d = let e : 4 * suc n ≡ suc (suc (suc (suc (4 * n)))) = omega arith in rw e

drain_all :
    (d : EventDispatcher) (q : List UnitTask)
    → d.task_queue ≡ q
    → d.pc ≡ waiting
    → d.is_dying ≡ false
    → d.entering ≡ none
    → ((loop_steps (4 * length q) d).task_queue ≡ [])
      × ((loop_steps (4 * length q) d).executed ≡ d.executed ++ q)
      × ((loop_steps (4 * length q) d).pc ≡ waiting)
unfolding loop_steps
drain_all d [] e p alive out = (e, sym (append-nil _), p)
drain_all d (t ∷ q) e p alive out =
    let r = four_moves d t q p alive out e in
    let (queue, executed, pc) =
      drain_all (loop_step (loop_step (loop_step (loop_step d)))) q r.queue r.pc r.alive
        r.outside in
    rw (loop_steps-round (length q) d) (queue, rw (executed, r.executed, append_assoc), pc)

-- The event loop by itself runs every queued task of a dispatcher that is waiting and not dying, with no
-- call of `enqueueTask` past its test, in order, in four moves each, stopped or not, and leaves the queue
-- empty.
pub drain :
    (d : EventDispatcher)
    → d.pc ≡ waiting
    → d.is_dying ≡ false
    → d.entering ≡ none
    → ((loop_steps (4 * length d.task_queue) d).task_queue ≡ [])
      × ((loop_steps (4 * length d.task_queue) d).executed ≡ d.executed ++ d.task_queue)
      × ((loop_steps (4 * length d.task_queue) d).pc ≡ waiting)
drain d = drain_all d d.task_queue refl
