-- ===== src/EventDispatcher/Order.antt =====
-- lib/event_dispatcher.cc: the order in which accepted tasks run, what the size queries report, and
-- what the calls do that do not change the queue.
use libeventdisp.Base.{
  ℕ, ◌%◌, ◌≡◌, refl, ◌↔◌, ◌⊎◌, Bool, true, false, Option, none, some, List, [], ◌∷◌, ◌++◌,
  word_size, inl, inr, length, arith,
}
use libeventdisp.EventDispatcher.Defs.{
  UnitTask, Pc, waiting, taken, running, done, test_stopped, push_task, push_entering, returned,
  EventDispatcher, enqueue_task, busy, pending_tasks, get_size, take_front, loop_at, loop_step,
  can_move, is_free, Reach,
}
use libeventdisp.EventDispatcher.Counts.{number, count_of}
use libeventdisp.EventDispatcher.Invariant.{in_flight, Held, holding, Reach-Inv}

-- While the dispatcher is not dying, the accepted tasks are, in the order of acceptance, those that
-- have run and then those in the queue, the one that has run but is not yet popped counted once.
pub fifo :
    {d : EventDispatcher}
    → Reach d
    → d.is_dying ≡ false
    → (d.accepted ≡ d.popped ++ d.task_queue) × (d.executed ≡ d.popped ++ in_flight d.pc)
fifo r alive = let v = Reach-Inv r in (v.order, v.ran alive)

-- In every reachable state, dying or not, the tasks that have run are a prefix of the accepted ones:
-- none runs twice, none overtakes another, and none runs that was not accepted.
pub executed-prefix :
    {d : EventDispatcher} → Reach d → (rest : List UnitTask) × (d.accepted ≡ d.executed ++ rest)
executed-prefix r = (Reach-Inv r).kept

Held-front :
    (pc : Pc) (queue : List UnitTask) (executing dying : Bool)
    → Held pc queue executing dying
    → executing ≡ true
    → (t : UnitTask) × (q : List UnitTask) × (queue ≡ t ∷ q)
      × ((pc ≡ taken t) ⊎ (pc ≡ running t) ⊎ (pc ≡ done t))
Held-front waiting queue executing dying h e = cc
Held-front (taken t) queue executing dying (_, q, p) e = (t, q, p, inl refl)
Held-front (running t) queue executing dying (_, q, p) e = (t, q, p, inr (inl refl))
Held-front (done t) queue executing dying (_, q, p) e = (t, q, p, inr (inr refl))
Held-front returned queue executing dying h e = cc (h.0)

-- The flag is set exactly while the event loop holds a task, and that task is then the front of the
-- queue.
pub is_executing_iff :
    {d : EventDispatcher}
    → Reach d
    → ((d.is_executing ≡ true) ↔ (
        (t : UnitTask) × (q : List UnitTask) × (d.task_queue ≡ t ∷ q)
        × ((d.pc ≡ taken t) ⊎ (d.pc ≡ running t) ⊎ (d.pc ≡ done t))))
is_executing_iff {d} r =
    let v = Reach-Inv r in
    (
      Held-front d.pc d.task_queue d.is_executing d.is_dying v.held,
      λ (t, q, e, h). (holding t h v).0,
    )

-- `pendingTasks` and `getSize`, for any group, report the length of the queue modulo 2^64; the count
-- kept for each group is the number of its tasks in the queue modulo 2^64; and `busy` tells whether
-- the queue is not empty.
pub sizes :
    {d : EventDispatcher} (id : ℕ)
    → Reach d
    → (pending_tasks d ≡ length d.task_queue % word_size)
      × (get_size id d ≡ length d.task_queue % word_size)
      × (number id d.task_count ≡ count_of id d.task_queue % word_size)
      × ((busy d ≡ false) ↔ (d.task_queue ≡ []))
unfolding get_size busy
sizes id r =
    let v = Reach-Inv r in
    (v.pending, v.pending, v.counted id, (λ h. ground arith, λ h. ground arith))

-- A call of `enqueueTask` that no other thread comes between: it reports success, whatever it is given. A
-- null pointer changes nothing; a stopped dispatcher that no other call is in deletes the task and pushes
-- nothing; any other appends it to the queue.
pub enqueue_cases :
    (t : Option UnitTask) (d : EventDispatcher)
    → ((enqueue_task t d).1 ≡ true)
      × (t ≡ none → (enqueue_task t d).0 ≡ d)
      × ((u : UnitTask)
          → t ≡ some u
          → d.is_stopped ≡ true
          → d.entering ≡ none
          → (enqueue_task t d).0 ≡ record d { discarded = d.discarded ++ u ∷ [] })
      × ((u : UnitTask)
          → t ≡ some u
          → d.is_stopped ≡ false
          → ((enqueue_task t d).0.task_queue ≡ d.task_queue ++ u ∷ [])
            × ((enqueue_task t d).0.discarded ≡ d.discarded))
unfolding enqueue_task test_stopped push_entering push_task
enqueue_cases none d = (refl, λ e. refl, λ u e. cc, λ u e. cc)
enqueue_cases (some t) d = (ground arith, λ e. cc, λ u e h out. ground arith, λ u e h. ground arith)

-- What a move of the event loop leaves alone.
pub record Keeps (d e : EventDispatcher) : Type 0 where
  pub accepted : e.accepted ≡ d.accepted
  pub stopped : e.is_stopped ≡ d.is_stopped
  pub dying : e.is_dying ≡ d.is_dying
  pub entering : e.entering ≡ d.entering

take_front-Keeps : (q : List UnitTask) (d : EventDispatcher) → Keeps d (take_front q d)
unfolding take_front
take_front-Keeps [] d = ground arith
take_front-Keeps (t ∷ q) d = ground arith

loop_at-Keeps : (pc : Pc) (d : EventDispatcher) → Keeps d (loop_at pc d)
unfolding loop_at
loop_at-Keeps waiting d = take_front-Keeps d.task_queue d
loop_at-Keeps (taken t) d = ground arith
loop_at-Keeps (running t) d = ground arith
loop_at-Keeps (done t) d = ground arith
loop_at-Keeps returned d = ground arith

pub loop_step-Keeps : (d : EventDispatcher) → Keeps d (loop_step d)
unfolding loop_step
loop_step-Keeps d = loop_at-Keeps d.pc d

-- The event loop waits for nobody while no call of `enqueueTask` is past its test.
pub moves_when_outside :
    (pc : Pc) {entering : Option UnitTask} → entering ≡ none → can_move pc entering ≡ true
unfolding can_move is_free
moves_when_outside waiting h = ground arith
moves_when_outside (taken t) h = refl
moves_when_outside (running t) h = refl
moves_when_outside (done t) h = ground arith
moves_when_outside returned h = refl
