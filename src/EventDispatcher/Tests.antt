-- ===== src/EventDispatcher/Tests.antt =====
-- lib/event_dispatcher.cc: runs of the model at concrete tasks.
use libeventdisp.Base.{
  ◌+◌, ◌*◌, ◌≤◌, ◌≡◌, refl, true, false, none, some, List, [], ◌∷◌, ◌++◌, length, arith,
}
use libeventdisp.EventDispatcher.Defs.{
  UnitTask, waiting, returned, EventDispatcher, unit_task, unit_task_of, init, enqueue_task,
  destroy, resume, loop_step, enters, pushes, destroys, loops, Step, test_stopped, push_task,
  push_entering, can_move, Reach, start, next,
}
use libeventdisp.EventDispatcher.Invariant.{in_flight}
use libeventdisp.EventDispatcher.Order.{fifo, executed-prefix}
use libeventdisp.EventDispatcher.Shutdown.{
  begun, entered, loop_steps, Run, here, moved, other, dying_forever, join_returns, drain,
}

abbrev first_task : UnitTask
first_task = unit_task 7

abbrev second_task : UnitTask
second_task = unit_task_of 8 3

-- Two tasks are queued, and the first has run.
abbrev queued : EventDispatcher
queued = (enqueue_task (some second_task) (enqueue_task (some first_task) init).0).0

abbrev one_run : EventDispatcher
one_run = loop_step (loop_step (loop_step queued))

abbrev third_task : UnitTask
third_task = unit_task 9

-- The destructor begins while the first task runs and a call of enqueueTask is past its test.
abbrev entered_one : EventDispatcher
entered_one = test_stopped third_task (loop_step (loop_step queued))

abbrev dying : EventDispatcher
dying = destroy entered_one

queued-Reach : Reach queued
unfolding enqueue_task test_stopped push_entering
queued-Reach =
    next
      (next (next (next start (enters first_task refl)) (pushes first_task refl))
        (enters second_task refl))
      (pushes second_task refl)

one_run-Reach : Reach one_run
unfolding enqueue_task test_stopped push_entering push_task loop_step can_move
one_run-Reach = next (next (next queued-Reach (loops refl)) (loops refl)) (loops refl)

dying-Reach : Reach dying
unfolding enqueue_task test_stopped push_entering push_task loop_step can_move
dying-Reach =
    next (next (next (next queued-Reach (loops refl)) (loops refl)) (enters third_task refl))
      destroys

one_run-alive : one_run.is_dying ≡ false
unfolding loop_step enqueue_task test_stopped push_entering push_task
one_run-alive = refl

one_run-executed : one_run.executed ≡ first_task ∷ []
unfolding loop_step enqueue_task test_stopped push_entering push_task
one_run-executed = refl

queued-alive : (queued.pc ≡ waiting) × (queued.is_dying ≡ false) × (queued.entering ≡ none)
unfolding enqueue_task test_stopped push_entering push_task
queued-alive = (refl, refl, refl)

dying-flag : dying.is_dying ≡ true
unfolding destroy
dying-flag = refl

dying-length : 3 * length dying.task_queue + 3 * length (entered dying.entering) + 1 ≤ 10
unfolding destroy loop_step enqueue_task test_stopped push_entering push_task
dying-length = omega arith

-- The task ends and the third one is pushed; later a task is refused.
abbrev both_in : EventDispatcher
both_in = push_task third_task (loop_step dying)

abbrev nearly : EventDispatcher
nearly = loop_step (loop_step (loop_step (loop_step (loop_step (loop_step (loop_step both_in))))))

abbrev ended : EventDispatcher
ended = loop_step (loop_step (test_stopped first_task nearly))

run : Run dying 10 ended
unfolding destroy loop_step enqueue_task test_stopped push_entering push_task can_move
run =
    let pushed = other (moved here refl) (pushes third_task refl) in
    let three = moved (moved (moved pushed refl) refl) refl in
    let seven = moved (moved (moved (moved three refl) refl) refl) refl in
    moved (moved (other seven (enters first_task refl)) refl) refl

fifo_example :
    (one_run.accepted ≡ one_run.popped ++ one_run.task_queue)
    × (one_run.executed ≡ one_run.popped ++ in_flight one_run.pc)
fifo_example = fifo one_run-Reach one_run-alive

executed-prefix_example : (rest : List UnitTask) × (dying.accepted ≡ dying.executed ++ rest)
executed-prefix_example = executed-prefix dying-Reach

dying-move : Step dying (loop_step dying)
unfolding destroy loop_step enqueue_task test_stopped push_entering push_task can_move
dying-move = loops refl

dying_forever_example :
    ((loop_step dying).is_dying ≡ true)
    × ((loop_step dying).is_stopped ≡ true)
    × ((loop_step dying).accepted ++ entered (loop_step dying).entering
        ≡ dying.accepted ++ entered dying.entering)
    × (resume (loop_step dying) ≡ loop_step dying)
dying_forever_example = dying_forever dying-Reach dying-move dying-flag

join_returns_example :
    (ended.pc ≡ returned)
    × (ended.task_queue ≡ [])
    × (ended.executed ≡ dying.executed ++ begun dying.pc)
    × (ended.accepted ≡ dying.accepted ++ entered dying.entering)
join_returns_example = join_returns dying-Reach dying-flag run dying-length

drain_example :
    ((loop_steps (4 * length queued.task_queue) queued).task_queue ≡ [])
    × ((loop_steps (4 * length queued.task_queue) queued).executed
        ≡ queued.executed ++ queued.task_queue)
    × ((loop_steps (4 * length queued.task_queue) queued).pc ≡ waiting)
drain_example = drain queued queued-alive.0 queued-alive.1 queued-alive.2
