-- ===== src/EventDispatcher/Defs.antt =====
-- lib/unit_task.cc, lib/inc/event_dispatcher.h and lib/event_dispatcher.cc: the tasks, the state of
-- an `EventDispatcher`, its methods, and the event loop, cut at the points where a thread takes a mutex or
-- has read a flag that another mutex guards: `enqueueTask` between its test of `isStopped_` and the push,
-- the loop between its test of `isDying_` and the call of the task.
use libeventdisp.Base.{
  ℕ, ◌+◌, ◌%◌, Bool, true, false, not, Option, none, some, List, [], ◌∷◌, ◌++◌, ◌==◌, if◌then◌else◌,
  ◌≡◌, word_size, incr, decr,
}

-- A `UnitTask`: its group, and a name for the closure that it holds.
pub record UnitTask : Type 0 where
  pub id : ℕ
  pub task : ℕ

abbrev pub default_id : ℕ
default_id = 0

-- The two constructors of `UnitTask`.
abbrev pub unit_task : ℕ → UnitTask
unit_task task = record { id = default_id; task = task }

abbrev pub unit_task_of : ℕ → ℕ → UnitTask
unit_task_of task id = record { id = id; task = task }

-- `TaskCountMap`, and `taskCount_[id]++` and `taskCount_[id]--`: an absent entry starts at 0.
abbrev pub TaskCountMap : Type 0
TaskCountMap = List (ℕ × ℕ)

unfoldable pub change : (ℕ → ℕ) → ℕ → TaskCountMap → TaskCountMap
change f id [] = (id, f 0) ∷ []
change f id ((i, n) ∷ m) = if i == id then (i, f n) ∷ m else (i, n) ∷ change f id m

-- Where the event-loop thread stands: before it takes the front, holding `nextTask` before its
-- test of `isDying_`, past that test and running it, before the pop, or returned.
pub data Pc : Type 0 where
  waiting : Pc
  taken : UnitTask → Pc
  running : UnitTask → Pc
  done : UnitTask → Pc
  returned : Pc

-- The fields of the class, the thread's position, the task of the call of `enqueueTask` that holds
-- `queueMutex_` and has read `isStopped_` as false, if there is one, and four histories: the tasks pushed, run, popped,
-- and deleted without being pushed.
pub record EventDispatcher : Type 0 where
  pub task_queue : List UnitTask
  pub is_executing : Bool
  pub task_count : TaskCountMap
  pub is_stopped : Bool
  pub is_dying : Bool
  pub pc : Pc
  pub entering : Option UnitTask
  pub accepted : List UnitTask
  pub executed : List UnitTask
  pub popped : List UnitTask
  pub discarded : List UnitTask

-- `EventDispatcher::EventDispatcher`
abbrev pub init : EventDispatcher
init = record {
  task_queue = [];
  is_executing = false;
  task_count = [];
  is_stopped = false;
  is_dying = false;
  pc = waiting;
  entering = none;
  accepted = [];
  executed = [];
  popped = [];
  discarded = [];
}

-- `enqueueTask` under `queueMutex_`, up to its test of `isStopped_`, or to the end if the task is
-- refused.
unfoldable pub test_stopped : UnitTask → EventDispatcher → EventDispatcher
test_stopped t d =
    if not d.is_stopped
    then record d { entering = some t }
    else record d { discarded = d.discarded ++ t ∷ [] }

-- The rest of a call of `enqueueTask` past its test: the push and the count.
unfoldable pub push_task : UnitTask → EventDispatcher → EventDispatcher
push_task t d = record d {
  task_queue = d.task_queue ++ t ∷ [];
  task_count = change incr t.id d.task_count;
  accepted = d.accepted ++ t ∷ [];
  entering = none;
}

unfoldable pub push_entering : Option UnitTask → EventDispatcher → EventDispatcher
unfolding push_task
push_entering none d = d
push_entering (some t) d = push_task t d

-- A whole call of `enqueueTask`, with no other thread in between; `none` is a null pointer.
unfoldable pub enqueue_task : Option UnitTask → EventDispatcher → EventDispatcher × Bool
unfolding test_stopped push_entering
enqueue_task none d = (d, true)
enqueue_task (some t) d = (push_entering (test_stopped t d).entering (test_stopped t d), true)

unfoldable pub stop : EventDispatcher → EventDispatcher
stop d = record d { is_stopped = true }

unfoldable pub resume : EventDispatcher → EventDispatcher
resume d = if not d.is_dying then record d { is_stopped = false } else d

-- The destructor, up to the join of the event-loop thread.
unfoldable pub destroy : EventDispatcher → EventDispatcher
destroy d = record d { is_stopped = true; is_dying = true }

unfoldable pub is_empty {ℓ} : {A : Type ℓ} → List A → Bool
is_empty [] = true
is_empty (x ∷ xs) = false

unfoldable pub busy : EventDispatcher → Bool
unfolding is_empty
busy d = not (is_empty d.task_queue)

-- The loop of `pendingTasks`, on the iterator and `count`.
unfoldable pub pending_loop : ℕ → TaskCountMap → ℕ
pending_loop count [] = count
pending_loop count ((id, n) ∷ m) = pending_loop ((count + n) % word_size) m

unfoldable pub pending_tasks : EventDispatcher → ℕ
unfolding pending_loop
pending_tasks d = pending_loop 0 d.task_count

unfoldable pub get_size : ℕ → EventDispatcher → ℕ
unfolding pending_tasks
get_size id d = pending_tasks d

-- The first locked block of `eventLoop`. An empty queue keeps the thread in the timed wait, unless
-- the dispatcher is dying.
unfoldable pub take_front : List UnitTask → EventDispatcher → EventDispatcher
take_front [] d = if d.is_dying then record d { pc = returned } else d
take_front (t ∷ q) d = record d { is_executing = true; pc = taken t }

-- `if (!isDying_)`, without a lock.
unfoldable pub test_dying : UnitTask → EventDispatcher → EventDispatcher
test_dying t d = if not d.is_dying then record d { pc = running t } else record d { pc = done t }

-- `nextTask->task();`
unfoldable pub run_task : UnitTask → EventDispatcher → EventDispatcher
run_task t d = record d { executed = d.executed ++ t ∷ []; pc = done t }

unfoldable pub pop_queue : List UnitTask → List UnitTask
pop_queue [] = []
pop_queue (t ∷ q) = q

-- The second locked block, and the delete.
unfoldable pub pop_task : UnitTask → EventDispatcher → EventDispatcher
unfolding pop_queue
pop_task t d = record d {
  task_queue = pop_queue d.task_queue;
  is_executing = false;
  task_count = change decr t.id d.task_count;
  popped = d.popped ++ t ∷ [];
  pc = waiting;
}

unfoldable pub loop_at : Pc → EventDispatcher → EventDispatcher
unfolding take_front test_dying run_task pop_task
loop_at waiting d = take_front d.task_queue d
loop_at (taken t) d = test_dying t d
loop_at (running t) d = run_task t d
loop_at (done t) d = pop_task t d
loop_at returned d = d

-- One move of the event-loop thread.
unfoldable pub loop_step : EventDispatcher → EventDispatcher
unfolding loop_at
loop_step d = loop_at d.pc d

-- Whether the event-loop thread can move: its two locked blocks wait for a call of `enqueueTask` that
-- holds `queueMutex_`.
unfoldable pub is_free : Option UnitTask → Bool
is_free none = true
is_free (some t) = false

unfoldable pub can_move : Pc → Option UnitTask → Bool
unfolding is_free
can_move waiting entering = is_free entering
can_move (taken t) entering = true
can_move (running t) entering = true
can_move (done t) entering = is_free entering
can_move returned entering = true

-- Any thread may call a method between two moves of the event loop, a running task too. `queueMutex_`
-- keeps other calls of `enqueueTask` and the loop's locked blocks out of a call that is past its test;
-- `stop`, `resume` and the destructor take another mutex.
pub data Step (d : EventDispatcher) : EventDispatcher → Type 0 where
  enters : (t : UnitTask) → d.entering ≡ none → Step d (test_stopped t d)
  pushes : (t : UnitTask) → d.entering ≡ some t → Step d (push_task t d)
  stops : Step d (stop d)
  resumes : Step d (resume d)
  destroys : Step d (destroy d)
  loops : can_move d.pc d.entering ≡ true → Step d (loop_step d)

pub data Reach : EventDispatcher → Type 0 where
  start : Reach init
  next : {d e : EventDispatcher} → Reach d → Step d e → Reach e
