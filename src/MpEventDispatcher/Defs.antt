-- ===== src/MpEventDispatcher/Defs.antt =====
-- lib/inc/mp_event_dispatcher.h and lib/mp_event_dispatcher.cc, in both builds: with a table and a
-- round-robin token, and with USE_HASHING, where the hash function is a parameter.
use libeventdisp.Base.{
  ℕ, ◌%◌, Bool, true, false, Option, none, some, List, [], ◌∷◌, ◌++◌, map, ◌==◌, leb, if◌then◌else◌,
  incr, Outcome, ok, crash, ◌>>=◌, get_elem?, set, lookup, replicate,
}
use libeventdisp.EventDispatcher
use libeventdisp.EventDispatcher.{EventDispatcher, UnitTask}

-- The fields of the class, and a history: the tasks handed to `enqueueTask`.
pub record MpEventDispatcher : Type 0 where
  pub dispatchers : List EventDispatcher
  pub concurrent_task_count : ℕ
  pub task_id_table : List (ℕ × ℕ)
  pub round_robin_token : ℕ
  pub enqueued : List UnitTask

-- The constructor: its loop makes `concurrentTaskCount` dispatchers.
unfoldable pub init : ℕ → MpEventDispatcher
init concurrent_task_count = record {
  dispatchers = replicate concurrent_task_count EventDispatcher.init;
  concurrent_task_count = concurrent_task_count;
  task_id_table = [];
  round_robin_token = 0;
  enqueued = [];
}

-- The destructor: each dispatcher's own, in order.
unfoldable pub destroy : MpEventDispatcher → MpEventDispatcher
destroy m = record m { dispatchers = map EventDispatcher.destroy m.dispatchers }

-- The locked block of `enqueueTask`: `insert` into the table keeps an entry that is there, and a new
-- one takes the token, which then moves on.
unfoldable pub next_token : ℕ → ℕ → ℕ
next_token token count = if leb count (incr token) then 0 else incr token

unfoldable pub route_at : Option ℕ → ℕ → MpEventDispatcher → ℕ × MpEventDispatcher
route_at (some destination) id m = (destination, m)
route_at none id m = (
  m.round_robin_token,
  record m {
    task_id_table = m.task_id_table ++ (id, m.round_robin_token) ∷ [];
    round_robin_token = next_token m.round_robin_token m.concurrent_task_count;
  },
)

unfoldable pub route : ℕ → MpEventDispatcher → ℕ × MpEventDispatcher
unfolding route_at
route id m = route_at (lookup id m.task_id_table) id m

-- `dispatchers_[taskDestination]->enqueueTask(newTask)`; a destination out of range is a crash.
unfoldable pub deliver : ℕ → UnitTask → MpEventDispatcher → Outcome (MpEventDispatcher × Bool)
deliver destination t m = elim (get_elem? m.dispatchers destination) [
  | none ↦ crash
  | some d ↦ ok (
    record m {
      dispatchers = set m.dispatchers destination (EventDispatcher.enqueue_task (some t) d).0;
      enqueued = m.enqueued ++ t ∷ [];
    },
    true,
  )
]

-- `enqueueTask`, which reads `newTask->id` first.
unfoldable pub enqueue_task :
    Option UnitTask → MpEventDispatcher → Outcome (MpEventDispatcher × Bool)
enqueue_task none m = crash
enqueue_task (some t) m = deliver (route t.id m).0 t (route t.id m).1

-- `hasher_(id) % concurrentTaskCount_`; a remainder by zero is a crash.
unfoldable pub hashed : (ℕ → ℕ) → ℕ → MpEventDispatcher → Outcome ℕ
hashed hash id m =
    if m.concurrent_task_count == 0 then crash else ok (hash id % m.concurrent_task_count)

-- `enqueueTask` under USE_HASHING.
unfoldable pub enqueue_hashed :
    (ℕ → ℕ) → Option UnitTask → MpEventDispatcher → Outcome (MpEventDispatcher × Bool)
enqueue_hashed hash none m = crash
enqueue_hashed hash (some t) m = do destination ← hashed hash t.id m; deliver destination t m

unfoldable pub stop : MpEventDispatcher → MpEventDispatcher
stop m = m

unfoldable pub resume : MpEventDispatcher → MpEventDispatcher
resume m = m

unfoldable pub busy_loop : List EventDispatcher → Bool
busy_loop [] = false
busy_loop (d ∷ ds) = if EventDispatcher.busy d then true else busy_loop ds

unfoldable pub busy : MpEventDispatcher → Bool
unfolding busy_loop
busy m = busy_loop m.dispatchers

unfoldable pub get_size : ℕ → MpEventDispatcher → ℕ
get_size id m = 0

-- `getSize` under USE_HASHING.
unfoldable pub get_size_hashed : (ℕ → ℕ) → ℕ → MpEventDispatcher → Outcome ℕ
get_size_hashed hash id m = do
  destination ← hashed hash id m
  elim (get_elem? m.dispatchers destination) [
    | none ↦ crash
    | some d ↦ ok (EventDispatcher.pending_tasks d)
  ]

-- The dispatchers are private: between two calls of `enqueueTask` only their event loops move.
unfoldable pub loop_in : ℕ → EventDispatcher → MpEventDispatcher → MpEventDispatcher
loop_in i d m = record m { dispatchers = set m.dispatchers i (EventDispatcher.loop_step d) }
