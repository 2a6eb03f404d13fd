-- ===== src/DelayedTask/Defs.antt =====
-- lib/delayed_task.cc: the state of a `DelayedTask` and its methods, each under the object's mutex but
-- for `resetTimer`.
--
-- The timer and the clock are the system's. The results of `timer_create` and `timer_settime` are
-- parameters; `armed` holds what the last successful `timer_settime` set. Past the destructor the mutex
-- and the fields are gone: a method that is called on a destroyed object is a crash of the model.
use libeventdisp.Base.{
  ℕ, Bool, true, false, not, List, [], ◌∷◌, ◌++◌, ◌==◌, ◌≡◌, if◌then◌else◌, Outcome, ok, ◌>>◌,
  assert,
}

-- What a method does outside the object: it hands the task to the dispatcher, or deletes it, or deletes
-- the timer. Tasks are named by numbers, and null is 0.
pub data Event : Type 0 where
  enqueued : ℕ → Event
  deleted : ℕ → Event
  timer_deleted : Event

pub record DelayedTask : Type 0 where
  pub task : ℕ
  pub has_completed : Bool
  pub armed : ℕ
  pub log : List Event
  pub is_alive : Bool

-- `resetTimer`: `result` is that of `timer_settime`.
unfoldable pub reset_timer : ℕ → ℕ → DelayedTask → Outcome DelayedTask
reset_timer result new_delay t = do
  assert t.is_alive
  assert (result == 0)
  ok (record t { armed = new_delay })

-- The constructor: `created` is the result of `timer_create`, `result` that of `timer_settime`.
unfoldable pub init : ℕ → ℕ → ℕ → ℕ → Outcome DelayedTask
init created result new_task delay = do
  assert (created == 0)
  assert (result == 0)
  ok (record { task = new_task; has_completed = false; armed = delay; log = []; is_alive = true })

-- The locked block of the destructor.
unfoldable pub dispose : DelayedTask → DelayedTask
dispose t =
    if not t.has_completed
    then record t { has_completed = true; log = t.log ++ timer_deleted ∷ deleted t.task ∷ [] }
    else t

-- The destructor: the locked block, and then the end of the object.
unfoldable pub destroy : DelayedTask → Outcome DelayedTask
destroy t = do assert t.is_alive; ok (record (dispose t) { is_alive = false })

-- The locked block of `timeoutHandler`.
unfoldable pub time_out : DelayedTask → DelayedTask
time_out t =
    if not t.has_completed
    then record t { has_completed = true; log = t.log ++ enqueued t.task ∷ timer_deleted ∷ [] }
    else t

-- `timeoutHandler`, on the object that the notification's pointer names.
unfoldable pub timeout_handler : DelayedTask → Outcome DelayedTask
timeout_handler t = do assert t.is_alive; ok (time_out t)

-- Any order of the timer's notifications, resets and the destructor, of which each returns: none of them
-- is on a destroyed object. A notification may come late, on another thread, and `resetTimer` is also
-- possible on a completed task.
pub data Run (t : DelayedTask) : DelayedTask → Type 0 where
  here : Run t t
  times_out : {u v : DelayedTask} → Run t u → timeout_handler u ≡ ok v → Run t v
  resets :
      {u v : DelayedTask} (result new_delay : ℕ)
      → Run t u
      → reset_timer result new_delay u ≡ ok v
      → Run t v
  destroys : {u v : DelayedTask} → Run t u → destroy u ≡ ok v → Run t v
