-- ===== src/Dispatcher/Defs.antt =====
-- lib/dispatcher.cc and lib/inc/dispatcher.h: the pointer to an `EventDispatcherInterface` is a sum of
-- its two implementations, and the singleton is an option. MPEventDispatcher is built with USE_HASHING,
-- as lib/Makefile does.
use libeventdisp.Base.{
  ℕ, Bool, false, Option, none, some, ◌≡◌, get_elem?, if◌then◌else◌, Outcome, ok, crash, ◌>>=◌,
}
use libeventdisp.EventDispatcher
use libeventdisp.EventDispatcher.{EventDispatcher, UnitTask}
use libeventdisp.MpEventDispatcher
use libeventdisp.MpEventDispatcher.{MpEventDispatcher}

pub data Dispatcher : Type 0 where
  one : EventDispatcher → Dispatcher
  several : MpEventDispatcher → Dispatcher

-- `Dispatcher::Dispatcher`, and `Dispatcher::init`, which overwrites the pointer to the last instance.
unfoldable pub new_dispatcher : ℕ → Bool → Dispatcher
new_dispatcher concurrent_dispatchers multiprocessor_mode =
    if multiprocessor_mode
    then several (MpEventDispatcher.init concurrent_dispatchers)
    else one EventDispatcher.init

unfoldable pub init : ℕ → Bool → Option Dispatcher → Option Dispatcher
init concurrent_dispatchers multiprocessor_mode last =
    some (new_dispatcher concurrent_dispatchers multiprocessor_mode)

unfoldable pub init_default : Option Dispatcher → Option Dispatcher
unfolding init
init_default last = init 1 false last

-- `enqueue`: a call on a null instance is a crash.
unfoldable pub enqueue :
    (ℕ → ℕ) → Option UnitTask → Option Dispatcher → Outcome (Option Dispatcher × Bool)
enqueue hash t none = crash
enqueue hash t (some (one d)) =
    ok (some (one (EventDispatcher.enqueue_task t d).0), (EventDispatcher.enqueue_task t d).1)
enqueue hash t (some (several m)) = do
  r ← MpEventDispatcher.enqueue_hashed hash t m
  ok (some (several r.0), r.1)

unfoldable pub get_size : (ℕ → ℕ) → ℕ → Option Dispatcher → Outcome ℕ
get_size hash id none = crash
get_size hash id (some (one d)) = ok (EventDispatcher.get_size id d)
get_size hash id (some (several m)) = MpEventDispatcher.get_size_hashed hash id m

-- Calls of `enqueue` with a task, on an instance made by `init`, that return, with moves of event loops
-- in between.
pub data Reach (hash : ℕ → ℕ) (n : ℕ) (mode : Bool) : Dispatcher → Type 0 where
  start : Reach hash n mode (new_dispatcher n mode)
  enqueues :
      {d e : Dispatcher} {done : Bool} (t : UnitTask)
      → Reach hash n mode d
      → enqueue hash (some t) (some d) ≡ ok (some e, done)
      → Reach hash n mode e
  moves :
      {d : EventDispatcher}
      → Reach hash n mode (one d)
      → Reach hash n mode (one (EventDispatcher.loop_step d))
  moves_one :
      {m : MpEventDispatcher} (i : ℕ) (d : EventDispatcher)
      → Reach hash n mode (several m)
      → get_elem? m.dispatchers i ≡ some d
      → Reach hash n mode (several (MpEventDispatcher.loop_in i d m))
