-- ===== src/Dispatcher/Tests.antt =====
-- lib/dispatcher.cc: a new instance with two event dispatchers.
use libeventdisp.Base.{ℕ, true}
use libeventdisp.EventDispatcher.{UnitTask, unit_task_of}
use libeventdisp.Dispatcher.Defs.{new_dispatcher, Reach, start}

abbrev hash : ℕ → ℕ
hash id = id

abbrev task : UnitTask
task = unit_task_of 9 5

new-Reach : Reach hash 2 true (new_dispatcher 2 true)
new-Reach = start
