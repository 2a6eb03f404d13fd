-- ===== src/DelayedTask/Tests.antt =====
-- lib/delayed_task.cc: a run of the model.
use libeventdisp.Base.{◌≡◌, refl, true, false, [], ◌∷◌, ok}
use libeventdisp.DelayedTask.Defs.{
  DelayedTask, init, destroy, timeout_handler, enqueued, timer_deleted, dispose, time_out, here,
  times_out, destroys,
}
use libeventdisp.DelayedTask.Once.{Disposed, Run-Disposed}

abbrev new_task : DelayedTask
new_task = record { task = 4; has_completed = false; armed = 10; log = []; is_alive = true }

init-new_task : init 0 0 4 10 ≡ ok new_task
unfolding init
init-new_task = refl

abbrev timed_out : DelayedTask
timed_out = record {
  task = 4;
  has_completed = true;
  armed = 10;
  log = enqueued 4 ∷ timer_deleted ∷ [];
  is_alive = true;
}

abbrev destroyed : DelayedTask
destroyed = record timed_out { is_alive = false }

timeout-new_task : timeout_handler new_task ≡ ok timed_out
unfolding timeout_handler time_out
timeout-new_task = refl

destroy-timed_out : destroy timed_out ≡ ok destroyed
unfolding destroy dispose
destroy-timed_out = refl

Run-Disposed_example : Disposed 4 destroyed
Run-Disposed_example =
    Run-Disposed 0 0 4 10 init-new_task
      (destroys (times_out here timeout-new_task) destroy-timed_out)
