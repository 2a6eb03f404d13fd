-- ===== src/Semaphore/Tests.antt =====
-- lib/inc/lock.h: a semaphore that starts at 1, goes down, and comes up.
use libeventdisp.Base.{ℕ, ◌+◌, ◌≡◌, refl, some, ok}
use libeventdisp.Semaphore.Defs.{pos, Semaphore, init, up, down, Reach, start, ups_one, downs_one}
use libeventdisp.Semaphore.Balance.{never_below}

abbrev lowered : Semaphore
lowered = record { val = pos 0; ups = 0; downs = 1 }

abbrev raised : Semaphore
raised = record { val = pos 1; ups = 1; downs = 1 }

down-lowered : down (init (pos 1)) ≡ some lowered
unfolding down
down-lowered = refl

up-raised : up lowered ≡ ok raised
unfolding up
up-raised = refl

raised-Reach : Reach (pos 1) raised
raised-Reach = ups_one (downs_one start down-lowered) up-raised

never_below_example : (v : ℕ) × (raised.val ≡ pos v) × (v + raised.downs ≡ 1 + raised.ups)
never_below_example = never_below raised-Reach
