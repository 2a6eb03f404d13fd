-- ===== src/Semaphore/Defs.antt =====
-- lib/inc/lock.h: `Semaphore`. Each method holds the mutex, so that it is one step; a `down` that has to
-- wait is no step.
use libeventdisp.Base.{
  ℕ, zero, suc, ◌≡◌, Bool, true, false, Option, none, some, ◌==◌, if◌then◌else◌, Outcome, ok, crash,
}

-- An `int`, with native digits.
pub data ℤ : Type 0 where
  pos : ℕ → ℤ
  negsuc : ℕ → ℤ

abbrev pub incremented : ℤ → ℤ
incremented (pos n) = pos (suc n)
incremented (negsuc zero) = pos 0
incremented (negsuc (suc n)) = negsuc n

abbrev pub decremented : ℤ → ℤ
decremented (pos zero) = negsuc 0
decremented (pos (suc n)) = pos n
decremented (negsuc n) = negsuc (suc n)

abbrev pub max_int : ℕ
max_int = 2147483647

-- `val_`, and two histories: how often `up` and `down` have returned.
pub record Semaphore : Type 0 where
  pub val : ℤ
  pub ups : ℕ
  pub downs : ℕ

abbrev pub init : ℤ → Semaphore
init init_val = record { val = init_val; ups = 0; downs = 0 }

abbrev pub is_max : ℤ → Bool
is_max (pos n) = n == max_int
is_max (negsuc n) = false

-- `up`: the overflow of a signed integer is a crash.
unfoldable pub up : Semaphore → Outcome Semaphore
up s = if is_max s.val then crash else ok (record s { val = incremented s.val; ups = suc s.ups })

-- `val_ <= 0`
abbrev pub has_to_wait : ℤ → Bool
has_to_wait (pos n) = n == 0
has_to_wait (negsuc n) = true

-- `down`: `none` while it waits.
unfoldable pub down : Semaphore → Option Semaphore
down s =
    if has_to_wait s.val
    then none
    else some (record s { val = decremented s.val; downs = suc s.downs })

pub data Reach (init_val : ℤ) : Semaphore → Type 0 where
  start : Reach init_val (init init_val)
  ups_one : {s t : Semaphore} → Reach init_val s → up s ≡ ok t → Reach init_val t
  downs_one : {s t : Semaphore} → Reach init_val s → down s ≡ some t → Reach init_val t
