-- ===== src/Semaphore/Balance.antt =====
-- lib/inc/lock.h: the value of a semaphore accounts for its calls.
use libeventdisp.Base.{
  ℕ, zero, suc, ◌+◌, ◌≡◌, refl, false, some, ok, Bool-cases, subst, inl, inr, ap, sym, ◌∙◌, arith,
}
use libeventdisp.Semaphore.Defs.{
  ℤ, pos, negsuc, incremented, decremented, Semaphore, is_max, up, has_to_wait, down, Reach, start,
  ups_one, downs_one,
}

-- `v + n`
pub plus : ℤ → ℕ → ℤ
plus v zero = v
plus v (suc n) = plus (incremented v) n

plus-incremented : (v : ℤ) (n : ℕ) → plus (incremented v) n ≡ incremented (plus v n)
unfolding plus
plus-incremented v zero = refl
plus-incremented v (suc n) = plus-incremented (incremented v) n

incremented-decremented : (v : ℤ) → incremented (decremented v) ≡ v
incremented-decremented (pos zero) = refl
incremented-decremented (pos (suc n)) = refl
incremented-decremented (negsuc n) = refl

up_lem :
    (s : Semaphore) {t : Semaphore}
    → up s ≡ ok t
    → t ≡ record s { val = incremented s.val; ups = suc s.ups }
unfolding up
up_lem s h = elim (Bool-cases (is_max s.val)) [
  | inl full ↦ absurd (ground arith)
  | inr room ↦ ground arith
]

down_lem :
    (s : Semaphore) {t : Semaphore}
    → down s ≡ some t
    → (has_to_wait s.val ≡ false) × (t ≡ record s { val = decremented s.val; downs = suc s.downs })
unfolding down
down_lem s h = elim (Bool-cases (has_to_wait s.val)) [
  | inl wait ↦ absurd (ground arith)
  | inr go ↦ (go, ground arith)
]

balance_up :
    (init_val : ℤ) (s t : Semaphore)
    → t ≡ record s { val = incremented s.val; ups = suc s.ups }
    → plus s.val s.downs ≡ plus init_val s.ups
    → plus t.val t.downs ≡ plus init_val t.ups
unfolding plus
balance_up init_val s t e b =
    let goal : plus (incremented s.val) s.downs ≡ plus (incremented init_val) s.ups =
      plus-incremented s.val s.downs ∙ ap incremented b ∙ sym (plus-incremented init_val s.ups) in
    subst (λ u. plus u.val u.downs ≡ plus init_val u.ups) (sym e) goal

balance_down :
    (init_val : ℤ) (s t : Semaphore)
    → t ≡ record s { val = decremented s.val; downs = suc s.downs }
    → plus s.val s.downs ≡ plus init_val s.ups
    → plus t.val t.downs ≡ plus init_val t.ups
unfolding plus
balance_down init_val s t e b =
    subst (λ u. plus u.val u.downs ≡ plus init_val u.ups) (sym e)
      (ap (λ v. plus v s.downs) (incremented-decremented s.val) ∙ b)

-- Whatever the initial value, the value of the semaphore and the calls of `down` that have returned
-- add up to the initial value and the calls of `up`.
pub balance :
    {init_val : ℤ} {s : Semaphore} → Reach init_val s → plus s.val s.downs ≡ plus init_val s.ups
unfolding plus
balance start = refl
balance {init_val} (ups_one {s} {t} r h) =
    let e = up_lem s h in let b = balance r in balance_up init_val s t e b
balance {init_val} (downs_one {s} {t} r h) =
    let (go, e) = down_lem s h in let b = balance r in balance_down init_val s t e b

after_down :
    (i v : ℕ) (s t : Semaphore)
    → s.val ≡ pos v
    → has_to_wait s.val ≡ false
    → t ≡ record s { val = decremented s.val; downs = suc s.downs }
    → v + s.downs ≡ i + s.ups
    → (w : ℕ) × (t.val ≡ pos w) × (w + t.downs ≡ i + t.ups)
after_down i zero s t e go w b = absurd (ground arith)
after_down i (suc v) s t e go w b = (v, ground arith, ground arith)

-- With an initial value that is not negative, no more calls of `down` have returned than that value and
-- the calls of `up` allow, and the value is what is left.
pub never_below :
    {i : ℕ} {s : Semaphore}
    → Reach (pos i) s
    → (v : ℕ) × (s.val ≡ pos v) × (v + s.downs ≡ i + s.ups)
never_below {i} start = (i, refl, refl)
never_below (ups_one {s} {t} r h) =
    let (v, e, b) = never_below r in let w = up_lem s h in (suc v, ground arith, ground arith)
never_below {i} (downs_one {s} {t} r h) =
    let (v, e, b) = never_below r in let (go, w) = down_lem s h in after_down i v s t e go w b
