-- ===== src/FastFifo/Represents.antt =====
-- webserver/fast_fifo.h: the list that a queue stands for, and what a call returns.
use libeventdisp.Base.{◌≡◌, ◌≢◌, false, none, some, ◌==◌, Outcome, ok, arith}
use libeventdisp.FastFifo.Defs.{
  then_run, Cmd, Ptr, null, Node, Heap, write, Fifo, load, set_before, set_next, delete,
}
use libeventdisp.FastFifo.Spec.{Cells}
use libeventdisp.FastFifo.Chain.{Chain}

-- The heap holds, at the queue's two pointers, the nodes of the list in order.
pub record Represents (h : Heap) (f : Fifo) (l : Cells) : Type 0 where
  pub chain : Chain h f.tail null f.head l
  pub sentinel : f.tail ≢ null

-- The call returns, and its result satisfies the predicate.
pub data Returns {A : Type 0} (P : A → Heap → Type 0) : Outcome (A × Heap) → Type 0 where
  returns : {a : A} {h : Heap} → P a h → Returns P (ok (a, h))

pub bind :
    {A B : Type 0} {P : A → Heap → Type 0} {Q : B → Heap → Type 0} {r : Outcome (A × Heap)}
    {k : A → Cmd B}
    → Returns P r
    → ((a : A) (h : Heap) → P a h → Returns Q (k a h))
    → Returns Q (then_run r k)
bind (returns p) after = after _ _ p

module _ (h : Heap) {p : Ptr} {n : Node} (ne : p ≢ null) (held : h p ≡ some n) where
  pub load-ok : load p h ≡ ok (n, h)
  unfolding load
  load-ok = let e : (p == null) ≡ false = ground arith in rw (e, held)

  pub set_before-ok :
      (q : Ptr) → set_before p q h ≡ ok (tt, write h p (some (record n { before = q })))
  unfolding set_before
  set_before-ok q = let e : (p == null) ≡ false = ground arith in rw (e, held)

  pub set_next-ok : (q : Ptr) → set_next p q h ≡ ok (tt, write h p (some (record n { next = q })))
  unfolding set_next
  set_next-ok q = let e : (p == null) ≡ false = ground arith in rw (e, held)

  pub delete-ok : delete p h ≡ ok (tt, write h p none)
  unfolding delete
  delete-ok = let e : (p == null) ≡ false = ground arith in rw (e, held)
