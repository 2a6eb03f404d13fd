-- ===== src/FastFifo/Destroy.antt =====
-- webserver/fast_fifo.h: the destructor, a loop that pops until the queue is empty.
use libeventdisp.Base.{ℕ, zero, suc, ◌<◌, [], ◌∷◌, length, ap, arith}
use libeventdisp.FastFifo.Defs.{Heap, Fifo, is_popped, destroy}
use libeventdisp.FastFifo.Spec
use libeventdisp.FastFifo.Spec.{Cells}
use libeventdisp.FastFifo.Represents.{Represents, Returns, returns, bind}
use libeventdisp.FastFifo.Refines.{pop_lem}

-- With fuel for one call of `pop` more than there are nodes, the destructor's loop ends, and the queue is
-- empty: only its sentinel is left.
pub destroy_lem :
    {h : Heap} {f : Fifo} (l : Cells) (fuel : ℕ)
    → length l < fuel
    → Represents h f l
    → Returns (λ f' g. Represents g f' []) (destroy fuel f h)
unfolding destroy Spec.pop
destroy_lem l zero few r = absurd (omega arith)
destroy_lem [] (suc fuel) few r =
    bind (pop_lem [] r) λ (x, f') g (is, kept). rw (ap is_popped is) (returns kept)
destroy_lem ((a, y) ∷ l) (suc fuel) few r =
    bind (pop_lem ((a, y) ∷ l) r)
      λ (x, f') g (is, kept). rw (ap is_popped is) (destroy_lem l fuel (omega arith) kept)
