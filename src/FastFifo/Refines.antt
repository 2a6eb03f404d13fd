-- ===== src/FastFifo/Refines.antt =====
-- webserver/fast_fifo.h: the linked list behaves as the list of its nodes.
use libeventdisp.Base.{
  ◌≡◌, refl, ◌≢◌, true, false, Option, none, some, [], ◌∷◌, ◌⊎◌, sym, ◌∙◌, ◌==◌, subst, inl, inr,
  arith,
}
use libeventdisp.FastFifo.Defs.{Ptr, null, Heap, write, Fifo, init, push, remove_node, pop}
use libeventdisp.FastFifo.Spec
use libeventdisp.FastFifo.Spec.{Cells, has}
use libeventdisp.FastFifo.Chain.{
  node, Chain, nil, cons, last, Chain-first, Chain-tail, Chain-holds, Chain-push, Chain-remove,
  Chain-next, Chain-Around,
}
use libeventdisp.FastFifo.Represents.{Represents, Returns, returns, bind, load-ok}
use libeventdisp.FastFifo.Pushing.{push-pushed, ends, not-has-fresh, pushed-Pushed, new_head}
use libeventdisp.FastFifo.Removing.{
  unlinked, remove-unlinked, unlinked-Unlinked, not-has-null, before-node,
}

-- A new queue is empty.
pub init-Represents :
    (h : Heap) (s : Ptr) → s ≢ null → Returns (λ f g. Represents g f []) (init s h)
unfolding init write
init-Represents h s ne = returns (record { chain = nil (ground arith); sentinel = ne })

-- Given an unused address, `push` returns the node at it, and appends the node to the queue.
pub push_lem :
    {h : Heap} {f : Fifo} {l : Cells} (fresh item : Ptr)
    → Represents h f l
    → fresh ≢ null
    → h fresh ≡ none
    → Returns
        (λ (node, f') g. (node ≡ fresh) × Represents g f' (Spec.push fresh item l))
        (push fresh item f h)
unfolding Spec.push
push_lem {h} {f} {l} fresh item r ne unused =
    let e = ends fresh r ne unused in
    let sentinel = Chain-tail r.chain in
    let nft : fresh ≢ f.tail = λ same. cc in
    let w = pushed-Pushed fresh item nft e.apart e.old e.held in
    rw
      (
        push-pushed h f fresh item (last null l) e.y e.b e.n r.sentinel ne nft sentinel e.apart
            e.old e.held,
        new_head fresh l r.chain,
      )
      (returns (
        refl,
        record {
          chain = Chain-push fresh item r.chain w ne nft (not-has-fresh fresh r unused);
          sentinel = r.sentinel;
        },
      ))

-- `removeNode` of a node of the queue takes it out, wherever it stands, keeps the others in order, and
-- frees it.
pub remove_lem :
    {h : Heap} {f : Fifo} {l : Cells} (a : Ptr)
    → Represents h f l
    → has a l ≡ true
    → Returns (λ f' g. Represents g f' (Spec.remove a l) × (g a ≡ none)) (remove_node a f h)
remove_lem {h} {f} {l} a r m =
    let (x, before, next, held, na, _) = Chain-holds a r.chain m in
    let (y, c, n, held_b, head) = before-node a r held m in
    let s = Chain-Around a r.chain held m (not-has-null r) (λ e. r.sentinel (sym e)) in
    let w = unlinked-Unlinked held_b s.back s.not_before s.not_next s.sides in
    rw
      (
        remove-unlinked h f a x before next y c s.z s.m n na (next_ne (Chain-next a r.chain held m))
            held held_b s.back s.not_before s.not_next s.sides,
        head,
      )
      (returns (
        record {
          chain = Chain-remove a r.chain held m w (not-has-null r) (λ e. r.sentinel (sym e));
          sentinel = r.sentinel;
        },
        unfold unlinked write in ground arith,
      ))
  where
    next_ne : {q : Ptr} → (has q l ≡ true) ⊎ (q ≡ f.tail) → q ≢ null
    next_ne {q} (inl inside) e = let (y, b, n, held, ne, _) = Chain-holds q r.chain inside in ne e
    next_ne (inr at_tail) e = r.sentinel (sym at_tail ∙ e)

front-node :
    {h : Heap} {tail b p a x : Ptr} {l : Cells}
    → Chain h tail b p ((a, x) ∷ l)
    → (n : Ptr) × (h a ≡ some (node x b n)) × (a ≢ null) × (a ≢ tail)
front-node (cons {n} ne nt out held c) = (n, held, ne, nt)

abbrev pub Popped : Cells → Option Ptr × Fifo → Heap → Type 0
Popped l (item, f) g = (item ≡ (Spec.pop l).0) × Represents g f (Spec.pop l).1

-- `pop` reports an empty queue and leaves it empty, or returns the front's data and takes the front
-- out.
pub pop_lem : {h : Heap} {f : Fifo} (l : Cells) → Represents h f l → Returns (Popped l) (pop f h)
unfolding pop Spec.pop
pop_lem {h} {f} [] r =
    let e : (f.head == f.tail) ≡ true = ground (arith, Chain-first r.chain) in
    rw e (returns (refl, r))
pop_lem {h} {f} ((a, x) ∷ l) r =
    let at : f.head ≡ a = Chain-first r.chain in
    let (n, held, na, nt) = front-node r.chain in
    let e : (f.head == f.tail) ≡ false = ground arith in
    let head_held : h f.head ≡ some (node x null n) =
      subst (λ p. h p ≡ some (node x null n)) (sym at) held in
    let rest : Spec.remove f.head ((a, x) ∷ l) ≡ l = unfold Spec.remove in ground arith in
    let inside : has f.head ((a, x) ∷ l) ≡ true = ground arith in
    rw (e, load-ok h (λ q. na (sym at ∙ q)) head_held)
      (bind (remove_lem f.head r inside)
        λ f' g (kept, _). returns (refl, subst (Represents g f') rest kept))
