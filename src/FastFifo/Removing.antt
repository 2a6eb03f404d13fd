-- ===== src/FastFifo/Removing.antt =====
-- webserver/fast_fifo.h: the heap that `removeNode` leaves.
use libeventdisp.Base.{
  ◌≡◌, refl, ◌≢◌, true, false, none, some, ◌==◌, if◌then◌else◌, ok, Bool-cases, inl, inr, arith,
}
use libeventdisp.FastFifo.Defs.{Ptr, null, Heap, write, Fifo, remove_node}
use libeventdisp.FastFifo.Spec.{Cells, has}
use libeventdisp.FastFifo.Chain.{node, Chain-holds, Unlinked, Chain-before, Chain-front}
use libeventdisp.FastFifo.Represents.{Represents, load-ok, set_before-ok, delete-ok}

-- The heap that `removeNode` leaves, where the nodes around the node `a` hold `y`, `c` and `z`, `m`.
unfoldable pub unlinked : Heap → Ptr → Ptr → Ptr → Ptr → Ptr → Ptr → Ptr → Heap
unlinked h a before next y c z m =
    write
      (write (if before == null then h else write h before (some (node y c next))) next
        (some (node z before m)))
      a none

pub remove-unlinked :
    (h : Heap) (f : Fifo) (a x before next y c z m n : Ptr)
    → a ≢ null
    → next ≢ null
    → h a ≡ some (node x before next)
    → (before ≢ null → h before ≡ some (node y c n))
    → h next ≡ some (node z a m)
    → a ≢ before
    → a ≢ next
    → before ≢ next
    → remove_node a f h
      ≡ ok
          (if before == null then record f { head = next } else f, unlinked h a before next y c z m)
unfolding remove_node unlinked
remove-unlinked h f a x before next y c z m n na nn held held_b held_n nb nnx nbn =
    let ta : (a == null) ≡ false = ground arith in
    let tn : (next == null) ≡ false = ground arith in
    rw (ta, load-ok h na held, tn)
      (elim (Bool-cases (before == null)) [
        | inl front ↦
            let h2 = write h next (some (node z before m)) in
            let a2 : h2 a ≡ some (node x before next) = unfold write in ground arith in
            rw (front, set_before-ok h nn held_n before, delete-ok h2 na a2)
        | inr inner ↦
            let ne : before ≢ null = ground arith in
            let h1 = write h before (some (node y c next)) in
            let n1 : h1 next ≡ some (node z a m) = unfold write in ground arith in
            let h2 = write h1 next (some (node z before m)) in
            let a2 : h2 a ≡ some (node x before next) = unfold write in ground arith in
            rw (inner, held_b ne, set_before-ok h1 nn n1 before, delete-ok h2 na a2)
      ])

pub unlinked-Unlinked :
    {h : Heap} {a before next y c n z m : Ptr}
    → (before ≢ null → h before ≡ some (node y c n))
    → h next ≡ some (node z a m)
    → a ≢ before
    → a ≢ next
    → before ≢ next
    → Unlinked h (unlinked h a before next y c z m) a before next
unfolding unlinked write
unlinked-Unlinked {before} held_b held_n nb nn sides = record {
  forward = λ y' b' n' ne e.
      let t : (before == null) ≡ false = ground arith in rw t (ground (arith, held_b ne));
  backward = λ y' b' n' e. ground arith;
  same = λ q nq nqb nqn. elim (Bool-cases (before == null)) [
    | inl t ↦ rw t (ground arith)
    | inr t ↦ rw t (ground arith)
  ];
}

pub not-has-null : {h : Heap} {f : Fifo} {l : Cells} → Represents h f l → has null l ≡ false
not-has-null {l} r = elim (Bool-cases (has null l)) [
  | inr out ↦ out
  | inl m ↦ let (y, b, n, held, ne, _) = Chain-holds null r.chain m in absurd (ne refl)
]

-- The node before a node of the queue: none at the front, and only there.
pub before-node :
    {h : Heap} {f : Fifo} {l : Cells} {x before next : Ptr} (a : Ptr)
    → Represents h f l
    → h a ≡ some (node x before next)
    → has a l ≡ true
    → (y c n : Ptr) × (before ≢ null → h before ≡ some (node y c n))
      × ((if before == null then record f { head = next } else f)
          ≡ record f { head = if f.head == a then next else f.head })
before-node {h} {f} {l} {before} {next} a r held m = elim (Chain-before a r.chain held m) [
  | inl (at_head, e) ↦ (null, null, null, λ ne. absurd (ne e), ground arith)
  | inr inside ↦
      let (y, c, n, held_b, ne, _) = Chain-holds before r.chain inside in
      let inner : f.head ≢ a = λ e. ne (Chain-front a r.chain held m e) in
      (y, c, n, λ _. held_b, ground arith)
]
