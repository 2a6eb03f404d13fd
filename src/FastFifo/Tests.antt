-- ===== src/FastFifo/Tests.antt =====
-- webserver/fast_fifo.h: runs of the model on a heap with a sentinel at 1.
use libeventdisp.Base.{◌≡◌, refl, ◌≢◌, none, some, [], ◌∷◌, arith}
use libeventdisp.FastFifo.Defs.{null, Heap, write, Fifo, push, remove_node, pop, destroy}
use libeventdisp.FastFifo.Spec
use libeventdisp.FastFifo.Spec.{Cells, has}
use libeventdisp.FastFifo.Chain.{node, nil, cons}
use libeventdisp.FastFifo.Represents.{Represents, Returns}
use libeventdisp.FastFifo.Destroy.{destroy_lem}
use libeventdisp.FastFifo.Refines.{Popped, push_lem, remove_lem, pop_lem}

one-null : 1 ≢ null
one-null = omega arith

abbrev no_heap : Heap
no_heap p = none

-- Nodes 2 and 3 before the sentinel.
abbrev two_nodes : Heap
two_nodes =
    write (write (write no_heap 1 (some (node null 3 null))) 2 (some (node 20 null 3))) 3
      (some (node 30 2 1))

abbrev fifo : Fifo
fifo = record { tail = 1; head = 2 }

two_nodes-Represents : Represents two_nodes fifo ((2, 20) ∷ (3, 30) ∷ [])
unfolding write
two_nodes-Represents = record {
  chain =
      cons (omega arith) (omega arith) refl refl
        (cons (omega arith) (omega arith) refl refl (nil refl));
  sentinel = omega arith;
}

unused : two_nodes 4 ≡ none
unfolding write
unused = refl

destroy_lem_example : Returns (λ f g. Represents g f []) (destroy 3 fifo two_nodes)
destroy_lem_example = destroy_lem ((2, 20) ∷ (3, 30) ∷ []) 3 (omega arith) two_nodes-Represents

push_lem_example :
    Returns
      (λ (node, f) g. (node ≡ 4) × Represents g f (Spec.push 4 40 ((2, 20) ∷ (3, 30) ∷ [])))
      (push 4 40 fifo two_nodes)
push_lem_example = push_lem 4 40 two_nodes-Represents (omega arith) unused

remove_lem_example :
    Returns
      (λ f g. Represents g f (Spec.remove 3 ((2, 20) ∷ (3, 30) ∷ [])) × (g 3 ≡ none))
      (remove_node 3 fifo two_nodes)
remove_lem_example = remove_lem 3 two_nodes-Represents refl

pop_lem_example : Returns (Popped ((2, 20) ∷ (3, 30) ∷ [])) (pop fifo two_nodes)
pop_lem_example = pop_lem ((2, 20) ∷ (3, 30) ∷ []) two_nodes-Represents
