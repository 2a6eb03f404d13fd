-- ===== src/Cache/Destroy.antt =====
-- webserver/cache.cc: the destructor. `deallocate` frees the buffer of an entry, deletes its name and sets
-- both pointers to null, so that the loop at the end frees null pointers.
use libeventdisp.Base.{
  ℕ, ◌≡◌, refl, ◌≢◌, none, some, List, [], ◌∷◌, ◌++◌, append_assoc, append-nil, ◌==◌, if◌then◌else◌,
  lookup, Bool-cases, inl, inr, sym, ◌∙◌, ap, Outcome, ok, crash, arith,
}
use libeventdisp.FastFifo.Spec.{Cells, remove}
use libeventdisp.Cache.Defs.{Ptr, null, CacheEntry, Event, freed, deallocate, Cache, entry_at}
use libeventdisp.Cache.FreeList.{Nodes, lookup-remove, remove-Nodes}
use libeventdisp.Cache.Kept.{Kept}
use libeventdisp.Cache.Uses.{Uses, Uses-Sound}

-- The loop over the map: what is left of the free list, and the log.
abbrev pub take_node : CacheEntry → Cells → Cells
take_node e l = if e.free_list_ref == null then l else remove e.free_list_ref l

unfoldable pub destroy_entries : List CacheEntry → Cells → List Event → Cells × List Event
destroy_entries [] l log = (l, log)
destroy_entries (e ∷ m) l log = destroy_entries m (take_node e l) (log ++ deallocate e)

-- The loop that pops what is left: an entry that is not in the map is a dangling pointer.
unfoldable pub destroy_rest : List CacheEntry → Cells → List Event → Outcome (List Event)
destroy_rest m [] log = ok log
destroy_rest m ((n, p) ∷ l) log =
    let rest = destroy_rest m l (log ++ freed null ∷ []) in
    elim (entry_at p m) [ none ↦ crash | some e ↦ rest ]

unfoldable pub destroy : Cache → Outcome (List Event)
unfolding destroy_entries destroy_rest
destroy c =
    let left = destroy_entries c.cache_map c.free_list c.log in
    destroy_rest c.cache_map left.0 left.1

take_node-Nodes : (e : CacheEntry) (l : Cells) → Nodes l → Nodes (take_node e l)
take_node-Nodes e l d = elim (Bool-cases (e.free_list_ref == null)) [
  | inl off ↦ rw off d
  | inr on ↦ rw on (remove-Nodes e.free_list_ref l d)
]

lookup-take_node :
    (n : ℕ) (e : CacheEntry) (l : Cells)
    → Nodes l
    → n ≢ null
    → lookup n (take_node e l) ≡ (if e.free_list_ref == n then none else lookup n l)
lookup-take_node n e l d real = ground (arith, lookup-remove n e.free_list_ref l d)

take_node_lem :
    (n : ℕ) (e : CacheEntry) (l : Cells) {p : ℕ}
    → Nodes l
    → lookup n (take_node e l) ≡ some p
    → lookup n l ≡ some p
take_node_lem n e l d h = ground (arith, lookup-remove n e.free_list_ref l d, h)

lookup-destroy_none :
    (n : ℕ) (m : List CacheEntry) (l : Cells) (log : List Event)
    → Nodes l
    → n ≢ null
    → lookup n l ≡ none
    → lookup n (destroy_entries m l log).0 ≡ none
unfolding destroy_entries
lookup-destroy_none n [] l log d real out = out
lookup-destroy_none n (e ∷ m) l log d real out =
    lookup-destroy_none n m (take_node e l) (log ++ deallocate e) (take_node-Nodes e l d) real
      (ground (arith, lookup-take_node n e l d real, out))

-- The node of every entry of the map is gone.
lookup-destroy_entry :
    (p : Ptr) (m : List CacheEntry) (l : Cells) (log : List Event) {e : CacheEntry}
    → Nodes l
    → entry_at p m ≡ some e
    → e.free_list_ref ≢ null
    → lookup e.free_list_ref (destroy_entries m l log).0 ≡ none
unfolding destroy_entries entry_at
lookup-destroy_entry p [] l log d at real = cc
lookup-destroy_entry p (g ∷ m) l log {e} d at real =
    let d' = take_node-Nodes g l d in
    let log' = log ++ deallocate g in
    elim (Bool-cases (g.address == p)) [
      | inl here ↦
          (let same : g ≡ e = ground (arith, at, here) in
            lookup-destroy_none e.free_list_ref m (take_node g l) log' d' real
              (ground (arith, lookup-take_node e.free_list_ref g l d real, same)))
      | inr there ↦ lookup-destroy_entry p m (take_node g l) log' d' (rw there at at) real
    ]

lookup-destroy_some :
    (n : ℕ) (m : List CacheEntry) (l : Cells) (log : List Event) {p : ℕ}
    → Nodes l
    → lookup n (destroy_entries m l log).0 ≡ some p
    → lookup n l ≡ some p
unfolding destroy_entries
lookup-destroy_some n [] l log d h = h
lookup-destroy_some n (e ∷ m) l log d h =
    let was =
      lookup-destroy_some n m (take_node e l) (log ++ deallocate e) (take_node-Nodes e l d) h in
    take_node_lem n e l d was

-- Each buffer and each name once, in the order of the entries.
abbrev pub deallocate_all : List CacheEntry → List Event
deallocate_all [] = []
deallocate_all (e ∷ m) = deallocate e ++ deallocate_all m

destroy_entries-log :
    (m : List CacheEntry) (l : Cells) (log : List Event)
    → (destroy_entries m l log).1 ≡ log ++ deallocate_all m
unfolding destroy_entries
destroy_entries-log [] l log = sym (append-nil log)
destroy_entries-log (e ∷ m) l log =
    destroy_entries-log m (take_node e l) (log ++ deallocate e)
    ∙ append_assoc log (deallocate e) (deallocate_all m)

-- No cell is left: each would be that of an entry, whose node is gone.
destroy_entries-all :
    (m : List CacheEntry) (l : Cells) (log : List Event)
    → Kept m l
    → (n p : ℕ) → lookup n (destroy_entries m l log).0 ≢ some p
destroy_entries-all m l log v n p h =
    let cell = v.cells n p (lookup-destroy_some n m l log v.nodes h) in
    let real : cell.e.free_list_ref ≢ null = λ is. cell.real (sym cell.named ∙ is) in
    let gone = lookup-destroy_entry p m l log v.nodes cell.at real in
    ground (arith, gone, h, cell.named)

lookup-nothing : (l : Cells) → ((n p : ℕ) → lookup n l ≢ some p) → l ≡ []
lookup-nothing [] out = refl
lookup-nothing ((n, p) ∷ l) out = absurd (out n p (unfold lookup in ground arith))

-- The destructor of a cache that was used as said there frees the buffer and deletes the name of each
-- entry of the map once, and nothing else: when the second loop begins, the free list is empty.
pub destroy_frees_all :
    (reread : CacheEntry → Outcome CacheEntry) (size_quota : ℕ) {c : Cache}
    → Uses reread size_quota c
    → destroy c ≡ ok (c.log ++ deallocate_all c.cache_map)
unfolding destroy destroy_rest
destroy_frees_all reread quota {c} before =
    let v = Uses-Sound reread quota before in
    let left : (destroy_entries c.cache_map c.free_list c.log).0 ≡ [] =
      lookup-nothing (destroy_entries c.cache_map c.free_list c.log).0
        (destroy_entries-all c.cache_map c.free_list c.log v) in
    let freed_all = destroy_entries-log c.cache_map c.free_list c.log in rw left (ap ok freed_all)
