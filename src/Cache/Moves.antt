-- ===== src/Cache/Moves.antt =====
-- webserver/cache.cc: an entry leaves the free list, goes to its end, or is evicted.
use libeventdisp.Base.{
  ℕ, ◌<◌, ◌≡◌, ◌≢◌, false, none, some, List, ◌∷◌, ◌==◌, lookup, Bool-cases, inl, inr, ◌∙◌, subst,
  arith,
}
use libeventdisp.FastFifo.Spec.{Cells, push, remove}
use libeventdisp.Cache.Defs.{Ptr, null, CacheEntry, find, entry_at, update, erase}
use libeventdisp.Cache.Slots.{update-Distinct, erase-Distinct, entry_at-find}
use libeventdisp.Cache.FreeList.{
  Nodes, entry_at-address, entry_at-find_name, entry_at-update, update-Apart, entry_at-erase,
  erase-Apart, lookup-push, push-Nodes, lookup-remove, remove-Nodes,
}
use libeventdisp.Cache.Kept.{Fits, in_use, idle, Kept}

Fits-remove :
    {l : Cells} {p : Ptr} {e : CacheEntry} (n : ℕ)
    → Nodes l
    → (lookup n l ≢ some p)
    → Fits l p e
    → Fits (remove n l) p e
Fits-remove n d other (in_use off used) = in_use off used
Fits-remove {l} {p} {e} n d other (idle on unused free at) =
    idle on unused free (ground (arith, lookup-remove e.free_list_ref n l d, at, other))

-- An entry leaves the free list.
pub Kept-take :
    {m : List CacheEntry} {l : Cells} {e : CacheEntry} (key : ℕ) (f : CacheEntry)
    → Kept m l
    → find key m ≡ some e
    → f.name ≡ key
    → f.address ≡ e.address
    → f.free_list_ref ≡ null
    → 0 < f.ref_count
    → lookup e.free_list_ref l ≡ some e.address
    → Kept (update key f m) (remove e.free_list_ref l)
Kept-take {m} {l} {e} key f v found named here off used cell =
    let at = entry_at-find_name key m v.apart found in
    record {
      names = update-Distinct key f m named v.names;
      apart = update-Apart key f m v.apart found here;
      nodes = remove-Nodes e.free_list_ref l v.nodes;
      cells = λ n p h.
          let now = entry_at-update p key f m v.apart found here in
          let still = lookup-remove n e.free_list_ref l v.nodes in
          let apart : e.free_list_ref ≢ n = λ same. ground (arith, still, h, same) in
          let was : lookup n l ≡ some p = ground (arith, still, h, apart) in
          let old = v.cells n p was in
          let other : (e.address == p) ≡ false = ground (arith, old.at, at, old.named, apart) in
          record { e = old.e; at = now ∙ rw other old.at; named = old.named; real = old.real };
      fits = λ p g h.
          let now = entry_at-update p key f m v.apart found here in
          elim (Bool-cases (e.address == p)) [
            | inl is ↦
                (let same : f ≡ g = ground (arith, now, is, h) in
                  subst (Fits (remove e.free_list_ref l) p) same (in_use off used))
            | inr other ↦
                Fits-remove e.free_list_ref v.nodes (λ is. ground (arith, is, cell, other))
                  (v.fits p g (ground (arith, now, other, h)))
          ];
    }

Fits-push :
    {l : Cells} {p : Ptr} {e : CacheEntry} (n item : ℕ)
    → lookup n l ≡ none
    → Fits l p e
    → Fits (push n item l) p e
Fits-push n item new (in_use off used) = in_use off used
Fits-push {l} {p} {e} n item new (idle on unused free at) =
    idle on unused free (ground (arith, lookup-push e.free_list_ref n item l new, at, new))

-- An entry goes to the end of the free list, with a new node.
pub Kept-release :
    {m : List CacheEntry} {l : Cells} {e : CacheEntry} (key : ℕ) (f : CacheEntry)
    → Kept m l
    → find key m ≡ some e
    → f.name ≡ key
    → f.address ≡ e.address
    → e.free_list_ref ≡ null
    → f.free_list_ref ≢ null
    → f.ref_count ≡ 0
    → f.is_reserved ≡ false
    → lookup f.free_list_ref l ≡ none
    → Kept (update key f m) (push f.free_list_ref e.address l)
Kept-release {m} {l} {e} key f v found named here off on unused free new =
    let at = entry_at-find_name key m v.apart found in
    record {
      names = update-Distinct key f m named v.names;
      apart = update-Apart key f m v.apart found here;
      nodes = push-Nodes f.free_list_ref e.address l v.nodes new;
      cells = λ n p h.
          let now = entry_at-update p key f m v.apart found here in
          let all = lookup-push n f.free_list_ref e.address l new in
          elim (Bool-cases (f.free_list_ref == n)) [
            | inl is ↦
                (let there : e.address ≡ p = ground (arith, all, h, is) in
                  record {
                    e = f;
                    at = ground (arith, now, there);
                    named = ground (arith, is);
                    real = ground (arith, is, on);
                  })
            | inr differs ↦
                (let old = v.cells n p (ground (arith, all, h, differs)) in
                  let other : (e.address == p) ≡ false =
                    ground (arith, old.at, at, old.named, old.real, off) in
                  record {
                    e = old.e;
                    at = now ∙ rw other old.at;
                    named = old.named;
                    real = old.real;
                  })
          ];
      fits = λ p g h.
          let now = entry_at-update p key f m v.apart found here in
          let self = lookup-push f.free_list_ref f.free_list_ref e.address l new in
          elim (Bool-cases (e.address == p)) [
            | inl is ↦
                (let same : f ≡ g = ground (arith, now, is, h) in
                  subst (Fits (push f.free_list_ref e.address l) p) same
                    (idle on unused free (ground (arith, self, is))))
            | inr other ↦
                Fits-push f.free_list_ref e.address new (v.fits p g (ground (arith, now, other, h)))
          ];
    }

Fits-tail :
    {l : Cells} {q : Ptr} {e : CacheEntry} (n p : ℕ) → p ≢ q → Fits ((n, p) ∷ l) q e → Fits l q e
unfolding lookup
Fits-tail n p other (in_use off used) = in_use off used
Fits-tail n p other (idle on unused free at) = idle on unused free (ground (arith, at, other))

-- The first entry of the free list is evicted.
pub Kept-evict :
    {m : List CacheEntry} {l : Cells} {e : CacheEntry} (n p : ℕ)
    → Kept m ((n, p) ∷ l)
    → entry_at p m ≡ some e
    → Kept (erase e.name m) l
unfolding lookup
Kept-evict {m} {l} {e} n p v at =
    let found = entry_at-find p m v.names at in
    let here = entry_at-address p m at in
    record {
      names = erase-Distinct e.name m v.names;
      apart = erase-Apart e.name m v.apart found;
      nodes = v.nodes.1;
      cells = λ k q h.
          let now = entry_at-erase q e.name m v.apart found in
          let old = v.cells k q (ground (arith, h, v.nodes.0)) in
          let first = v.cells n p (ground arith) in
          let differ : n ≢ k = λ same. ground (arith, h, v.nodes.0, same) in
          let other : (e.address == q) ≡ false =
            ground (arith, here, first.at, first.named, old.at, old.named, differ) in
          record { e = old.e; at = now ∙ rw other old.at; named = old.named; real = old.real };
      fits = λ q g h.
          let now = entry_at-erase q e.name m v.apart found in
          elim (Bool-cases (e.address == q)) [
            | inl is ↦ absurd (ground (arith, now, is, h))
            | inr other ↦
                Fits-tail n p (λ is. ground (arith, is, here, other))
                  (v.fits q g (ground (arith, now, other, h)))
          ];
    }
