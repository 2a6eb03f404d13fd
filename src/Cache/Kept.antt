-- ===== src/Cache/Kept.antt =====
-- webserver/cache.cc: the reference counts and the free list agree: an entry is on the free list, with
-- the node that it names, if nobody uses it, and is not if somebody does.
use libeventdisp.Base.{
  ℕ, ◌<◌, ◌≡◌, refl, ◌≢◌, false, Option, none, some, List, [], ◌∷◌, ◌++◌, ◌==◌, lookup, Bool-cases,
  inl, inr, sym, ◌∙◌, ap, subst, arith,
}
use libeventdisp.FastFifo.Spec.{Cells}
use libeventdisp.Cache.Defs.{Ptr, null, CacheEntry, find, entry_at, update}
use libeventdisp.Cache.Slots.{Distinct, update-Distinct, find-append}
use libeventdisp.Cache.FreeList.{
  Apart, Nodes, entry_at-find_name, entry_at-update, update-Apart, entry_at-append, append-Apart,
}

-- An entry at `p`, and whether it is on the free list.
pub data Fits (l : Cells) (p : Ptr) (e : CacheEntry) : Type 0 where
  in_use : e.free_list_ref ≡ null → 0 < e.ref_count → Fits l p e
  idle :
      e.free_list_ref ≢ null
      → e.ref_count ≡ 0
      → e.is_reserved ≡ false
      → lookup e.free_list_ref l ≡ some p
      → Fits l p e

-- A cell of the free list is that of an entry.
pub record Cell (m : List CacheEntry) (n : ℕ) (p : Ptr) : Type 0 where
  pub e : CacheEntry
  pub at : entry_at p m ≡ some e
  pub named : e.free_list_ref ≡ n
  pub real : n ≢ null

pub record Kept (m : List CacheEntry) (l : Cells) : Type 0 where
  pub names : Distinct m
  pub apart : Apart m
  pub nodes : Nodes l
  pub cells : (n p : ℕ) → lookup n l ≡ some p → Cell m n p
  pub fits : (p : Ptr) (e : CacheEntry) → entry_at p m ≡ some e → Fits l p e

pub Kept-empty : Kept [] []
unfolding entry_at lookup
Kept-empty = record {
  names = tt;
  apart = tt;
  nodes = tt;
  cells = λ n p h. absurd (ground (arith, h));
  fits = λ p e h. absurd (ground (arith, h));
}

same_entry : {e f : CacheEntry} {o : Option CacheEntry} → o ≡ some e → o ≡ some f → e ≡ f
same_entry a b = ground (arith, a, b)

-- An entry is changed where the free list is not.
pub Kept-update :
    {m : List CacheEntry} {l : Cells} {e : CacheEntry} (key : ℕ) (f : CacheEntry)
    → Kept m l
    → find key m ≡ some e
    → f.name ≡ key
    → f.address ≡ e.address
    → f.free_list_ref ≡ e.free_list_ref
    → Fits l e.address f
    → Kept (update key f m) l
Kept-update {m} {l} {e} key f v found named here flr fit =
    let at = entry_at-find_name key m v.apart found in
    record {
      names = update-Distinct key f m named v.names;
      apart = update-Apart key f m v.apart found here;
      nodes = v.nodes;
      cells = λ n p h.
          let old = v.cells n p h in
          let now = entry_at-update p key f m v.apart found here in
          elim (Bool-cases (e.address == p)) [
            | inl is ↦
                (let same : old.e ≡ e = ground (arith, old.at, at, is) in
                  record {
                    e = f;
                    at = now ∙ rw is refl;
                    named = flr ∙ ap (λ g. g.free_list_ref) (sym same) ∙ old.named;
                    real = old.real;
                  })
            | inr other ↦ record {
              e = old.e;
              at = now ∙ rw other old.at;
              named = old.named;
              real = old.real;
            }
          ];
      fits = λ p g h.
          let now = entry_at-update p key f m v.apart found here in
          elim (Bool-cases (e.address == p)) [
            | inl is ↦
                (let same : f ≡ g = ground (arith, now, is, h) in
                  let there : e.address ≡ p = ground (arith, is) in
                  subst (λ q. Fits l q g) there (subst (Fits l e.address) same fit))
            | inr other ↦ v.fits p g (ground (arith, now, other, h))
          ];
    }

append-Distinct :
    (f : CacheEntry) (m : List CacheEntry)
    → Distinct m
    → find f.name m ≡ none
    → Distinct (m ++ f ∷ [])
unfolding find
append-Distinct f [] d out = (refl, tt)
append-Distinct f (g ∷ m) (new, d) out = elim (Bool-cases (g.name == f.name)) [
  | inl here ↦ absurd (ground arith)
  | inr there ↦
      (ground (arith, find-append g.name f m, new), append-Distinct f m d (rw there at out))
]

-- An entry is made.
pub Kept-append :
    {m : List CacheEntry} {l : Cells} (f : CacheEntry)
    → Kept m l
    → find f.name m ≡ none
    → entry_at f.address m ≡ none
    → f.free_list_ref ≡ null
    → 0 < f.ref_count
    → Kept (m ++ f ∷ []) l
Kept-append {m} {l} f v new apart off used = record {
  names = append-Distinct f m v.names new;
  apart = append-Apart f m v.apart apart;
  nodes = v.nodes;
  cells = λ n p h.
      let old = v.cells n p h in
      let now = entry_at-append p f m apart in
      let other : (f.address == p) ≡ false = ground (arith, old.at, apart) in
      record { e = old.e; at = now ∙ rw other old.at; named = old.named; real = old.real };
  fits = λ p g h.
      let now = entry_at-append p f m apart in
      elim (Bool-cases (f.address == p)) [
        | inl is ↦
            (let same : f ≡ g = ground (arith, now, is, h) in
              subst (Fits l p) same (in_use off used))
        | inr other ↦ v.fits p g (ground (arith, now, other, h))
      ];
}
