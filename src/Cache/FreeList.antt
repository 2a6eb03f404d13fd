-- ===== src/Cache/FreeList.antt =====
-- webserver/cache.cc: the entries by their addresses, and the free list by its nodes.
use libeventdisp.Base.{
  ℕ, ◌≡◌, refl, ◌≢◌, false, none, some, List, [], ◌∷◌, ◌++◌, ◌==◌, if◌then◌else◌, lookup,
  Bool-cases, inl, inr, ◌∙◌, subst, arith,
}
use libeventdisp.FastFifo.Spec.{Cells, push, remove}
use libeventdisp.Cache.Defs.{Ptr, CacheEntry, find, entry_at, update, erase}

-- No two entries have one address.
abbrev pub Apart : List CacheEntry → Type 0
Apart [] = Unit
Apart (e ∷ m) = (entry_at e.address m ≡ none) × Apart m

-- No two cells have one node.
abbrev pub Nodes : Cells → Type 0
Nodes [] = Unit
Nodes ((a, x) ∷ l) = (lookup a l ≡ none) × Nodes l

pub entry_at-address :
    (p : Ptr) (m : List CacheEntry) {e : CacheEntry} → entry_at p m ≡ some e → e.address ≡ p
unfolding entry_at
entry_at-address p [] h = cc
entry_at-address p (g ∷ m) h = elim (Bool-cases (g.address == p)) [
  | inl here ↦ ground arith
  | inr there ↦ entry_at-address p m (rw there at h)
]

pub entry_at-find_name :
    (key : ℕ) (m : List CacheEntry) {e : CacheEntry}
    → Apart m
    → find key m ≡ some e
    → entry_at e.address m ≡ some e
unfolding entry_at find
entry_at-find_name key [] d h = cc
entry_at-find_name key (g ∷ m) {e} (out, d) h = elim (Bool-cases (g.name == key)) [
  | inl here ↦ ground arith
  | inr there ↦
      let found : entry_at e.address m ≡ some e = entry_at-find_name key m d (rw there at h) in
      let differ : g.address ≢ e.address = λ same. ground arith in ground arith
]

-- A change of an entry keeps its address.
pub entry_at-update :
    (p : Ptr) (key : ℕ) (f : CacheEntry) (m : List CacheEntry) {e : CacheEntry}
    → Apart m
    → find key m ≡ some e
    → f.address ≡ e.address
    → entry_at p (update key f m) ≡ (if e.address == p then some f else entry_at p m)
unfolding entry_at find update
entry_at-update p key f [] d h same = cc
entry_at-update p key f (g ∷ m) {e} (out, d) h same = elim (Bool-cases (g.name == key)) [
  | inl here ↦ ground arith
  | inr there ↦
      let found = entry_at-find_name key m d (rw there at h) in
      let rest = entry_at-update p key f m d (rw there at h) same in
      let differ : g.address ≢ e.address = λ is. ground arith in ground arith
]

pub update-Apart :
    (key : ℕ) (f : CacheEntry) (m : List CacheEntry) {e : CacheEntry}
    → Apart m
    → find key m ≡ some e
    → f.address ≡ e.address
    → Apart (update key f m)
unfolding find update
update-Apart key f [] d h same = d
update-Apart key f (g ∷ m) {e} (out, d) h same = elim (Bool-cases (g.name == key)) [
  | inl here ↦
      rw here (
        let is : g.address ≡ f.address = ground arith in subst (λ a. entry_at a m ≡ none) is out,
        d,
      )
  | inr there ↦
      let found = entry_at-find_name key m d (rw there at h) in
      let rest = entry_at-update g.address key f m d (rw there at h) same in
      let differ : (e.address == g.address) ≡ false = ground arith in
      rw there (rest ∙ rw differ out, update-Apart key f m d (rw there at h) same)
]

pub entry_at-erase :
    (p : Ptr) (key : ℕ) (m : List CacheEntry) {e : CacheEntry}
    → Apart m
    → find key m ≡ some e
    → entry_at p (erase key m) ≡ (if e.address == p then none else entry_at p m)
unfolding entry_at find erase
entry_at-erase p key [] d h = cc
entry_at-erase p key (g ∷ m) {e} (out, d) h = elim (Bool-cases (g.name == key)) [
  | inl here ↦ ground arith
  | inr there ↦
      let found = entry_at-find_name key m d (rw there at h) in
      let rest = entry_at-erase p key m d (rw there at h) in
      let differ : g.address ≢ e.address = λ is. ground arith in ground arith
]

pub erase-Apart :
    (key : ℕ) (m : List CacheEntry) {e : CacheEntry}
    → Apart m
    → find key m ≡ some e
    → Apart (erase key m)
unfolding find erase
erase-Apart key [] d h = d
erase-Apart key (g ∷ m) {e} (out, d) h = elim (Bool-cases (g.name == key)) [
  | inl here ↦ rw here d
  | inr there ↦
      let found = entry_at-find_name key m d (rw there at h) in
      let rest = entry_at-erase g.address key m d (rw there at h) in
      let differ : (e.address == g.address) ≡ false = ground arith in
      rw there (rest ∙ rw differ out, erase-Apart key m d (rw there at h))
]

pub entry_at-append :
    (p : Ptr) (f : CacheEntry) (m : List CacheEntry)
    → entry_at f.address m ≡ none
    → entry_at p (m ++ f ∷ []) ≡ (if f.address == p then some f else entry_at p m)
unfolding entry_at
entry_at-append p f [] out = refl
entry_at-append p f (g ∷ m) out = elim (Bool-cases (g.address == f.address)) [
  | inl here ↦ absurd (ground arith)
  | inr there ↦ ground (arith, entry_at-append p f m (rw there at out))
]

pub append-Apart :
    (f : CacheEntry) (m : List CacheEntry)
    → Apart m
    → entry_at f.address m ≡ none
    → Apart (m ++ f ∷ [])
unfolding entry_at
append-Apart f [] d out = (refl, tt)
append-Apart f (g ∷ m) (new, d) out = elim (Bool-cases (g.address == f.address)) [
  | inl here ↦ absurd (ground arith)
  | inr there ↦
      let out' = rw there at out in
      let other : (f.address == g.address) ≡ false = ground arith in
      (entry_at-append g.address f m out' ∙ rw other new, append-Apart f m d out')
]

pub lookup-push :
    (n node item : ℕ) (l : Cells)
    → lookup node l ≡ none
    → lookup n (push node item l) ≡ (if node == n then some item else lookup n l)
unfolding lookup push
lookup-push n node item [] out = refl
lookup-push n node item ((a, x) ∷ l) out = elim (Bool-cases (a == node)) [
  | inl here ↦ absurd (ground arith)
  | inr there ↦ ground (arith, lookup-push n node item l (rw there at out))
]

pub push-Nodes :
    (node item : ℕ) (l : Cells) → Nodes l → lookup node l ≡ none → Nodes (push node item l)
unfolding lookup push
push-Nodes node item [] d out = (refl, tt)
push-Nodes node item ((a, x) ∷ l) (new, d) out = elim (Bool-cases (a == node)) [
  | inl here ↦ absurd (ground arith)
  | inr there ↦
      let out' = rw there at out in
      let other : (node == a) ≡ false = ground arith in
      (lookup-push a node item l out' ∙ rw other new, push-Nodes node item l d out')
]

pub lookup-remove :
    (n node : ℕ) (l : Cells)
    → Nodes l
    → lookup n (remove node l) ≡ (if node == n then none else lookup n l)
unfolding lookup remove
lookup-remove n node [] d = ground arith
lookup-remove n node ((a, x) ∷ l) (new, d) = ground (arith, lookup-remove n node l d)

pub remove-Nodes : (node : ℕ) (l : Cells) → Nodes l → Nodes (remove node l)
unfolding lookup remove
remove-Nodes node [] d = d
remove-Nodes node ((a, x) ∷ l) (new, d) = elim (Bool-cases (a == node)) [
  | inl here ↦ rw here d
  | inr there ↦ rw there (ground (arith, lookup-remove a node l d), remove-Nodes node l d)
]
