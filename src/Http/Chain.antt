-- ===== src/Http/Chain.antt =====
-- webserver/svr_http.cc: the packages of a connection on the heap, while one of them is being answered:
-- the root, which reads the requests, the package at hand, and its siblings in order.
use libeventdisp.Base.{
  ◌<◌, ◌≡◌, refl, ◌≢◌, false, Option, none, some, List, [], ◌∷◌, ◌==◌, member, All, subst, sym, ◌∙◌,
  arith,
}
use libeventdisp.Http.Package.{Ptr, null, Hpkg, Heap, write}

-- A package that has only been parsed.
pub record IsFresh (root : Ptr) (k : Hpkg) : Type 0 where
  pub parent : k.ppg ≡ root
  pub no_head : k.chead ≡ none
  pub no_key : k.headkey ≡ none
  pub at_start : k.tr_offset ≡ 0

-- From `next` on, the `nsg` pointers lead through fresh packages at the addresses of `l`, all different.
abbrev pub Siblings : Heap → Ptr → Ptr → List Ptr → Type 0
Siblings h root next [] = next ≡ null
Siblings h root next (q ∷ l) =
    (next ≡ q)
    × (q ≢ null)
    × (q ≢ root)
    × (member q l ≡ false)
    × ((k : Hpkg) × (h q ≡ some k) × IsFresh root k × Siblings h root k.nsg l)

pub Siblings-write :
    (h : Heap) (root next : Ptr) (l : List Ptr) (c : Ptr) (v : Option Hpkg)
    → member c l ≡ false
    → Siblings h root next l
    → Siblings (write h c v) root next l
unfolding write
Siblings-write h root next [] c v out e = e
Siblings-write h root next (q ∷ l) c v out (e, ne, nr, once, (k, at_q, new, rest)) =
    let differ : (q == c) ≡ false = ground arith in
    (e, ne, nr, once, (k, ground arith, new, Siblings-write h root k.nsg l c v (ground arith) rest))

pub Siblings-root :
    (h : Heap) (root next : Ptr) (l : List Ptr) → Siblings h root next l → member root l ≡ false
Siblings-root h root next [] e = refl
Siblings-root h root next (q ∷ l) (e, ne, nr, once, (k, at_q, new, rest)) =
    ground (arith, Siblings-root h root k.nsg l rest)

-- The heap while only the root is there.
pub record Alone (h : Heap) (fresh root : Ptr) (r : Hpkg) : Type 0 where
  pub root_ne : root ≢ null
  pub root_at : h root ≡ some r
  pub no_parent : r.ppg ≡ null
  pub no_child : r.lcg ≡ null
  pub only : (q : Ptr) → q ≢ root → h q ≡ none
  pub below : root < fresh

-- The heap while `c` is at hand and the packages at `l` are to follow.
pub record Live (h : Heap) (fresh root c : Ptr) (k : Hpkg) (l : List Ptr) : Type 0 where
  pub r : Hpkg
  pub root_ne : root ≢ null
  pub root_at : h root ≡ some r
  pub no_parent : r.ppg ≡ null
  pub c_ne : c ≢ null
  pub c_root : c ≢ root
  pub once : member c l ≡ false
  pub c_at : h c ≡ some k
  pub parent : k.ppg ≡ root
  pub siblings : Siblings h root k.nsg l
  pub only : (q : Ptr) → q ≢ root → member q (c ∷ l) ≡ false → h q ≡ none
  pub below : root < fresh
  pub all_below : All (λ q. q < fresh) (c ∷ l)

-- A write to the package at hand that keeps its links.
pub Live-save :
    {h : Heap} {fresh root c : Ptr} {k : Hpkg} {l : List Ptr} (k' : Hpkg)
    → Live h fresh root c k l
    → k'.ppg ≡ k.ppg
    → k'.nsg ≡ k.nsg
    → Live (write h c (some k')) fresh root c k' l
unfolding write
Live-save {h} {fresh} {root} {c} {k} {l} k' v e n = record {
  r = v.r;
  root_ne = v.root_ne;
  root_at = ground arith;
  no_parent = v.no_parent;
  c_ne = v.c_ne;
  c_root = v.c_root;
  once = v.once;
  c_at = ground arith;
  parent = e ∙ v.parent;
  siblings =
      subst (λ m. Siblings (write h c (some k')) root m l) (sym n)
        (Siblings-write h root k.nsg l c (some k') v.once v.siblings);
  only = λ q nr out. ground (arith, v.only q nr out);
  below = v.below;
  all_below = v.all_below;
}

-- The last package is deleted, and the root forgets its children.
pub Live-end :
    {h : Heap} {fresh root c : Ptr} {k : Hpkg} (v : Live h fresh root c k [])
    → Alone
        (write (write h c none) root (some (record v.r { lcg = null })))
        fresh
        root
        (record v.r { lcg = null })
unfolding write
Live-end v = record {
  root_ne = v.root_ne;
  root_at = ground arith;
  no_parent = v.no_parent;
  no_child = refl;
  only = λ q nr. ground (arith, v.only q nr);
  below = v.below;
}

-- A package is deleted, and the next is at hand.
pub Live-next :
    {h : Heap} {fresh root c : Ptr} {k : Hpkg} (q : Ptr) (l : List Ptr)
    → Live h fresh root c k (q ∷ l)
    → (k' : Hpkg) × (k.nsg ≡ q) × IsFresh root k' × Live (write h c none) fresh root q k' l
unfolding write
Live-next {h} {fresh} {root} {c} {k} q l v =
    let (e, ne, nr, once, (k', at_q, new, rest)) = v.siblings in
    let c_q : member c (q ∷ l) ≡ false = v.once in
    (
      k',
      e,
      new,
      record {
        r = v.r;
        root_ne = v.root_ne;
        root_at = ground arith;
        no_parent = v.no_parent;
        c_ne = ne;
        c_root = nr;
        once = once;
        c_at = ground arith;
        parent = new.parent;
        siblings = Siblings-write h root k'.nsg l c none (ground arith) rest;
        only = λ p nr' out. ground (arith, v.only p nr');
        below = v.below;
        all_below = v.all_below.1;
      },
    )
