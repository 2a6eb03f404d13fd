-- ===== src/Http/Serial/Link.antt =====
-- webserver/svr_http.cc: how `svr_http_parse` puts the packages of a request behind each other.
use libeventdisp.Base.{
  ◌+◌, ◌<◌, ◌≡◌, refl, ◌≢◌, true, false, ◌||◌, none, some, List, [], ◌∷◌, ◌++◌, ◌==◌, member, All,
  subst, sym, ◌∙◌, arith,
}
use libeventdisp.Http.Package.{Ptr, null, Hpkg, Heap, Session}
use libeventdisp.Http.Chain.{IsFresh, Siblings}
use libeventdisp.Http.Serial.{IsOpen, Books}

abbrev pub last : List Ptr → Ptr
last [] = null
last (q ∷ []) = q
last (q ∷ p ∷ l) = last (p ∷ l)

-- The packages at `l` have been made, the first is to be fetched first, and the root knows the last.
pub record Grown (root : Ptr) (r : Hpkg) (l : List Ptr) (s : Session) (fget : Ptr) : Type 0 where
  pub root_ne : root ≢ null
  pub root_at : s.pkgs root ≡ some r
  pub no_parent : r.ppg ≡ null
  pub last_child : r.lcg ≡ last l
  pub siblings : Siblings s.pkgs root fget l
  pub only : (q : Ptr) → q ≢ root → member q l ≡ false → s.pkgs q ≡ none
  pub below : root < s.fresh
  pub all_below : All (λ q. q < s.fresh) l
  pub books : Books s l 0
  pub idle : s.pending ≡ []
  pub is_open : IsOpen s.cst

pub below_member : (l : List Ptr) (g : Ptr) → All (λ q. q < g) l → member g l ≡ false
below_member [] g h = refl
below_member (q ∷ l) g (b, h) = ground (arith, below_member l g h)

pub member-append_one :
    (q : Ptr) (l : List Ptr) (g : Ptr) → member q (l ++ g ∷ []) ≡ (member q l || q == g)
member-append_one q [] g = ground arith
member-append_one q (p ∷ l) g = ground (arith, member-append_one q l g)

pub All-append_one :
    (l : List Ptr) (g n : Ptr) → All (λ q. q < n) l → g < n → All (λ q. q < n) (l ++ g ∷ [])
All-append_one [] g n h b = ground arith
All-append_one (q ∷ l) g n (a, h) b = (a, All-append_one l g n h b)

pub All-weaken : (l : List Ptr) (g : Ptr) → All (λ q. q < g) l → All (λ q. q < g + 1) l
All-weaken [] g h = h
All-weaken (q ∷ l) g (a, h) = (omega arith, All-weaken l g h)

pub last-append_one : (l : List Ptr) (g : Ptr) → last (l ++ g ∷ []) ≡ g
last-append_one [] g = refl
last-append_one (q ∷ []) g = refl
last-append_one (q ∷ p ∷ l) g = last-append_one (p ∷ l) g

pub last-member : (q : Ptr) (l : List Ptr) → member (last (q ∷ l)) (q ∷ l) ≡ true
last-member q [] = ground arith
last-member q (p ∷ l) = ground (arith, last-member p l)

-- What is at the end of a chain.
pub Siblings-last :
    (h : Heap) (root next q : Ptr) (l : List Ptr)
    → Siblings h root next (q ∷ l)
    → (k : Hpkg) × (h (last (q ∷ l)) ≡ some k) × (last (q ∷ l) ≢ null) × (last (q ∷ l) ≢ root)
Siblings-last h root next q [] (e, ne, nr, once, (k, at_q, new, rest)) = (k, at_q, ne, nr)
Siblings-last h root next q (p ∷ l) (e, ne, nr, once, (k, at_q, new, rest)) =
    Siblings-last h root k.nsg p l rest

-- A chain that gets one more package, at an address that is new.
pub Siblings-append_one :
    (h h' : Heap) (root next g q : Ptr) (l : List Ptr) (gk k : Hpkg)
    → Siblings h root next (q ∷ l)
    → g ≢ null
    → g ≢ root
    → member g (q ∷ l) ≡ false
    → h' g ≡ some gk
    → IsFresh root gk
    → gk.nsg ≡ null
    → h (last (q ∷ l)) ≡ some k
    → h' (last (q ∷ l)) ≡ some (record k { nsg = g })
    → ((p : Ptr) → p ≢ g → p ≢ root → p ≢ last (q ∷ l) → h' p ≡ h p)
    → Siblings h' root next ((q ∷ l) ++ g ∷ [])
Siblings-append_one h h' root next g q [] gk k (e, ne, nr, once, (k₀, at_q, new, rest)) gne gnr out
      at_g fresh end at at' same =
    let is : k ≡ k₀ = ground (arith, at, at_q) in
    let fresh' : IsFresh root (record k { nsg = g }) =
      subst (λ m. IsFresh root (record m { nsg = g })) (sym is)
        (record {
          parent = new.parent;
          no_head = new.no_head;
          no_key = new.no_key;
          at_start = new.at_start;
        }) in
    (
      e,
      ne,
      nr,
      ground arith,
      (record k { nsg = g }, at', fresh', (refl, gne, gnr, refl, (gk, at_g, fresh, end))),
    )
Siblings-append_one h h' root next g q (p ∷ l) gk k (e, ne, nr, once, (k₀, at_q, new, rest)) gne gnr
      out at_g fresh end at at' same =
    let there = last-member p l in
    let here : h' q ≡ some k₀ = same q (ground arith) nr (ground arith) ∙ at_q in
    let rest' =
      Siblings-append_one h h' root k₀.nsg g p l gk k rest gne gnr (ground arith) at_g fresh end at
        at' same in
    (e, ne, nr, ground (arith, member-append_one q (p ∷ l) g), (k₀, here, new, rest'))
