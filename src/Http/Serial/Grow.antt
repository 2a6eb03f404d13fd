-- ===== src/Http/Serial/Grow.antt =====
-- webserver/svr_http.cc: `link`, the making of one package in `svr_http_parse`, and of all of them.
use libeventdisp.Base.{
  ◌+◌, ◌≡◌, refl, ◌≢◌, false, Option, some, List, [], ◌∷◌, ◌++◌, append_assoc, member, sym, ap, ◌∙◌,
  ok, ◌>>=◌, arith,
}
use libeventdisp.Http.Text.{Bytes}
use libeventdisp.Http.Package.{Ptr, null, Hpkg, new_hpkg, Heap, Session, write, load, save}
use libeventdisp.Http.Chain.{IsFresh}
use libeventdisp.Http.Text.{codes}
use libeventdisp.Http.Parse.{link}
use libeventdisp.Http.Requests.{link_all}
use libeventdisp.Http.Serial.Link.{
  last, Grown, below_member, member-append_one, All-append_one, All-weaken, last-append_one,
  last-member, Siblings-last, Siblings-append_one,
}

abbrev made : Ptr → Option Bytes → Option Bytes → Hpkg
made p uri ver = record new_hpkg { met = some (codes "GET"); uri = uri; ver = ver; ppg = p }

abbrev with_new : Ptr → Option Bytes → Option Bytes → Session → Session
with_new p uri ver s = record (save s.fresh (made p uri ver) s) {
  fresh = s.fresh + 1;
  created = s.created ++ s.fresh ∷ [];
}

link_first :
    {root : Ptr} {r : Hpkg} {s : Session} (fget : Ptr) (uri ver : Option Bytes)
    → Grown root r [] s fget
    → link root uri ver (s, fget)
      ≡ ok (save root (record r { lcg = s.fresh }) (with_new root uri ver s), s.fresh)
unfolding link load write
link_first fget uri ver x =
    let at = x.root_at in let no_child = x.last_child in let b = x.below in ground arith

link_next :
    {root : Ptr} {r k : Hpkg} {s : Session} (fget : Ptr) (uri ver : Option Bytes) (q : Ptr)
    (l : List Ptr)
    → Grown root r (q ∷ l) s fget
    → s.pkgs (last (q ∷ l)) ≡ some k
    → last (q ∷ l) ≢ null
    → last (q ∷ l) ≢ root
    → last (q ∷ l) ≢ s.fresh
    → link root uri ver (s, fget)
      ≡ ok (
        save root
            (record r { lcg = s.fresh })
            (save (last (q ∷ l)) (record k { nsg = s.fresh }) (with_new root uri ver s)),
        fget,
      )
unfolding link load write
link_next fget uri ver q l x at_last ne nr nf =
    let at = x.root_at in let child = x.last_child in let b = x.below in ground arith

-- One more package has been made.
record Linked (root : Ptr) (r : Hpkg) (l : List Ptr) (uri ver : Option Bytes) (s : Session)
    (fget : Ptr) : Type 0 where
  t : Session
  fget' : Ptr
  returns : link root uri ver (s, fget) ≡ ok (t, fget')
  grown : Grown root (record r { lcg = s.fresh }) (l ++ s.fresh ∷ []) t fget'

link_first-Grown :
    {root : Ptr} {r : Hpkg} {s : Session} (fget : Ptr) (uri ver : Option Bytes)
    → Grown root r [] s fget
    → Linked root r [] uri ver s fget
unfolding write
link_first-Grown {root} {r} {s} fget uri ver x =
    let b = x.below in
    let ne = x.root_ne in
    let h : Heap =
      write (write s.pkgs s.fresh (some (made root uri ver))) root
        (some (record r { lcg = s.fresh })) in
    let at_g : h s.fresh ≡ some (made root uri ver) = ground arith in
    let new : IsFresh root (made root uri ver) = record {
      parent = refl;
      no_head = refl;
      no_key = refl;
      at_start = refl;
    } in
    record {
      t = save root (record r { lcg = s.fresh }) (with_new root uri ver s);
      fget' = s.fresh;
      returns = link_first fget uri ver x;
      grown = record {
        root_ne = x.root_ne;
        root_at = ground arith;
        no_parent = x.no_parent;
        last_child = refl;
        siblings = (refl, ground arith, ground arith, refl, (made root uri ver, at_g, new, refl));
        only = λ q nr out. ground (arith, x.only q nr);
        below = omega arith;
        all_below = ground arith;
        books = record {
          order =
              ap (λ m. m ++ s.fresh ∷ []) x.books.order ∙ append_assoc s.finished [] (s.fresh ∷ []);
          not_closed = x.books.not_closed;
          balance = x.books.balance;
        };
        idle = x.idle;
        is_open = x.is_open;
      };
    }

link_next-Grown :
    {root : Ptr} {r : Hpkg} {s : Session} (fget : Ptr) (uri ver : Option Bytes) (q : Ptr)
    (l : List Ptr)
    → Grown root r (q ∷ l) s fget
    → Linked root r (q ∷ l) uri ver s fget
unfolding write
link_next-Grown {root} {r} {s} fget uri ver q l x =
    let g = s.fresh in
    let (k, at, ne, nr) = Siblings-last s.pkgs root fget q l x.siblings in
    let out : member g (q ∷ l) ≡ false = below_member (q ∷ l) g x.all_below in
    let in_l = last-member q l in
    let nf : last (q ∷ l) ≢ g = ground (arith, out, in_l) in
    let b = x.below in
    let rne = x.root_ne in
    let h : Heap =
      write
        (write (write s.pkgs g (some (made root uri ver))) (last (q ∷ l))
          (some (record k { nsg = g })))
        root (some (record r { lcg = g })) in
    let at_g : h g ≡ some (made root uri ver) = ground arith in
    let at_last : h (last (q ∷ l)) ≡ some (record k { nsg = g }) = ground arith in
    let same : (p : Ptr) → p ≢ g → p ≢ root → p ≢ last (q ∷ l) → h p ≡ s.pkgs p =
      λ p a b c. ground arith in
    let new : IsFresh root (made root uri ver) = record {
      parent = refl;
      no_head = refl;
      no_key = refl;
      at_start = refl;
    } in
    record {
      t =
          save root (record r { lcg = g })
            (save (last (q ∷ l)) (record k { nsg = g }) (with_new root uri ver s));
      fget' = fget;
      returns = link_next fget uri ver q l x at ne nr nf;
      grown = record {
        root_ne = x.root_ne;
        root_at = ground arith;
        no_parent = x.no_parent;
        last_child = sym (last-append_one (q ∷ l) g);
        siblings =
            Siblings-append_one s.pkgs h root fget g q l (made root uri ver) k x.siblings
              (ground arith) (ground arith) out at_g new refl at at_last same;
        only = λ p pr not_in.
            let e = member-append_one p (q ∷ l) g in
            let no_member : member p (q ∷ l) ≡ false = ground (arith, e, not_in) in
            let pg : p ≢ g = ground (arith, e, not_in) in
            let pl : p ≢ last (q ∷ l) =
              λ is. absurd (ground (arith, ap (λ n. member n (q ∷ l)) is, no_member, in_l)) in
            same p pg pr pl ∙ x.only p pr no_member;
        below = omega arith;
        all_below =
            All-append_one (q ∷ l) g (g + 1) (All-weaken (q ∷ l) g x.all_below) (omega arith);
        books = record {
          order = ap (λ m. m ++ g ∷ []) x.books.order ∙ append_assoc s.finished (q ∷ l) (g ∷ []);
          not_closed = x.books.not_closed;
          balance = x.books.balance;
        };
        idle = x.idle;
        is_open = x.is_open;
      };
    }

link-Grown :
    {root : Ptr} {r : Hpkg} {s : Session} (fget : Ptr) (uri ver : Option Bytes) (l : List Ptr)
    → Grown root r l s fget
    → Linked root r l uri ver s fget
link-Grown fget uri ver [] x = link_first-Grown fget uri ver x
link-Grown fget uri ver (q ∷ l) x = link_next-Grown fget uri ver q l x

-- The packages of the whole request have been made.
pub record AllLinked (root : Ptr) (texts : List (Option Bytes × Option Bytes)) (s : Session)
    (fget : Ptr) : Type 0 where
  pub t : Session
  pub fget' : Ptr
  pub r' : Hpkg
  pub l : List Ptr
  pub returns : link_all root texts (s, fget) ≡ ok (t, fget')
  pub grown : Grown root r' l t fget'

pub link_all-Grown :
    {root : Ptr} (texts : List (Option Bytes × Option Bytes)) {r : Hpkg} {s : Session} (fget : Ptr)
    (l : List Ptr)
    → Grown root r l s fget
    → AllLinked root texts s fget
unfolding link_all
link_all-Grown [] {r} {s} fget l x = record {
  t = s;
  fget' = fget;
  r' = r;
  l = l;
  returns = refl;
  grown = x;
}
link_all-Grown {root} ((uri, ver) ∷ texts) {r} {s} fget l x =
    let one = link-Grown fget uri ver l x in
    let more = link_all-Grown texts one.fget' (l ++ s.fresh ∷ []) one.grown in
    record {
      t = more.t;
      fget' = more.fget';
      r' = more.r';
      l = more.l;
      returns = ap (λ m. m >>= λ st. link_all root texts st) one.returns ∙ more.returns;
      grown = more.grown;
    }
