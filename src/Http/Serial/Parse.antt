-- ===== src/Http/Serial/Parse.antt =====
-- webserver/svr_http.cc: what `svr_http_parse` leaves behind: the packages of the request, in order.
use libeventdisp.Base.{
  ◌-◌, ◌≡◌, refl, true, false, some, List, [], ◌∷◌, ◌==◌, length, Bool-cases, inl, inr, ap, ok,
  ◌>>=◌, arith,
}
use libeventdisp.Http.Text.{Bytes}
use libeventdisp.Http.Package.{Ptr, null, hs_parsing, Hpkg, task_read, task_fetch, Session, save}
use libeventdisp.Http.Final.{no_write, is_some, final}
use libeventdisp.Http.Chain.{Live}
use libeventdisp.Http.Final.{queued, final_aio}
use libeventdisp.Http.Serial.{IsOpen, to_read, to_fetch, Lands, Ctx, Ctx-add}
use libeventdisp.Http.Parse.{parse_end, parse, parse_aio}
use libeventdisp.Http.Serial.Root.{
  RootCtx, RootCtx-load, RootCtx-save, RootCtx-add, final_root-Lands, root_fails-Lands,
}
use libeventdisp.Http.Requests.{link_all, requests, parse_loop-link_all}
use libeventdisp.Http.Serial.Link.{Grown}
use libeventdisp.Http.Serial.Grow.{link_all-Grown}

pub parse_end-Lands :
    {root : Ptr} {r : Hpkg} (l : List Ptr) {t : Session} {fget : Ptr}
    → Grown root r l t fget
    → Lands root (ok (parse_end root (t, fget)))
parse_end-Lands {root} {r} [] {t} {fget} x =
    let no_get : fget ≡ null = x.siblings in
    let ctx : RootCtx root r t = record {
      heap = record {
        root_ne = x.root_ne;
        root_at = x.root_at;
        no_parent = x.no_parent;
        no_child = x.last_child;
        only = λ q nr. x.only q nr refl;
        below = x.below;
      };
      books = x.books;
      idle = x.idle;
    } in
    rw no_get (RootCtx-add (task_read root) ctx to_read x.is_open)
parse_end-Lands {root} {r} (q ∷ l) {t} {fget} x =
    let (first, ne, nr, once, (k, at_q, new, rest)) = x.siblings in
    let some_get : (q == null) ≡ false = ground arith in
    let heap : Live t.pkgs t.fresh root q k l = record {
      r = r;
      root_ne = x.root_ne;
      root_at = x.root_at;
      no_parent = x.no_parent;
      c_ne = ne;
      c_root = nr;
      once = once;
      c_at = at_q;
      parent = new.parent;
      siblings = rest;
      only = x.only;
      below = x.below;
      all_below = x.all_below;
    } in
    let ctx : Ctx root q k l t 0 = record {
      heap = heap;
      books = x.books;
      idle = x.idle;
      is_open = x.is_open;
    } in
    rw (first, some_get)
      (Ctx-add (task_fetch q) ctx (to_fetch new.no_head new.no_key new.at_start) refl)

-- The state from which `svr_http_parse` makes packages.
RootCtx-Grown :
    {root : Ptr} {r : Hpkg} {s : Session} → RootCtx root r s → IsOpen s.cst → Grown root r [] s null
RootCtx-Grown x o = record {
  root_ne = x.heap.root_ne;
  root_at = x.heap.root_at;
  no_parent = x.heap.no_parent;
  last_child = x.heap.no_child;
  siblings = refl;
  only = λ q nr out. x.heap.only q nr;
  below = x.heap.below;
  all_below = ground arith;
  books = x.books;
  idle = x.idle;
  is_open = o;
}

parse-makes :
    {root : Ptr} {r : Hpkg} {s : Session} (buf : Bytes)
    → RootCtx root r s
    → no_write s.cst ≡ false
    → parse root buf s ≡ (
        link_all root
          (requests (length buf) buf (length buf - 1))
          (save root (record r { hst = hs_parsing }) s, null)
        >>= λ st. ok (parse_end root st))
unfolding parse
parse-makes {root = root} {r = r} {s = s} buf x can_write =
    let at = RootCtx-load x in
    let loop =
      parse_loop-link_all (length buf) root buf (length buf - 1)
        (save root (record r { hst = hs_parsing }) s, null) (omega arith) in
    rw (at, can_write, loop) refl

parse-Lands :
    {root : Ptr} {r : Hpkg} {s : Session} (buf : Bytes)
    → RootCtx root r s
    → IsOpen s.cst
    → no_write s.cst ≡ false
    → Lands root (parse root buf s)
parse-Lands {root = root} {r = r} buf x o can_write =
    let r' = record r { hst = hs_parsing } in
    let texts = requests (length buf) buf (length buf - 1) in
    let all = link_all-Grown texts null [] (RootCtx-Grown (RootCtx-save r' x refl refl) o) in
    rw (parse-makes buf x can_write, all.returns) (parse_end-Lands all.l all.grown)

parse_aio-parses :
    {root : Ptr} {r : Hpkg} {s : Session} (buf : Bytes)
    → RootCtx root r s
    → is_some r.chead ≡ true
    → no_write s.cst ≡ false
    → (length buf == 0) ≡ false
    → parse_aio root buf s
      ≡ parse root buf (save root (record r { hst = hs_parsing; chead = some buf }) s)
unfolding parse_aio
parse_aio-parses buf x head can_write full =
    let at = RootCtx-load x in rw (at, head, can_write, full) refl

parse_aio-ends :
    {root : Ptr} {r : Hpkg} {s : Session} (buf : Bytes)
    → RootCtx root r s
    → is_some r.chead ≡ true
    → no_write s.cst ≡ false
    → (length buf == 0) ≡ true
    → parse_aio root buf s
      ≡ final_aio queued root (save root (record r { hst = hs_parsing; chead = some buf }) s)
unfolding parse_aio
parse_aio-ends buf x head can_write empty =
    let at = RootCtx-load x in rw (at, head, can_write, empty) refl

parse_aio-shut :
    {root : Ptr} {r : Hpkg} {s : Session} (buf : Bytes)
    → RootCtx root r s
    → is_some r.chead ≡ true
    → no_write s.cst ≡ true
    → parse_aio root buf s ≡ final root s
unfolding parse_aio
parse_aio-shut buf x head half = let at = RootCtx-load x in rw (at, head, half) refl

-- The bytes of a request have been read.
pub parse_aio-Lands :
    {root : Ptr} {r : Hpkg} {s : Session} (buf : Bytes)
    → RootCtx root r s
    → IsOpen s.cst
    → is_some r.chead ≡ true
    → Lands root (parse_aio root buf s)
parse_aio-Lands {r = r} buf x (inr half) head =
    rw (parse_aio-shut buf x head (ap no_write half)) (final_root-Lands x)
parse_aio-Lands {r = r} buf x (inl on) head =
    let can_write = ap no_write on in
    let x' = RootCtx-save (record r { hst = hs_parsing; chead = some buf }) x refl refl in
    elim (Bool-cases (length buf == 0)) [
      | inl e ↦
          rw (parse_aio-ends buf x head can_write e)
            (root_fails-Lands queued x' (inl on) (inr refl))
      | inr full ↦
          rw (parse_aio-parses buf x head can_write full) (parse-Lands buf x' (inl on) can_write)
    ]
