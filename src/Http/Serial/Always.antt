-- ===== src/Http/Serial/Always.antt =====
-- webserver/svr_http.cc: a whole connection, from `svr_conn_accept` on: any sequence of the calls that
-- come back to its handlers.
use libeventdisp.Base.{
  not, ◌≡◌, refl, Bool, true, false, Option, none, some, List, [], ◌∷◌, length, inl, subst, arith,
}
use libeventdisp.Http.Package.{
  Ptr, HttpWst, ws_head, ws_body, ws_uno, Hpkg, Pending, task_read, task_fetch, reading,
  writing_head, writing, fetching, waiting_head, waiting_body, Heap, Session,
}
use libeventdisp.Http.Serve.{Env, head_key}
use libeventdisp.Http.Final.{queued, running}
use libeventdisp.Http.Serial.{
  IsOpen, RootStage, to_read, reads, Stage, to_fetch, sends_head, sends_body, sends_400, fetches,
  waits_head, waits_body, held, AtChild, Serial, at_root, at_child, ended, Lands, Ctx,
}
use libeventdisp.Http.Serial.Body.{IsGood}
use libeventdisp.Http.Serial.Root.{RootCtx, root_fails-Lands, read-Lands}
use libeventdisp.Http.Serial.Body.{
  header_to_body_aio-Lands, body_rio-Lands, body_pio-Lands, body_wio-Lands, body_rio-ends-Lands,
}
use libeventdisp.Http.Serial.Head.{is_hollow, header_wio-Lands}
use libeventdisp.Http.Serial.Fetch.{fetch-Lands}
use libeventdisp.Http.Serial.Fail.{
  head_fails-Lands, body_fails-Lands, read_fails-Lands, body_cancelled-Lands,
}
use libeventdisp.Http.Serial.Parse.{parse_aio-Lands}
use libeventdisp.Http.Text.{Bytes}
use libeventdisp.Http.Steps.{Result, done, failed, resume}

abbrev pub body_state : HttpWst → Bool
body_state ws_body = true
body_state ws_head = false
body_state ws_uno = false

abbrev pub is_body : Option Hpkg → Bool
is_body none = false
is_body (some k) = body_state k.wst

-- The cache does not call back for the header of a package with no data.
abbrev pub uri_whole : Env → Option Bytes → Bool
uri_whole e none = true
uri_whole e (some u) = not (is_hollow (e.answer (head_key u)))

abbrev pub head_whole : Env → Option Hpkg → Bool
head_whole e none = true
head_whole e (some k) = uri_whole e k.uri

head_whole_lem :
    (e : Env) (o : Option Hpkg) (k : Hpkg) (u : Bytes)
    → head_whole e o ≡ true
    → o ≡ some k
    → k.uri ≡ some u
    → is_hollow (e.answer (head_key u)) ≡ false
head_whole_lem e o k u can at is = ground (arith, can, at, is)

-- The results that are considered: all but these. Nobody cancels the reservation of a header, neither
-- while the package waits nor before, and the write of a 400 answer does not fail.
abbrev pub returns : Pending → Result → Env → Heap → Bool
returns (task_read p) r e h = true
returns (task_fetch p) r e h = head_whole e (h p)
returns (reading p) r e h = true
returns (writing_head p d) r e h = true
returns (writing p d) (done t) e h = true
returns (writing p d) failed e h = is_body (h p)
returns (fetching p off) r e h = true
returns (waiting_head p key) (done t) e h = true
returns (waiting_head p key) failed e h = false
returns (waiting_body p key) r e h = true

root-Lands :
    {root : Ptr} {r : Hpkg} {s : Session} {x : Pending} (res : Result) (e : Env)
    → RootStage root r x
    → RootCtx root r s
    → IsOpen s.cst
    → Lands root (resume x res e s)
root-Lands res e to_read v o = read-Lands v o
root-Lands (done t) e (reads h head) v o = parse_aio-Lands t v o head
root-Lands failed e (reads h head) v o = root_fails-Lands queued v o (inl h)

child-Lands :
    {root c : Ptr} {k : Hpkg} {l : List Ptr} {s : Session} {x : Pending} (res : Result) (e : Env)
    → IsGood e
    → Stage c k s.cst x
    → Ctx root c k l s (held x k.wst)
    → returns x res e s.pkgs ≡ true
    → Lands root (resume x res e s)
child-Lands {c = c} {k = k} {s = s} res e good (to_fetch new no_key start) v can =
    fetch-Lands e good (λ u is. head_whole_lem e (s.pkgs c) k u can v.heap.c_at is) v new no_key
      start
child-Lands (done t) e good (sends_head on h w key u start) v can =
    header_to_body_aio-Lands e good v on u
child-Lands failed e good (sends_head on h w key u start) v can =
    head_fails-Lands queued v on h w key
child-Lands {root} {c} {k} {l} {s} (done t) e good (sends_body {t = d} on h w key u) v can =
    body_rio-Lands e (length t) good (subst (λ st. Ctx root c k l s (held (writing c d) st)) w v) on
      w key u
child-Lands {root} {c} {k} {l} {s} failed e good (sends_body {t = d} on h w key u) v can =
    body_fails-Lands queued (subst (λ st. Ctx root c k l s (held (writing c d) st)) w v) on h w key
child-Lands {root} {c} {k} {l} {s} (done t) e good (sends_400 {t = d} on h w no_key) v can =
    body_rio-ends-Lands e (length t) (subst (λ st. Ctx root c k l s (held (writing c d) st)) w v) w
child-Lands failed e good (sends_400 on h w no_key) v can =
    absurd (ground (arith, v.heap.c_at, w, can))
child-Lands (done t) e good (fetches on h w key u) v can = body_pio-Lands e t good v on key u
child-Lands failed e good (fetches on h w key u) v can = read_fails-Lands v on h w
child-Lands (done t) e good (waits_head on key u start) v can = header_wio-Lands t v on key u start
child-Lands failed e good (waits_head on key u start) v can = absurd (ground (arith, can))
child-Lands (done t) e good (waits_body on key u) v can = body_wio-Lands running t v on key u
child-Lands failed e good (waits_body on key u) v can = body_cancelled-Lands v

-- The call that is pending is made.
abbrev pub take_pending : Session → Session
take_pending s = record s { pending = [] }

pub AtChild-Ctx :
    {root : Ptr} {s : Session} (v : AtChild root s)
    → Ctx root v.c v.k v.l (take_pending s) (held v.x v.k.wst)
AtChild-Ctx v = record {
  heap = v.heap;
  books = record {
    order = v.books.order;
    not_closed = v.books.not_closed;
    balance = v.books.balance;
  };
  idle = refl;
  is_open = v.is_open;
}

pub same_head : {x y : Pending} {l : List Pending} → l ≡ x ∷ [] → l ≡ y ∷ [] → x ≡ y
same_head a b = ground (arith, a, b)

-- Whatever comes back for a pending call, its handler ends without a failed assertion or a use of a
-- null or dangling pointer, and the connection is as it should be.
pub resume-Lands :
    (root : Ptr) (x : Pending) (res : Result) (e : Env) {s : Session}
    → Serial root s
    → IsGood e
    → s.pending ≡ x ∷ []
    → returns x res e s.pkgs ≡ true
    → Lands root (resume x res e (take_pending s))
resume-Lands root x res e {s} (at_root v) good at can =
    let ctx : RootCtx root v.r (take_pending s) = record {
      heap = v.heap;
      books = record {
        order = v.books.order;
        not_closed = v.books.not_closed;
        balance = v.books.balance;
      };
      idle = refl;
    } in
    let stage = subst (RootStage root v.r) (same_head v.pending at) v.stage in
    root-Lands res e stage ctx v.is_open
resume-Lands root x res e {s} (at_child v) good at can =
    let same = same_head v.pending at in
    let ctx =
      subst (λ y. Ctx root v.c v.k v.l (take_pending s) (held y v.k.wst)) same (AtChild-Ctx v) in
    let stage = subst (Stage v.c v.k s.cst) same v.stage in
    child-Lands {s = take_pending s} res e good stage ctx can
resume-Lands root x res e (ended v) good at can = absurd (ground (arith, v.pending, at))
