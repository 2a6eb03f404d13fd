-- ===== src/Http/Serial/Reach.antt =====
-- webserver/svr_http.cc: the states that a connection can come to, and what holds in all of them.
use libeventdisp.Base.{
  ◌+◌, ◌≡◌, refl, ◌≢◌, ℕ, Option, ap, if◌then◌else◌, true, false, none, some, List, [], ◌∷◌, ◌++◌,
  append-nil, inl, inr, ◌⊎◌, subst, sym, ◌∙◌, Outcome, ok, crash, arith,
}
use libeventdisp.TcpServer.{ConnSt, cs_connected}
use libeventdisp.Http.Text.{Bytes}
use libeventdisp.Http.Package.{
  Heap, Ptr, null, Hpkg, new_hpkg, Pending, task_read, task_fetch, reading, writing_head, writing,
  fetching, waiting_head, waiting_body, Session, write,
}
use libeventdisp.Http.Serve.{Env}
use libeventdisp.Http.Final.{queued}
use libeventdisp.Http.Serial.{
  RootStage, to_read, reads, Stage, to_fetch, sends_head, sends_body, sends_400, fetches,
  waits_head, waits_body, held, Ended, Serial, at_root, at_child, ended, Lands, lands, Ctx,
}
use libeventdisp.Http.Serial.Body.{IsGood}
use libeventdisp.Http.Parse.{read}
use libeventdisp.Http.Serial.Root.{RootCtx, read-Lands}
use libeventdisp.Http.Serial.Fail.{bad_fails-crash}
use libeventdisp.Http.Steps.{Result, failed, resume}
use libeventdisp.Http.Serial.Always.{
  body_state, returns, take_pending, same_head, AtChild-Ctx, resume-Lands,
}

-- `svr_conn_accept` with the descriptor of a new peer: it makes the root, at an address that is not
-- null, and reads.
abbrev pub new_conn : Ptr → Session
new_conn root = record {
  cst = cs_connected;
  pkgs = write (λ q. none) root (some new_hpkg);
  fresh = root + 1;
  pending = [];
  created = [];
  finished = [];
  closes = 0;
  heads_taken = 0;
  heads_done = 0;
  bodies_taken = 0;
  bodies_done = 0;
  bodies_lost = 0;
}

-- Calls come back, one after the other, each with any result that is considered.
pub data Runs : Session → Session → Type 0 where
  stays : {s : Session} → Runs s s
  calls :
      {s t u : Session} (x : Pending) (res : Result) (e : Env)
      → IsGood e
      → s.pending ≡ x ∷ []
      → returns x res e s.pkgs ≡ true
      → resume x res e (take_pending s) ≡ ok t
      → Runs t u
      → Runs s u

abbrev pub Reached : Ptr → Session → Type 0
Reached root t = (s : Session) × (read root (new_conn root) ≡ ok s) × Runs s t

Lands-cases :
    {root : Ptr} {o : Outcome Session} → Lands root o → (t : Session) × (o ≡ ok t) × Serial root t
Lands-cases (lands {t} x) = (t, refl, x)

lands_ok :
    {root : Ptr} {o : Outcome Session} {t : Session} → Lands root o → o ≡ ok t → Serial root t
lands_ok {root} {t = t} x e =
    let (u, is, y) = Lands-cases x in
    let same : u ≡ t = ground (arith, is, e) in subst (Serial root) same y

Runs_Serial : {root : Ptr} {s t : Session} → Runs s t → Serial root s → Serial root t
Runs_Serial stays x = x
Runs_Serial {root} (calls y res e good at can is more) x =
    Runs_Serial more (lands_ok (resume-Lands root y res e x good at can) is)

accepted-Lands : (root : Ptr) → root ≢ null → Lands root (read root (new_conn root))
unfolding write
accepted-Lands root ne =
    let ctx : RootCtx root new_hpkg (new_conn root) = record {
      heap = record {
        root_ne = ne;
        root_at = ground arith;
        no_parent = refl;
        no_child = refl;
        only = λ q nr. ground arith;
        below = omega arith;
      };
      books = record { order = refl; not_closed = refl; balance = refl };
      idle = refl;
    } in
    read-Lands ctx (inl refl)

pub reached_Serial : (root : Ptr) {t : Session} → root ≢ null → Reached root t → Serial root t
reached_Serial root ne (s, is, more) = Runs_Serial more (lands_ok (accepted-Lands root ne) is)

Runs-snoc :
    {s t u : Session} (x : Pending) (res : Result) (e : Env)
    → Runs s t
    → IsGood e
    → t.pending ≡ x ∷ []
    → returns x res e t.pkgs ≡ true
    → resume x res e (take_pending t) ≡ ok u
    → Runs s u
Runs-snoc x res e stays good at can is = calls x res e good at can is stays
Runs-snoc x res e (calls y res' e' g' at' can' is' more) good at can is =
    calls y res' e' g' at' can' is' (Runs-snoc x res e more good at can is)

pub accepted-Reached : (root : Ptr) → root ≢ null → (s : Session) × Reached root s
accepted-Reached root ne =
    let (s, is, y) = Lands-cases (accepted-Lands root ne) in (s, (s, is, stays))

-- From every state that a connection can come to, where the cache answers as the code asserts, and for
-- every result but a failed write of a 400 answer and a header whose reservation was cancelled: the
-- handler of the pending call returns, so no assertion fails and no null or deleted package is used.
pub Reached-resume :
    (root : Ptr) (x : Pending) (res : Result) (e : Env) {s : Session}
    → root ≢ null
    → Reached root s
    → IsGood e
    → s.pending ≡ x ∷ []
    → returns x res e s.pkgs ≡ true
    → (t : Session) × (resume x res e (take_pending s) ≡ ok t) × Reached root t
Reached-resume root x res e ne (s₀, first, more) good at can =
    let serial = reached_Serial root ne (s₀, first, more) in
    let (t, is, y) = Lands-cases (resume-Lands root x res e serial good at can) in
    (t, is, (s₀, first, Runs-snoc x res e more good at can is))

-- The references that are held for what is pending: one for a write of a part of a body.
abbrev pub body_ref : Option Hpkg → ℕ
body_ref none = 0
body_ref (some k) = if body_state k.wst then 1 else 0

abbrev pub open_ref : Pending → Heap → ℕ
open_ref (writing p t) h = body_ref (h p)
open_ref (task_read p) h = 0
open_ref (task_fetch p) h = 0
open_ref (reading p) h = 0
open_ref (writing_head p t) h = 0
open_ref (fetching p off) h = 0
open_ref (waiting_head p key) h = 0
open_ref (waiting_body p key) h = 0

abbrev pub open_refs : List Pending → Heap → ℕ
open_refs [] h = 0
open_refs (x ∷ l) h = open_ref x h + open_refs l h

-- What is to be said of a connection at any time: the packages that were finished, and those that are
-- still to be, in order, are those that were made; the references to cached bodies that are held are
-- those of the parts that are being written; and either the connection is open and a call is pending, or
-- it is closed and nothing is left.
pub record Served (s : Session) : Type 0 where
  pub owed : List Ptr
  pub in_order : s.created ≡ s.finished ++ owed
  pub one_body : s.bodies_taken ≡ s.bodies_done + s.bodies_lost + open_refs s.pending s.pkgs
  pub ends : ((s.closes ≡ 0) × (s.pending ≢ [])) ⊎ Ended s

Stage-held :
    {c : Ptr} {k : Hpkg} {cst : ConnSt} {x : Pending} (h : Heap)
    → Stage c k cst x
    → h c ≡ some k
    → open_ref x h ≡ held x k.wst
Stage-held h (to_fetch new no_key start) at = refl
Stage-held h (sends_head on st w key u start) at = refl
Stage-held h (sends_body on st w key u) at = ground (arith, at, w)
Stage-held h (sends_400 on st w no_key) at = ground (arith, at, w)
Stage-held h (fetches on st w key u) at = refl
Stage-held h (waits_head on key u start) at = refl
Stage-held h (waits_body on key u) at = refl

RootStage-held :
    {root : Ptr} {r : Hpkg} {x : Pending} (h : Heap) → RootStage root r x → open_ref x h ≡ 0
RootStage-held h to_read = refl
RootStage-held h (reads st head) = refl

one_pending :
    {x : Pending} {l : List Pending} (h : Heap) {n : ℕ}
    → l ≡ x ∷ []
    → open_ref x h ≡ n
    → open_refs l h ≡ n
one_pending h at is = ap (λ l. open_refs l h) at ∙ omega (arith, is)

not_idle : {x : Pending} {l : List Pending} → l ≡ x ∷ [] → l ≢ []
not_idle at e = ground (arith, at, e)

Serial-Served : {root : Ptr} {s : Session} → Serial root s → Served s
Serial-Served {s = s} (at_root v) = record {
  owed = [];
  in_order = v.books.order;
  one_body =
      omega (arith, v.books.balance, one_pending s.pkgs v.pending (RootStage-held s.pkgs v.stage));
  ends = inl (v.books.not_closed, not_idle v.pending);
}
Serial-Served {s = s} (at_child v) = record {
  owed = v.c ∷ v.l;
  in_order = v.books.order;
  one_body = omega (
    arith,
    v.books.balance,
    one_pending s.pkgs v.pending (Stage-held s.pkgs v.stage v.heap.c_at),
  );
  ends = inl (v.books.not_closed, not_idle v.pending);
}
Serial-Served {s = s} (ended v) = record {
  owed = [];
  in_order = v.all_done ∙ sym (append-nil s.finished);
  one_body = omega (arith, v.balance, ap (λ l. open_refs l s.pkgs) v.pending);
  ends = inr v;
}

-- At any time, for a root that is not null, the packages that were deleted, their requests answered or
-- not, are the first of those that were parsed, in the same order; every reference to a cached body that
-- was taken has been given back, or was counted for a callback that got no data, but for one for each
-- pending write of a part of a body; and either a call is pending and the connection was never closed,
-- or it is closed and Ended holds: no call is pending, every package was deleted, the root too, and no
-- reference is held but those counted as lost.
pub Reached-Served : (root : Ptr) {s : Session} → root ≢ null → Reached root s → Served s
Reached-Served root ne reached = Serial-Served (reached_Serial root ne reached)

child_bad-crash :
    {root c : Ptr} {k : Hpkg} {l : List Ptr} {s : Session} {x : Pending} (e : Env)
    → Stage c k s.cst x
    → Ctx root c k l s (held x k.wst)
    → returns x failed e s.pkgs ≡ false
    → (p : Ptr) (t : Bytes) → x ≡ writing p t
    → resume x failed e s ≡ crash
child_bad-crash {root} {c} {k} {l} {s} e (sends_400 {t = d} on h w no_key) v bad p t is =
    bad_fails-crash queued (subst (λ st. Ctx root c k l s (held (writing c d) st)) w v) on h w
      no_key
child_bad-crash e (sends_body on h w key u) v bad p t is =
    absurd (ground (arith, v.heap.c_at, w, bad))
child_bad-crash e (to_fetch new no_key start) v bad p t is = absurd (ground (arith, is))
child_bad-crash e (sends_head on h w key u start) v bad p t is = absurd (ground (arith, bad))
child_bad-crash e (fetches on h w key u) v bad p t is = absurd (ground (arith, bad))
child_bad-crash e (waits_head on key u start) v bad p t is = absurd (ground (arith, is))
child_bad-crash e (waits_body on key u) v bad p t is = absurd (ground (arith, bad))

root_writes_not :
    {root : Ptr} {r : Hpkg} {x : Pending} (p : Ptr) (t : Bytes)
    → RootStage root r x
    → x ≢ writing p t
root_writes_not p t to_read e = ground (arith, e)
root_writes_not p t (reads h head) e = ground (arith, e)

Serial_bad-crash :
    {root : Ptr} {s : Session} (c : Ptr) (t : Bytes) (e : Env)
    → Serial root s
    → s.pending ≡ writing c t ∷ []
    → returns (writing c t) failed e s.pkgs ≡ false
    → resume (writing c t) failed e (take_pending s) ≡ crash
Serial_bad-crash c t e (at_root v) at bad =
    absurd (root_writes_not c t v.stage (same_head v.pending at))
Serial_bad-crash {s = s} c t e (at_child v) at bad =
    let same = same_head v.pending at in
    let bad' = subst (λ y. returns y failed e s.pkgs ≡ false) (sym same) bad in
    subst (λ y. resume y failed e (take_pending s) ≡ crash) same
      (child_bad-crash {s = take_pending s} e v.stage (AtChild-Ctx v) bad' c t same)
Serial_bad-crash c t e (ended v) at bad = absurd (not_idle at v.pending)

-- When the answer that a package is being written is not a part of a body, and that write fails, the
-- handler fails an assertion: this is the answer 400, which has no key in the cache.
pub bad_request-crash :
    (root c : Ptr) (t : Bytes) (e : Env) {s : Session}
    → root ≢ null
    → Reached root s
    → s.pending ≡ writing c t ∷ []
    → returns (writing c t) failed e s.pkgs ≡ false
    → resume (writing c t) failed e (take_pending s) ≡ crash
bad_request-crash root c t e ne reached at bad =
    Serial_bad-crash c t e (reached_Serial root ne reached) at bad
