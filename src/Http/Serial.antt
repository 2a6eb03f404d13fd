-- ===== src/Http/Serial.antt =====
-- webserver/svr_http.cc: what holds of a connection between two calls of its handlers: exactly one call
-- is pending, and it is for a package that is there.
pub mod Finish
pub mod Counts
pub mod Body
pub mod Head
pub mod Fetch
pub mod Fail
pub mod Root
pub mod Link
pub mod Grow
pub mod Parse
pub mod Always
pub mod Reach
use libeventdisp.Base.{
  ℕ, zero, suc, ◌+◌, ◌<◌, ◌≤◌, ◌≡◌, refl, ◌≢◌, Bool, true, false, not, ◌&&◌, ◌||◌, Option, none,
  some, List, [], ◌∷◌, ◌++◌, append-nil, append_assoc, ◌==◌, if◌then◌else◌, member, Bool-cases,
  Option-cases, inl, inr, ◌⊎◌, subst, sym, ap, ◌∙◌, Outcome, ok, crash, ◌>>=◌, ◌>>◌, assert, arith,
}
use libeventdisp.TcpServer.{
  ConnSt, cs_listening, cs_connecting, cs_connected, cs_closing_r, cs_closing_w, cs_closing,
  cs_closed,
}
use libeventdisp.Http.Text.{Bytes}
use libeventdisp.Http.Package.{
  Ptr, null, HttpSn, HttpSt, hs_reading, hs_parsing, hs_fetching, hs_writing, hs_unknown, HttpWst,
  ws_head, ws_body, ws_uno, Hpkg, Pending, task_read, task_fetch, reading, writing_head, writing,
  fetching, waiting_head, waiting_body, Heap, Session, write, found, load, save, free, add, close,
}
use libeventdisp.Http.Final.{
  is_closing, is_closing_w, is_closing_r, no_read, no_write, is_some, final, final_next, after_read,
  after_write,
}
use libeventdisp.Http.Chain.{IsFresh, Siblings, Alone, Live, Live-save, Live-end, Live-next}

-- A connection that is not being closed for reading.
abbrev pub IsOpen : ConnSt → Type 0
IsOpen cst = (cst ≡ cs_connected) ⊎ (cst ≡ cs_closing_w)

-- What is pending for the root.
pub data RootStage (root : Ptr) (r : Hpkg) : Pending → Type 0 where
  to_read : RootStage root r (task_read root)
  reads : r.hst ≡ hs_reading → is_some r.chead ≡ true → RootStage root r (reading root)

-- What is pending for a package that is at hand, and what the package then holds.
pub data Stage (c : Ptr) (k : Hpkg) (cst : ConnSt) : Pending → Type 0 where
  to_fetch : k.chead ≡ none → k.headkey ≡ none → k.tr_offset ≡ 0 → Stage c k cst (task_fetch c)
  sends_head :
      {t : Bytes}
      → cst ≡ cs_connected
      → k.hst ≡ hs_writing
      → k.wst ≡ ws_head
      → is_some k.headkey ≡ true
      → is_some k.uri ≡ true
      → k.tr_offset ≡ 0
      → Stage c k cst (writing_head c t)
  sends_body :
      {t : Bytes}
      → cst ≡ cs_connected
      → k.hst ≡ hs_writing
      → k.wst ≡ ws_body
      → is_some k.bodykey ≡ true
      → is_some k.uri ≡ true
      → Stage c k cst (writing c t)
  sends_400 :
      {t : Bytes}
      → cst ≡ cs_connected
      → k.hst ≡ hs_writing
      → k.wst ≡ ws_head
      → k.headkey ≡ none
      → Stage c k cst (writing c t)
  fetches :
      {off : ℕ}
      → cst ≡ cs_connected
      → k.hst ≡ hs_fetching
      → k.wst ≡ ws_body
      → is_some k.bodykey ≡ true
      → is_some k.uri ≡ true
      → Stage c k cst (fetching c off)
  waits_head :
      {key : Bytes}
      → cst ≡ cs_connected
      → is_some k.headkey ≡ true
      → is_some k.uri ≡ true
      → k.tr_offset ≡ 0
      → Stage c k cst (waiting_head c key)
  waits_body :
      {key : Bytes}
      → cst ≡ cs_connected
      → is_some k.bodykey ≡ true
      → is_some k.uri ≡ true
      → Stage c k cst (waiting_body c key)

-- The references to cached bodies that the connection holds.
abbrev pub held : Pending → HttpWst → ℕ
held (writing p t) ws_body = 1
held (writing p t) ws_head = 0
held (writing p t) ws_uno = 0
held (task_read p) w = 0
held (task_fetch p) w = 0
held (reading p) w = 0
held (writing_head p t) w = 0
held (fetching p off) w = 0
held (waiting_head p key) w = 0
held (waiting_body p key) w = 0

-- The histories, with the packages that are still to be answered and the references that are held.
pub record Books (s : Session) (owed : List Ptr) (refs : ℕ) : Type 0 where
  pub order : s.created ≡ s.finished ++ owed
  pub not_closed : s.closes ≡ 0
  pub balance : s.bodies_taken ≡ s.bodies_done + s.bodies_lost + refs

pub record AtRoot (root : Ptr) (s : Session) : Type 0 where
  pub r : Hpkg
  pub x : Pending
  pub pending : s.pending ≡ x ∷ []
  pub stage : RootStage root r x
  pub heap : Alone s.pkgs s.fresh root r
  pub is_open : IsOpen s.cst
  pub books : Books s [] 0

pub record AtChild (root : Ptr) (s : Session) : Type 0 where
  pub c : Ptr
  pub k : Hpkg
  pub l : List Ptr
  pub x : Pending
  pub pending : s.pending ≡ x ∷ []
  pub stage : Stage c k s.cst x
  pub heap : Live s.pkgs s.fresh root c k l
  pub is_open : IsOpen s.cst
  pub books : Books s (c ∷ l) (held x k.wst)

pub record Ended (s : Session) : Type 0 where
  pub pending : s.pending ≡ []
  pub none_left : (q : Ptr) → s.pkgs q ≡ none
  pub all_done : s.created ≡ s.finished
  pub closed_once : s.closes ≡ 1
  pub balance : s.bodies_taken ≡ s.bodies_done + s.bodies_lost

pub data Serial (root : Ptr) (s : Session) : Type 0 where
  at_root : AtRoot root s → Serial root s
  at_child : AtChild root s → Serial root s
  ended : Ended s → Serial root s

-- A handler returns, and the connection is as it should be.
pub data Lands (root : Ptr) : Outcome Session → Type 0 where
  lands : {t : Session} → Serial root t → Lands root (ok t)

-- What a handler of the package at hand starts from: the call that was pending is being made.
pub record Ctx (root c : Ptr) (k : Hpkg) (l : List Ptr) (s : Session) (refs : ℕ) : Type 0 where
  pub heap : Live s.pkgs s.fresh root c k l
  pub books : Books s (c ∷ l) refs
  pub idle : s.pending ≡ []
  pub is_open : IsOpen s.cst

pub load_lem : (p : Ptr) (s : Session) {k : Hpkg} → p ≢ null → s.pkgs p ≡ some k → load p s ≡ ok k
unfolding load
load_lem p s ne at = ground arith

pub Ctx-load :
    {root c : Ptr} {k : Hpkg} {l : List Ptr} {s : Session} {refs : ℕ}
    → Ctx root c k l s refs
    → load c s ≡ ok k
Ctx-load {c = c} {s = s} x = load_lem c s x.heap.c_ne x.heap.c_at

pub Ctx-save :
    {root c : Ptr} {k : Hpkg} {l : List Ptr} {s : Session} {refs : ℕ} (k' : Hpkg)
    → Ctx root c k l s refs
    → k'.ppg ≡ k.ppg
    → k'.nsg ≡ k.nsg
    → Ctx root c k' l (save c k' s) refs
Ctx-save k' x p n = record {
  heap = Live-save k' x.heap p n;
  books = record {
    order = x.books.order;
    not_closed = x.books.not_closed;
    balance = x.books.balance;
  };
  idle = x.idle;
  is_open = x.is_open;
}

-- A call is put on the list.
pub Ctx-add :
    {root c : Ptr} {k : Hpkg} {l : List Ptr} {s : Session} {refs : ℕ} (x : Pending)
    → Ctx root c k l s refs
    → Stage c k s.cst x
    → refs ≡ held x k.wst
    → Lands root (ok (add x s))
Ctx-add {c = c} {k = k} {l = l} {s = s} x v stage e = lands (
    at_child (record {
      c = c;
      k = k;
      l = l;
      x = x;
      pending = ap (λ p. p ++ x ∷ []) v.idle;
      stage = stage;
      heap = v.heap;
      is_open = v.is_open;
      books = record {
        order = v.books.order;
        not_closed = v.books.not_closed;
        balance = v.books.balance ∙ ap (λ n. s.bodies_done + s.bodies_lost + n) e;
      };
    }))
