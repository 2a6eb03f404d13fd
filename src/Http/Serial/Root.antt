-- ===== src/Http/Serial/Root.antt =====
-- webserver/svr_http.cc: the handlers of the root, while no package is there to be answered.
use libeventdisp.Base.{
  ◌+◌, ◌≡◌, refl, false, none, some, [], ◌∷◌, ◌++◌, append-nil, inl, inr, ◌⊎◌, ap, ◌∙◌, ok, arith,
}
use libeventdisp.TcpServer.{ConnSt}
use libeventdisp.Http.Package.{
  Ptr, hs_reading, hs_parsing, Hpkg, Pending, reading, Heap, Session, write, load, save, free, add,
  close,
}
use libeventdisp.Http.Final.{is_closing, no_read, final, final_next, after_read}
use libeventdisp.Http.Chain.{Alone}
use libeventdisp.Http.Final.{Slot, final_aio, final_aio_at}
use libeventdisp.Http.Serial.{
  IsOpen, RootStage, reads, Books, at_root, ended, Lands, lands, load_lem,
}
use libeventdisp.Http.Final.{after_read}
use libeventdisp.Http.Parse.{read}

-- What a handler of the root starts from.
pub record RootCtx (root : Ptr) (r : Hpkg) (s : Session) : Type 0 where
  pub heap : Alone s.pkgs s.fresh root r
  pub books : Books s [] 0
  pub idle : s.pending ≡ []

pub RootCtx-load : {root : Ptr} {r : Hpkg} {s : Session} → RootCtx root r s → load root s ≡ ok r
RootCtx-load {root = root} {s = s} x = load_lem root s x.heap.root_ne x.heap.root_at

Alone-save :
    {h : Heap} {fresh root : Ptr} {r : Hpkg} (r' : Hpkg)
    → Alone h fresh root r
    → r'.ppg ≡ r.ppg
    → r'.lcg ≡ r.lcg
    → Alone (write h root (some r')) fresh root r'
unfolding write
Alone-save r' v p c = record {
  root_ne = v.root_ne;
  root_at = ground arith;
  no_parent = p ∙ v.no_parent;
  no_child = c ∙ v.no_child;
  only = λ q nr. ground (arith, v.only q nr);
  below = v.below;
}

pub RootCtx-save :
    {root : Ptr} {r : Hpkg} {s : Session} (r' : Hpkg)
    → RootCtx root r s
    → r'.ppg ≡ r.ppg
    → r'.lcg ≡ r.lcg
    → RootCtx root r' (save root r' s)
RootCtx-save r' x p c = record {
  heap = Alone-save r' x.heap p c;
  books = record {
    order = x.books.order;
    not_closed = x.books.not_closed;
    balance = x.books.balance;
  };
  idle = x.idle;
}

pub RootCtx-cst :
    {root : Ptr} {r : Hpkg} {s : Session} (cst : ConnSt)
    → RootCtx root r s
    → RootCtx root r (record s { cst = cst })
RootCtx-cst cst x = record {
  heap = x.heap;
  books = record {
    order = x.books.order;
    not_closed = x.books.not_closed;
    balance = x.books.balance;
  };
  idle = x.idle;
}

pub RootCtx-add :
    {root : Ptr} {r : Hpkg} {s : Session} (x : Pending)
    → RootCtx root r s
    → RootStage root r x
    → IsOpen s.cst
    → Lands root (ok (add x s))
RootCtx-add {r = r} x v stage o = lands (
    at_root (record {
      r = r;
      x = x;
      pending = ap (λ p. p ++ x ∷ []) v.idle;
      stage = stage;
      heap = v.heap;
      is_open = o;
      books = record {
        order = v.books.order;
        not_closed = v.books.not_closed;
        balance = v.books.balance;
      };
    }))

final_root :
    {root : Ptr} {r : Hpkg} {s : Session}
    → RootCtx root r s
    → final root s ≡ ok (close (free root s))
unfolding final final_next
final_root x = let at = RootCtx-load x in let top = x.heap.no_parent in rw (at, top) refl

-- The root is deleted, and with it the connection is closed: nothing is left.
pub final_root-Lands :
    {root : Ptr} {r : Hpkg} {s : Session} → RootCtx root r s → Lands root (final root s)
unfolding write
final_root-Lands {root} {s = s} x =
    let nothing : (q : Ptr) → write s.pkgs root none q ≡ none =
      λ q. ground (arith, x.heap.only q) in
    rw (final_root x) (
      lands (
        ended (record {
          pending = x.idle;
          none_left = nothing;
          all_done = x.books.order ∙ append-nil s.finished;
          closed_once = ap (λ n. n + 1) x.books.not_closed;
          balance = omega (arith, x.books.balance);
        })))

root_fails :
    {root : Ptr} {r : Hpkg} {s : Session} (slot : Slot)
    → RootCtx root r s
    → is_closing s.cst ≡ false
    → final_aio slot root s ≡ final_aio_at r.hst r.wst slot root r s
unfolding final_aio
root_fails slot x live = let at = RootCtx-load x in rw (at, live) refl

root_fails-final :
    (root : Ptr) (r : Hpkg) (s : Session) (slot : Slot)
    → (r.hst ≡ hs_reading) ⊎ (r.hst ≡ hs_parsing)
    → final_aio_at r.hst r.wst slot root r s ≡ final root (record s { cst = after_read s.cst })
unfolding final_aio_at
root_fails-final root r s slot (inl h) = ap (λ st. final_aio_at st r.wst slot root r s) h
root_fails-final root r s slot (inr h) = ap (λ st. final_aio_at st r.wst slot root r s) h

-- A transfer for the root has failed, or has come to the end of the stream.
pub root_fails-Lands :
    {root : Ptr} {r : Hpkg} {s : Session} (slot : Slot)
    → RootCtx root r s
    → IsOpen s.cst
    → (r.hst ≡ hs_reading) ⊎ (r.hst ≡ hs_parsing)
    → Lands root (final_aio slot root s)
root_fails-Lands {root = root} {r = r} {s = s} slot x o h =
    let live : is_closing s.cst ≡ false = elim o [
      | inl on ↦ ap is_closing on
      | inr half ↦ ap is_closing half
    ] in
    rw (root_fails slot x live ∙ root_fails-final root r s slot h)
      (final_root-Lands (RootCtx-cst (after_read s.cst) x))

-- The next request is read.
pub read-Lands :
    {root : Ptr} {r : Hpkg} {s : Session}
    → RootCtx root r s
    → IsOpen s.cst
    → Lands root (read root s)
unfolding read
read-Lands {root = root} {r = r} {s = s} x o =
    let at = RootCtx-load x in
    let can_read : no_read s.cst ≡ false = elim o [
      | inl on ↦ ap no_read on
      | inr half ↦ ap no_read half
    ] in
    let r' = record r { hst = hs_reading; chead = some [] } in
    rw (at, can_read) (RootCtx-add (reading root) (RootCtx-save r' x refl refl) (reads refl refl) o)
