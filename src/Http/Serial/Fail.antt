-- ===== src/Http/Serial/Fail.antt =====
-- webserver/svr_http.cc: `svr_http_final_aio`, when a transfer for the package at hand has failed.
use libeventdisp.Base.{ℕ, ◌+◌, ◌≡◌, refl, true, not, none, List, inr, ap, ◌∙◌, crash}
use libeventdisp.TcpServer.{ConnSt, cs_connected}
use libeventdisp.Http.Package.{
  Ptr, HttpSt, hs_fetching, hs_writing, HttpWst, ws_head, ws_body, Hpkg, Session,
}
use libeventdisp.Http.Final.{is_closing, is_some, after_write}
use libeventdisp.Http.Final.{Slot, queued, final_aio, final_aio_at, cancel, body_cancelled}
use libeventdisp.Http.Serial.{IsOpen, Lands, Ctx, Ctx-load}
use libeventdisp.Http.Serial.Finish.{final-Lands}
use libeventdisp.Http.Serial.Counts.{Ctx-give, Ctx-heads, Ctx-cst}

final_aio-goes :
    {root c : Ptr} {k : Hpkg} {l : List Ptr} {s : Session} {refs : ℕ} (slot : Slot)
    → Ctx root c k l s refs
    → s.cst ≡ cs_connected
    → final_aio slot c s ≡ final_aio_at k.hst k.wst slot c k s
unfolding final_aio
final_aio-goes {s = s} slot x on =
    let at = Ctx-load x in
    let live : not (is_closing s.cst) ≡ true = ap (λ cst. not (is_closing cst)) on in
    rw (at, live) refl

abbrev shut : {cst : ConnSt} → cst ≡ cs_connected → IsOpen (after_write cst)
shut on = inr (ap after_write on)

final_aio-at :
    {root c : Ptr} {k : Hpkg} {l : List Ptr} {s : Session} {refs : ℕ} (slot : Slot) {h : HttpSt}
    {w : HttpWst}
    → Ctx root c k l s refs
    → s.cst ≡ cs_connected
    → k.hst ≡ h
    → k.wst ≡ w
    → final_aio slot c s ≡ final_aio_at h w slot c k s
final_aio-at {c = c} {k = k} {s = s} slot {h} x on is_h is_w =
    final_aio-goes slot x on
    ∙ ap (λ st. final_aio_at st k.wst slot c k s) is_h
    ∙ ap (λ st. final_aio_at h st slot c k s) is_w

-- A header could not be written: its reference is given back.
pub head_fails-Lands :
    {root c : Ptr} {k : Hpkg} {l : List Ptr} {s : Session} (slot : Slot)
    → Ctx root c k l s 0
    → s.cst ≡ cs_connected
    → k.hst ≡ hs_writing
    → k.wst ≡ ws_head
    → is_some k.headkey ≡ true
    → Lands root (final_aio slot c s)
unfolding final_aio_at
head_fails-Lands {l = l} {s = s} slot x on h w key =
    rw (final_aio-at slot x on h w, key)
      (final-Lands l
        (Ctx-cst (after_write s.cst) (Ctx-heads s.heads_taken (s.heads_done + 1) x) (shut on)))

-- A part of a body could not be written: its reference is given back.
pub body_fails-Lands :
    {root c : Ptr} {k : Hpkg} {l : List Ptr} {s : Session} (slot : Slot)
    → Ctx root c k l s 1
    → s.cst ≡ cs_connected
    → k.hst ≡ hs_writing
    → k.wst ≡ ws_body
    → is_some k.bodykey ≡ true
    → Lands root (final_aio slot c s)
unfolding final_aio_at
body_fails-Lands {l = l} {s = s} slot x on h w key =
    rw (final_aio-at slot x on h w, key)
      (final-Lands l (Ctx-cst (after_write s.cst) (Ctx-give x) (shut on)))

-- A part of the file could not be read: the reservation is cancelled, and the package's own callback
-- ends it.
pub read_fails-Lands :
    {root c : Ptr} {k : Hpkg} {l : List Ptr} {s : Session}
    → Ctx root c k l s 0
    → s.cst ≡ cs_connected
    → k.hst ≡ hs_fetching
    → k.wst ≡ ws_body
    → Lands root (final_aio queued c s)
unfolding final_aio_at cancel body_cancelled
read_fails-Lands {l = l} {s = s} x on h w =
    rw (final_aio-at queued x on h w) (final-Lands l (Ctx-cst (after_write s.cst) x (shut on)))

-- The reservation that the package waits for is cancelled.
pub body_cancelled-Lands :
    {root c : Ptr} {k : Hpkg} {l : List Ptr} {s : Session}
    → Ctx root c k l s 0
    → Lands root (body_cancelled c s)
unfolding body_cancelled
body_cancelled-Lands {l = l} x = final-Lands l x

-- The answer 400 could not be written.
pub bad_fails-crash :
    {root c : Ptr} {k : Hpkg} {l : List Ptr} {s : Session} (slot : Slot)
    → Ctx root c k l s 0
    → s.cst ≡ cs_connected
    → k.hst ≡ hs_writing
    → k.wst ≡ ws_head
    → k.headkey ≡ none
    → final_aio slot c s ≡ crash
unfolding final_aio_at
bad_fails-crash slot x on h w no_key = rw (final_aio-at slot x on h w, no_key) refl
