-- ===== src/Http/Final.antt =====
-- webserver/svr_http.cc: `svr_http_final` and `svr_http_final_aio`, which end a package, and the tests of
-- the connection's state.
--
-- `Dispatcher::enqueue` returns true on every path (lib/event_dispatcher.cc:63), so the branches for
-- false are left out. The return codes are left out: they are EHTTP_OK or EHTTP_FINAL.
use libeventdisp.Base.{
  ◌+◌, Bool, true, false, not, ◌||◌, Option, none, some, [], ◌∷◌, ◌++◌, ◌==◌, if◌then◌else◌,
  Outcome, ok, crash, ◌>>=◌, ◌>>◌, assert,
}
use libeventdisp.TcpServer.{
  ConnSt, cs_listening, cs_connecting, cs_connected, cs_closing_r, cs_closing_w, cs_closing,
  cs_closed,
}
use libeventdisp.Http.Package.{
  Ptr, null, HttpSt, hs_reading, hs_parsing, hs_fetching, hs_writing, hs_unknown, HttpWst, ws_head,
  ws_body, ws_uno, Hpkg, task_read, task_fetch, Session, load, save, free, add, close,
}

-- `(cn->cst == CS_CLOSING) || (cn->cst == CS_CLOSING_W)`, and the same with CS_CLOSING_R.
abbrev pub is_closing : ConnSt → Bool
is_closing cs_closing = true
is_closing cs_listening = false
is_closing cs_connecting = false
is_closing cs_connected = false
is_closing cs_closing_r = false
is_closing cs_closing_w = false
is_closing cs_closed = false

abbrev pub is_closing_w : ConnSt → Bool
is_closing_w cs_closing_w = true
is_closing_w cs_listening = false
is_closing_w cs_connecting = false
is_closing_w cs_connected = false
is_closing_w cs_closing_r = false
is_closing_w cs_closing = false
is_closing_w cs_closed = false

abbrev pub is_closing_r : ConnSt → Bool
is_closing_r cs_closing_r = true
is_closing_r cs_listening = false
is_closing_r cs_connecting = false
is_closing_r cs_connected = false
is_closing_r cs_closing_w = false
is_closing_r cs_closing = false
is_closing_r cs_closed = false

abbrev pub no_write : ConnSt → Bool
no_write cst = is_closing cst || is_closing_w cst

abbrev pub no_read : ConnSt → Bool
no_read cst = is_closing cst || is_closing_r cst

abbrev pub is_some {ℓ} : {A : Type ℓ} → Option A → Bool
is_some none = false
is_some (some a) = true

-- `svr_http_final`, after it has read `ppg` and `nsg` and deleted the package.
unfoldable pub final_next : Ptr → Hpkg → Session → Outcome Session
unfolding load
final_next p k s =
    if k.ppg == null
    then ok (close s)
    else if k.nsg == null
    then (do
      park ← load k.ppg s
      ok (
          add (task_read k.ppg) (
            save k.ppg (record park { lcg = null })
              (record s { finished = s.finished ++ p ∷ [] }))))
    else ok (add (task_fetch k.nsg) (record s { finished = s.finished ++ p ∷ [] }))

unfoldable pub final : Ptr → Session → Outcome Session
unfolding load final_next
final p s = do k ← load p s; final_next p k (free p s)

-- `svr_http_body_wio` for a cancelled reservation.
unfoldable pub body_cancelled : Ptr → Session → Outcome Session
unfolding final
body_cancelled p s = final p s

-- Where `cancelReservation` finds the package's own callback: in the queue of the reserved slot, which
-- it then runs; in that queue while `put` is running it, so that the callback would be called and
-- deleted while it runs; or nowhere, since the slot is filled.
pub data Slot : Type 0 where
  queued : Slot
  running : Slot
  filled : Slot

unfoldable pub cancel : Slot → Ptr → Session → Outcome Session
unfolding body_cancelled
cancel queued p s = body_cancelled p s
cancel running p s = crash
cancel filled p s = ok s

-- `svr_http_final_aio`, by the state of the package.
abbrev pub after_read : ConnSt → ConnSt
after_read cst = if is_closing_w cst then cs_closing else cs_closing_r

abbrev pub after_write : ConnSt → ConnSt
after_write cst = if is_closing_r cst then cs_closing else cs_closing_w

unfoldable pub final_aio_at : HttpSt → HttpWst → Slot → Ptr → Hpkg → Session → Outcome Session
unfolding final cancel
final_aio_at hs_reading wst slot p k s = final p (record s { cst = after_read s.cst })
final_aio_at hs_parsing wst slot p k s = final p (record s { cst = after_read s.cst })
final_aio_at hs_fetching ws_body slot p k s = cancel slot p (record s { cst = after_write s.cst })
final_aio_at hs_fetching ws_head slot p k s = final p (record s { cst = after_write s.cst })
final_aio_at hs_fetching ws_uno slot p k s = final p (record s { cst = after_write s.cst })
final_aio_at hs_writing ws_head slot p k s = do
  assert (is_some k.headkey)
  final p (record s { cst = after_write s.cst; heads_done = s.heads_done + 1 })
final_aio_at hs_writing ws_body slot p k s = do
  assert (is_some k.bodykey)
  final p (record s { cst = after_write s.cst; bodies_done = s.bodies_done + 1 })
final_aio_at hs_writing ws_uno slot p k s = final p (record s { cst = after_write s.cst })
final_aio_at hs_unknown wst slot p k s = final p s

unfoldable pub final_aio : Slot → Ptr → Session → Outcome Session
unfolding load final_aio_at
final_aio slot p s = do
  k ← load p s
  assert (not (is_closing s.cst))
  final_aio_at k.hst k.wst slot p k s
