-- ===== src/Http/Serve.antt =====
-- webserver/svr_http.cc: the handlers that answer one package, from `svr_http_fetch` to
-- `svr_http_body_rio`. What they take from outside is a parameter: the answers of the cache, of `open`
-- and `fstat`, and the texts that `strftime` and `snprintf` make of dates and numbers.
use libeventdisp.Base.{
  ℕ, ◌+◌, ◌-◌, Bool, true, false, not, Option, none, some, ◌∷◌, ◌++◌, ltb, if◌then◌else◌, Outcome,
  ok, crash, ◌>>=◌, ◌>>◌, assert,
}
use libeventdisp.Http.Text.{
  Bytes, codes, take, drop, c_str, same_text, starts_with, crlf, websvrd, sline_200, sline_400,
  sline_404,
}
use libeventdisp.Http.Package.{
  Ptr, HttpSn, n_200, n_404, n_400, n_uno, hs_fetching, hs_writing, hs_unknown, HttpWst, ws_head,
  ws_body, ws_uno, Hpkg, writing_head, writing, fetching, waiting_head, waiting_body, Session, load,
  save, add,
}
use libeventdisp.Http.Final.{
  body_cancelled, Slot, running, filled, no_write, is_some, final, final_aio,
}

-- The answer of `_cache.get`: it has called the callback with the data; it has called it with a null
-- pointer, since an earlier reservation of the key was cancelled; it has queued it in a slot that another
-- package reserved; or it has no such key, and then `reserved` and `queued` are the results of the calls
-- of `reserve` and `get` that follow.
pub data Answer : Type 0 where
  hit : Bytes → Answer
  hollow : Answer
  later : Answer
  miss : Bool → Bool → Answer

-- What the outside says during one handler: the answer of the cache for a key; the descriptor and the size of the
-- file, if it can be opened; the result of `_cache.put`; and the texts of the dates and of numbers.
pub record Env : Type 0 where
  pub answer : Bytes → Answer
  pub opened : Option ℕ
  pub size : ℕ
  pub is_put : Bool
  pub date : Bytes
  pub last_modified : Bytes
  pub decimal : ℕ → Bytes

abbrev pub max_keys : ℕ
max_keys = 256

abbrev pub max_wh : ℕ
max_wh = 8192

-- `svr_http_write_400`
unfoldable pub write_400 : Ptr → Session → Outcome Session
unfolding load final
write_400 p s = do
  k ← load p s
  let k' = record k { hst = hs_writing; wst = ws_head; hsn = n_400 }
  let answer_400 = sline_400 1 ++ (crlf ++ crlf)
  if no_write s.cst
      then final p (save p k' s)
      else ok (add (writing p answer_400) (save p (record k' { chead = some answer_400 }) s))

-- `svr_http_header_wio`, which the cache calls with the data and has counted a reference for: the
-- status is read from three characters at offset 9.
abbrev pub status_of : Bytes → HttpSn
status_of t =
    if starts_with (codes "200") (drop 9 t)
    then n_200
    else if starts_with (codes "404") (drop 9 t)
    then n_404
    else n_uno

unfoldable pub header_wio : Ptr → Bytes → Session → Outcome Session
unfolding load final starts_with
header_wio p t s = do
  k ← load p s
  let s' = record s { heads_taken = s.heads_taken + 1 }
  let k' = record k { hst = hs_writing; wst = ws_head }
  if no_write s.cst
      then final p (save p k' s')
      else ok (add (writing_head p t) (save p (record k' { hsn = status_of t }) s'))

-- The texts of `svr_http_header_rio`.
abbrev pub header_404 : ℕ → Bytes
header_404 v = sline_404 v ++ (crlf ++ crlf)

-- The length of the text is `chead.n`, which is the count of `snprintf`: with dates of less than MAXWHL
-- characters nothing is cut.
unfoldable pub header_200 : Env → ℕ → Bytes
header_200 e v = take (max_wh - 2) (
    sline_200 v
    ++ (crlf
        ++ (codes "Date: "
            ++ (e.date
                ++ (crlf
                    ++ (codes "Server: "
                        ++ (websvrd
                            ++ (crlf
                                ++ (codes "Last-Modified: "
                                    ++ (e.last_modified
                                        ++ (crlf
                                            ++ (codes "Content-Type: "
                                                ++ (codes "text/plain"
                                                    ++ (crlf
                                                        ++ (codes "Content-Length: "
                                                            ++ (e.decimal e.size
                                                            ++ (crlf ++ crlf)))))))))))))))))

-- The end of both of its branches: `put` runs the queue of the slot, in which the package's own callback
-- stands, and then the flag is set.
unfoldable pub put_head : Env → Ptr → Bytes → Session → Outcome Session
unfolding load header_wio
put_head e p t s = do
  assert e.is_put
  s' ← header_wio p t s
  k ← load p s'
  ok (save p (record k { chead_cached = e.is_put }) s')

-- `if (pk->hfd == -1) pk->hfd = open(...)`
abbrev pub open_once : Option ℕ → Option ℕ → Option ℕ
open_once none opened = opened
open_once (some fd) opened = some fd

abbrev pub header_opened : Option ℕ → Env → Ptr → Hpkg → Session → Outcome Session
header_opened none e p k s =
    put_head e p (header_404 k.vern)
      (save p (record k { hsn = n_404; chead = some (header_404 k.vern) }) s)
header_opened (some fd) e p k s = do
  assert (not (is_some k.chead))
  put_head e p (header_200 e k.vern) (
      save p
        (record k {
          hsn = n_200;
          tr_nbytes = e.size;
          tr_offset = 0;
          chead = some (header_200 e k.vern);
        })
        s)

unfoldable pub header_rio : Env → Ptr → Session → Outcome Session
unfolding load put_head header_200
header_rio e p s = do
  k ← load p s
  let fd = open_once k.hfd e.opened
  header_opened fd e p (record k { hst = hs_fetching; wst = ws_head; hfd = fd }) s

-- `strncpy(pk->headkey.p, pk->uri.p, MAXKEYS-1)`, and `snprintf(pk->bodykey.p, MAXKEYS, "%s#%zu", ...)`.
unfoldable pub head_key : Bytes → Bytes
unfolding c_str
head_key uri = take (max_keys - 1) (c_str uri)

unfoldable pub body_key : (ℕ → Bytes) → Bytes → ℕ → Bytes
unfolding c_str
body_key decimal uri offset = take (max_keys - 1) (c_str uri ++ (b'#' ∷ decimal offset))

-- `svr_http_header`, from the call of `_cache.get` on; a null `uri` is a crash.
abbrev pub text_at : Option Bytes → Outcome Bytes
text_at none = crash
text_at (some t) = ok t

abbrev pub header_got : Answer → Bytes → Env → Ptr → Session → Outcome Session
header_got (hit t) key e p s = header_wio p t s
header_got hollow key e p s = crash
header_got later key e p s = ok (add (waiting_head p key) s)
header_got (miss reserved queued) key e p s = do assert reserved; assert queued; header_rio e p s

unfoldable pub header : Env → Ptr → Session → Outcome Session
unfolding load final header_wio header_rio head_key
header e p s = do
  k ← load p s
  let k' = record k { hst = hs_fetching; wst = ws_head }
  if no_write s.cst then final p (save p k' s) else (do
    uri ← text_at k.uri
    let key = head_key uri
    header_got (e.answer key) key e p (save p (record k' { headkey = some key }) s))

-- `svr_http_fetch`, from its test for 400 on.
abbrev pub fetch_version :
    Option Bytes → Option Bytes → Option Bytes → Env → Ptr → Hpkg → Session → Outcome Session
fetch_version none ver uri e p k s = write_400 p (save p k s)
fetch_version (some m) none uri e p k s = write_400 p (save p k s)
fetch_version (some m) (some v) none e p k s = write_400 p (save p k s)
fetch_version (some m) (some v) (some u) e p k s =
    if same_text (c_str v) (codes "HTTP/1.0")
    then header e p (save p (record k { vern = 0 }) s)
    else if same_text (c_str v) (codes "HTTP/1.1")
    then header e p (save p (record k { vern = 1 }) s)
    else write_400 p (save p k s)

unfoldable pub fetch : Env → Ptr → Session → Outcome Session
unfolding load final write_400 header c_str
fetch e p s = do
  k ← load p s
  if no_write s.cst
      then final p s
      else fetch_version k.met k.ver k.uri e p
          (record k { hst = hs_fetching; wst = ws_head; hsn = n_uno }) s

-- `svr_http_body_wio` with data, for which the cache has counted a reference.
unfoldable pub body_wio : Slot → Ptr → Bytes → Session → Outcome Session
unfolding load final_aio
body_wio slot p t s = do
  k ← load p s
  let s' = record s { bodies_taken = s.bodies_taken + 1 }
  if no_write s.cst
      then final_aio slot p s'
      else ok (add (writing p t) (save p (record k { hst = hs_writing; wst = ws_body }) s'))

-- `svr_http_body`, from the call of `_cache.get` on.
abbrev pub body_got : Answer → Bytes → Env → Ptr → Session → Outcome Session
body_got (hit t) key e p s = body_wio filled p t s
body_got hollow key e p s =
    body_cancelled p
      (record s { bodies_taken = s.bodies_taken + 1; bodies_lost = s.bodies_lost + 1 })
body_got later key e p s = ok (add (waiting_body p key) s)
body_got (miss reserved queued) key e p s = do
  assert reserved
  assert queued
  k ← load p s
  ok (add (fetching p k.tr_offset) (save p (record k { hfd = open_once k.hfd e.opened }) s))

unfoldable pub body : Env → Ptr → Session → Outcome Session
unfolding load final body_wio body_key
body e p s = do
  k ← load p s
  let k' = record k { hst = hs_fetching; wst = ws_body }
  if no_write s.cst then final p (save p k' s) else (do
    uri ← text_at k.uri
    let key = body_key e.decimal uri k.tr_offset
    body_got (e.answer key) key e p (save p (record k' { bodykey = some key }) s))

-- `svr_http_header_to_body_aio`
abbrev pub is_200 : HttpSn → Bool
is_200 n_200 = true
is_200 n_404 = false
is_200 n_400 = false
is_200 n_uno = false

unfoldable pub header_to_body_aio : Env → Ptr → Session → Outcome Session
unfolding load final body
header_to_body_aio e p s = do
  k ← load p s
  let s' = save p (record k { hst = hs_unknown; wst = ws_head }) s
  if is_200 k.hsn then body e p s' else final p s'

-- `svr_http_body_rio`, with the number of bytes that were written.
abbrev pub body_done : Option Bytes → Session → Session
body_done none s = s
body_done (some key) s = record s { bodies_done = s.bodies_done + 1 }

abbrev pub body_rio_at : HttpWst → ℕ → Env → Ptr → Hpkg → Session → Outcome Session
body_rio_at ws_body nbytes e p k s =
    if ltb 0 nbytes
    then body e p (save p (record k { tr_offset = k.tr_offset + nbytes }) (body_done k.bodykey s))
    else final p (save p (record k { wst = ws_uno }) (body_done k.bodykey s))
body_rio_at ws_head nbytes e p k s = final p s
body_rio_at ws_uno nbytes e p k s = final p s

unfoldable pub body_rio : Env → Ptr → ℕ → Session → Outcome Session
unfolding load final body
body_rio e p nbytes s = do k ← load p s; body_rio_at k.wst nbytes e p k s

-- `svr_http_body_pio`: `put` runs the queue of the slot, in which the package's own callback stands.
unfoldable pub body_pio : Env → Ptr → Bytes → Session → Outcome Session
unfolding load body_wio
body_pio e p t s = do
  k ← load p s
  assert e.is_put
  s' ← body_wio running p t s
  k' ← load p s'
  ok (save p (record k' { cbody_cached = e.is_put }) s')
