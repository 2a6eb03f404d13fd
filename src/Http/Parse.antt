-- ===== src/Http/Parse.antt =====
-- webserver/svr_http.cc: `svr_http_read`, `svr_http_parse_aio` and `svr_http_parse`, which turn the bytes
-- of a request into packages.
use libeventdisp.Base.{
  ℕ, zero, suc, ◌+◌, ◌-◌, not, Option, none, some, [], ◌∷◌, ◌++◌, ◌==◌, ltb, leb, length,
  if◌then◌else◌, Outcome, ok, crash, ◌>>=◌, ◌>>◌, assert,
}
use libeventdisp.Http.Text.{Bytes, codes, take, drop, starts_with, find_crlf, find_char, get_word}
use libeventdisp.Http.Package.{
  Ptr, null, hs_reading, hs_parsing, new_hpkg, task_read, task_fetch, reading, Session, load, save,
  add,
}
use libeventdisp.Http.Final.{queued, no_read, no_write, is_some, final, final_aio}

-- `svr_http_read`
unfoldable pub read : Ptr → Session → Outcome Session
unfolding load final
read p s = do
  k ← load p s
  if no_read s.cst
      then final p s
      else ok (add (reading p) (save p (record k { hst = hs_reading; chead = some [] }) s))

-- The part of `svr_http_parse` that makes a package, with the texts of its request line, and puts it
-- behind its siblings: the state of the loop is the session and `fget`.
unfoldable pub link : Ptr → Option Bytes → Option Bytes → Session × Ptr → Outcome (Session × Ptr)
unfolding load
link p uri ver (s, fget) =
    let g = s.fresh in
    let gk = record new_hpkg { met = some (codes "GET"); uri = uri; ver = ver; ppg = p } in
    let s' = record (save g gk s) { fresh = g + 1; created = s.created ++ g ∷ [] } in
    (do
      k ← load p s'
      if k.lcg == null then ok (save p (record k { lcg = g }) s', g) else (do
        last ← load k.lcg s'
        let s'' = save k.lcg (record last { nsg = g }) s'
        k' ← load p s''
        ok (save p (record k' { lcg = g }) s'', fget)))

-- One request line: `s` are the bytes from "GET " on, and `pt` the offset of the line's end. What is
-- left is the bytes after the part that was read, how many that part has, and the two texts.
pub record Request : Type 0 where
  pub rest : Bytes
  pub eaten : ℕ
  pub uri : Option Bytes
  pub ver : Option Bytes

abbrev pub skip_slash : Bytes → ℕ
skip_slash [] = 0
skip_slash (c ∷ s) = if c == b'/' then 1 else 0

-- A line with no space after its first word, up to its end, has neither text.
abbrev pub bad_get : Bytes → Request
bad_get s4 = record {
  rest = drop (skip_slash s4) s4;
  eaten = 4 + skip_slash s4;
  uri = none;
  ver = none;
}

-- `ps` is the offset of the space after "GET ".
abbrev pub good_get : Bytes → ℕ → ℕ → Request
good_get s4 ps pt = record {
  rest = drop (ps + 1) s4;
  eaten = 4 + (ps + 1);
  uri = some (take (ps - skip_slash s4) (drop (skip_slash s4) s4));
  ver =
      if leb (4 + (ps + 1)) pt then some (take (pt - (4 + (ps + 1))) (drop (ps + 1) s4)) else none;
}

abbrev pub get_at : Option ℕ → Bytes → ℕ → Request
get_at none s4 pt = bad_get s4
get_at (some ps) s4 pt = if ltb (4 + ps) pt then good_get s4 ps pt else bad_get s4

unfoldable pub parse_get : Bytes → ℕ → Request
unfolding find_char
parse_get s pt = get_at (find_char b' ' (drop 4 s)) (drop 4 s) pt

abbrev pub line_end : Option ℕ → ℕ → ℕ
line_end none n = n
line_end (some i) n = i

-- The loop of `svr_http_parse` on `ph`, as the bytes from there on, and `n`, which is `pe - ph`. The
-- fuel bounds the turns: a turn moves `ph` forward.
unfoldable pub parse_loop : ℕ → Ptr → Bytes → ℕ → Session × Ptr → Outcome (Session × Ptr)
unfolding find_crlf parse_get link starts_with
parse_loop zero p s n st = if n == 0 then ok st else crash
parse_loop (suc fuel) p s n st =
    let pt = line_end (find_crlf s) n in
    let r = parse_get s pt in
    let with_get = λ (st' : Session × Ptr). parse_loop fuel p r.rest (n - r.eaten) st' in
    let without = parse_loop fuel p (drop (pt + 2) s) (n - (pt + 2)) st in
    if n == 0
    then ok st
    else if starts_with get_word s
    then (do st' ← link p r.uri r.ver st; with_get st')
    else without

-- The end of `svr_http_parse`.
abbrev pub parse_end : Ptr → Session × Ptr → Session
parse_end p (s, fget) = if not (fget == null) then add (task_fetch fget) s else add (task_read p) s

unfoldable pub parse : Ptr → Bytes → Session → Outcome Session
unfolding load final parse_loop
parse p buf s = do
  k ← load p s
  if no_write s.cst then final p s else (do
    r ←
        parse_loop (length buf) p buf (length buf - 1)
          (save p (record k { hst = hs_parsing }) s, null)
    ok (parse_end p r))

-- `svr_http_parse_aio`, with the bytes that were read, which stand in the buffer that `svr_http_read`
-- handed over, `chead`.
unfoldable pub parse_aio : Ptr → Bytes → Session → Outcome Session
unfolding load final final_aio parse
parse_aio p buf s = do
  k ← load p s
  assert (is_some k.chead)
  let s' = save p (record k { hst = hs_parsing; chead = some buf }) s
  if no_write s.cst
      then final p s
      else if length buf == 0
      then final_aio queued p s'
      else parse p buf s'
