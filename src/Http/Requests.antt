-- ===== src/Http/Requests.antt =====
-- webserver/svr_http.cc: what `svr_http_parse` makes of a request's bytes.
use libeventdisp.Base.{
  ℕ, zero, suc, ◌+◌, ◌-◌, ◌<◌, ◌≤◌, ◌≡◌, refl, Option, none, some, List, [], ◌∷◌, ◌==◌,
  if◌then◌else◌, Outcome, ok, crash, ◌>>=◌, Bool-cases, inl, inr, arith,
}
use libeventdisp.Http.Text.{Bytes, drop, starts_with, find_crlf, find_char, get_word}
use libeventdisp.Http.Package.{Ptr, Session}
use libeventdisp.Http.Parse.{get_at, parse_get, line_end, link, parse_loop}

-- The request lines, in order, each with its two texts.
unfoldable pub requests : ℕ → Bytes → ℕ → List (Option Bytes × Option Bytes)
requests zero s n = []
requests (suc fuel) s n =
    let pt = line_end (find_crlf s) n in
    let r = parse_get s pt in
    let with_get = (r.uri, r.ver) ∷ requests fuel r.rest (n - r.eaten) in
    let without = requests fuel (drop (pt + 2) s) (n - (pt + 2)) in
    if n == 0 then [] else if starts_with get_word s then with_get else without

-- A package for each, in order.
unfoldable pub link_all :
    Ptr → List (Option Bytes × Option Bytes) → Session × Ptr → Outcome (Session × Ptr)
link_all p [] st = ok st
link_all p ((uri, ver) ∷ l) st = do st' ← link p uri ver st; link_all p l st'

eaten_pos_at : (o : Option ℕ) (s4 : Bytes) (pt : ℕ) → 0 < (get_at o s4 pt).eaten
eaten_pos_at none s4 pt = omega arith
eaten_pos_at (some ps) s4 pt = ground arith

eaten_pos : (s : Bytes) (pt : ℕ) → 0 < (parse_get s pt).eaten
unfolding parse_get
eaten_pos s pt = eaten_pos_at (find_char b' ' (drop 4 s)) (drop 4 s) pt

loop_after :
    (fuel : ℕ) (p : Ptr) (s : Bytes) (n : ℕ) (l : List (Option Bytes × Option Bytes))
    → ((st : Session × Ptr) → parse_loop fuel p s n st ≡ link_all p l st)
    → (m : Outcome (Session × Ptr))
    → (m >>= λ st. parse_loop fuel p s n st) ≡ (m >>= λ st. link_all p l st)
loop_after fuel p s n l h crash = refl
loop_after fuel p s n l h (ok st) = h st

-- With fuel for every byte, the loop of `svr_http_parse` ends, and links the packages that
-- `requests` lists, in order, and nothing else.
pub parse_loop-link_all :
    (fuel : ℕ) (p : Ptr) (s : Bytes) (n : ℕ) (st : Session × Ptr)
    → n ≤ fuel
    → parse_loop fuel p s n st ≡ link_all p (requests fuel s n) st
unfolding parse_loop requests link_all
parse_loop-link_all zero p s n st h = ground arith
parse_loop-link_all (suc fuel) p s n st h = elim (Bool-cases (n == 0)) [
  | inl e ↦ rw e
  | inr more ↦
      let pt = line_end (find_crlf s) n in
      let r = parse_get s pt in
      elim (Bool-cases (starts_with get_word s)) [
        | inr no_get ↦
            rw (more, no_get)
              (parse_loop-link_all fuel p (drop (pt + 2) s) (n - (pt + 2)) st (omega arith))
        | inl is_get ↦
            let pos : 0 < r.eaten = eaten_pos s pt in
            rw (more, is_get)
              (loop_after fuel p r.rest (n - r.eaten) _
                (λ st'. parse_loop-link_all fuel p r.rest (n - r.eaten) st' (omega arith))
                (link p r.uri r.ver st))
      ]
]
