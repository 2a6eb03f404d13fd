-- ===== src/Http/Lines.antt =====
-- webserver/svr_http.cc: the lines of a request as text, and what the parser finds in one line.
use libeventdisp.Base.{
  ℕ, suc, ◌+◌, ◌-◌, ◌≡◌, refl, ◌≢◌, true, false, Option, some, List, [], ◌∷◌, ◌++◌, append_assoc,
  ◌==◌, ltb, leb, length, length-append, ap, sym, ◌∙◌, arith,
}
use libeventdisp.Http.Text.{
  Bytes, codes, take, drop, starts_with, find_crlf, find_char, crlf, get_word,
}
use libeventdisp.Http.Parse.{Request, get_at, parse_get}
use libeventdisp.Http.Requests.{requests}

-- The lines of a request: a GET line whose URI begins with a slash, and any other.
pub data Line : Type 0 where
  get : Bytes → Bytes → Line
  other : Bytes → Line

unfoldable pub print_line : Line → Bytes
print_line (get uri ver) = codes "GET /" ++ (uri ++ (b' ' ∷ (ver ++ crlf)))
print_line (other t) = t ++ crlf

unfoldable pub print : List Line → Bytes
print [] = []
print (l ∷ ls) = print_line l ++ print ls

unfoldable pub gets : List Line → List (Option Bytes × Option Bytes)
gets [] = []
gets (get uri ver ∷ ls) = (some uri, some ver) ∷ gets ls
gets (other t ∷ ls) = gets ls

-- No byte is 0, a carriage return, or, in a URI, a space.
abbrev pub Plain : Bytes → Type 0
Plain [] = Unit
Plain (c ∷ s) = (c ≢ 0) × (c ≢ 13) × Plain s

abbrev pub Unspaced : Bytes → Type 0
Unspaced [] = Unit
Unspaced (c ∷ s) = (c ≢ b' ') × Unspaced s

abbrev pub IsLine : Line → Type 0
IsLine (get uri ver) =
    Plain uri × Unspaced uri × Plain ver × (starts_with get_word (ver ++ crlf) ≡ false)
IsLine (other t) = Plain t × (starts_with get_word (t ++ crlf) ≡ false)

find_crlf-Plain : (t rest : Bytes) → Plain t → find_crlf (t ++ (13 ∷ 10 ∷ rest)) ≡ some (length t)
unfolding find_crlf starts_with
find_crlf-Plain [] rest h = refl
find_crlf-Plain (c ∷ t) rest (a, b, h) = ground (arith, find_crlf-Plain t rest h)

find_char-Plain :
    (t rest : Bytes) → Plain t → Unspaced t → find_char b' ' (t ++ (b' ' ∷ rest)) ≡ some (length t)
unfolding find_char
find_char-Plain [] rest h u = refl
find_char-Plain (c ∷ t) rest (a, b, h) (n, u) = ground (arith, find_char-Plain t rest h u)

drop_all : (t rest : Bytes) (k : ℕ) → drop (length t + k) (t ++ rest) ≡ drop k rest
drop_all [] rest k = let e : 0 + k ≡ k = omega arith in rw e
drop_all (c ∷ t) rest k =
    let e : suc (length t) + k ≡ suc (length t + k) = omega arith in rw e (drop_all t rest k)

drop_zero : (s : Bytes) → drop 0 s ≡ s
drop_zero [] = refl
drop_zero (c ∷ s) = refl

drop_line : (t rest : Bytes) → drop (length t + 2) (t ++ (13 ∷ 10 ∷ rest)) ≡ rest
drop_line t rest = drop_all t (13 ∷ 10 ∷ rest) 2 ∙ drop_zero rest

drop_word : (d : ℕ) (t rest : Bytes) → drop (length t + 1) (t ++ (d ∷ rest)) ≡ rest
drop_word d t rest = drop_all t (d ∷ rest) 1 ∙ drop_zero rest

take_all : (t rest : Bytes) → take (length t) (t ++ rest) ≡ t
take_all [] [] = refl
take_all [] (d ∷ rest) = refl
take_all (c ∷ t) rest = ap (λ u. c ∷ u) (take_all t rest)

starts_with_more :
    (p t rest : Bytes) → Plain p → starts_with p (t ++ (13 ∷ 10 ∷ rest)) ≡ starts_with p (t ++ crlf)
unfolding starts_with
starts_with_more [] t rest h = refl
starts_with_more (d ∷ p) [] rest (a, b, h) = ground arith
starts_with_more (d ∷ p) (c ∷ t) rest (a, b, h) = ground (arith, starts_with_more p t rest h)

get_word-Plain : Plain get_word
get_word-Plain = omega arith

pub skip_line :
    (f : ℕ) (t rest : Bytes) (n : ℕ)
    → Plain t
    → starts_with get_word (t ++ crlf) ≡ false
    → n ≢ 0
    → requests (suc f) (t ++ (13 ∷ 10 ∷ rest)) n ≡ requests f rest (n - (length t + 2))
unfolding requests
skip_line f t rest n plain no_get ne =
    let e = find_crlf-Plain t rest plain in
    let g = starts_with_more get_word t rest get_word-Plain in
    let z : (n == 0) ≡ false = ground arith in rw (z, g, no_get, e, drop_line t rest)

-- The texts that a well-formed request line gives.
parsed_line : Bytes → Bytes → Bytes → Request
parsed_line uri ver rest = record {
  rest = ver ++ rest;
  eaten = length uri + 6;
  uri = some uri;
  ver = some ver;
}

get_at_line :
    (uri ver rest : Bytes) (pt : ℕ)
    → pt ≡ length uri + 6 + length ver
    → get_at (some (suc (length uri))) (b'/' ∷ (uri ++ (b' ' ∷ (ver ++ rest)))) pt
      ≡ parsed_line uri ver rest
unfolding parsed_line
get_at_line uri ver rest pt e =
    let before : ltb (4 + suc (length uri)) pt ≡ true = ground arith in
    let within : leb (4 + (suc (length uri) + 1)) pt ≡ true = ground arith in
    let eaten : 4 + (suc (length uri) + 1) ≡ length uri + 6 = omega arith in
    let left : pt - (length uri + 6) ≡ length ver = omega arith in
    let one : suc (length uri) + 1 ≡ suc (length uri + 1) = omega arith in
    let less : suc (length uri) - 1 ≡ length uri = omega arith in
    let r = drop_word b' ' uri (ver ++ rest) in
    let slash = drop_zero (uri ++ (b' ' ∷ (ver ++ rest))) in
    rw (before, within, eaten, left, one, r, less, slash, take_all uri, take_all ver)

Plain-append : (s t : Bytes) → Plain s → Plain t → Plain (s ++ t)
Plain-append [] t h k = k
Plain-append (c ∷ s) t (a, b, h) k = (a, b, Plain-append s t h k)

line_crlf :
    (uri ver rest : Bytes)
    → Plain uri
    → Plain ver
    → find_crlf (codes "GET /" ++ (uri ++ (b' ' ∷ (ver ++ (13 ∷ 10 ∷ rest)))))
      ≡ some (length uri + 6 + length ver)
line_crlf uri ver rest pu pv =
    let t : Bytes = codes "GET /" ++ (uri ++ (b' ' ∷ ver)) in
    let whole : Bytes = t ++ (13 ∷ 10 ∷ rest) in
    let same : whole ≡ codes "GET /" ++ (uri ++ (b' ' ∷ (ver ++ (13 ∷ 10 ∷ rest)))) =
      ap (λ u. codes "GET /" ++ u) (append_assoc uri (b' ' ∷ ver) (13 ∷ 10 ∷ rest)) in
    let found = find_crlf-Plain t rest (
      Plain-append (codes "GET /") (uri ++ (b' ' ∷ ver)) (omega arith)
        (Plain-append uri (b' ' ∷ ver) pu (omega arith, omega arith, pv))) in
    let size : length t ≡ length uri + 6 + length ver =
      omega (arith, length-append uri (b' ' ∷ ver)) in
    ap find_crlf (sym same) ∙ found ∙ ap some size

parse_get_line :
    (uri ver rest : Bytes) (pt : ℕ)
    → Plain uri
    → Unspaced uri
    → pt ≡ length uri + 6 + length ver
    → parse_get (codes "GET /" ++ (uri ++ (b' ' ∷ (ver ++ rest)))) pt ≡ parsed_line uri ver rest
unfolding parse_get
parse_get_line uri ver rest pt pu su e =
    let space =
      find_char-Plain (b'/' ∷ uri) (ver ++ rest) (omega arith, omega arith, pu) (omega arith, su) in
    ap (λ o. get_at o (b'/' ∷ (uri ++ (b' ' ∷ (ver ++ rest)))) pt) space
    ∙ get_at_line uri ver rest pt e

pub get_line :
    (f : ℕ) (uri ver rest : Bytes) (n : ℕ)
    → Plain uri
    → Unspaced uri
    → Plain ver
    → n ≢ 0
    → requests (suc f) (codes "GET /" ++ (uri ++ (b' ' ∷ (ver ++ (13 ∷ 10 ∷ rest))))) n
      ≡ (some uri, some ver) ∷ requests f (ver ++ (13 ∷ 10 ∷ rest)) (n - (length uri + 6))
unfolding requests parsed_line starts_with
get_line f uri ver rest n pu su pv ne =
    let z : (n == 0) ≡ false = ground arith in
    let e = line_crlf uri ver rest pu pv in
    let g = parse_get_line uri ver (13 ∷ 10 ∷ rest) (length uri + 6 + length ver) pu su refl in
    rw (z, e, g)

pub get_line-append :
    (uri ver rest : Bytes)
    → print_line (get uri ver) ++ rest
      ≡ codes "GET /" ++ (uri ++ (b' ' ∷ (ver ++ (13 ∷ 10 ∷ rest))))
unfolding print_line
get_line-append uri ver rest =
    ap (λ u. codes "GET /" ++ u)
      (append_assoc uri (b' ' ∷ (ver ++ crlf)) rest
        ∙ ap (λ u. uri ++ (b' ' ∷ u)) (append_assoc ver crlf rest))

pub length-get_line :
    (uri ver rest : Bytes)
    → length (codes "GET /" ++ (uri ++ (b' ' ∷ (ver ++ (13 ∷ 10 ∷ rest)))))
      ≡ length uri + 8 + length ver + length rest
length-get_line uri ver rest = omega (
  arith,
  length-append uri (b' ' ∷ (ver ++ (13 ∷ 10 ∷ rest))),
  length-append ver (13 ∷ 10 ∷ rest),
)

pub length-line : (t rest : Bytes) → length (t ++ (13 ∷ 10 ∷ rest)) ≡ length t + 2 + length rest
length-line t rest = omega (arith, length-append t (13 ∷ 10 ∷ rest))
