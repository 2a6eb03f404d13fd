-- ===== src/Http/Keys.antt =====
-- webserver/svr_http.cc: the keys of the cache, a URI for a header and `URI#offset` for a part of a body,
-- each cut at MAXKEYS - 1 characters.
use libeventdisp.Base.{
  ℕ, zero, suc, ◌+◌, ◌-◌, append-nil, ◌<◌, ◌≡◌, refl, true, false, [], ◌∷◌, ◌++◌, length,
  length-append, member, sym, ap, subst, ◌∙◌, arith,
}
use libeventdisp.Http.Text.{Bytes, take, drop, c_str}
use libeventdisp.Http.Serve.{max_keys, head_key, body_key}
use libeventdisp.Http.Stream.{Doc, IsPart, Holds}

take-short : (n : ℕ) (s : Bytes) → length (take n s) < n → take n s ≡ s
take-short n [] h = ground arith
take-short zero (b ∷ s) h = absurd (omega (arith, h))
take-short (suc n) (b ∷ s) h = ap (λ t. b ∷ t) (take-short n s (omega (arith, h)))

length-take_short : (n : ℕ) (s : Bytes) → length s < n → length (take n s) < n
length-take_short n [] h = ground (arith, h)
length-take_short zero (b ∷ s) h = absurd (omega (arith, h))
length-take_short (suc n) (b ∷ s) h = omega (arith, length-take_short n s (omega (arith, h)))

-- Two texts that are cut to the same are the same, where what is left is shorter than the cut.
take-same : (n : ℕ) (s t : Bytes) → length s < n → take n s ≡ take n t → s ≡ t
take-same n s t h e =
    let small = length-take_short n s h in
    let small' : length (take n t) < n = subst (λ x. length x < n) e small in
    sym (take-short n s small) ∙ e ∙ take-short n t small'

member-hash : (a c : Bytes) → member b'#' (a ++ b'#' ∷ c) ≡ true
member-hash [] c = ground arith
member-hash (x ∷ a) c = ground (arith, member-hash a c)

-- A text splits at its last `#`.
split-hash :
    (a b : Bytes) (c d : Bytes)
    → member b'#' c ≡ false
    → member b'#' d ≡ false
    → a ++ b'#' ∷ c ≡ b ++ b'#' ∷ d
    → (a ≡ b) × (c ≡ d)
split-hash [] [] c d nc nd e = (refl, ground (arith, e))
split-hash [] (y ∷ b) c d nc nd e =
    let rest : c ≡ b ++ b'#' ∷ d = ground (arith, e) in
    absurd (ground (arith, member-hash b d, rest, nc))
split-hash (x ∷ a) [] c d nc nd e =
    let rest : d ≡ a ++ b'#' ∷ c = ground (arith, e) in
    absurd (ground (arith, member-hash a c, rest, nd))
split-hash (x ∷ a) (y ∷ b) c d nc nd e =
    let head : x ≡ y = ground (arith, e) in
    let rest : a ++ b'#' ∷ c ≡ b ++ b'#' ∷ d = ground (arith, e) in
    let (l, r) = split-hash a b c d nc nd rest in (ground (arith, head, l), r)

-- The keys of two parts of bodies are different, unless the URI, up to its first zero, and the offset
-- are the same: where one of the keys has at most 254 characters, one less than those that fit, and where
-- the texts of numbers have no `#` and are different for different numbers.
pub body_key-injective :
    (decimal : ℕ → Bytes) (u v : Bytes) (o p : ℕ)
    → ((n : ℕ) → member b'#' (decimal n) ≡ false)
    → ((n m : ℕ) → decimal n ≡ decimal m → n ≡ m)
    → length (c_str u) + length (decimal o) + 2 < max_keys
    → body_key decimal u o ≡ body_key decimal v p
    → (c_str u ≡ c_str v) × (o ≡ p)
unfolding body_key
body_key-injective decimal u v o p clean apart small e =
    let whole =
      take-same (max_keys - 1) (c_str u ++ b'#' ∷ decimal o) (c_str v ++ b'#' ∷ decimal p)
        (omega (arith, small, length-append (c_str u) (b'#' ∷ decimal o))) e in
    let (uri, number) =
      split-hash (c_str u) (c_str v) (decimal o) (decimal p) (clean o) (clean p) whole in
    (uri, apart o p number)

-- So what is put into the cache under the key of an offset, a part of the file there, is such a part
-- for every offset that has this key, under the same conditions.
pub body_key-Holds :
    (doc : Doc) (o : ℕ) (d : Bytes)
    → ((n : ℕ) → member b'#' (doc.decimal n) ≡ false)
    → ((n m : ℕ) → doc.decimal n ≡ doc.decimal m → n ≡ m)
    → length (c_str doc.uri) + length (doc.decimal o) + 2 < max_keys
    → IsPart (drop o doc.file) d
    → Holds doc (body_key doc.decimal doc.uri o) d
body_key-Holds doc o d clean apart small part p same =
    let (uri, is) = body_key-injective doc.decimal doc.uri doc.uri o p clean apart small same in
    subst (λ n. IsPart (drop n doc.file) d) is part

c_str-append : (s t : Bytes) → member 0 s ≡ false → member 0 t ≡ false → c_str (s ++ t) ≡ s ++ t
unfolding c_str
c_str-append [] [] a b = refl
c_str-append [] (x ∷ t) a b = ground (arith, c_str-append [] t refl (ground (arith, b)), b)
c_str-append (x ∷ s) t a b = ground (arith, c_str-append s t (ground (arith, a)) b, a)

-- The key of a header is the key of a part of another body, when its URI is that of the other, `#` and
-- the offset, with no zeros in them: the two share a slot of the cache.
pub head_key-body_key :
    (decimal : ℕ → Bytes) (u : Bytes) (o : ℕ)
    → member 0 u ≡ false
    → member 0 (decimal o) ≡ false
    → head_key (u ++ b'#' ∷ decimal o) ≡ body_key decimal u o
unfolding head_key body_key
head_key-body_key decimal u o a b =
    let tail : member 0 (b'#' ∷ decimal o) ≡ false = ground (arith, b) in
    let plain : c_str u ≡ u =
      ap c_str (sym (append-nil u)) ∙ c_str-append u [] a refl ∙ append-nil u in
    ap (take (max_keys - 1)) (c_str-append u (b'#' ∷ decimal o) a tail)
    ∙ ap (λ x. take (max_keys - 1) (x ++ b'#' ∷ decimal o)) (sym plain)
