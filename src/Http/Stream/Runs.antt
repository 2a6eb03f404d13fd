-- ===== src/Http/Stream/Runs.antt =====
-- webserver/svr_http.cc: whatever a package has sent of a file, it is to go on behind it.
use libeventdisp.Base.{
  ℕ, zero, suc, ◌+◌, ◌<◌, ◌≡◌, refl, ◌≢◌, [], ◌∷◌, ◌++◌, append_assoc, length, length-append, subst,
  sym, ap, ◌∙◌, Outcome, ok, arith,
}
use libeventdisp.Http.Text.{Bytes, drop}
use libeventdisp.Http.Package.{Ptr, null, Pending, Session}
use libeventdisp.Http.Final.{running}
use libeventdisp.Http.Serial.{reads}
use libeventdisp.Http.Serial.Always.{take_pending, same_head}
use libeventdisp.Http.Stream.{Doc, IsPart, Sends, sent, writes, reads, waits, BodyStage, Carries}
use libeventdisp.Http.Stream.Carry.{Goes, goes, Ready, body_wio-Goes, body_pio-Goes, body_rio-Goes}

drop-nil : (n : ℕ) → drop n [] ≡ []
drop-nil zero = refl
drop-nil (suc n) = refl

pub drop-zero : (s : Bytes) → drop 0 s ≡ s
drop-zero [] = refl
drop-zero (b ∷ s) = refl

drop-drop : (n m : ℕ) (s : Bytes) → drop m (drop n s) ≡ drop (n + m) s
drop-drop n m [] = ap (drop m) (drop-nil n) ∙ drop-nil m ∙ sym (drop-nil (n + m))
drop-drop zero m (b ∷ s) = let same : m ≡ 0 + m = omega arith in ap (λ i. drop i (b ∷ s)) same
drop-drop (suc n) m (b ∷ s) =
    let same : suc (n + m) ≡ suc n + m = omega arith in
    drop-drop n m s ∙ ap (λ i. drop i (b ∷ s)) same

drop-append : (p r : Bytes) → drop (length p) (p ++ r) ≡ r
drop-append [] r = drop-zero r
drop-append (b ∷ p) r = drop-append p r

-- The bytes that were written are the next of the file.
part_next :
    (n : ℕ) (file part rest : Bytes)
    → 0 < length part
    → IsPart (drop n file) (part ++ rest)
    → drop n file ≡ part ++ drop (n + length part) file
part_next n file [] rest pos is = absurd (omega (arith, pos))
part_next n file (b ∷ p) rest pos (r, e) =
    let whole : drop n file ≡ (b ∷ p) ++ (rest ++ r) = e ∙ append_assoc (b ∷ p) rest r in
    let left : drop (n + length (b ∷ p)) file ≡ rest ++ r =
      sym (drop-drop n (length (b ∷ p)) file)
      ∙ ap (drop (length (b ∷ p))) whole
      ∙ drop-append (b ∷ p) (rest ++ r) in
    whole ∙ ap (λ z. (b ∷ p) ++ z) (sym left)

Goes-cases :
    {doc : Doc} {c : Ptr} {n : ℕ} {o : Outcome Session}
    → Goes doc c n o
    → (t : Session) × (o ≡ ok t) × Carries doc c n t
Goes-cases (goes {t} v) = (t, refl, v)

pub Goes-Carries :
    {doc : Doc} {c : Ptr} {n : ℕ} {o : Outcome Session} {t : Session}
    → Goes doc c n o
    → o ≡ ok t
    → Carries doc c n t
Goes-Carries {doc} {c} {n} {t = t} v e =
    let (u, is, x) = Goes-cases v in
    let same : u ≡ t = ground (arith, is, e) in subst (Carries doc c n) same x

-- The call that is pending is made, with the result of a write, a read or a callback.
pub resumed :
    {doc : Doc} {c : Ptr} {n : ℕ} {s : Session} (v : Carries doc c n s)
    → c ≢ null
    → Ready doc c n v.k (take_pending s)
resumed v ne = record {
  ne = ne;
  at = v.at;
  idle = refl;
  uri = v.uri;
  offset = v.offset;
  is_open = v.is_open;
}

pub staged :
    {doc : Doc} {c : Ptr} {n : ℕ} {s : Session} {y : Pending} (v : Carries doc c n s)
    → s.pending ≡ y ∷ []
    → BodyStage doc n v.k y
staged {doc} {c} {n} v at = subst (BodyStage doc n v.k) (same_head v.pending at) v.stage

-- Whatever a package has sent, it is to go on behind it, and it has sent the bytes of the file there.
pub Sends-Carries :
    {doc : Doc} {c : Ptr} {s t : Session} {w : Bytes} (n : ℕ)
    → c ≢ null
    → Sends doc c s w t
    → Carries doc c n s
    → Carries doc c (n + length w) t × (drop n doc.file ≡ w ++ drop (n + length w) doc.file)
Sends-Carries {doc} {c} {s} n ne sent v =
    let same : n ≡ n + 0 = omega arith in
    (subst (λ m. Carries doc c m s) same v, ap (λ m. drop m doc.file) same)
Sends-Carries {doc} {c} {t = u} n ne (writes {more = more} e part rest true_to at pos is run) v =
    let (w, has) = staged v at in
    let next = Goes-Carries (body_rio-Goes e (length part) true_to (resumed v ne) v.key w pos) is in
    let (end, tail) = Sends-Carries (n + length part) ne run next in
    let far : n + length part + length more ≡ n + length (part ++ more) =
      omega (arith, length-append part more) in
    (
      subst (λ m. Carries doc c m u) far end,
      part_next n doc.file part rest pos has
          ∙ ap (λ z. part ++ z) (tail ∙ ap (λ m. more ++ drop m doc.file) far)
          ∙ sym (append_assoc part more (drop (n + length (part ++ more)) doc.file)),
    )
Sends-Carries {doc} {c} n ne (reads e off d true_to at part is run) v =
    let (here, keyed) = staged v at in
    let part' = subst (λ o. IsPart (drop o doc.file) d) here part in
    Sends-Carries n ne run (Goes-Carries (body_pio-Goes e d true_to (resumed v ne) v.key part') is)
Sends-Carries {doc} {c} n ne (waits e key d true_to at holds is run) v =
    let part = holds n (staged v at) in
    Sends-Carries n ne run (Goes-Carries (body_wio-Goes running d (resumed v ne) v.key part) is)
