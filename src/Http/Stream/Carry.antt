-- ===== src/Http/Stream/Carry.antt =====
-- webserver/svr_http.cc: each call of a package that sends a file leaves it at the next byte to send.
use libeventdisp.Base.{
  ℕ, ◌+◌, ◌<◌, ◌≡◌, refl, ◌≢◌, true, false, some, [], ◌∷◌, ◌++◌, ltb, subst, sym, ap, ◌∙◌, Outcome,
  ok, arith,
}
use libeventdisp.TcpServer.{cs_connected}
use libeventdisp.Http.Text.{Bytes, drop}
use libeventdisp.Http.Package.{
  Ptr, null, Pending, hs_fetching, hs_writing, ws_body, Hpkg, writing, fetching, waiting_body,
  Session, write, load, save, add,
}
use libeventdisp.Http.Final.{is_some, Slot, running, filled}
use libeventdisp.Http.Serve.{
  Answer, hit, hollow, later, miss, Env, open_once, body_key, body_wio, body_got, body, body_rio,
  body_rio_at, body_pio,
}
use libeventdisp.Http.Serial.{load_lem}
use libeventdisp.Http.Serial.Body.{
  can_answer, body_wio-sends, body-asks, body_rio-goes, body_done_lem,
}
use libeventdisp.Http.Serial.Head.{is_hollow}
use libeventdisp.Http.Stream.{Doc, IsPart, Truthful, BodyStage, Carries}

-- A handler returns, and the package is to send the document from the offset on.
pub data Goes (doc : Doc) (c : Ptr) (n : ℕ) : Outcome Session → Type 0 where
  goes : {t : Session} → Carries doc c n t → Goes doc c n (ok t)

-- The package at hand, while a handler of it runs.
pub record Ready (doc : Doc) (c : Ptr) (n : ℕ) (k : Hpkg) (s : Session) : Type 0 where
  pub ne : c ≢ null
  pub at : s.pkgs c ≡ some k
  pub idle : s.pending ≡ []
  pub uri : k.uri ≡ some doc.uri
  pub offset : k.tr_offset ≡ n
  pub is_open : s.cst ≡ cs_connected

pub Ready-load :
    {doc : Doc} {c : Ptr} {n : ℕ} {k : Hpkg} {s : Session} → Ready doc c n k s → load c s ≡ ok k
Ready-load {c = c} {s = s} v = load_lem c s v.ne v.at

Ready-save :
    {doc : Doc} {c : Ptr} {n m : ℕ} {k : Hpkg} {s : Session} (k' : Hpkg)
    → Ready doc c n k s
    → k'.uri ≡ k.uri
    → k'.tr_offset ≡ m
    → Ready doc c m k' (save c k' s)
unfolding write
Ready-save k' v u o = record {
  ne = v.ne;
  at = ground arith;
  idle = v.idle;
  uri = u ∙ v.uri;
  offset = o;
  is_open = v.is_open;
}

Ready-add :
    {doc : Doc} {c : Ptr} {n : ℕ} {k : Hpkg} {s : Session} (x : Pending)
    → Ready doc c n k s
    → is_some k.bodykey ≡ true
    → BodyStage doc n k x
    → Goes doc c n (ok (add x s))
Ready-add {k = k} x v key stage = goes (record {
  k = k;
  x = x;
  pending = ap (λ p. p ++ x ∷ []) v.idle;
  stage = stage;
  at = v.at;
  key = key;
  uri = v.uri;
  offset = v.offset;
  is_open = v.is_open;
})

-- The history of references may change.
Ready-taken :
    {doc : Doc} {c : Ptr} {n : ℕ} {k : Hpkg} {s : Session} (taken given : ℕ)
    → Ready doc c n k s
    → Ready doc c n k (record s { bodies_taken = taken; bodies_done = given })
Ready-taken taken given v = record {
  ne = v.ne;
  at = v.at;
  idle = v.idle;
  uri = v.uri;
  offset = v.offset;
  is_open = v.is_open;
}

pub body_wio-Goes :
    {doc : Doc} {c : Ptr} {n : ℕ} {k : Hpkg} {s : Session} (slot : Slot) (d : Bytes)
    → Ready doc c n k s
    → is_some k.bodykey ≡ true
    → IsPart (drop n doc.file) d
    → Goes doc c n (body_wio slot c d s)
body_wio-Goes {c = c} {k = k} {s = s} slot d v key part =
    let k' = record k { hst = hs_writing; wst = ws_body } in
    rw (body_wio-sends c s slot d (Ready-load v) v.is_open) (
      Ready-add (writing c d)
        (Ready-save k' (Ready-taken (s.bodies_taken + 1) s.bodies_done v) refl v.offset) key
        (refl, part))

-- The cache answers for the key of the offset.
body_got-Goes :
    {doc : Doc} {c : Ptr} {n : ℕ} {k : Hpkg} {s : Session} (a : Answer) (e : Env)
    → can_answer a ≡ true
    → is_hollow a ≡ false
    → ((d : Bytes) → a ≡ hit d → IsPart (drop n doc.file) d)
    → Ready doc c n k s
    → k.bodykey ≡ some (body_key doc.decimal doc.uri n)
    → Goes doc c n (body_got a (body_key doc.decimal doc.uri n) e c s)
body_got-Goes (hit d) e can whole hits v key =
    body_wio-Goes filled d v (ap is_some key) (hits d refl)
body_got-Goes {doc} {c} {n} later e can whole hits v key =
    Ready-add (waiting_body c (body_key doc.decimal doc.uri n)) v (ap is_some key) refl
body_got-Goes {doc} {c} {n} {k} {s} (miss true true) e can whole hits v key =
    let k' = record k { hfd = open_once k.hfd e.opened } in
    rw (Ready-load v) (
      Ready-add (fetching c k.tr_offset) (Ready-save k' v refl v.offset) (ap is_some key)
        (v.offset, key))
body_got-Goes hollow e can whole hits v key = absurd (ground (arith, whole))
body_got-Goes (miss false q) e can whole hits v key = absurd (ground (arith, can))
body_got-Goes (miss true false) e can whole hits v key = absurd (ground (arith, can))

pub body-Goes :
    {doc : Doc} {c : Ptr} {n : ℕ} {k : Hpkg} {s : Session} (e : Env)
    → Truthful doc e
    → Ready doc c n k s
    → Goes doc c n (body e c s)
body-Goes {doc} {c} {n} {k} {s} e true_to v =
    let key : body_key e.decimal doc.uri k.tr_offset ≡ body_key doc.decimal doc.uri n =
      ap (λ f. body_key f doc.uri k.tr_offset) true_to.decimal
      ∙ ap (λ o. body_key doc.decimal doc.uri o) v.offset in
    let id = body_key doc.decimal doc.uri n in
    let k' = record k { hst = hs_fetching; wst = ws_body; bodykey = some id } in
    rw (body-asks c s e doc.uri (Ready-load v) v.is_open v.uri) (
      rw key (
        body_got-Goes (e.answer id) e (true_to.good.answers id) (true_to.whole id)
          (λ d got. true_to.hits id d got n refl) (Ready-save k' v refl v.offset) refl))

-- A part that was read is put into the cache, and from there it is written.
pub body_pio-Goes :
    {doc : Doc} {c : Ptr} {n : ℕ} {k : Hpkg} {s : Session} (e : Env) (d : Bytes)
    → Truthful doc e
    → Ready doc c n k s
    → is_some k.bodykey ≡ true
    → IsPart (drop n doc.file) d
    → Goes doc c n (body_pio e c d s)
unfolding body_pio write
body_pio-Goes {c = c} {k = k} {s = s} e d true_to v key part =
    let k' = record k { hst = hs_writing; wst = ws_body } in
    let s' = add (writing c d) (save c k' (record s { bodies_taken = s.bodies_taken + 1 })) in
    let at = Ready-load v in
    let puts = true_to.good.puts in
    let sends = body_wio-sends c s running d at v.is_open in
    let again : load c s' ≡ ok k' = load_lem c s' v.ne (ground arith) in
    rw (sends, at, puts, again)
      (goes (record {
        k = record k' { cbody_cached = true };
        x = writing c d;
        pending = ap (λ p. p ++ writing c d ∷ []) v.idle;
        stage = (refl, part);
        at = ground arith;
        key = key;
        uri = v.uri;
        offset = v.offset;
        is_open = v.is_open;
      }))

-- Bytes were written: the next part begins behind them.
pub body_rio-Goes :
    {doc : Doc} {c : Ptr} {n : ℕ} {k : Hpkg} {s : Session} (e : Env) (m : ℕ)
    → Truthful doc e
    → Ready doc c n k s
    → is_some k.bodykey ≡ true
    → k.wst ≡ ws_body
    → 0 < m
    → Goes doc c (n + m) (body_rio e c m s)
body_rio-Goes {doc} {c} {n} {k} {s} e m true_to v key w some_bytes =
    let k' = record k { tr_offset = k.tr_offset + m } in
    let on =
      Ready-save k' (Ready-taken s.bodies_taken (s.bodies_done + 1) v) refl
        (ap (λ o. o + m) v.offset) in
    let positive : ltb 0 m ≡ true = ground arith in
    let passes = body_rio-goes c s e m (Ready-load v) ∙ ap (λ st. body_rio_at st m e c k s) w in
    subst (λ o. Goes doc c (n + m) o) (sym passes)
      (rw (body_done_lem k.bodykey s key, positive) (body-Goes e true_to on))
