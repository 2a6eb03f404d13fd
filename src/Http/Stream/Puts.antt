-- ===== src/Http/Stream/Puts.antt =====
-- webserver/svr_http.cc: what `svr_http_body_pio` puts into the cache.
use libeventdisp.Base.{
  ℕ, ◌+◌, ◌<◌, ◌≡◌, ◌≢◌, false, some, [], ◌∷◌, length, member, ap, sym, ◌∙◌, ok, arith,
}
use libeventdisp.Http.Text.{Bytes, drop, c_str}
use libeventdisp.Http.Package.{Ptr, null, n_200, Hpkg, writing_head, fetching, Session}
use libeventdisp.Http.Serve.{Env, max_keys, body_key}
use libeventdisp.Http.Serial.Always.{take_pending}
use libeventdisp.Http.Serial.Reach.{Reached, reached_Serial}
use libeventdisp.Http.Steps.{done, resume}
use libeventdisp.Http.Keys.{body_key-Holds}
use libeventdisp.Http.Stream.{Doc, IsPart, Holds, Truthful, Sends}
use libeventdisp.Http.Stream.Whole.{Serial-HeadSent, HeadSent-Carries}
use libeventdisp.Http.Stream.Runs.{staged, Sends-Carries}

-- When such a package has read a part of the file, at the offset that it passed to the read, and is to
-- put it into the cache under its `bodykey`: the part is what the cache is to have under this key, where
-- the key has at most 254 characters, one less than those that fit, and the texts of numbers are
-- different and have no `#`.
pub Sends-Holds :
    (root c : Ptr) (doc : Doc) (e : Env) (h b : Bytes) (off : ℕ) (d : Bytes) {k : Hpkg}
    {s t u : Session} {w : Bytes} {k' : Hpkg}
    → root ≢ null
    → Reached root s
    → s.pending ≡ writing_head c h ∷ []
    → s.pkgs c ≡ some k
    → k.hsn ≡ n_200
    → k.uri ≡ some doc.uri
    → Truthful doc e
    → resume (writing_head c h) (done b) e (take_pending s) ≡ ok t
    → Sends doc c t w u
    → u.pending ≡ fetching c off ∷ []
    → u.pkgs c ≡ some k'
    → IsPart (drop off doc.file) d
    → ((n : ℕ) → member b'#' (doc.decimal n) ≡ false)
    → ((n m : ℕ) → doc.decimal n ≡ doc.decimal m → n ≡ m)
    → length (c_str doc.uri) + length (doc.decimal off) + 2 < max_keys
    → (key : Bytes) × (k'.bodykey ≡ some key) × Holds doc key d
Sends-Holds root c doc e h b off d {k' = k'} ne reached p at full uri true_to is run waits at' part
      clean apart small =
    let head = Serial-HeadSent (reached_Serial root ne reached) p at in
    let (end, all) = Sends-Carries 0 head.ne run (HeadSent-Carries e head full uri true_to is) in
    let (here, keyed) = staged end waits in
    let same : end.k ≡ k' = ground (arith, end.at, at') in
    let key = body_key doc.decimal doc.uri off in
    (
      key,
      ap (λ x. x.bodykey) (sym same)
          ∙ keyed
          ∙ ap (λ n. some (body_key doc.decimal doc.uri n)) (sym here),
      body_key-Holds doc off d clean apart small part,
    )
