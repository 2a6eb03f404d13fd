-- ===== src/Http/Serial/Fetch.antt =====
-- webserver/svr_http.cc: `svr_http_fetch`, with which the answer to a package begins.
use libeventdisp.Base.{
  ◌≡◌, refl, true, false, Option, none, some, List, ◌++◌, Bool-cases, inl, inr, ap,
}
use libeventdisp.TcpServer.{cs_connected}
use libeventdisp.Http.Text.{Bytes}
use libeventdisp.Http.Package.{
  Ptr, n_400, n_uno, hs_fetching, hs_writing, ws_head, Hpkg, writing, Session,
}
use libeventdisp.Http.Final.{no_write, is_some, final}
use libeventdisp.Http.Serve.{Env, head_key, write_400, fetch_version, fetch}
use libeventdisp.Http.Text.{c_str, same_text, codes, sline_400, crlf}
use libeventdisp.Http.Serial.{sends_400, Lands, Ctx, Ctx-load, Ctx-save, Ctx-add}
use libeventdisp.Http.Serial.Finish.{final-Lands}
use libeventdisp.Http.Serial.Body.{IsGood}
use libeventdisp.Http.Serial.Head.{is_hollow, header-Lands}

-- A bad request is answered without the cache.
pub write_400-Lands :
    {root c : Ptr} {k : Hpkg} {l : List Ptr} {s : Session}
    → Ctx root c k l s 0
    → s.cst ≡ cs_connected
    → k.headkey ≡ none
    → Lands root (write_400 c s)
unfolding write_400
write_400-Lands {c = c} {k = k} {s = s} x on none_yet =
    let at = Ctx-load x in
    let can_write : no_write s.cst ≡ false = ap no_write on in
    let k' = record k {
      hst = hs_writing;
      wst = ws_head;
      hsn = n_400;
      chead = some (sline_400 1 ++ (crlf ++ crlf));
    } in
    rw (at, can_write)
      (Ctx-add (writing c (sline_400 1 ++ (crlf ++ crlf))) (Ctx-save k' x refl refl)
        (sends_400 on refl refl none_yet) refl)

fetch_version-Lands :
    {root c : Ptr} {k₀ : Hpkg} {l : List Ptr} {s : Session} (met ver uri : Option Bytes) (e : Env)
    (k : Hpkg)
    → IsGood e
    → Ctx root c k₀ l s 0
    → s.cst ≡ cs_connected
    → (k.ppg ≡ k₀.ppg) × (k.nsg ≡ k₀.nsg)
    → ((t : Bytes) → k.uri ≡ some t → is_hollow (e.answer (head_key t)) ≡ false)
    → k.chead ≡ none
    → k.headkey ≡ none
    → k.uri ≡ uri
    → k.tr_offset ≡ 0
    → Lands root (fetch_version met ver uri e c k s)
fetch_version-Lands none v u e k good x on same whole new no_key is start =
    write_400-Lands (Ctx-save k x same.0 same.1) on no_key
fetch_version-Lands (some m) none u e k good x on same whole new no_key is start =
    write_400-Lands (Ctx-save k x same.0 same.1) on no_key
fetch_version-Lands (some m) (some v) none e k good x on same whole new no_key is start =
    write_400-Lands (Ctx-save k x same.0 same.1) on no_key
fetch_version-Lands (some m) (some v) (some u) e k good x on same whole new no_key is start =
    let has : is_some k.uri ≡ true = ap is_some is in
    elim (Bool-cases (same_text (c_str v) (codes "HTTP/1.0"))) [
      | inl v0 ↦ rw v0 (
          header-Lands e good (Ctx-save (record k { vern = 0 }) x same.0 same.1) on whole new has
            start)
      | inr other ↦ rw other (elim (Bool-cases (same_text (c_str v) (codes "HTTP/1.1"))) [
        | inl v1 ↦ rw v1 (
            header-Lands e good (Ctx-save (record k { vern = 1 }) x same.0 same.1) on whole new has
              start)
        | inr bad ↦ rw bad (write_400-Lands (Ctx-save k x same.0 same.1) on no_key)
      ])
    ]

fetch-shut :
    {root c : Ptr} {k : Hpkg} {l : List Ptr} {s : Session} (e : Env)
    → Ctx root c k l s 0
    → no_write s.cst ≡ true
    → fetch e c s ≡ final c s
unfolding fetch
fetch-shut e x shut = let at = Ctx-load x in rw (at, shut) refl

-- A package is answered, or, when the connection is closed for writing, dropped.
pub fetch-Lands :
    {root c : Ptr} {k : Hpkg} {l : List Ptr} {s : Session} (e : Env)
    → IsGood e
    → ((t : Bytes) → k.uri ≡ some t → is_hollow (e.answer (head_key t)) ≡ false)
    → Ctx root c k l s 0
    → k.chead ≡ none
    → k.headkey ≡ none
    → k.tr_offset ≡ 0
    → Lands root (fetch e c s)
unfolding fetch
fetch-Lands {c = c} {k = k} {l = l} {s = s} e good whole x new no_key start =
    let k' = record k { hst = hs_fetching; wst = ws_head; hsn = n_uno } in
    let at = Ctx-load x in
    elim x.is_open [
      | inl on ↦
          (let can_write : no_write s.cst ≡ false = ap no_write on in
            rw (at, can_write)
              (fetch_version-Lands k.met k.ver k.uri e k' good x on (refl, refl) whole new no_key
                refl start))
      | inr shut ↦ rw (fetch-shut e x (ap no_write shut)) (final-Lands l x)
    ]
