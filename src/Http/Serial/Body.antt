-- ===== src/Http/Serial/Body.antt =====
-- webserver/svr_http.cc: the handlers that send the body of a file, chunk by chunk.
use libeventdisp.Base.{
  ℕ, ◌+◌, ◌≡◌, refl, Bool, true, false, ◌&&◌, Option, none, some, List, Bool-cases, Option-cases,
  inl, inr, ltb, subst, sym, ap, ◌∙◌, ok, arith,
}
use libeventdisp.TcpServer.{cs_connected}
use libeventdisp.Http.Text.{Bytes}
use libeventdisp.Http.Package.{
  Ptr, hs_fetching, hs_writing, hs_unknown, ws_head, ws_body, ws_uno, Hpkg, writing, fetching,
  waiting_body, Session, load, save, add,
}
use libeventdisp.Http.Final.{body_cancelled, is_some}
use libeventdisp.Http.Serve.{
  Answer, hit, hollow, later, miss, Env, open_once, body_key, body_wio, body_got, body, is_200,
  header_to_body_aio, body_done, body_rio_at, body_rio, body_pio,
}
use libeventdisp.Http.Final.{body_cancelled, Slot, running, filled}
use libeventdisp.Http.Serial.{
  sends_body, fetches, waits_body, Lands, Ctx, load_lem, Ctx-load, Ctx-save, Ctx-add,
}
use libeventdisp.Http.Serial.Finish.{final-Lands}
use libeventdisp.Http.Serial.Counts.{Ctx-lose, Ctx-take, Ctx-give}

-- What the cache answers where the code asserts it: `reserve`, the second `get` and `put` succeed.
abbrev pub can_answer : Answer → Bool
can_answer (hit t) = true
can_answer later = true
can_answer hollow = true
can_answer (miss reserved again) = reserved && again

pub record IsGood (e : Env) : Type 0 where
  pub puts : e.is_put ≡ true
  pub answers : (key : Bytes) → can_answer (e.answer key) ≡ true

pub body_wio-sends :
    (c : Ptr) (s : Session) {k : Hpkg} (slot : Slot) (t : Bytes)
    → load c s ≡ ok k
    → s.cst ≡ cs_connected
    → body_wio slot c t s
      ≡ ok (
          add (writing c t) (
            save c
              (record k { hst = hs_writing; wst = ws_body })
              (record s { bodies_taken = s.bodies_taken + 1 })))
unfolding body_wio
body_wio-sends c s slot t at on = rw (at, on) refl

pub body_wio-Lands :
    {root c : Ptr} {k : Hpkg} {l : List Ptr} {s : Session} (slot : Slot) (t : Bytes)
    → Ctx root c k l s 0
    → s.cst ≡ cs_connected
    → is_some k.bodykey ≡ true
    → is_some k.uri ≡ true
    → Lands root (body_wio slot c t s)
body_wio-Lands {c = c} {k = k} {s = s} slot t x on key u =
    let k' = record k { hst = hs_writing; wst = ws_body } in
    rw (body_wio-sends c s slot t (Ctx-load x) on) (
      Ctx-add (writing c t) (Ctx-save k' (Ctx-take x) refl refl) (sends_body on refl refl key u)
        refl)

-- The callback got no data.
body_lost-Lands :
    {root c : Ptr} {k : Hpkg} {l : List Ptr} {s : Session}
    → Ctx root c k l s 0
    → Lands root (
        body_cancelled c
          (record s { bodies_taken = s.bodies_taken + 1; bodies_lost = s.bodies_lost + 1 }))
unfolding body_cancelled
body_lost-Lands {l = l} x = final-Lands l (Ctx-lose x)

body_got-Lands :
    {root c : Ptr} {k : Hpkg} {l : List Ptr} {s : Session} (a : Answer) (key : Bytes) (e : Env)
    → can_answer a ≡ true
    → Ctx root c k l s 0
    → s.cst ≡ cs_connected
    → k.hst ≡ hs_fetching
    → k.wst ≡ ws_body
    → is_some k.bodykey ≡ true
    → is_some k.uri ≡ true
    → Lands root (body_got a key e c s)
body_got-Lands (hit t) id e good x on h w key u = body_wio-Lands filled t x on key u
body_got-Lands {c = c} later id e good x on h w key u =
    Ctx-add (waiting_body c id) x (waits_body on key u) refl
body_got-Lands {c = c} {k = k} {s = s} (miss true true) id e good x on h w key u =
    let k' = record k { hfd = open_once k.hfd e.opened } in
    rw (Ctx-load x)
      (Ctx-add (fetching c k.tr_offset) (Ctx-save k' x refl refl) (fetches on h w key u) refl)
body_got-Lands hollow id e good x on h w key u = body_lost-Lands x
body_got-Lands (miss false q) id e good x on h w key u = absurd (ground (arith, good))
body_got-Lands (miss true false) id e good x on h w key u = absurd (ground (arith, good))

pub body-asks :
    (c : Ptr) (s : Session) {k : Hpkg} (e : Env) (t : Bytes)
    → load c s ≡ ok k
    → s.cst ≡ cs_connected
    → k.uri ≡ some t
    → body e c s
      ≡ body_got
          (e.answer (body_key e.decimal t k.tr_offset))
          (body_key e.decimal t k.tr_offset)
          e
          c
          (save c
            (record k {
              hst = hs_fetching;
              wst = ws_body;
              bodykey = some (body_key e.decimal t k.tr_offset);
            })
            s)
unfolding body
body-asks c s e t at on u = rw (at, on, u) refl

pub body-Lands :
    {root c : Ptr} {k : Hpkg} {l : List Ptr} {s : Session} (e : Env)
    → IsGood e
    → Ctx root c k l s 0
    → s.cst ≡ cs_connected
    → is_some k.uri ≡ true
    → Lands root (body e c s)
body-Lands {c = c} {k = k} {s = s} e good x on u = elim (Option-cases k.uri) [
  | inl n ↦ absurd (ground (arith, u, n))
  | inr (t, n) ↦
      (let k' = record k {
        hst = hs_fetching;
        wst = ws_body;
        bodykey = some (body_key e.decimal t k.tr_offset);
      } in
        rw (body-asks c s e t (Ctx-load x) on n) (
          body_got-Lands (e.answer (body_key e.decimal t k.tr_offset))
            (body_key e.decimal t k.tr_offset) e (good.answers (body_key e.decimal t k.tr_offset))
            (Ctx-save k' x refl refl) on refl refl refl u))
]

-- The header has been sent.
pub header_to_body_aio-Lands :
    {root c : Ptr} {k : Hpkg} {l : List Ptr} {s : Session} (e : Env)
    → IsGood e
    → Ctx root c k l s 0
    → s.cst ≡ cs_connected
    → is_some k.uri ≡ true
    → Lands root (header_to_body_aio e c s)
unfolding header_to_body_aio
header_to_body_aio-Lands {k = k} {l = l} {s = s} e good x on u =
    let x' = Ctx-save (record k { hst = hs_unknown; wst = ws_head }) x refl refl in
    rw (Ctx-load x) (elim (Bool-cases (is_200 k.hsn)) [
      | inl full ↦ rw full (body-Lands e good x' on u)
      | inr bare ↦ rw bare (final-Lands l x')
    ])

pub body_done_lem :
    (o : Option Bytes) (s : Session)
    → is_some o ≡ true
    → body_done o s ≡ record s { bodies_done = s.bodies_done + 1 }
body_done_lem none s e = absurd (ground (arith, e))
body_done_lem (some key) s e = refl

pub body_rio-goes :
    (c : Ptr) (s : Session) {k : Hpkg} (e : Env) (n : ℕ)
    → load c s ≡ ok k
    → body_rio e c n s ≡ body_rio_at k.wst n e c k s
unfolding body_rio
body_rio-goes c s e n at = rw at refl

-- A part of the body has been sent: the reference is given back, and the next part is asked for.
pub body_rio-Lands :
    {root c : Ptr} {k : Hpkg} {l : List Ptr} {s : Session} (e : Env) (n : ℕ)
    → IsGood e
    → Ctx root c k l s 1
    → s.cst ≡ cs_connected
    → k.wst ≡ ws_body
    → is_some k.bodykey ≡ true
    → is_some k.uri ≡ true
    → Lands root (body_rio e c n s)
body_rio-Lands {root = root} {c = c} {k = k} {l = l} {s = s} e n good x on w key u =
    let more = Ctx-save (record k { tr_offset = k.tr_offset + n }) (Ctx-give x) refl refl in
    let end = Ctx-save (record k { wst = ws_uno }) (Ctx-give x) refl refl in
    let goes = body_rio-goes c s e n (Ctx-load x) ∙ ap (λ st. body_rio_at st n e c k s) w in
    subst (λ o. Lands root o) (sym goes)
      (rw (body_done_lem k.bodykey s key) (elim (Bool-cases (ltb 0 n)) [
        | inl some_bytes ↦ rw some_bytes (body-Lands e good more on u)
        | inr no_bytes ↦ rw no_bytes (final-Lands l end)
      ]))

-- The answer 400 has been sent.
pub body_rio-ends-Lands :
    {root c : Ptr} {k : Hpkg} {l : List Ptr} {s : Session} (e : Env) (n : ℕ)
    → Ctx root c k l s 0
    → k.wst ≡ ws_head
    → Lands root (body_rio e c n s)
body_rio-ends-Lands {c = c} {k = k} {l = l} {s = s} e n x w =
    rw (body_rio-goes c s e n (Ctx-load x) ∙ ap (λ st. body_rio_at st n e c k s) w)
      (final-Lands l x)

-- A part of the file has been read and is put into the cache.
pub body_pio-Lands :
    {root c : Ptr} {k : Hpkg} {l : List Ptr} {s : Session} (e : Env) (t : Bytes)
    → IsGood e
    → Ctx root c k l s 0
    → s.cst ≡ cs_connected
    → is_some k.bodykey ≡ true
    → is_some k.uri ≡ true
    → Lands root (body_pio e c t s)
unfolding body_pio
body_pio-Lands {c = c} {k = k} {l = l} {s = s} e t good x on key u =
    let k' = record k { hst = hs_writing; wst = ws_body } in
    let x' = Ctx-save k' (Ctx-take x) refl refl in
    let at = Ctx-load x in
    let puts = good.puts in
    let sends = body_wio-sends c s running t at on in
    let again : load c
          (add (writing c t) (save c k' (record s { bodies_taken = s.bodies_taken + 1 })))
        ≡ ok k' =
      load_lem c (add (writing c t) (save c k' (record s { bodies_taken = s.bodies_taken + 1 })))
        x'.heap.c_ne x'.heap.c_at in
    rw (sends, at, puts, again)
      (Ctx-add (writing c t) (Ctx-save (record k' { cbody_cached = true }) x' refl refl)
        (sends_body on refl refl key u) refl)
