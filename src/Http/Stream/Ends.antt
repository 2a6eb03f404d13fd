-- ===== src/Http/Stream/Ends.antt =====
-- webserver/svr_http.cc: a package that sends a file does not go on for ever.
use libeventdisp.Base.{
  ℕ, suc, ◌+◌, ◌*◌, ◌≤◌, ◌≡◌, refl, ◌≢◌, true, some, List, [], ◌∷◌, length, length-append, subst,
  ap, ok, arith,
}
use libeventdisp.Http.Text.{Bytes, drop}
use libeventdisp.Http.Package.{
  Ptr, null, n_200, hs_writing, ws_body, write, Hpkg, Pending, task_read, task_fetch, reading,
  waiting_head, writing_head, writing, fetching, waiting_body, Session, load, save, add,
}
use libeventdisp.Http.Final.{running}
use libeventdisp.Http.Serve.{Env, body_wio, body_pio}
use libeventdisp.Http.Serial.{load_lem}
use libeventdisp.Http.Serial.Always.{take_pending, same_head}
use libeventdisp.Http.Serial.Body.{body_wio-sends}
use libeventdisp.Http.Serial.Reach.{Reached, reached_Serial}
use libeventdisp.Http.Steps.{done, resume}
use libeventdisp.Http.Stream.{Doc, IsPart, Truthful, Sends, sent, writes, reads, waits, Carries}
use libeventdisp.Http.Stream.Carry.{Ready, Ready-load, body_wio-Goes, body_pio-Goes, body_rio-Goes}
use libeventdisp.Http.Stream.Whole.{Serial-HeadSent, HeadSent-Carries, Sends_in_order}
use libeventdisp.Http.Stream.Runs.{Goes-Carries, staged, resumed}

-- The number of calls.
abbrev pub calls_in : {doc : Doc} {c : Ptr} {s t : Session} {w : Bytes} → Sends doc c s w t → ℕ
calls_in sent = 0
calls_in (writes e part rest true_to at pos is run) = suc (calls_in run)
calls_in (reads e off d true_to at part is run) = suc (calls_in run)
calls_in (waits e key d true_to at holds is run) = suc (calls_in run)

-- 1 where a read or a callback comes first.
abbrev pub delay : Pending → ℕ
delay (writing p d) = 0
delay (fetching p off) = 1
delay (waiting_body p key) = 1
delay (task_read p) = 1
delay (task_fetch p) = 1
delay (reading p) = 1
delay (writing_head p t) = 1
delay (waiting_head p key) = 1

delay_small : (x : Pending) → delay x ≤ 1
delay_small (writing p d) = omega arith
delay_small (fetching p off) = omega arith
delay_small (waiting_body p key) = omega arith
delay_small (task_read p) = omega arith
delay_small (task_fetch p) = omega arith
delay_small (reading p) = omega arith
delay_small (writing_head p t) = omega arith
delay_small (waiting_head p key) = omega arith

body_wio-writes :
    {doc : Doc} {c : Ptr} {n : ℕ} {k : Hpkg} {s t : Session} (d : Bytes)
    → Ready doc c n k s
    → body_wio running c d s ≡ ok t
    → t.pending ≡ writing c d ∷ []
body_wio-writes {c = c} {s = s} {t = t} d v is =
    let sends = body_wio-sends c s running d (Ready-load v) v.is_open in
    ground (arith, sends, is, v.idle)

body_pio-writes :
    {doc : Doc} {c : Ptr} {n : ℕ} {k : Hpkg} {s t : Session} (e : Env) (d : Bytes)
    → Truthful doc e
    → Ready doc c n k s
    → body_pio e c d s ≡ ok t
    → t.pending ≡ writing c d ∷ []
unfolding body_pio write
body_pio-writes {c = c} {k = k} {s = s} e d true_to v is =
    let k' = record k { hst = hs_writing; wst = ws_body } in
    let s' = add (writing c d) (save c k' (record s { bodies_taken = s.bodies_taken + 1 })) in
    let at = Ready-load v in
    let puts = true_to.good.puts in
    let sends = body_wio-sends c s running d at v.is_open in
    let again : load c s' ≡ ok k' = load_lem c s' v.ne (ground arith) in
    let result : body_pio e c d s ≡ ok (save c (record k' { cbody_cached = true }) s') =
      rw (sends, at, puts, again) refl in
    ground (arith, result, is, v.idle)

delay_of : {x y : Pending} {l : List Pending} → l ≡ x ∷ [] → l ≡ y ∷ [] → delay x ≡ delay y
delay_of a b = ap delay (same_head a b)

Sends-calls_in :
    {doc : Doc} {c : Ptr} {s t : Session} {w : Bytes} (n : ℕ)
    → c ≢ null
    → (run : Sends doc c s w t) (v : Carries doc c n s) → calls_in run ≤ 2 * length w + delay v.x
Sends-calls_in n ne sent v = omega arith
Sends-calls_in {doc} {c} n ne (writes {more = more} e part rest true_to at pos is run) v =
    let (w, has) = staged v at in
    let next = Goes-Carries (body_rio-Goes e (length part) true_to (resumed v ne) v.key w pos) is in
    omega (
      arith,
      Sends-calls_in (n + length part) ne run next,
      delay_small next.x,
      length-append part more,
      pos,
    )
Sends-calls_in {doc} {c} n ne (reads e off d true_to at part is run) v =
    let (here, keyed) = staged v at in
    let part' = subst (λ o. IsPart (drop o doc.file) d) here part in
    let next = Goes-Carries (body_pio-Goes e d true_to (resumed v ne) v.key part') is in
    omega (
      arith,
      Sends-calls_in n ne run next,
      delay_of next.pending (body_pio-writes e d true_to (resumed v ne) is),
      delay_of v.pending at,
    )
Sends-calls_in {doc} {c} n ne (waits e key d true_to at holds is run) v =
    let part = holds n (staged v at) in
    let next = Goes-Carries (body_wio-Goes running d (resumed v ne) v.key part) is in
    omega (
      arith,
      Sends-calls_in n ne run next,
      delay_of next.pending (body_wio-writes d (resumed v ne) is),
      delay_of v.pending at,
    )

-- The calls of such a package, after its header and without the write of an empty part with which it
-- ends, are at most two for each byte of the file and one more.
pub Sends_ends :
    (root c : Ptr) (doc : Doc) (e : Env) (h b : Bytes) {k : Hpkg} {s t u : Session} {w : Bytes}
    → root ≢ null
    → Reached root s
    → s.pending ≡ writing_head c h ∷ []
    → s.pkgs c ≡ some k
    → k.hsn ≡ n_200
    → k.uri ≡ some doc.uri
    → Truthful doc e
    → resume (writing_head c h) (done b) e (take_pending s) ≡ ok t
    → (run : Sends doc c t w u) → calls_in run ≤ 2 * length doc.file + 1
Sends_ends root c doc e h b {w = w} ne reached p at full uri true_to is run =
    let head = Serial-HeadSent (reached_Serial root ne reached) p at in
    let first = HeadSent-Carries e head full uri true_to is in
    let all = Sends_in_order root c doc e h b ne reached p at full uri true_to is run in
    omega (
      arith,
      Sends-calls_in 0 head.ne run first,
      delay_small first.x,
      ap length all,
      length-append w (drop (length w) doc.file),
    )
