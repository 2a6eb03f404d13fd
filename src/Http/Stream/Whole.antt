-- ===== src/Http/Stream/Whole.antt =====
-- webserver/svr_http.cc: after the header, the bytes of a connection are those of the file, in order and
-- each once, and nothing more.
use libeventdisp.Base.{
  ◌+◌, ◌≡◌, refl, ◌≢◌, true, some, [], ◌∷◌, ◌++◌, append-nil, length, subst, sym, ap, ◌∙◌, ok,
  arith,
}
use libeventdisp.TcpServer.{ConnSt, cs_connected}
use libeventdisp.Http.Text.{Bytes, drop}
use libeventdisp.Http.Package.{
  Ptr, null, n_200, hs_unknown, ws_head, write, Hpkg, Pending, writing_head, writing, Session, load,
  save,
}
use libeventdisp.Http.Serve.{Env, body, is_200, header_to_body_aio}
use libeventdisp.Http.Serial.{
  load_lem, Serial, at_root, at_child, ended, Stage, sends_head, to_fetch, sends_body, sends_400,
  fetches, waits_head, waits_body, RootStage, to_read, reads,
}
use libeventdisp.Http.Serial.Always.{take_pending, same_head}
use libeventdisp.Http.Serial.Reach.{Reached, reached_Serial}
use libeventdisp.Http.Steps.{done, resume}
use libeventdisp.Http.Stream.{Doc, Truthful, Sends, reads, Carries}
use libeventdisp.Http.Stream.Carry.{Ready, body-Goes}
use libeventdisp.Http.Stream.Runs.{drop-zero, Goes-Carries, staged, Sends-Carries}

-- What is known of a package whose header is being sent.
pub record HeadSent (c : Ptr) (s : Session) (k : Hpkg) : Type 0 where
  pub ne : c ≢ null
  pub at : s.pkgs c ≡ some k
  pub is_open : s.cst ≡ cs_connected
  pub start : k.tr_offset ≡ 0

head-Stage :
    {c : Ptr} {k : Hpkg} {cst : ConnSt} {x : Pending} (p : Ptr) (h : Bytes)
    → Stage c k cst x
    → x ≡ writing_head p h
    → (p ≡ c) × (cst ≡ cs_connected) × (k.tr_offset ≡ 0)
head-Stage p h (sends_head on st w key u start) e = (ground (arith, e), on, start)
head-Stage p h (to_fetch new no_key start) e = absurd (ground (arith, e))
head-Stage p h (sends_body on st w key u) e = absurd (ground (arith, e))
head-Stage p h (sends_400 on st w no_key) e = absurd (ground (arith, e))
head-Stage p h (fetches on st w key u) e = absurd (ground (arith, e))
head-Stage p h (waits_head on key u start) e = absurd (ground (arith, e))
head-Stage p h (waits_body on key u) e = absurd (ground (arith, e))

root-RootStage :
    {root : Ptr} {r : Hpkg} {x : Pending} (p : Ptr) (h : Bytes)
    → RootStage root r x
    → x ≢ writing_head p h
root-RootStage p h to_read e = ground (arith, e)
root-RootStage p h (reads st head) e = ground (arith, e)

pub Serial-HeadSent :
    {root c : Ptr} {h : Bytes} {s : Session} {k : Hpkg}
    → Serial root s
    → s.pending ≡ writing_head c h ∷ []
    → s.pkgs c ≡ some k
    → HeadSent c s k
Serial-HeadSent {c = c} {h = h} (at_root v) p at =
    absurd (root-RootStage c h v.stage (same_head v.pending p))
Serial-HeadSent {c = c} {h = h} {s = s} {k = k} (at_child v) p at =
    let (is, on, start) = head-Stage c h v.stage (same_head v.pending p) in
    let same : v.k ≡ k = ground (arith, v.heap.c_at, at, is) in
    record {
      ne = subst (λ q. q ≢ null) (sym is) v.heap.c_ne;
      at = at;
      is_open = on;
      start = subst (λ m. m.tr_offset ≡ 0) same start;
    }
Serial-HeadSent (ended v) p at = absurd (ground (arith, v.pending, p))

-- When the header has been sent, the package begins with the first byte of the file.
pub HeadSent-Carries :
    {doc : Doc} {c : Ptr} {s t : Session} {k : Hpkg} (e : Env)
    → HeadSent c s k
    → k.hsn ≡ n_200
    → k.uri ≡ some doc.uri
    → Truthful doc e
    → header_to_body_aio e c (take_pending s) ≡ ok t
    → Carries doc c 0 t
unfolding header_to_body_aio write
HeadSent-Carries {doc} {c} {s} {t} {k} e v full u true_to is =
    let at : load c (take_pending s) ≡ ok k = load_lem c (take_pending s) v.ne v.at in
    let k' = record k { hst = hs_unknown; wst = ws_head } in
    let yes : is_200 k.hsn ≡ true = ap is_200 full in
    let ready : Ready doc c 0 k' (save c k' (take_pending s)) = record {
      ne = v.ne;
      at = ground arith;
      idle = refl;
      uri = u;
      offset = v.start;
      is_open = v.is_open;
    } in
    let goes_on : header_to_body_aio e c (take_pending s) ≡ body e c (save c k' (take_pending s)) =
      rw (at, yes) refl in
    Goes-Carries (body-Goes e true_to ready) (sym goes_on ∙ is)

-- A reached connection sends the header of a file with status 200. From the end of that write on, while
-- no reservation is cancelled and no transfer fails, and where the cache and the reads give parts of the
-- file, the bytes that the package writes are the first bytes of the file: none is left out, sent twice
-- or out of order, also where a write or a read ends early.
pub Sends_in_order :
    (root c : Ptr) (doc : Doc) (e : Env) (h b : Bytes) {k : Hpkg} {s t u : Session} {w : Bytes}
    → root ≢ null
    → Reached root s
    → s.pending ≡ writing_head c h ∷ []
    → s.pkgs c ≡ some k
    → k.hsn ≡ n_200
    → k.uri ≡ some doc.uri
    → Truthful doc e
    → resume (writing_head c h) (done b) e (take_pending s) ≡ ok t
    → Sends doc c t w u
    → doc.file ≡ w ++ drop (length w) doc.file
Sends_in_order root c doc e h b {w = w} ne reached p at full uri true_to is run =
    let head = Serial-HeadSent (reached_Serial root ne reached) p at in
    let (end, all) = Sends-Carries 0 head.ne run (HeadSent-Carries e head full uri true_to is) in
    let same : 0 + length w ≡ length w = omega arith in
    sym (drop-zero doc.file) ∙ all ∙ ap (λ m. w ++ drop m doc.file) same

-- When such a package comes to write an empty part, which is how it ends, the bytes that it wrote are
-- the file.
pub Sends_whole :
    (root c : Ptr) (doc : Doc) (e : Env) (h b : Bytes) {k : Hpkg} {s t u : Session} {w : Bytes}
    → root ≢ null
    → Reached root s
    → s.pending ≡ writing_head c h ∷ []
    → s.pkgs c ≡ some k
    → k.hsn ≡ n_200
    → k.uri ≡ some doc.uri
    → Truthful doc e
    → resume (writing_head c h) (done b) e (take_pending s) ≡ ok t
    → Sends doc c t w u
    → u.pending ≡ writing c [] ∷ []
    → w ≡ doc.file
Sends_whole root c doc e h b {w = w} ne reached p at full uri true_to is run ends =
    let head = Serial-HeadSent (reached_Serial root ne reached) p at in
    let (end, all) = Sends-Carries 0 head.ne run (HeadSent-Carries e head full uri true_to is) in
    let (st, left) = staged end ends in
    sym (append-nil w) ∙ ap (λ z. w ++ z) (sym left) ∙ sym all ∙ drop-zero doc.file
