-- ===== src/Http/Serial/Head.antt =====
-- webserver/svr_http.cc: the handlers that answer a request with a header.
use libeventdisp.Base.{
  Bool, ◌&&◌, ℕ, ◌+◌, ◌≡◌, refl, true, false, not, Option, none, some, List, Option-cases, inl, inr,
  subst, sym, ok, ◌>>◌, assert, arith,
}
use libeventdisp.TcpServer.{cs_connected}
use libeventdisp.Http.Text.{Bytes}
use libeventdisp.Http.Package.{
  Ptr, n_200, n_404, hs_fetching, hs_writing, ws_head, Hpkg, writing_head, waiting_head, Session,
  load, save, add,
}
use libeventdisp.Http.Final.{is_some}
use libeventdisp.Http.Serve.{
  Answer, hit, hollow, later, miss, Env, status_of, header_wio, header_404, header_200, put_head,
  open_once, header_opened, header_rio, head_key, header_got, header,
}
use libeventdisp.Http.Serial.{
  sends_head, waits_head, Lands, Ctx, load_lem, Ctx-load, Ctx-save, Ctx-add,
}
use libeventdisp.Http.Serial.Counts.{Ctx-heads}
use libeventdisp.Http.Serial.Body.{can_answer, IsGood}

-- What the cache answers for a header: its reservation is not cancelled, so that there are data.
abbrev pub is_hollow : Answer → Bool
is_hollow hollow = true
is_hollow (hit t) = false
is_hollow later = false
is_hollow (miss reserved again) = false

abbrev pub head_answer : Answer → Bool
head_answer a = can_answer a && not (is_hollow a)

header_wio-sends :
    {root c : Ptr} {k : Hpkg} {l : List Ptr} {s : Session} (t : Bytes)
    → Ctx root c k l s 0
    → s.cst ≡ cs_connected
    → header_wio c t s
      ≡ ok (
          add (writing_head c t) (
            save c
              (record k { hst = hs_writing; wst = ws_head; hsn = status_of t })
              (record s { heads_taken = s.heads_taken + 1 })))
unfolding header_wio
header_wio-sends {c = c} {s = s} t x on = let at = Ctx-load x in rw (at, on) refl

-- The cache has given the header: it is sent.
pub header_wio-Lands :
    {root c : Ptr} {k : Hpkg} {l : List Ptr} {s : Session} (t : Bytes)
    → Ctx root c k l s 0
    → s.cst ≡ cs_connected
    → is_some k.headkey ≡ true
    → is_some k.uri ≡ true
    → k.tr_offset ≡ 0
    → Lands root (header_wio c t s)
header_wio-Lands {c = c} {k = k} {s = s} t x on key u start =
    let k' = record k { hst = hs_writing; wst = ws_head; hsn = status_of t } in
    let x' = Ctx-save k' (Ctx-heads (s.heads_taken + 1) s.heads_done x) refl refl in
    rw (header_wio-sends t x on)
      (Ctx-add (writing_head c t) x' (sends_head on refl refl key u start) refl)

put_head-Lands :
    {root c : Ptr} {k : Hpkg} {l : List Ptr} {s : Session} (e : Env) (t : Bytes)
    → IsGood e
    → Ctx root c k l s 0
    → s.cst ≡ cs_connected
    → is_some k.headkey ≡ true
    → is_some k.uri ≡ true
    → k.tr_offset ≡ 0
    → Lands root (put_head e c t s)
unfolding put_head
put_head-Lands {c = c} {k = k} {s = s} e t good x on key u start =
    let k' = record k { hst = hs_writing; wst = ws_head; hsn = status_of t } in
    let x' = Ctx-save k' (Ctx-heads (s.heads_taken + 1) s.heads_done x) refl refl in
    let s' = add (writing_head c t) (save c k' (record s { heads_taken = s.heads_taken + 1 })) in
    let puts = good.puts in
    let sends = header_wio-sends t x on in
    let again : load c s' ≡ ok k' = load_lem c s' x'.heap.c_ne x'.heap.c_at in
    rw (sends, puts, again)
      (Ctx-add (writing_head c t) (Ctx-save (record k' { chead_cached = true }) x' refl refl)
        (sends_head on refl refl key u start) refl)

header_opened-Lands :
    {root c : Ptr} {k₀ : Hpkg} {l : List Ptr} {s : Session} (fd : Option ℕ) (e : Env) (k : Hpkg)
    → IsGood e
    → Ctx root c k₀ l s 0
    → s.cst ≡ cs_connected
    → (k.ppg ≡ k₀.ppg) × (k.nsg ≡ k₀.nsg)
    → k.chead ≡ none
    → is_some k.headkey ≡ true
    → is_some k.uri ≡ true
    → k.tr_offset ≡ 0
    → Lands root (header_opened fd e c k s)
header_opened-Lands none e k good x on same new key u start =
    let k' = record k { hsn = n_404; chead = some (header_404 k.vern) } in
    put_head-Lands e (header_404 k.vern) good (Ctx-save k' x same.0 same.1) on key u start
header_opened-Lands {root = root} {c = c} {s = s} (some fd) e k good x on same new key u start =
    let k' = record k {
      hsn = n_200;
      tr_nbytes = e.size;
      tr_offset = 0;
      chead = some (header_200 e k.vern);
    } in
    subst
      (λ o.
        Lands root (assert (not (is_some o)) >> put_head e c (header_200 e k.vern) (save c k' s)))
      (sym new)
      (put_head-Lands e (header_200 e k.vern) good (Ctx-save k' x same.0 same.1) on key u refl)

-- The file is opened, and the header goes into the cache, from where it is sent.
header_rio-Lands :
    {root c : Ptr} {k : Hpkg} {l : List Ptr} {s : Session} (e : Env)
    → IsGood e
    → Ctx root c k l s 0
    → s.cst ≡ cs_connected
    → k.chead ≡ none
    → is_some k.headkey ≡ true
    → is_some k.uri ≡ true
    → k.tr_offset ≡ 0
    → Lands root (header_rio e c s)
unfolding header_rio
header_rio-Lands {c = c} {k = k} {s = s} e good x on new key u start =
    let k' = record k { hst = hs_fetching; wst = ws_head; hfd = open_once k.hfd e.opened } in
    let at = Ctx-load x in
    rw at
      (header_opened-Lands (open_once k.hfd e.opened) e k' good x on (refl, refl) new key u start)

header_got-Lands :
    {root c : Ptr} {k : Hpkg} {l : List Ptr} {s : Session} (a : Answer) (id : Bytes) (e : Env)
    → head_answer a ≡ true
    → IsGood e
    → Ctx root c k l s 0
    → s.cst ≡ cs_connected
    → k.chead ≡ none
    → is_some k.headkey ≡ true
    → is_some k.uri ≡ true
    → k.tr_offset ≡ 0
    → Lands root (header_got a id e c s)
header_got-Lands (hit t) id e can good x on new key u start = header_wio-Lands t x on key u start
header_got-Lands {c = c} later id e can good x on new key u start =
    Ctx-add (waiting_head c id) x (waits_head on key u start) refl
header_got-Lands (miss true true) id e can good x on new key u start =
    header_rio-Lands e good x on new key u start
header_got-Lands hollow id e can good x on new key u start = absurd (ground (arith, can))
header_got-Lands (miss false q) id e can good x on new key u start = absurd (ground (arith, can))
header_got-Lands (miss true false) id e can good x on new key u start = absurd (ground (arith, can))

header-asks :
    {root c : Ptr} {k : Hpkg} {l : List Ptr} {s : Session} (e : Env) (t : Bytes)
    → Ctx root c k l s 0
    → s.cst ≡ cs_connected
    → k.uri ≡ some t
    → header e c s
      ≡ header_got
          (e.answer (head_key t))
          (head_key t)
          e
          c
          (save c (record k { hst = hs_fetching; wst = ws_head; headkey = some (head_key t) }) s)
unfolding header
header-asks {c = c} {s = s} e t x on u = let at = Ctx-load x in rw (at, on, u) refl

head_answer_lem : (a : Answer) → can_answer a ≡ true → is_hollow a ≡ false → head_answer a ≡ true
head_answer_lem a can whole = ground (arith, can, whole)

pub header-Lands :
    {root c : Ptr} {k : Hpkg} {l : List Ptr} {s : Session} (e : Env)
    → IsGood e
    → Ctx root c k l s 0
    → s.cst ≡ cs_connected
    → ((t : Bytes) → k.uri ≡ some t → is_hollow (e.answer (head_key t)) ≡ false)
    → k.chead ≡ none
    → is_some k.uri ≡ true
    → k.tr_offset ≡ 0
    → Lands root (header e c s)
header-Lands {k = k} e good x on whole new u start = elim (Option-cases k.uri) [
  | inl n ↦ absurd (ground (arith, u, n))
  | inr (t, n) ↦
      (let k' = record k { hst = hs_fetching; wst = ws_head; headkey = some (head_key t) } in
        rw (header-asks e t x on n) (
          header_got-Lands (e.answer (head_key t)) (head_key t) e
            (head_answer_lem (e.answer (head_key t)) (good.answers (head_key t)) (whole t n)) good
            (Ctx-save k' x refl refl) on new refl u start))
]
