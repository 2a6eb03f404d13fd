-- ===== src/Http/Ask.antt =====
-- webserver/svr_http.cc with webserver/cache.cc: what `svr_http_header` and `svr_http_body` ask the cache,
-- on the model of the cache, and the answer that the model of the server takes as a parameter.
use libeventdisp.Base.{
  ℕ, subst, ◌≡◌, refl, true, false, not, incr, Option, none, some, [], ◌∷◌, ◌++◌, ◌==◌,
  if◌then◌else◌, Bool-cases, Option-cases, inl, inr, Outcome, ok, ◌>>=◌, arith,
}
use libeventdisp.Cache.{
  CacheEntry, Cache, reserved_entry, called, deleted, find, update, is_deleted, run_callback, get,
  reserve,
}
use libeventdisp.Cache.Uses.{Uses}
use libeventdisp.Cache.Content.{Content, Fed, Uses-Content}
use libeventdisp.Cache.Protocol.{get-misses, reserve-adds, get-waits}
use libeventdisp.Cache.Slots.{find-name, find-append, find-update_self}
use libeventdisp.FastFifo.Spec.{remove}
use libeventdisp.Http.Text.{Bytes}
use libeventdisp.Http.Package.{Ptr, null}
use libeventdisp.Http.Serve.{Answer, hit, hollow, later, miss}
use libeventdisp.Http.Serial.Body.{can_answer}

-- What a callback is given: the bytes that the memory has at the buffer, or a null pointer.
abbrev pub data_of : (Ptr → ℕ → Bytes) → CacheEntry → Answer
data_of memory e = if e.buf == null then hollow else hit (memory e.buf e.size)

-- After a `get` that succeeds: the callback waits, or has been called.
abbrev pub got : (Ptr → ℕ → Bytes) → Option CacheEntry → Answer
got memory none = hollow
got memory (some e) = if e.is_reserved then later else data_of memory e

-- `if (!_cache.get(key, cCB)) { ... _cache.reserve(key); ... _cache.get(key, cCB); ... }`
unfoldable pub ask : (Ptr → ℕ → Bytes) → Ptr → ℕ → ℕ → ℕ → Cache → Outcome (Cache × Answer)
unfolding get reserve
ask memory fresh key cb again c = do
  first ← get key (some cb) c
  if first.1 then ok (first.0, got memory (find key c.cache_map)) else (do
    let made = reserve fresh key first.0
    second ← get key (some again) made.0
    ok (second.0, miss made.1 second.1))

-- What has happened to the key, by the answer.
pub data Answered (memory : Ptr → ℕ → Bytes) (fresh : Ptr) (key cb again : ℕ) (c d : Cache)
    : Answer → Type 0 where
  was_missing :
      find key c.cache_map ≡ none
      → find key d.cache_map ≡ some (record (reserved_entry fresh key) { queue = again ∷ [] })
      → Answered memory fresh key cb again c d (miss true true)
  was_reserved :
      {e : CacheEntry}
      → find key c.cache_map ≡ some e
      → e.is_reserved ≡ true
      → find key d.cache_map ≡ some (record e { queue = e.queue ++ cb ∷ [] })
      → Answered memory fresh key cb again c d later
  was_there :
      {e : CacheEntry}
      → find key c.cache_map ≡ some e
      → e.is_reserved ≡ false
      → d.log
        ≡ c.log
          ++ called cb (record { buf = e.buf; size = e.size; is_cached = true }) ∷ deleted cb ∷ []
      → Answered memory fresh key cb again c d (data_of memory e)

Answered-can_answer :
    {memory : Ptr → ℕ → Bytes} {fresh : Ptr} {key cb again : ℕ} {c d : Cache} {a : Answer}
    → Answered memory fresh key cb again c d a
    → can_answer a ≡ true
Answered-can_answer (was_missing new filed) = refl
Answered-can_answer (was_reserved at held filed) = refl
Answered-can_answer (was_there {e} at full told) = elim (Bool-cases (e.buf == null)) [
  | inl gone ↦ rw gone refl
  | inr real ↦ rw real refl
]

-- The call of `get` for a key that is missing, and what follows.
ask_missing :
    (memory : Ptr → ℕ → Bytes) (fresh : Ptr) (key cb again : ℕ) (c : Cache)
    → find key c.cache_map ≡ none
    → (d : Cache) × (ask memory fresh key cb again c ≡ ok (d, miss true true))
      × Answered memory fresh key cb again c d (miss true true)
unfolding ask
ask_missing memory fresh key cb again c new =
    let c1 = record c { log = c.log ++ deleted cb ∷ [] } in
    let m2 = c.cache_map ++ reserved_entry fresh key ∷ [] in
    let c2 = record c1 { cache_map = m2 } in
    let waits = record (reserved_entry fresh key) { queue = again ∷ [] } in
    let at : find key m2 ≡ some (reserved_entry fresh key) =
      ground (arith, find-append key (reserved_entry fresh key) c.cache_map, new) in
    (
      record c2 { cache_map = update key waits m2 },
      rw (get-misses key cb c new, reserve-adds fresh key c1 new, get-waits key again c2 at refl)
          refl,
      was_missing new (find-update_self key waits m2 refl at),
    )

get-calls :
    (key cb : ℕ) (c : Cache) {e : CacheEntry}
    → find key c.cache_map ≡ some e
    → e.is_reserved ≡ false
    → is_deleted cb c.log ≡ false
    → (d : Cache) × (get key (some cb) c ≡ ok (d, true))
      × (d.log
          ≡ c.log
            ++ called cb (record { buf = e.buf; size = e.size; is_cached = true })
              ∷ deleted cb
              ∷ [])
unfolding get run_callback
get-calls key cb c {e} at full unused = (
  record c {
    cache_map =
        update key (record e { ref_count = incr e.ref_count; free_list_ref = null }) c.cache_map;
    free_list =
        if not (e.free_list_ref == null) then remove e.free_list_ref c.free_list else c.free_list;
    log =
        c.log
        ++ called cb (record { buf = e.buf; size = e.size; is_cached = true }) ∷ deleted cb ∷ [];
  },
  rw (at, full, unused) refl,
  refl,
)

-- Whatever the cache holds, for a callback that was not deleted: the calls return; a key that is missing
-- is then reserved, and the second callback waits for it alone; for a key that is reserved the callback
-- waits behind the others; and otherwise it has been called once, with the data. `reserve` and the
-- second `get` have not failed, as the server asserts.
pub ask_lem :
    (memory : Ptr → ℕ → Bytes) (fresh : Ptr) (key cb again : ℕ) (c : Cache)
    → is_deleted cb c.log ≡ false
    → (d : Cache) × (a : Answer) × (ask memory fresh key cb again c ≡ ok (d, a))
      × Answered memory fresh key cb again c d a
      × (can_answer a ≡ true)
unfolding ask
ask_lem memory fresh key cb again c unused = elim (Option-cases (find key c.cache_map)) [
  | inl new ↦
      (let (d, is, v) = ask_missing memory fresh key cb again c new in
        (d, miss true true, is, v, refl))
  | inr (e, at) ↦ elim (Bool-cases e.is_reserved) [
    | inl held ↦
        (let waits = record e { queue = e.queue ++ cb ∷ [] } in
          (
            record c { cache_map = update key waits c.cache_map },
            later,
            rw (get-waits key cb c at held, at, held) refl,
            was_reserved at held
                (find-update_self key waits c.cache_map (find-name key c.cache_map at) at),
            refl,
          ))
    | inr full ↦
        (let (d, is, told) = get-calls key cb c at full unused in
          let v = was_there at full told in
          (d, data_of memory e, rw (is, at, full) refl, v, Answered-can_answer v))
  ]
]

Answered-hit :
    (P : ℕ → Bytes → Type 0) (memory : Ptr → ℕ → Bytes) {fresh : Ptr} {key cb again : ℕ}
    {c d : Cache} {a : Answer} (t : Bytes)
    → Content (λ k b n. P k (memory b n)) c.cache_map
    → Answered memory fresh key cb again c d a
    → a ≡ hit t
    → P key t
Answered-hit P memory t v (was_missing new filed) is = absurd (ground (arith, is))
Answered-hit P memory t v (was_reserved at held filed) is = absurd (ground (arith, is))
Answered-hit P memory {key = key} t v (was_there {e} at full told) is =
    elim (Bool-cases (e.buf == null)) [
      | inl gone ↦ absurd (ground (arith, is, gone))
      | inr real ↦ elim (v key e at) [
        | inl empty ↦ absurd (ground (arith, empty, real))
        | inr good ↦
            (let same : memory e.buf e.size ≡ t = ground (arith, is, real) in
              subst (P key) same good)
      ]
    ]

-- When all the data that were put into a cache, which is used as it is meant to be, have some property
-- of their key and their bytes, the data that the server is given for a key have it: for instance, that
-- they are the part of the file of which the key has the URI and the offset.
pub ask-Content :
    (P : ℕ → Bytes → Type 0) (memory : Ptr → ℕ → Bytes) (reread : CacheEntry → Outcome CacheEntry)
    (size_quota : ℕ) (fresh : Ptr) (key cb again : ℕ) (t : Bytes) {c d : Cache}
    → (run : Uses reread size_quota c) → Fed (λ k b n. P k (memory b n)) run
    → is_deleted cb c.log ≡ false
    → ask memory fresh key cb again c ≡ ok (d, hit t)
    → P key t
ask-Content P memory reread quota fresh key cb again t {c} {d} run fed unused is =
    let (u, a, asked, v, can) = ask_lem memory fresh key cb again c unused in
    let same : a ≡ hit t = ground (arith, asked, is) in
    Answered-hit P memory t (Uses-Content (λ k b n. P k (memory b n)) reread quota run fed) v same
