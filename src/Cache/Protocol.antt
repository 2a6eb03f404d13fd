-- ===== src/Cache/Protocol.antt =====
-- webserver/cache.cc, as webserver/svr_http.cc uses it: a key that is missing is reserved, asked for
-- again and put, and the reference that the callback got is given back.
use libeventdisp.Base.{
  ℕ, ◌≤◌, ◌≡◌, refl, ◌≢◌, Bool, true, false, none, some, List, [], ◌∷◌, ◌++◌, append_assoc, Outcome,
  ok, ◌>>=◌, arith,
}
use libeventdisp.Cache.Defs.{
  Ptr, run_queue, run_callback, count_queue, CacheEntry, called, deleted, Cache, reserved_entry,
  new_entry, find, update, is_deleted, put, get, reserve, done_with, enforce_quota,
}
use libeventdisp.Cache.Slots.{find-append, find-update_self}
use libeventdisp.Cache.Calls.{is_deleted-append}

-- `svr_http_header` and `svr_http_header_rio`, or `svr_http_body` and `svr_http_body_pio`, and in the end
-- `doneWith`: the cache, and what the four calls returned.
abbrev pub serve_missing :
    (CacheEntry → Outcome CacheEntry)
    → Ptr
    → Ptr
    → Ptr
    → ℕ
    → ℕ
    → ℕ
    → Ptr
    → ℕ
    → Cache
    → Outcome (Cache × List Bool)
serve_missing reread f1 f2 f3 key cb again buf size c = do
  first ← get key (some cb) c
  let made = reserve f1 key first.0
  second ← get key (some again) made.0
  filled ← put f2 key buf size second.0
  c' ← done_with reread f3 key filled.0
  ok (c', first.1 ∷ made.1 ∷ second.1 ∷ filled.1 ∷ [])

pub get-misses :
    (key cb : ℕ) (c : Cache)
    → find key c.cache_map ≡ none
    → get key (some cb) c ≡ ok (record c { log = c.log ++ deleted cb ∷ [] }, false)
unfolding get
get-misses key cb c missing = rw missing refl

pub reserve-adds :
    (f key : ℕ) (c : Cache)
    → find key c.cache_map ≡ none
    → reserve f key c ≡ (record c { cache_map = c.cache_map ++ reserved_entry f key ∷ [] }, true)
unfolding reserve
reserve-adds f key c missing = rw missing refl

pub get-waits :
    (key cb : ℕ) (c : Cache) {e : CacheEntry}
    → find key c.cache_map ≡ some e
    → e.is_reserved ≡ true
    → get key (some cb) c
      ≡ ok (
        record c { cache_map = update key (record e { queue = e.queue ++ cb ∷ [] }) c.cache_map },
        true,
      )
unfolding get
get-waits key cb c at reserved = rw (at, reserved) refl

put-fills :
    (f key : ℕ) (buf : Ptr) (size cb : ℕ) (c : Cache) {e : CacheEntry}
    → find key c.cache_map ≡ some e
    → e.is_reserved ≡ true
    → e.queue ≡ cb ∷ []
    → e.ref_count ≡ 1
    → is_deleted cb c.log ≡ false
    → put f key buf size c
      ≡ ok (
        record c {
          cache_map =
              update key
                (record e { buf = buf; size = size; ref_count = 2; is_reserved = false })
                c.cache_map;
          log =
              c.log
              ++ called cb (record { buf = buf; size = size; is_cached = true }) ∷ deleted cb ∷ [];
        },
        true,
      )
unfolding put run_queue run_callback count_queue
put-fills f key buf size cb c at reserved queue one unused = ground arith

done_with-counts :
    (reread : CacheEntry → Outcome CacheEntry) (f key : ℕ) (c : Cache) {e : CacheEntry}
    → find key c.cache_map ≡ some e
    → e.ref_count ≡ 2
    → c.current_size ≤ c.size_quota
    → done_with reread f key c
      ≡ ok (record c { cache_map = update key (record e { ref_count = 1 }) c.cache_map })
unfolding done_with enforce_quota
done_with-counts reread f key c at two small = let h = small in ground arith

-- When a key is missing, the calls of the web server return what it asserts: the first `get` fails,
-- `reserve`, the second `get` and `put` succeed; the callback is called once, with the data, by `put`.
-- After the one `doneWith` for that callback the entry has a reference count of 1, and the free list is
-- what it was. The cache is within its quota, the two callbacks are different, and the second was not
-- deleted before.
pub serve_missing_lem :
    (reread : CacheEntry → Outcome CacheEntry) (f1 f2 f3 : Ptr) (key cb again : ℕ) (buf : Ptr)
    (size : ℕ) (c : Cache)
    → find key c.cache_map ≡ none
    → cb ≢ again
    → is_deleted again c.log ≡ false
    → c.current_size ≤ c.size_quota
    → (c' : Cache) × (serve_missing reread f1 f2 f3 key cb again buf size c
        ≡ ok (c', false ∷ true ∷ true ∷ true ∷ []))
      × (c'.log
          ≡ c.log
            ++ deleted cb
              ∷ called again (record { buf = buf; size = size; is_cached = true })
              ∷ deleted again
              ∷ [])
      × (find key c'.cache_map ≡ some (record (new_entry f1 key buf size) { queue = again ∷ [] }))
      × (c'.free_list ≡ c.free_list)
serve_missing_lem reread f1 f2 f3 key cb again buf size c missing apart unused small =
    let waits = record (reserved_entry f1 key) { queue = again ∷ [] } in
    let full = record waits { buf = buf; size = size; ref_count = 2; is_reserved = false } in
    let left = record full { ref_count = 1 } in
    let c1 = record c { log = c.log ++ deleted cb ∷ [] } in
    let m2 = c.cache_map ++ reserved_entry f1 key ∷ [] in
    let c2 = record c1 { cache_map = m2 } in
    let c3 = record c2 { cache_map = update key waits m2 } in
    let c4 = record c3 {
      cache_map = update key full c3.cache_map;
      log =
          c3.log
          ++ called again (record { buf = buf; size = size; is_cached = true })
            ∷ deleted again
            ∷ [];
    } in
    let c5 = record c4 { cache_map = update key left c4.cache_map } in
    let at2 : find key m2 ≡ some (reserved_entry f1 key) =
      ground (arith, find-append key (reserved_entry f1 key) c.cache_map) in
    let at3 = find-update_self key waits m2 refl at2 in
    let at4 = find-update_self key full c3.cache_map refl at3 in
    let at5 = find-update_self key left c4.cache_map refl at4 in
    let unused' : is_deleted again c1.log ≡ false =
      unfold is_deleted in ground (arith, is_deleted-append again c.log (deleted cb ∷ [])) in
    (
      c5,
      rw
          (
            get-misses key cb c missing,
            reserve-adds f1 key c1 missing,
            get-waits key again c2 at2 refl,
            put-fills f2 key buf size again c3 at3 refl refl refl unused',
            done_with-counts reread f3 key c4 at4 refl small,
          )
          refl,
      append_assoc c.log (deleted cb ∷ []) _,
      at5,
      refl,
    )
