-- ===== src/Cache/Cancelled.antt =====
-- webserver/cache.cc: a key whose reservation was cancelled.
use libeventdisp.Base.{
  ℕ, incr, ◌≡◌, refl, ◌≢◌, Bool, true, false, none, some, List, [], ◌∷◌, ◌++◌, append_assoc,
  Outcome, ok, ◌>>=◌, arith,
}
use libeventdisp.Cache.Defs.{
  Ptr, null, run_queue, run_callback, CacheEntry, called, deleted, Cache, reserved_entry, find,
  update, is_deleted, get, reserve, cancel_reservation,
}
use libeventdisp.Cache.Slots.{find-append, find-update_self}
use libeventdisp.Cache.Calls.{is_deleted-append}
use libeventdisp.Cache.Protocol.{reserve-adds, get-waits}

-- A reservation that is cancelled while one callback waits, as in `svr_http_final_aio`, and a later `get`.
abbrev pub ask_after_cancel : Ptr → ℕ → ℕ → ℕ → Cache → Outcome (Cache × List Bool)
ask_after_cancel f key cb later c = do
  waiting ← get key (some cb) (reserve f key c).0
  gone ← cancel_reservation key waiting.0
  next ← get key (some later) gone.0
  ok (next.0, waiting.1 ∷ gone.1 ∷ next.1 ∷ [])

cancel-empties :
    (key cb : ℕ) (c : Cache) {e : CacheEntry}
    → find key c.cache_map ≡ some e
    → e.is_reserved ≡ true
    → e.queue ≡ cb ∷ []
    → is_deleted cb c.log ≡ false
    → cancel_reservation key c
      ≡ ok (
        record c {
          cache_map = update key (record e { is_reserved = false }) c.cache_map;
          log =
              c.log
              ++ called cb (record { buf = null; size = 0; is_cached = false }) ∷ deleted cb ∷ [];
        },
        true,
      )
unfolding cancel_reservation run_queue run_callback
cancel-empties key cb c at reserved queue unused = ground arith

get-hands :
    (key cb : ℕ) (c : Cache) {e : CacheEntry}
    → find key c.cache_map ≡ some e
    → e.is_reserved ≡ false
    → e.free_list_ref ≡ null
    → is_deleted cb c.log ≡ false
    → get key (some cb) c
      ≡ ok (
        record c {
          cache_map =
              update key
                (record e { ref_count = incr e.ref_count; free_list_ref = null })
                c.cache_map;
          log =
              c.log
              ++ called cb (record { buf = e.buf; size = e.size; is_cached = true })
                ∷ deleted cb
                ∷ [];
        },
        true,
      )
unfolding get run_callback
get-hands key cb c at open_slot unlisted unused = ground arith

-- A key that was missing is reserved, one callback waits for it, and the reservation is cancelled: the
-- key is then still in the cache, and a later `get` succeeds and calls its callback at once with a null
-- pointer as the data, marked as cached. The two callbacks are different, and not deleted before.
pub ask_after_cancel_lem :
    (f : Ptr) (key cb later : ℕ) (c : Cache)
    → find key c.cache_map ≡ none
    → cb ≢ later
    → is_deleted cb c.log ≡ false
    → is_deleted later c.log ≡ false
    → (c' : Cache) × (ask_after_cancel f key cb later c ≡ ok (c', true ∷ true ∷ true ∷ []))
      × (c'.log
          ≡ c.log
            ++ called cb (record { buf = null; size = 0; is_cached = false })
              ∷ deleted cb
              ∷ called later (record { buf = null; size = 0; is_cached = true })
              ∷ deleted later
              ∷ [])
ask_after_cancel_lem f key cb later c missing apart unused unused' =
    let waits = record (reserved_entry f key) { queue = cb ∷ [] } in
    let empty = record waits { is_reserved = false } in
    let m1 = c.cache_map ++ reserved_entry f key ∷ [] in
    let c1 = record c { cache_map = m1 } in
    let c2 = record c1 { cache_map = update key waits m1 } in
    let events = called cb (record { buf = null; size = 0; is_cached = false }) ∷ deleted cb ∷ [] in
    let c3 = record c2 { cache_map = update key empty c2.cache_map; log = c2.log ++ events } in
    let at1 : find key m1 ≡ some (reserved_entry f key) =
      ground (arith, find-append key (reserved_entry f key) c.cache_map) in
    let at2 = find-update_self key waits m1 refl at1 in
    let at3 = find-update_self key empty c2.cache_map refl at2 in
    let still : is_deleted later c3.log ≡ false =
      unfold is_deleted in ground (arith, is_deleted-append later c.log events) in
    (
      record c3 {
        cache_map = update key (record empty { ref_count = incr empty.ref_count }) c3.cache_map;
        log =
            c3.log
            ++ called later (record { buf = null; size = 0; is_cached = true })
              ∷ deleted later
              ∷ [];
      },
      rw
          (
            reserve-adds f key c missing,
            get-waits key cb c1 at1 refl,
            cancel-empties key cb c2 at2 refl refl unused,
            get-hands key later c3 at3 refl refl still,
          )
          refl,
      append_assoc c.log events _,
    )
