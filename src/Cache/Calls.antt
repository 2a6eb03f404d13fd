-- ===== src/Cache/Calls.antt =====
-- webserver/cache.cc: which callbacks the cache calls, with what, and how often; and what a queue that
-- is never emptied leads to.
use libeventdisp.Base.{
  member, ℕ, ◌≡◌, refl, Bool, true, false, some, List, [], ◌∷◌, ◌++◌, append_assoc, append-nil,
  ◌||◌, sym, ◌∙◌, ap, Outcome, ok, crash, ◌>>=◌, arith,
}
use libeventdisp.Cache.Defs.{
  Ptr, null, CacheData, CacheEntry, Event, called, deleted, Cache, find, update, is_deleted,
  run_callback, run_queue, count_queue, put, reserve, cancel_reservation,
}
use libeventdisp.Cache.Slots.{find-name, find-update_self}

-- The calls that a queue is owed, each with the callback's deletion.
pub calls : List ℕ → CacheData → List Event
calls [] x = []
calls (cb ∷ q) x = called cb x ∷ deleted cb ∷ calls q x

-- None of the callbacks has been deleted, and none stands twice.
abbrev pub Live : List ℕ → List Event → Type 0
Live [] log = Unit
Live (cb ∷ q) log = (is_deleted cb log ≡ false) × (member cb q ≡ false) × Live q log

pub is_deleted-append :
    (cb : ℕ) (l k : List Event) → is_deleted cb (l ++ k) ≡ (is_deleted cb l || is_deleted cb k)
unfolding is_deleted
is_deleted-append cb [] k = refl
is_deleted-append cb (called d x ∷ l) k = is_deleted-append cb l k
is_deleted-append cb (deleted d ∷ l) k = ground (arith, is_deleted-append cb l k)
is_deleted-append cb (Event.freed p ∷ l) k = is_deleted-append cb l k
is_deleted-append cb (Event.name_deleted x ∷ l) k = is_deleted-append cb l k

Live-append :
    (q : List ℕ) (cb : ℕ) (x : CacheData) (log : List Event)
    → Live q log
    → member cb q ≡ false
    → Live q (log ++ called cb x ∷ deleted cb ∷ [])
unfolding is_deleted
Live-append [] cb x log live out = tt
Live-append (d ∷ q) cb x log (a, o, live) out = (
  ground (arith, is_deleted-append d log (called cb x ∷ deleted cb ∷ [])),
  o,
  Live-append q cb x log live (ground arith),
)

run_queue-calls :
    (q : List ℕ) (x : CacheData) (log : List Event)
    → Live q log
    → run_queue q x log ≡ ok (log ++ calls q x)
unfolding run_queue run_callback calls
run_queue-calls [] x log live = ap ok (sym (append-nil log))
run_queue-calls (cb ∷ q) x log (a, out, live) = rw a (
    run_queue-calls q x _ (Live-append q cb x log live out)
    ∙ ap ok (append_assoc log _ (calls q x)))

-- Where none of the callbacks that are queued for a reserved key has been deleted before, and none is
-- queued twice: `put` calls every queued callback once, in the order of the queue, with the new
-- data, and deletes it; the entry then has one more reference for each (modulo 2^64) and is no longer
-- reserved. The size that the cache accounts for does not change, whatever the size of the data.
pub put_reserved :
    (fresh : Ptr) (key : ℕ) (buf : Ptr) (size : ℕ) (c : Cache) {e : CacheEntry}
    → find key c.cache_map ≡ some e
    → e.is_reserved ≡ true
    → Live e.queue c.log
    → (c' : Cache) × (put fresh key buf size c ≡ ok (c', true))
      × (c'.log ≡ c.log ++ calls e.queue (record { buf = buf; size = size; is_cached = true }))
      × (find key c'.cache_map
          ≡ some (record e {
            buf = buf;
            size = size;
            ref_count = count_queue e.queue e.ref_count;
            is_reserved = false;
          }))
      × (c'.current_size ≡ c.current_size)
unfolding put
put_reserved fresh key buf size c {e} at reserved live =
    let x : CacheData = record { buf = buf; size = size; is_cached = true } in
    let f : CacheEntry = record e {
      buf = buf;
      size = size;
      ref_count = count_queue e.queue e.ref_count;
      is_reserved = false;
    } in
    (
      record c { cache_map = update key f c.cache_map; log = c.log ++ calls e.queue x },
      ground (arith, run_queue-calls e.queue x c.log live),
      refl,
      find-update_self key f c.cache_map (find-name key c.cache_map at) at,
      refl,
    )

-- `cancelReservation` of a reserved key calls every queued callback once, in the order of the queue,
-- without data, and deletes it. The slot stays in the cache, no longer reserved, with the data it had
-- and its queue.
pub cancel_calls :
    (key : ℕ) (c : Cache) {e : CacheEntry}
    → find key c.cache_map ≡ some e
    → e.is_reserved ≡ true
    → Live e.queue c.log
    → (c' : Cache) × (cancel_reservation key c ≡ ok (c', true))
      × (c'.log ≡ c.log ++ calls e.queue (record { buf = null; size = 0; is_cached = false }))
      × (find key c'.cache_map ≡ some (record e { is_reserved = false }))
unfolding cancel_reservation
cancel_calls key c {e} at reserved live =
    let x : CacheData = record { buf = null; size = 0; is_cached = false } in
    let f : CacheEntry = record e { is_reserved = false } in
    (
      record c { cache_map = update key f c.cache_map; log = c.log ++ calls e.queue x },
      ground (arith, run_queue-calls e.queue x c.log live),
      refl,
      find-update_self key f c.cache_map (find-name key c.cache_map at) at,
    )

-- A `put` on a key, a `reserve` of it, and a second `put`.
abbrev pub twice : Ptr → Ptr → Ptr → ℕ → Ptr → ℕ → Ptr → ℕ → Cache → Outcome (Cache × Bool)
twice f1 f2 f3 key buf size buf' size' c = do
  r ← put f1 key buf size c
  put f3 key buf' size' (reserve f2 key r.0).0

first_deleted :
    (cb : ℕ) (q : List ℕ) (x : CacheData) (log : List Event)
    → is_deleted cb (log ++ calls (cb ∷ q) x) ≡ true
unfolding is_deleted calls
first_deleted cb q x log = ground (arith, is_deleted-append cb log (calls (cb ∷ q) x))

put_crashes :
    (fresh : Ptr) (key : ℕ) (buf : Ptr) (size : ℕ) (c : Cache) {e : CacheEntry} {cb : ℕ}
    {q : List ℕ}
    → find key c.cache_map ≡ some e
    → e.is_reserved ≡ true
    → e.queue ≡ cb ∷ q
    → is_deleted cb c.log ≡ true
    → put fresh key buf size c ≡ crash
unfolding put run_queue run_callback
put_crashes fresh key buf size c at reserved queue gone = ground arith

reserve_again :
    (fresh : Ptr) (key : ℕ) (c : Cache) {e : CacheEntry}
    → find key c.cache_map ≡ some e
    → e.is_reserved ≡ false
    → (find key (reserve fresh key c).0.cache_map ≡ some (record e { is_reserved = true }))
      × ((reserve fresh key c).0.log ≡ c.log)
unfolding reserve
reserve_again fresh key c {e} at free =
    let k =
      find-update_self key (record e { is_reserved = true }) c.cache_map
        (find-name key c.cache_map at) at in
    (ground (arith, k), ground arith)

-- A key that is put while callbacks wait for it, and later reserved and put again, makes the cache call
-- callbacks that it has deleted: the queue is never emptied.
pub reserved_twice :
    (f1 f2 f3 : Ptr) (key : ℕ) (buf : Ptr) (size : ℕ) (buf' : Ptr) (size' : ℕ) (c : Cache)
    {e : CacheEntry} {cb : ℕ} {q : List ℕ}
    → find key c.cache_map ≡ some e
    → e.is_reserved ≡ true
    → e.queue ≡ cb ∷ q
    → Live e.queue c.log
    → twice f1 f2 f3 key buf size buf' size' c ≡ crash
reserved_twice f1 f2 f3 key buf size buf' size' c {e} {cb} {q} at reserved queue live =
    let (c', put_it, log, at', _) = put_reserved f1 key buf size c at reserved live in
    let (at'', log') = reserve_again f2 key c' at' refl in
    let x : CacheData = record { buf = buf; size = size; is_cached = true } in
    rw put_it (
      put_crashes f3 key buf' size' _ at'' refl queue (
        ap (is_deleted cb) (log' ∙ log ∙ ap (λ l. c.log ++ calls l x) queue)
        ∙ first_deleted cb q x c.log))
