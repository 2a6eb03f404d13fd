-- ===== src/Cache/Defs.antt =====
-- webserver/cache.h and webserver/cache.cc: the state of a `Cache` and its methods.
--
-- A key is a number that stands for the contents of a C string: the program only compares keys, by
-- `strcmp`. The map is the list of its slots, each with the address of its entry; what `new` returns
-- is a parameter. The free list is the list of FastFifo.Spec.
use libeventdisp.Base.{
  ℕ, ◌+◌, ◌-◌, ◌%◌, Bool, true, false, not, ◌&&◌, ◌||◌, Option, none, some, List, [], ◌∷◌, ◌++◌,
  ◌==◌, ltb, if◌then◌else◌, word_size, incr, sub_word, Outcome, ok, crash, ◌>>=◌, ◌>>◌, assert,
}
use libeventdisp.FastFifo.Spec.{Cells, push, remove}

abbrev pub Ptr : Type 0
Ptr = ℕ

abbrev pub null : Ptr
null = 0

-- `CacheData`
pub record CacheData : Type 0 where
  pub buf : Ptr
  pub size : ℕ
  pub is_cached : Bool

-- `CacheEntry`, at its address; a callback in `queue` is named by a number.
pub record CacheEntry : Type 0 where
  pub address : Ptr
  pub name : ℕ
  pub buf : Ptr
  pub size : ℕ
  pub ref_count : ℕ
  pub free_list_ref : Ptr
  pub is_reserved : Bool
  pub queue : List ℕ

-- What a method does outside the cache: it calls a callback, deletes one, frees a buffer, or deletes the
-- copy of a key that an entry has.
pub data Event : Type 0 where
  called : ℕ → CacheData → Event
  deleted : ℕ → Event
  freed : Ptr → Event
  name_deleted : ℕ → Event

pub record Cache : Type 0 where
  pub size_quota : ℕ
  pub current_size : ℕ
  pub cache_map : List CacheEntry
  pub free_list : Cells
  pub log : List Event

-- The two constructors of `CacheEntry`.
abbrev pub reserved_entry : Ptr → ℕ → CacheEntry
reserved_entry address name = record {
  address = address;
  name = name;
  buf = null;
  size = 0;
  ref_count = 1;
  free_list_ref = null;
  is_reserved = true;
  queue = [];
}

abbrev pub new_entry : Ptr → ℕ → Ptr → ℕ → CacheEntry
new_entry address name buf size = record {
  address = address;
  name = name;
  buf = buf;
  size = size;
  ref_count = 1;
  free_list_ref = null;
  is_reserved = false;
  queue = [];
}

abbrev pub init : ℕ → Cache
init size_quota = record {
  size_quota = size_quota;
  current_size = 0;
  cache_map = [];
  free_list = [];
  log = [];
}

unfoldable pub find : ℕ → List CacheEntry → Option CacheEntry
find key [] = none
find key (e ∷ m) = if e.name == key then some e else find key m

-- The entry at an address.
unfoldable pub entry_at : Ptr → List CacheEntry → Option CacheEntry
entry_at p [] = none
entry_at p (e ∷ m) = if e.address == p then some e else entry_at p m

-- A change of the entry with the key, through a reference to it.
unfoldable pub update : ℕ → CacheEntry → List CacheEntry → List CacheEntry
update key f [] = []
update key f (e ∷ m) = if e.name == key then f ∷ m else e ∷ update key f m

unfoldable pub erase : ℕ → List CacheEntry → List CacheEntry
erase key [] = []
erase key (e ∷ m) = if e.name == key then m else e ∷ erase key m

-- Whether a callback has been deleted.
unfoldable pub is_deleted : ℕ → List Event → Bool
is_deleted cb [] = false
is_deleted cb (deleted d ∷ l) = d == cb || is_deleted cb l
is_deleted cb (called d x ∷ l) = is_deleted cb l
is_deleted cb (freed p ∷ l) = is_deleted cb l
is_deleted cb (name_deleted k ∷ l) = is_deleted cb l

-- `(*callback)(cacheData); delete callback;`: a crash if it was deleted before.
unfoldable pub run_callback : ℕ → CacheData → List Event → Outcome (List Event)
run_callback cb x log =
    if is_deleted cb log then crash else ok (log ++ called cb x ∷ deleted cb ∷ [])

-- The loops of `put` and `cancelReservation` over the queue.
unfoldable pub run_queue : List ℕ → CacheData → List Event → Outcome (List Event)
run_queue [] x log = ok log
run_queue (cb ∷ q) x log = do log' ← run_callback cb x log; run_queue q x log'

-- The loop of `put` also counts one reference for each callback.
unfoldable pub count_queue : List ℕ → ℕ → ℕ
count_queue [] n = n
count_queue (cb ∷ q) n = count_queue q (incr n)

abbrev pub put_found : Option CacheEntry → Ptr → ℕ → Ptr → ℕ → Cache → Outcome (Cache × Bool)
put_found none fresh key buf size c = ok (
  record c {
    cache_map = c.cache_map ++ new_entry fresh key buf size ∷ [];
    current_size = (c.current_size + size) % word_size;
  },
  true,
)
put_found (some e) fresh key buf size c =
    if e.is_reserved
    then (do
      log' ← run_queue e.queue (record { buf = buf; size = size; is_cached = true }) c.log
      ok (
        record c {
          cache_map =
              update key
                (record e {
                  buf = buf;
                  size = size;
                  ref_count = count_queue e.queue e.ref_count;
                  is_reserved = false;
                })
                c.cache_map;
          log = log';
        },
        true,
      ))
    else ok (c, false)

-- `put`: `fresh` is the address of the entry, if one is inserted.
unfoldable pub put : Ptr → ℕ → Ptr → ℕ → Cache → Outcome (Cache × Bool)
put fresh key buf size c = put_found (find key c.cache_map) fresh key buf size c

-- The branch of `get` that has the data: `*callback` of a null pointer is a crash. The node leaves the
-- free list by `removeNode`.
abbrev pub hand_over : CacheEntry → ℕ → Option ℕ → Cache → Outcome (Cache × Bool)
hand_over e key none c = crash
hand_over e key (some cb) c = do
  log' ← run_callback cb (record { buf = e.buf; size = e.size; is_cached = true }) c.log
  ok (
    record c {
      cache_map =
          update key (record e { ref_count = incr e.ref_count; free_list_ref = null }) c.cache_map;
      free_list =
          if not (e.free_list_ref == null) then remove e.free_list_ref c.free_list else c.free_list;
      log = log';
    },
    true,
  )

abbrev pub is_some {ℓ} : {A : Type ℓ} → Option A → Bool
is_some none = false
is_some (some a) = true

abbrev pub to_list {ℓ} : {A : Type ℓ} → Option A → List A
to_list none = []
to_list (some a) = a ∷ []

abbrev pub delete_event : Option ℕ → List Event
delete_event none = []
delete_event (some cb) = deleted cb ∷ []

abbrev pub get_found : Option CacheEntry → ℕ → Option ℕ → Cache → Outcome (Cache × Bool)
get_found none key callback c = ok (record c { log = c.log ++ delete_event callback }, false)
get_found (some e) key callback c =
    if e.is_reserved && is_some callback
    then ok (
      record c {
        cache_map = update key (record e { queue = e.queue ++ to_list callback }) c.cache_map;
      },
      true,
    )
    else hand_over e key callback c

-- `get`: a missing callback is a null pointer.
unfoldable pub get : ℕ → Option ℕ → Cache → Outcome (Cache × Bool)
get key callback c = get_found (find key c.cache_map) key callback c

abbrev pub reserve_found : Option CacheEntry → Ptr → ℕ → Cache → Cache × Bool
reserve_found none fresh key c =
    (record c { cache_map = c.cache_map ++ reserved_entry fresh key ∷ [] }, true)
reserve_found (some e) fresh key c =
    if not e.is_reserved
    then (record c { cache_map = update key (record e { is_reserved = true }) c.cache_map }, true)
    else (c, false)

unfoldable pub reserve : Ptr → ℕ → Cache → Cache × Bool
reserve fresh key c = reserve_found (find key c.cache_map) fresh key c

abbrev pub cancel_found : Option CacheEntry → ℕ → Cache → Outcome (Cache × Bool)
cancel_found none key c = ok (c, false)
cancel_found (some e) key c =
    if e.is_reserved
    then (do
      log' ← run_queue e.queue (record { buf = null; size = 0; is_cached = false }) c.log
      ok (
        record c {
          cache_map = update key (record e { is_reserved = false }) c.cache_map;
          log = log';
        },
        true,
      ))
    else ok (c, false)

unfoldable pub cancel_reservation : ℕ → Cache → Outcome (Cache × Bool)
cancel_reservation key c = cancel_found (find key c.cache_map) key c

-- `deallocate`, up to the nulls that it leaves.
abbrev pub deallocate : CacheEntry → List Event
deallocate e = freed e.buf ∷ name_deleted e.name ∷ []

-- What `reread` gives for an entry is what `deallocate` finds in it after `erase` has destroyed it: the
-- program reads it through a dangling pointer.
module _ (reread : CacheEntry → Outcome CacheEntry) where
  -- The loop of `cleanup`, over the free list that `pop` consumes, and `spaceFreed`.
  unfoldable pub cleanup_loop : Cells → ℕ → ℕ → Cache → Outcome (Cache × ℕ)
  cleanup_loop [] space space_freed c = ok (record c { free_list = [] }, space_freed)
  cleanup_loop ((node, p) ∷ l) space space_freed c =
      let next = λ (e : CacheEntry). (do
        assert (e.ref_count == 0)
        old ← reread e
        cleanup_loop l space ((space_freed + e.size) % word_size)
            (record c { cache_map = erase e.name c.cache_map; log = c.log ++ deallocate old })) in
      if ltb space_freed space
      then elim (entry_at p c.cache_map) [ none ↦ crash | some e ↦ next e ]
      else ok (record c { free_list = (node, p) ∷ l }, space_freed)

  unfoldable pub cleanup : ℕ → Cache → Outcome Cache
  unfolding cleanup_loop
  cleanup space c = do
    (c', space_freed) ← cleanup_loop c.free_list space 0 c
    ok (record c' { current_size = sub_word c'.current_size space_freed })

  -- The release in `doneWith`: `fresh` is the node of the free list, if one is made.
  abbrev pub release : Ptr → CacheEntry → ℕ → Cache → Cache
  release fresh e key c =
      if e.ref_count - 1 == 0
      then record c {
        cache_map =
            update key (record e { ref_count = e.ref_count - 1; free_list_ref = fresh })
              c.cache_map;
        free_list = push fresh e.address c.free_list;
      }
      else record c {
        cache_map = update key (record e { ref_count = e.ref_count - 1 }) c.cache_map;
      }

  -- The end of `doneWith`.
  unfoldable pub enforce_quota : Cache → Outcome Cache
  enforce_quota c =
      if ltb c.size_quota c.current_size then cleanup (c.current_size - c.size_quota) c else ok c

  abbrev pub done_found : Option CacheEntry → Ptr → ℕ → Cache → Outcome Cache
  done_found none fresh key c = crash
  done_found (some e) fresh key c = do
    assert (ltb 0 e.ref_count)
    enforce_quota (release fresh e key c)

  unfoldable pub done_with : Ptr → ℕ → Cache → Outcome Cache
  done_with fresh key c = done_found (find key c.cache_map) fresh key c
