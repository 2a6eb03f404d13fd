-- ===== src/Cache/Tests.antt =====
-- webserver/cache.cc: runs of the model.
use libeventdisp.Base.{
  ℕ, List, ◌+◌, ◌≤◌, ◌⊎◌, length, ◌≡◌, refl, true, false, none, some, [], ◌∷◌, ◌++◌, ok, arith,
}
use libeventdisp.Cache.Defs.{
  null, CacheEntry, called, deleted, freed, name_deleted, Cache, reserved_entry, new_entry, init,
  find, put, get, reserve, count_queue, done_with, enforce_quota, cleanup, cleanup_loop, update,
  erase, is_deleted, entry_at,
}
use libeventdisp.Cache.Protocol.{serve_missing, serve_missing_lem}
use libeventdisp.Cache.Cancelled.{ask_after_cancel, ask_after_cancel_lem}
use libeventdisp.Cache.Hash.{IntChar, hash_char_ptr, hash_char_ptr_lem}
use libeventdisp.Cache.Slots.{Distinct, done_with_keeps}
use libeventdisp.Cache.Calls.{calls, Live, put_reserved}

-- Key 7 is reserved, and callback 4 waits for it.
abbrev waiting_entry : CacheEntry
waiting_entry = record (reserved_entry 100 7) { queue = 4 ∷ [] }

abbrev waiting : Cache
waiting = record (init 50) { cache_map = waiting_entry ∷ [] }

waiting_lem : get 7 (some 4) (reserve 100 7 (init 50)).0 ≡ ok (waiting, true)
unfolding get reserve find update
waiting_lem = refl

found : find 7 waiting.cache_map ≡ some waiting_entry
unfolding find
found = refl

waiting-Live : Live waiting_entry.queue waiting.log
unfolding is_deleted
waiting-Live = (refl, refl, tt)

put_reserved_example :
    (c : Cache) × (put 200 7 300 10 waiting ≡ ok (c, true))
    × (c.log
        ≡ waiting.log
          ++ calls waiting_entry.queue (record { buf = 300; size = 10; is_cached = true }))
    × (find 7 c.cache_map
        ≡ some (record waiting_entry {
          buf = 300;
          size = 10;
          ref_count = count_queue waiting_entry.queue waiting_entry.ref_count;
          is_reserved = false;
        }))
    × (c.current_size ≡ waiting.current_size)
put_reserved_example = put_reserved 200 7 300 10 waiting found refl waiting-Live

-- Two keys in use, over the quota.
abbrev in_use : CacheEntry
in_use = new_entry 101 8 301 60

abbrev full : Cache
full = record (init 50) { current_size = 120; cache_map = new_entry 100 7 300 60 ∷ in_use ∷ [] }

abbrev evicted : Cache
evicted = record (init 50) {
  current_size = 60;
  cache_map = in_use ∷ [];
  log = freed 300 ∷ name_deleted 7 ∷ [];
}

full_lem : done_with ok 500 7 full ≡ ok evicted
unfolding done_with enforce_quota cleanup cleanup_loop find update erase entry_at
    libeventdisp.FastFifo.Spec.push
full_lem = refl

full-Distinct : Distinct full.cache_map
unfolding find
full-Distinct = (refl, (refl, tt))

found_in_use : find 8 full.cache_map ≡ some in_use
unfolding find
found_in_use = refl

done_with_keeps_example : find 8 evicted.cache_map ≡ some in_use
done_with_keeps_example =
    done_with_keeps ok 500 7 full 8 full-Distinct found_in_use (omega arith) (omega arith) full_lem

abbrev add : ℕ → ℕ → ℕ
add m n = m + n

abbrev low : IntChar → ℕ
low v = v.val1

abbrev key : List ℕ
key = 47 ∷ 97 ∷ 46 ∷ 104 ∷ 116 ∷ []

hash_char_ptr_lem_example :
    (seed k : ℕ) × (hash_char_ptr add low key ≡ ok (seed, k))
    × (k ≤ 19)
    × (k ≤ length key)
    × ((16 ≤ k) ⊎ (k ≡ length key))
hash_char_ptr_lem_example = hash_char_ptr_lem add low key

empty-lacks : find 7 (init 50).cache_map ≡ none
unfolding find
empty-lacks = refl

empty-unused : is_deleted 5 (init 50).log ≡ false
unfolding is_deleted
empty-unused = refl

serve_missing_lem_example :
    (c : Cache) × (serve_missing ok 100 101 102 7 4 5 300 10 (init 50)
      ≡ ok (c, false ∷ true ∷ true ∷ true ∷ []))
    × (c.log
        ≡ (init 50).log
          ++ deleted 4
            ∷ called 5 (record { buf = 300; size = 10; is_cached = true })
            ∷ deleted 5
            ∷ [])
    × (find 7 c.cache_map ≡ some (record (new_entry 100 7 300 10) { queue = 5 ∷ [] }))
    × (c.free_list ≡ (init 50).free_list)
serve_missing_lem_example =
    serve_missing_lem ok 100 101 102 7 4 5 300 10 (init 50) empty-lacks (omega arith) empty-unused
      (omega arith)

unused_four : is_deleted 4 (init 50).log ≡ false
unfolding is_deleted
unused_four = refl

ask_after_cancel_lem_example :
    (c : Cache) × (ask_after_cancel 100 7 4 5 (init 50) ≡ ok (c, true ∷ true ∷ true ∷ []))
    × (c.log
        ≡ (init 50).log
          ++ called 4 (record { buf = null; size = 0; is_cached = false })
            ∷ deleted 4
            ∷ called 5 (record { buf = null; size = 0; is_cached = true })
            ∷ deleted 5
            ∷ [])
ask_after_cancel_lem_example =
    ask_after_cancel_lem 100 7 4 5 (init 50) empty-lacks (omega arith) unused_four empty-unused
