-- ===== src/Cache/UsesTests.antt =====
-- webserver/cache.cc: runs of a cache that is used as Uses says.
use libeventdisp.Base.{
  ℕ, ◌+◌, ◌<◌, ◌≡◌, ◌⊎◌, refl, Bool, true, Option, none, some, [], ◌∷◌, ◌++◌, length, lookup,
  word_size, Outcome, ok, crash, arith,
}
use libeventdisp.FastFifo.Spec.{push}
use libeventdisp.Cache.Defs.{
  cleanup, cleanup_loop, Ptr, CacheEntry, reserved_entry, new_entry, Cache, init, find, entry_at,
  update, is_deleted, run_callback, run_queue, count_queue, put, get, reserve, enforce_quota,
  done_with,
}
use libeventdisp.Cache.Evict.{Lost, Sound}
use libeventdisp.Cache.Uses.{
  Uses, makes, puts, gets, reserves, gives_back, Uses-Sound, done_with-returns,
}
use libeventdisp.Cache.Destroy.{destroy, deallocate_all, destroy_frees_all}

-- A cache of 50 bytes: key 7 is reserved, asked for, put and given back twice, so that it is on the free
-- list; key 8 is put.
abbrev still_there : CacheEntry → Outcome CacheEntry
still_there e = ok e

abbrev cache_of : Outcome (Cache × Bool) → Cache
cache_of crash = init 0
cache_of (ok (c, b)) = c

abbrev cache_left : Outcome Cache → Cache
cache_left crash = init 0
cache_left (ok c) = c

abbrev asked : Cache
asked = cache_of (get 7 (some 1) (reserve 101 7 (init 50)).0)

abbrev filled : Cache
filled = cache_of (put 103 7 300 60 asked)

abbrev given_once : Cache
given_once = cache_left (done_with still_there 200 7 filled)

abbrev given_twice : Cache
given_twice = cache_left (done_with still_there 200 7 given_once)

abbrev over_quota : Cache
over_quota = cache_of (put 102 8 301 60 given_twice)

none_found : (e : CacheEntry) {n : ℕ} → ◌≡◌ {A = Option CacheEntry} none (some e) → 0 < n
none_found e h = absurd (ground (arith, h))

one_small :
    (p : Ptr) (e f : CacheEntry)
    → entry_at p (f ∷ []) ≡ some e
    → f.ref_count + length f.queue + 1 < word_size
    → e.ref_count + length e.queue + 1 < word_size
unfolding entry_at
one_small p e f h small = ground (arith, h, small)

asked-Uses : Uses still_there 50 asked
unfolding get reserve find update entry_at
asked-Uses =
    gets 7 1 true (reserves 101 7 makes refl (λ e h. none_found e h))
      (λ p e h. one_small p e (reserved_entry 101 7) h (omega arith)) refl

filled-Uses : Uses still_there 50 filled
unfolding get reserve find update entry_at put run_queue run_callback count_queue is_deleted
filled-Uses =
    puts 103 7 300 60 true asked-Uses
      (λ p e h. one_small p e (record (reserved_entry 101 7) { queue = 1 ∷ [] }) h (ground arith))
      refl refl

given_twice-Uses : Uses still_there 50 given_twice
unfolding get reserve find update entry_at put run_queue run_callback count_queue is_deleted
    done_with enforce_quota lookup push
given_twice-Uses =
    gives_back 200 7 (gives_back 200 7 filled-Uses refl (ground arith) refl (omega arith) refl refl)
      refl (ground arith) refl (omega arith) refl refl

over_quota-Uses : Uses still_there 50 over_quota
unfolding get reserve find update entry_at put run_queue run_callback count_queue is_deleted
    done_with enforce_quota lookup push
over_quota-Uses =
    puts 102 8 301 60 true given_twice-Uses
      (λ p e h.
        one_small p e
          (record (new_entry 101 7 300 60) { queue = 1 ∷ []; ref_count = 0; free_list_ref = 200 }) h
          (ground arith))
      refl refl

Uses-Sound_example : Sound over_quota
Uses-Sound_example = Uses-Sound still_there 50 over_quota-Uses

over_quota-found : find 8 over_quota.cache_map ≡ some (new_entry 102 8 301 60)
unfolding get reserve find update entry_at put run_queue run_callback count_queue is_deleted
    done_with enforce_quota lookup push
over_quota-found = refl

over_quota-new : lookup 201 over_quota.free_list ≡ none
unfolding get reserve find update entry_at put run_queue run_callback count_queue is_deleted
    done_with enforce_quota lookup push
over_quota-new = refl

done_with-returns_example :
    ((d : Cache) × (done_with still_there 201 8 over_quota ≡ ok d))
    ⊎ ((over_quota.size_quota < over_quota.current_size)
        × Lost still_there (done_with still_there 201 8 over_quota))
done_with-returns_example =
    done_with-returns still_there 50 201 8 over_quota-Uses over_quota-found (omega arith) refl
      (omega arith) over_quota-new

destroy_frees_all_example :
    destroy over_quota ≡ ok (over_quota.log ++ deallocate_all over_quota.cache_map)
destroy_frees_all_example = destroy_frees_all still_there 50 over_quota-Uses

-- Key 7 is put and given back, so that it is on the free list; then it is reserved, asked for and put
-- again, so that it is used, and still on the free list.
abbrev again_filled : Cache
again_filled =
    let idle = cache_left (done_with still_there 200 7 (cache_of (put 101 7 300 60 (init 70)))) in
    cache_of (put 105 7 302 60 (cache_of (get 7 (some 2) (reserve 104 7 idle).0)))

-- The next cleanup aborts.
again_filled-aborts : done_with still_there 201 8 (cache_of (put 102 8 301 60 again_filled)) ≡ crash
unfolding get reserve find update entry_at put run_queue run_callback count_queue is_deleted
    done_with enforce_quota cleanup cleanup_loop lookup push
again_filled-aborts = refl
