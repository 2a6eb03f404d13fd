-- ===== src/Http/AskTests.antt =====
-- webserver/svr_http.cc with webserver/cache.cc: runs of the calls for a key.
use libeventdisp.Base.{
  ℕ, ◌+◌, ◌-◌, ◌<◌, ◌≡◌, refl, true, false, some, [], ◌∷◌, length, word_size, Bool, Outcome, ok,
  crash, arith,
}
use libeventdisp.Cache.{
  CacheEntry, Cache, init, put, get, reserve, is_deleted, run_callback, find, entry_at, update,
}
use libeventdisp.Cache.Uses.{makes, puts}
use libeventdisp.Http.Text.{Bytes}
use libeventdisp.Http.Package.{Ptr}
use libeventdisp.Http.Serve.{Answer}
use libeventdisp.Http.Serial.Body.{can_answer}
use libeventdisp.Http.Ask.{ask, Answered, ask_lem, ask-Content}

-- A cache in which key 7 is reserved.
abbrev asked_once : Cache
asked_once = (reserve 101 7 (init 50)).0

unused : is_deleted 1 asked_once.log ≡ false
unfolding is_deleted reserve find
unused = refl

ask_lem_example :
    (d : Cache) × (a : Answer) × (ask (λ p n. []) 102 7 1 2 asked_once ≡ ok (d, a))
    × Answered (λ p n. []) 102 7 1 2 asked_once d a
    × (can_answer a ≡ true)
ask_lem_example = ask_lem (λ p n. []) 102 7 1 2 asked_once unused

-- Key 7 was put with the buffer 300, which holds one byte, the key.
abbrev memory : Ptr → ℕ → Bytes
memory p n = (p - 293) ∷ []

abbrev cache_of : Outcome (Cache × Bool) → Cache
cache_of crash = init 0
cache_of (ok (c, b)) = c

abbrev was_put : Cache
was_put = cache_of (put 101 7 300 1 (init 50))

abbrev left_by : Outcome (Cache × Answer) → Cache
left_by crash = init 0
left_by (ok (c, a)) = c

abbrev still_there : CacheEntry → Outcome CacheEntry
still_there e = ok e

nothing_small :
    (p : Ptr) (e : CacheEntry)
    → entry_at p [] ≡ some e
    → e.ref_count + length e.queue + 1 < word_size
unfolding entry_at
nothing_small p e h = absurd (ground (arith, h))

ask-Content_example : ◌≡◌ {A = Bytes} (7 ∷ []) (7 ∷ [])
unfolding ask put get find entry_at is_deleted run_callback update
ask-Content_example =
    ask-Content (λ k t. t ≡ k ∷ []) memory still_there 50 102 7 1 2 (7 ∷ [])
      {d = left_by (ask memory 102 7 1 2 was_put)}
      (puts 101 7 300 1 true makes nothing_small refl refl) (refl, tt) refl refl
