-- ===== src/Cache/Uses.antt =====
-- webserver/cache.cc: any sequence of calls. A key is reserved only if nobody has it or somebody uses
-- it, a reference is given back only by who has one, and the counts do not overflow.
use libeventdisp.Base.{
  ℕ, ◌<◌, ◌≡◌, ◌≢◌, Bool, true, false, none, some, ltb, lookup, Outcome, ok, crash, ◌⊎◌, inl, inr,
  subst, arith,
}
use libeventdisp.Cache.Defs.{
  Ptr, null, CacheEntry, Cache, init, find, entry_at, put, get, reserve, cancel_reservation,
  release, done_with,
}
use libeventdisp.Cache.Evict.{Lost, Sound, enforce_quota-Sound, release-Sound}
use libeventdisp.Cache.Kept.{Kept-empty}
use libeventdisp.Cache.Preserves.{Small, put-Sound, get-Sound, reserve-Sound, cancel-Sound}

-- A cache that is made and used. `fresh` is what `new` gives for an entry, or for a node of the free
-- list; the callbacks that are called are there, since the methods return.
pub data Uses (reread : CacheEntry → Outcome CacheEntry) (size_quota : ℕ) : Cache → Type 0 where
  makes : Uses reread size_quota (init size_quota)
  puts :
      {c d : Cache} (fresh : Ptr) (key : ℕ) (buf : Ptr) (size : ℕ) (b : Bool)
      → Uses reread size_quota c
      → Small c
      → entry_at fresh c.cache_map ≡ none
      → put fresh key buf size c ≡ ok (d, b)
      → Uses reread size_quota d
  gets :
      {c d : Cache} (key cb : ℕ) (b : Bool)
      → Uses reread size_quota c
      → Small c
      → get key (some cb) c ≡ ok (d, b)
      → Uses reread size_quota d
  reserves :
      {c : Cache} (fresh : Ptr) (key : ℕ)
      → Uses reread size_quota c
      → entry_at fresh c.cache_map ≡ none
      → ((e : CacheEntry) → find key c.cache_map ≡ some e → 0 < e.ref_count)
      → Uses reread size_quota (reserve fresh key c).0
  cancels :
      {c d : Cache} (key : ℕ) (b : Bool)
      → Uses reread size_quota c
      → cancel_reservation key c ≡ ok (d, b)
      → Uses reread size_quota d
  gives_back :
      {c d : Cache} {e : CacheEntry} (fresh : Ptr) (key : ℕ)
      → Uses reread size_quota c
      → find key c.cache_map ≡ some e
      → 0 < e.ref_count
      → e.is_reserved ≡ false
      → fresh ≢ null
      → lookup fresh c.free_list ≡ none
      → done_with reread fresh key c ≡ ok d
      → Uses reread size_quota d

release-over :
    (reread : CacheEntry → Outcome CacheEntry) (fresh : Ptr) (e : CacheEntry) (key : ℕ) (c : Cache)
    → (release reread fresh e key c).size_quota < (release reread fresh e key c).current_size
    → c.size_quota < c.current_size
unfolding release
release-over reread fresh e key c h = ground arith

done_with-Sound :
    (reread : CacheEntry → Outcome CacheEntry) (fresh : Ptr) (key : ℕ) (c : Cache) {e : CacheEntry}
    → Sound c
    → find key c.cache_map ≡ some e
    → 0 < e.ref_count
    → e.is_reserved ≡ false
    → fresh ≢ null
    → lookup fresh c.free_list ≡ none
    → ((d : Cache) × (done_with reread fresh key c ≡ ok d) × Sound d)
      ⊎ ((c.size_quota < c.current_size) × Lost reread (done_with reread fresh key c))
unfolding done_with
done_with-Sound reread fresh key c {e} v found used free real new =
    let positive : ltb 0 e.ref_count ≡ true = ground (arith, used) in
    let released = release-Sound reread fresh key c v found used free real new in
    elim (enforce_quota-Sound reread (release reread fresh e key c) released) [
      | inl (d, is, w) ↦ inl (d, rw (found, positive) is, w)
      | inr (over, (lost, read)) ↦
          inr (release-over reread fresh e key c over, (rw (found, positive) lost, read))
    ]

not_both : {o : Outcome Cache} {a : Cache} → o ≡ ok a → o ≢ crash
not_both x y = ground (arith, x, y)

same_result : {o : Outcome Cache} {a b : Cache} → o ≡ ok a → o ≡ ok b → a ≡ b
same_result x y = ground (arith, x, y)

-- However a cache is used so, an entry is on the free list, in the one cell that its own pointer names,
-- exactly if its count is 0; no entry on the free list is reserved, every cell is that of an entry, and
-- no two entries have one key.
pub Uses-Sound :
    (reread : CacheEntry → Outcome CacheEntry) (size_quota : ℕ) {c : Cache}
    → Uses reread size_quota c
    → Sound c
Uses-Sound reread quota makes = Kept-empty
Uses-Sound reread quota (puts {c} {d} fresh key buf size b before small apart is) =
    put-Sound fresh key buf size c d b (Uses-Sound reread quota before) small apart is
Uses-Sound reread quota (gets {c} {d} key cb b before small is) =
    get-Sound key cb c d b (Uses-Sound reread quota before) small is
Uses-Sound reread quota (reserves {c} fresh key before apart busy) =
    reserve-Sound fresh key c (Uses-Sound reread quota before) apart busy
Uses-Sound reread quota (cancels {c} {d} key b before is) =
    cancel-Sound key c d b (Uses-Sound reread quota before) is
Uses-Sound reread quota (gives_back {c} {d} fresh key before found used free real new is) =
    elim (done_with-Sound reread fresh key c (Uses-Sound reread quota before) found used free real
      new) [
        | inl (t, returns, v) ↦ (let same : t ≡ d = same_result returns is in subst Sound same v)
        | inr (over, (lost, read)) ↦ absurd (not_both is lost)
      ]

-- In such a cache, and with an address for a node that is not null and not taken, `doneWith` for an entry
-- that is used and not reserved returns, so that no assertion fails; or the cache is over its quota and
-- there is an entry that `cleanup` cannot read once `erase` has destroyed it.
pub done_with-returns :
    (reread : CacheEntry → Outcome CacheEntry) (size_quota : ℕ) (fresh : Ptr) (key : ℕ) {c : Cache}
    {e : CacheEntry}
    → Uses reread size_quota c
    → find key c.cache_map ≡ some e
    → 0 < e.ref_count
    → e.is_reserved ≡ false
    → fresh ≢ null
    → lookup fresh c.free_list ≡ none
    → ((d : Cache) × (done_with reread fresh key c ≡ ok d))
      ⊎ ((c.size_quota < c.current_size) × Lost reread (done_with reread fresh key c))
done_with-returns reread quota fresh key {c} before found used free real new =
    elim (done_with-Sound reread fresh key c (Uses-Sound reread quota before) found used free real
      new) [ inl (d, is, v) ↦ inl (d, is) | inr lost ↦ inr lost ]
