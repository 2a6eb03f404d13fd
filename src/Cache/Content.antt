-- ===== src/Cache/Content.antt =====
-- webserver/cache.cc: the data that an entry has are those that were put under its key.
use libeventdisp.Base.{
  ℕ, ◌-◌, ◌<◌, ◌≡◌, refl, Bool, true, false, some, List, [], ◌∷◌, ◌++◌, ◌==◌, ltb, incr, Outcome,
  ok, Bool-cases, Option-cases, inl, inr, ◌⊎◌, sym, ◌∙◌, ap, subst, arith,
}
use libeventdisp.Cache.Defs.{
  Ptr, null, CacheEntry, reserved_entry, new_entry, Cache, find, update, put, get, reserve,
  count_queue, cancel_reservation, release, enforce_quota, done_with,
}
use libeventdisp.Cache.Slots.{Distinct, find-name, find-update, find-update_self, find-append}
use libeventdisp.Cache.Preserves.{put_reserved-changes, cancel-changes, hand_over-changes}
use libeventdisp.Cache.Uses.{Uses, makes, puts, gets, reserves, cancels, gives_back, Uses-Sound}
use libeventdisp.Cache.Shrinks.{enforce-shrinks, release-Distinct}

module _ (Good : ℕ → Ptr → ℕ → Type 0) where
  -- Every entry is empty or has good data for its key.
  abbrev pub Content : List CacheEntry → Type 0
  Content m = (k : ℕ) (e : CacheEntry) → find k m ≡ some e → (e.buf ≡ null) ⊎ Good k e.buf e.size

  -- All that was put is good for its key.
  abbrev pub Fed :
      {reread : CacheEntry → Outcome CacheEntry} {size_quota : ℕ} {c : Cache}
      → Uses reread size_quota c
      → Type 0
  Fed makes = Unit
  Fed (puts fresh key buf size b before small apart is) = Good key buf size × Fed before
  Fed (gets key cb b before small is) = Fed before
  Fed (reserves fresh key before apart busy) = Fed before
  Fed (cancels key b before is) = Fed before
  Fed (gives_back fresh key before found used free real new is) = Fed before

  Content-update :
      (m : List CacheEntry) {e : CacheEntry} (key : ℕ) (f : CacheEntry)
      → Content m
      → find key m ≡ some e
      → f.name ≡ e.name
      → (f.buf ≡ null) ⊎ Good key f.buf f.size
      → Content (update key f m)
  Content-update m key f v found same good k g h =
      let named = same ∙ find-name key m found in
      elim (Bool-cases (k == key)) [
        | inl is ↦
            (let here : key ≡ k = ground (arith, is) in
              let self = find-update_self key f m named found in
              let filed : f ≡ g = ground (arith, self, h, here) in
              subst (λ x. (x.buf ≡ null) ⊎ Good k x.buf x.size) filed
                (subst (λ j. (f.buf ≡ null) ⊎ Good j f.buf f.size) here good))
        | inr other ↦ v k g (sym (find-update k key f m named (ground (arith, other))) ∙ h)
      ]

  Content-append :
      (m : List CacheEntry) (f : CacheEntry)
      → Content m
      → (f.buf ≡ null) ⊎ Good f.name f.buf f.size
      → Content (m ++ f ∷ [])
  Content-append m f v good k g h = elim (Option-cases (find k m)) [
    | inr (e, found) ↦
        (let same : e ≡ g = ground (arith, find-append k f m, found, h) in
          v k g (found ∙ ap some same))
    | inl new ↦ elim (Bool-cases (f.name == k)) [
      | inr other ↦ absurd (ground (arith, find-append k f m, new, h, other))
      | inl is ↦
          (let filed : f ≡ g = ground (arith, find-append k f m, new, h, is) in
            let here : f.name ≡ k = ground (arith, is) in
            subst (λ x. (x.buf ≡ null) ⊎ Good k x.buf x.size) filed
              (subst (λ j. (f.buf ≡ null) ⊎ Good j f.buf f.size) here good))
    ]
  ]

  Content-same : (m n : List CacheEntry) → n ≡ m → Content m → Content n
  Content-same m n same v = subst Content (sym same) v

  put-Content :
      (fresh : Ptr) (key : ℕ) (buf : Ptr) (size : ℕ) (c d : Cache) (b : Bool)
      → Good key buf size
      → Content c.cache_map
      → put fresh key buf size c ≡ ok (d, b)
      → Content d.cache_map
  unfolding put
  put-Content fresh key buf size c d b good v is = elim (Option-cases (find key c.cache_map)) [
    | inl new ↦
        Content-same (c.cache_map ++ new_entry fresh key buf size ∷ []) d.cache_map
          (ground (arith, is, new))
          (Content-append c.cache_map (new_entry fresh key buf size) v (inr good))
    | inr (e, found) ↦ elim (Bool-cases e.is_reserved) [
      | inr full ↦ Content-same c.cache_map d.cache_map (ground (arith, is, found, full)) v
      | inl held ↦
          (let f = record e {
            buf = buf;
            size = size;
            ref_count = count_queue e.queue e.ref_count;
            is_reserved = false;
          } in
            let (map, list) =
              put_reserved-changes fresh key buf size c d b e held (ground (arith, is, found)) in
            Content-same (update key f c.cache_map) d.cache_map map
              (Content-update c.cache_map key f v found refl (inr good)))
    ]
  ]

  get-Content :
      (key cb : ℕ) (c d : Cache) (b : Bool)
      → Content c.cache_map
      → get key (some cb) c ≡ ok (d, b)
      → Content d.cache_map
  unfolding get
  get-Content key cb c d b v is = elim (Option-cases (find key c.cache_map)) [
    | inl new ↦ Content-same c.cache_map d.cache_map (ground (arith, is, new)) v
    | inr (e, found) ↦ elim (Bool-cases e.is_reserved) [
      | inl held ↦
          (let f = record e { queue = e.queue ++ cb ∷ [] } in
            Content-same (update key f c.cache_map) d.cache_map (ground (arith, is, found, held))
              (Content-update c.cache_map key f v found refl (v key e found)))
      | inr full ↦
          (let f = record e { ref_count = incr e.ref_count; free_list_ref = null } in
            let (map, list) = hand_over-changes e key cb c d b (ground (arith, is, found, full)) in
            Content-same (update key f c.cache_map) d.cache_map map
              (Content-update c.cache_map key f v found refl (v key e found)))
    ]
  ]

  reserve-Content :
      (fresh : Ptr) (key : ℕ) (c : Cache)
      → Content c.cache_map
      → Content (reserve fresh key c).0.cache_map
  unfolding reserve
  reserve-Content fresh key c v = elim (Option-cases (find key c.cache_map)) [
    | inl new ↦ rw new (Content-append c.cache_map (reserved_entry fresh key) v (inl refl))
    | inr (e, found) ↦ elim (Bool-cases e.is_reserved) [
      | inl held ↦ rw (found, held) v
      | inr full ↦
          rw (found, full)
            (Content-update c.cache_map key (record e { is_reserved = true }) v found refl
              (v key e found))
    ]
  ]

  cancel-Content :
      (key : ℕ) (c d : Cache) (b : Bool)
      → Content c.cache_map
      → cancel_reservation key c ≡ ok (d, b)
      → Content d.cache_map
  unfolding cancel_reservation
  cancel-Content key c d b v is = elim (Option-cases (find key c.cache_map)) [
    | inl new ↦ Content-same c.cache_map d.cache_map (ground (arith, is, new)) v
    | inr (e, found) ↦ elim (Bool-cases e.is_reserved) [
      | inr full ↦ Content-same c.cache_map d.cache_map (ground (arith, is, found, full)) v
      | inl held ↦
          (let f = record e { is_reserved = false } in
            let (map, list) = cancel-changes key c d b e held (ground (arith, is, found)) in
            Content-same (update key f c.cache_map) d.cache_map map
              (Content-update c.cache_map key f v found refl (v key e found)))
    ]
  ]

  release-Content :
      (reread : CacheEntry → Outcome CacheEntry) (fresh : Ptr) (key : ℕ) (c : Cache)
      {e : CacheEntry}
      → Content c.cache_map
      → find key c.cache_map ≡ some e
      → Content (release reread fresh e key c).cache_map
  release-Content reread fresh key c {e} v found = elim (Bool-cases (e.ref_count - 1 == 0)) [
    | inl last ↦ rw last (
        Content-update c.cache_map key
          (record e { ref_count = e.ref_count - 1; free_list_ref = fresh }) v found refl
          (v key e found))
    | inr more ↦ rw more (
        Content-update c.cache_map key (record e { ref_count = e.ref_count - 1 }) v found refl
          (v key e found))
  ]

  done_with-Content :
      (reread : CacheEntry → Outcome CacheEntry) (fresh : Ptr) (key : ℕ) (c d : Cache)
      {e : CacheEntry}
      → Distinct c.cache_map
      → Content c.cache_map
      → find key c.cache_map ≡ some e
      → 0 < e.ref_count
      → done_with reread fresh key c ≡ ok d
      → Content d.cache_map
  unfolding done_with
  done_with-Content reread fresh key c d {e} names v found used is k g h =
      let released = release reread fresh e key c in
      let positive : ltb 0 e.ref_count ≡ true = ground (arith, used) in
      let runs : enforce_quota reread released ≡ ok d = ground (arith, is, found, positive) in
      let distinct = release-Distinct reread fresh key c names found in
      release-Content reread fresh key c v found k g
        (enforce-shrinks reread released d k distinct runs h)

  -- An entry of a cache that is used as it is meant to be, and to which only good data are put, has good
  -- data for its key, or none.
  pub Uses-Content :
      (reread : CacheEntry → Outcome CacheEntry) (size_quota : ℕ) {c : Cache}
      → (run : Uses reread size_quota c) → Fed run
      → Content c.cache_map
  Uses-Content reread quota makes fed = λ k e h. absurd (unfold find in ground (arith, h))
  Uses-Content reread quota (puts {c} {d} fresh key buf size b before small apart is) fed =
      put-Content fresh key buf size c d b fed.0 (Uses-Content reread quota before fed.1) is
  Uses-Content reread quota (gets {c} {d} key cb b before small is) fed =
      get-Content key cb c d b (Uses-Content reread quota before fed) is
  Uses-Content reread quota (reserves {c} fresh key before apart busy) fed =
      reserve-Content fresh key c (Uses-Content reread quota before fed)
  Uses-Content reread quota (cancels {c} {d} key b before is) fed =
      cancel-Content key c d b (Uses-Content reread quota before fed) is
  Uses-Content reread quota (gives_back {c} {d} fresh key before found used free real new is) fed =
      done_with-Content reread fresh key c d (Uses-Sound reread quota before).names
        (Uses-Content reread quota before fed) found used is
