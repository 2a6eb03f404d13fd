-- ===== src/Cache/Shrinks.antt =====
-- webserver/cache.cc: `cleanup` and the release in `doneWith` leave only entries that were there, and no
-- two with one key.
use libeventdisp.Base.{
  ℕ, ◌-◌, ◌≡◌, refl, none, some, List, [], ◌∷◌, ◌==◌, ltb, Outcome, ok, Bool-cases, Outcome-cases,
  inl, inr, sym, ◌∙◌, ap, subst, arith,
}
use libeventdisp.FastFifo.Spec.{Cells}
use libeventdisp.Cache.Defs.{
  Ptr, CacheEntry, Cache, find, erase, cleanup_loop, cleanup, release, enforce_quota,
}
use libeventdisp.Cache.Slots.{
  Distinct, find-name, find-erase, erase-Distinct, update-Distinct, evicts,
}

find-erase_self : (key : ℕ) (m : List CacheEntry) → Distinct m → find key (erase key m) ≡ none
unfolding find erase
find-erase_self key [] d = refl
find-erase_self key (g ∷ m) (out, d) = elim (Bool-cases (g.name == key)) [
  | inl here ↦ rw here (subst (λ k. find k m ≡ none) (ground (arith, here)) out)
  | inr there ↦ rw there (rw there (find-erase_self key m d))
]

find-erased :
    (k key : ℕ) (m : List CacheEntry) {e : CacheEntry}
    → Distinct m
    → find k (erase key m) ≡ some e
    → find k m ≡ some e
find-erased k key m d h = elim (Bool-cases (k == key)) [
  | inl same ↦
      (let is : find k (erase key m) ≡ none =
          subst (λ j. find j (erase key m) ≡ none) (ground (arith, same))
            (find-erase_self key m d) in
        absurd (ground (arith, is, h)))
  | inr other ↦ sym (find-erase k key m (ground (arith, other))) ∙ h
]

-- An entry that is left after `cleanup` was there before.
cleanup_loop-shrinks :
    (reread : CacheEntry → Outcome CacheEntry) (l : Cells) (space space_freed : ℕ) (c : Cache)
    {r : Cache × ℕ} (k : ℕ) {e : CacheEntry}
    → Distinct c.cache_map
    → cleanup_loop reread l space space_freed c ≡ ok r
    → find k r.0.cache_map ≡ some e
    → find k c.cache_map ≡ some e
cleanup_loop-shrinks reread [] space space_freed c k d h found = unfold cleanup_loop in ground arith
cleanup_loop-shrinks reread ((node, p) ∷ l) space space_freed c k d h found =
    elim (Bool-cases (ltb space_freed space)) [
      | inr enough ↦ unfold cleanup_loop in ground arith
      | inl more ↦
          (let (c2, n, v, rest) = evicts reread node p l space space_freed c more h in
            let left =
              cleanup_loop-shrinks reread l space n c2 k
                (subst Distinct (sym v.map) (erase-Distinct v.e.name c.cache_map d)) rest found in
            find-erased k v.e.name c.cache_map d (ap (find k) (sym v.map) ∙ left))
    ]

pub enforce-shrinks :
    (reread : CacheEntry → Outcome CacheEntry) (c d : Cache) (k : ℕ) {e : CacheEntry}
    → Distinct c.cache_map
    → enforce_quota reread c ≡ ok d
    → find k d.cache_map ≡ some e
    → find k c.cache_map ≡ some e
unfolding enforce_quota cleanup
enforce-shrinks reread c d k names is found = elim (Bool-cases (ltb c.size_quota c.current_size)) [
  | inr within ↦ ground arith
  | inl over ↦
      elim (Outcome-cases (cleanup_loop reread c.free_list (c.current_size - c.size_quota) 0 c)) [
        | inl bad ↦ absurd (ground arith)
        | inr (r, e) ↦
            cleanup_loop-shrinks reread c.free_list (c.current_size - c.size_quota) 0 c k names e
              (ground arith)
      ]
]

pub release-Distinct :
    (reread : CacheEntry → Outcome CacheEntry) (fresh : Ptr) (key : ℕ) (c : Cache) {e : CacheEntry}
    → Distinct c.cache_map
    → find key c.cache_map ≡ some e
    → Distinct (release reread fresh e key c).cache_map
release-Distinct reread fresh key c {e} names found =
    let named = find-name key c.cache_map found in
    elim (Bool-cases (e.ref_count - 1 == 0)) [
      | inl last ↦ rw last (update-Distinct key _ c.cache_map named names)
      | inr more ↦ rw more (update-Distinct key _ c.cache_map named names)
    ]
