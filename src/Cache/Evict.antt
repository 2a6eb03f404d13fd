-- ===== src/Cache/Evict.antt =====
-- webserver/cache.cc: `cleanup` and the release in `doneWith` keep the free list and the reference counts
-- in agreement, and their assertion does not fail.
use libeventdisp.Base.{
  ℕ, ◌+◌, ◌-◌, ◌%◌, ◌<◌, ◌≡◌, refl, ◌≢◌, true, false, none, some, List, [], ◌∷◌, ◌++◌, ◌==◌, ltb,
  lookup, word_size, sub_word, Bool-cases, Outcome, ok, crash, Outcome-cases, ◌⊎◌, inl, inr, sym,
  ◌∙◌, subst, arith,
}
use libeventdisp.FastFifo.Spec.{Cells}
use libeventdisp.Cache.Defs.{
  Ptr, null, CacheEntry, Cache, find, entry_at, erase, deallocate, cleanup_loop, cleanup, release,
  enforce_quota,
}
use libeventdisp.Cache.Slots.{find-name}
use libeventdisp.Cache.FreeList.{entry_at-find_name}
use libeventdisp.Cache.Moves.{Kept-release, Kept-evict}
use libeventdisp.Cache.Kept.{in_use, idle, Cell, Kept, Kept-update}

-- A call ended by a read of an entry that `erase` had destroyed.
abbrev pub Lost : (CacheEntry → Outcome CacheEntry) → {A : Type 0} → Outcome A → Type 0
Lost reread o = (o ≡ crash) × ((e : CacheEntry) × (reread e ≡ crash))

cleanup_loop-loses :
    (reread : CacheEntry → Outcome CacheEntry) (n p : ℕ) (l : Cells) (space space_freed : ℕ)
    (c : Cache) {e : CacheEntry}
    → ltb space_freed space ≡ true
    → entry_at p c.cache_map ≡ some e
    → reread e ≡ crash
    → cleanup_loop reread ((n, p) ∷ l) space space_freed c ≡ crash
unfolding cleanup_loop
cleanup_loop-loses reread n p l space space_freed c more at gone = ground arith

cleanup_loop-evicts :
    (reread : CacheEntry → Outcome CacheEntry) (n p : ℕ) (l : Cells) (space space_freed : ℕ)
    (c : Cache) {e old : CacheEntry}
    → ltb space_freed space ≡ true
    → entry_at p c.cache_map ≡ some e
    → e.ref_count ≡ 0
    → reread e ≡ ok old
    → cleanup_loop reread ((n, p) ∷ l) space space_freed c
      ≡ cleanup_loop reread l space
          ((space_freed + e.size) % word_size)
          (record c { cache_map = erase e.name c.cache_map; log = c.log ++ deallocate old })
unfolding cleanup_loop
cleanup_loop-evicts reread n p l space space_freed c more at unused again = ground arith

cleanup_loop-stops :
    (reread : CacheEntry → Outcome CacheEntry) (n p : ℕ) (l : Cells) (space space_freed : ℕ)
    (c : Cache)
    → ltb space_freed space ≡ false
    → cleanup_loop reread ((n, p) ∷ l) space space_freed c
      ≡ ok (record c { free_list = (n, p) ∷ l }, space_freed)
unfolding cleanup_loop
cleanup_loop-stops reread n p l space space_freed c enough = ground arith

-- An entry of the free list is not used.
Cell-idle :
    {m : List CacheEntry} {l : Cells} {n p : ℕ} → Kept m l → (v : Cell m n p) → v.e.ref_count ≡ 0
Cell-idle {p = p} k v = elim (k.fits p v.e v.at) [
  | in_use off used ↦ absurd (v.real (sym v.named ∙ off))
  | idle on unused free at ↦ unused
]

-- The loop of `cleanup` ends with the entries and the free list in agreement, unless the read of an
-- entry that it has just erased fails.
pub cleanup_loop-Kept :
    (reread : CacheEntry → Outcome CacheEntry) (l : Cells) (space space_freed : ℕ) (c : Cache)
    → Kept c.cache_map l
    → ((r : Cache × ℕ) × (cleanup_loop reread l space space_freed c ≡ ok r)
        × Kept r.0.cache_map r.0.free_list)
      ⊎ Lost reread (cleanup_loop reread l space space_freed c)
cleanup_loop-Kept reread [] space space_freed c v =
    inl ((record c { free_list = [] }, space_freed), (unfold cleanup_loop in refl), v)
cleanup_loop-Kept reread ((n, p) ∷ l) space space_freed c v =
    elim (Bool-cases (ltb space_freed space)) [
      | inr enough ↦ inl (
        (record c { free_list = (n, p) ∷ l }, space_freed),
        cleanup_loop-stops reread n p l space space_freed c enough,
        v,
      )
      | inl more ↦
          (let cell = v.cells n p (unfold lookup in ground arith) in
            elim (Outcome-cases (reread cell.e)) [
              | inl gone ↦ inr (
                cleanup_loop-loses reread n p l space space_freed c more cell.at gone,
                (cell.e, gone),
              )
              | inr (old, again) ↦
                  (let next =
                      cleanup_loop-evicts reread n p l space space_freed c more cell.at
                        (Cell-idle v cell) again in
                    elim (cleanup_loop-Kept reread l space ((space_freed + cell.e.size) % word_size)
                      (record c {
                        cache_map = erase cell.e.name c.cache_map;
                        log = c.log ++ deallocate old;
                      })
                      (Kept-evict n p v cell.at)) [
                        | inl (r, is, k) ↦ inl (r, next ∙ is, k)
                        | inr (lost, read) ↦ inr (next ∙ lost, read)
                      ])
            ])
    ]

abbrev pub Sound : Cache → Type 0
Sound c = Kept c.cache_map c.free_list

pub Kept-same : {m m' : List CacheEntry} {l l' : Cells} → m' ≡ m → l' ≡ l → Kept m l → Kept m' l'
Kept-same {m} {l' = l'} a b v = subst (λ n. Kept n l') (sym a) (subst (Kept m) (sym b) v)

-- Only a cache that is over its quota evicts, so only there such a read can fail.
pub enforce_quota-Sound :
    (reread : CacheEntry → Outcome CacheEntry) (c : Cache)
    → Sound c
    → ((d : Cache) × (enforce_quota reread c ≡ ok d) × Sound d)
      ⊎ ((c.size_quota < c.current_size) × Lost reread (enforce_quota reread c))
unfolding enforce_quota cleanup
enforce_quota-Sound reread c v = elim (Bool-cases (ltb c.size_quota c.current_size)) [
  | inr within ↦ inl (c, ground (arith, within), v)
  | inl over ↦ elim (cleanup_loop-Kept reread c.free_list (c.current_size - c.size_quota) 0 c v) [
    | inl (r, is, k) ↦
        inl
          (record r.0 { current_size = sub_word r.0.current_size r.1 }, ground (arith, over, is), k)
    | inr (lost, read) ↦ inr (ground (arith, over), (ground (arith, over, lost), read))
  ]
]

-- A reference is given back.
pub release-Sound :
    (reread : CacheEntry → Outcome CacheEntry) (fresh : Ptr) (key : ℕ) (c : Cache) {e : CacheEntry}
    → Sound c
    → find key c.cache_map ≡ some e
    → 0 < e.ref_count
    → e.is_reserved ≡ false
    → fresh ≢ null
    → lookup fresh c.free_list ≡ none
    → Sound (release reread fresh e key c)
release-Sound reread fresh key c {e} v found used free real new =
    let at = entry_at-find_name key c.cache_map v.apart found in
    let named = find-name key c.cache_map found in
    let off : e.free_list_ref ≡ null = elim (v.fits e.address e at) [
      | in_use off used ↦ off
      | idle on unused free at ↦ absurd (omega (arith, used, unused))
    ] in
    elim (Bool-cases (e.ref_count - 1 == 0)) [
      | inl last ↦ rw last (
          Kept-release key (record e { ref_count = e.ref_count - 1; free_list_ref = fresh }) v found
            named refl off real (ground (arith, last)) free new)
      | inr more ↦ rw more (
          Kept-update key (record e { ref_count = e.ref_count - 1 }) v found named refl refl
            (in_use off (ground (arith, more))))
    ]
