-- ===== src/Cache/Slots.antt =====
-- webserver/cache.cc: which entries a method leaves alone, and which it may evict.
use libeventdisp.Base.{
  ℕ, ◌+◌, ◌-◌, ◌%◌, ◌<◌, ◌≡◌, refl, ◌≢◌, true, false, none, some, List, [], ◌∷◌, ◌++◌, ◌==◌, ltb,
  if◌then◌else◌, word_size, sym, ◌∙◌, ap, Outcome, ok, Bool-cases, Option-cases, Outcome-cases, ◌⊎◌,
  subst, inl, inr, arith,
}
use libeventdisp.FastFifo.Spec.{Cells}
use libeventdisp.Cache.Defs.{
  Ptr, CacheEntry, Cache, find, entry_at, update, erase, cleanup_loop, cleanup, release,
  enforce_quota, done_with, deallocate, done_found,
}

-- No two entries have one name.
abbrev pub Distinct : List CacheEntry → Type 0
Distinct [] = Unit
Distinct (e ∷ m) = (find e.name m ≡ none) × Distinct m

pub find-name : (k : ℕ) (m : List CacheEntry) {e : CacheEntry} → find k m ≡ some e → e.name ≡ k
unfolding find
find-name k [] h = cc
find-name k (f ∷ m) h = elim (Bool-cases (f.name == k)) [
  | inl here ↦ ground arith
  | inr there ↦ find-name k m (rw there at h)
]

pub find-update :
    (k key : ℕ) (f : CacheEntry) (m : List CacheEntry)
    → f.name ≡ key
    → k ≢ key
    → find k (update key f m) ≡ find k m
unfolding find update
find-update k key f [] e ne = refl
find-update k key f (g ∷ m) e ne = ground (arith, find-update k key f m e ne)

pub find-update_self :
    (key : ℕ) (f : CacheEntry) (m : List CacheEntry) {e : CacheEntry}
    → f.name ≡ key
    → find key m ≡ some e
    → find key (update key f m) ≡ some f
unfolding find update
find-update_self key f [] e h = cc
find-update_self key f (g ∷ m) e h = elim (Bool-cases (g.name == key)) [
  | inl here ↦ rw here (ground arith)
  | inr there ↦ rw there (rw there (find-update_self key f m e (rw there at h)))
]

pub find-append :
    (k : ℕ) (f : CacheEntry) (m : List CacheEntry)
    → find k (m ++ f ∷ [])
      ≡ elim (find k m) [ none ↦ (if f.name == k then some f else none) | some e ↦ some e ]
unfolding find
find-append k f [] = refl
find-append k f (g ∷ m) = ground (arith, find-append k f m)

pub find-erase : (k key : ℕ) (m : List CacheEntry) → k ≢ key → find k (erase key m) ≡ find k m
unfolding find erase
find-erase k key [] ne = refl
find-erase k key (g ∷ m) ne = ground (arith, find-erase k key m ne)

pub erase-Distinct : (key : ℕ) (m : List CacheEntry) → Distinct m → Distinct (erase key m)
unfolding erase
erase-Distinct key [] d = d
erase-Distinct key (g ∷ m) (out, d) = elim (Bool-cases (g.name == key)) [
  | inl here ↦ rw here d
  | inr there ↦ rw there (find-erase g.name key m (ground arith) ∙ out, erase-Distinct key m d)
]

-- An entry found by its address is the one found by its name.
pub entry_at-find :
    (p : Ptr) (m : List CacheEntry) {e : CacheEntry}
    → Distinct m
    → entry_at p m ≡ some e
    → find e.name m ≡ some e
unfolding entry_at find
entry_at-find p [] d h = cc
entry_at-find p (g ∷ m) {e} (out, d) h = elim (Bool-cases (g.address == p)) [
  | inl here ↦ ground arith
  | inr there ↦
      let found : find e.name m ≡ some e = entry_at-find p m d (rw there at h) in
      let apart : g.name ≢ e.name = λ same. ground arith in ground arith
]

pub update-Distinct :
    (key : ℕ) (f : CacheEntry) (m : List CacheEntry)
    → f.name ≡ key
    → Distinct m
    → Distinct (update key f m)
unfolding update
update-Distinct key f [] named d = d
update-Distinct key f (g ∷ m) named (out, d) = elim (Bool-cases (g.name == key)) [
  | inl here ↦ rw here (subst (λ k. find k m ≡ none) (ground arith) out, d)
  | inr there ↦
      rw there
        (find-update g.name key f m named (ground arith) ∙ out, update-Distinct key f m named d)
]

-- What a round of the loop of `cleanup` needs in order to go on, and the state that it goes on with.
pub record Evicts (reread : CacheEntry → Outcome CacheEntry) (p : Ptr) (c d : Cache) : Type 0 where
  pub e : CacheEntry
  pub at : entry_at p c.cache_map ≡ some e
  pub unused : e.ref_count ≡ 0
  pub map : d.cache_map ≡ erase e.name c.cache_map

module _ (reread : CacheEntry → Outcome CacheEntry) where
  pub evicts :
      (node p : Ptr) (l : Cells) (space space_freed : ℕ) (c : Cache) {r : Cache × ℕ}
      → ltb space_freed space ≡ true
      → cleanup_loop reread ((node, p) ∷ l) space space_freed c ≡ ok r
      → (d : Cache) × (n : ℕ) × Evicts reread p c d × (cleanup_loop reread l space n d ≡ ok r)
  unfolding cleanup_loop
  evicts node p l space space_freed c test h = elim (Option-cases (entry_at p c.cache_map)) [
    | inl lost ↦ absurd (ground arith)
    | inr (e, at) ↦ elim (Outcome-cases (reread e)) [
      | inl bad ↦ absurd (ground arith)
      | inr (old, seen) ↦ (
        record c { cache_map = erase e.name c.cache_map; log = c.log ++ deallocate old },
        (space_freed + e.size) % word_size,
        record { e = e; at = at; unused = ground arith; map = refl },
        ground arith,
      )
    ]
  ]

  cleanup_loop_keeps :
      (l : Cells) (space space_freed : ℕ) (c : Cache) {r : Cache × ℕ} (k : ℕ) {e : CacheEntry}
      → Distinct c.cache_map
      → find k c.cache_map ≡ some e
      → 0 < e.ref_count
      → cleanup_loop reread l space space_freed c ≡ ok r
      → find k r.0.cache_map ≡ some e
  cleanup_loop_keeps [] space space_freed c k d found used h = unfold cleanup_loop in ground arith
  cleanup_loop_keeps ((node, p) ∷ l) space space_freed c {r} k {e} d found used h =
      elim (Bool-cases (ltb space_freed space)) [
        | inr enough ↦ unfold cleanup_loop in ground arith
        | inl more ↦
            let (c2, n, v, rest) = evicts node p l space space_freed c more h in
            let apart : k ≢ v.e.name = λ same. ground (arith, entry_at-find p c.cache_map d v.at) in
            cleanup_loop_keeps l space n c2 k
              (subst Distinct (sym v.map) (erase-Distinct v.e.name c.cache_map d))
              (ap (find k) v.map ∙ find-erase k v.e.name c.cache_map apart ∙ found) used rest
      ]

  -- `cleanup` frees the space that it was asked for, or it has tried every entry of the free list.
  cleanup_loop_enough :
      (l : Cells) (space space_freed : ℕ) (c : Cache) {r : Cache × ℕ}
      → cleanup_loop reread l space space_freed c ≡ ok r
      → (ltb r.1 space ≡ false) ⊎ (r.0.free_list ≡ [])
  cleanup_loop_enough [] space space_freed c h = inr (unfold cleanup_loop in ground arith)
  cleanup_loop_enough ((node, p) ∷ l) space space_freed c h =
      elim (Bool-cases (ltb space_freed space)) [
        | inr enough ↦ inl (unfold cleanup_loop in ground arith)
        | inl more ↦
            let (c2, n, v, rest) = evicts node p l space space_freed c more h in
            cleanup_loop_enough l space n c2 rest
      ]

  cleanup_keeps :
      (space : ℕ) (c : Cache) {c' : Cache} (k : ℕ) {e : CacheEntry}
      → Distinct c.cache_map
      → find k c.cache_map ≡ some e
      → 0 < e.ref_count
      → cleanup reread space c ≡ ok c'
      → find k c'.cache_map ≡ some e
  unfolding cleanup
  cleanup_keeps space c k d found used h =
      elim (Outcome-cases (cleanup_loop reread c.free_list space 0 c)) [
        | inl bad ↦ absurd (ground arith)
        | inr (r, e) ↦ ground (arith, cleanup_loop_keeps c.free_list space 0 c k d found used e)
      ]

  enforce_keeps :
      (c : Cache) {c' : Cache} (k : ℕ) {e : CacheEntry}
      → Distinct c.cache_map
      → find k c.cache_map ≡ some e
      → 0 < e.ref_count
      → enforce_quota reread c ≡ ok c'
      → find k c'.cache_map ≡ some e
  unfolding enforce_quota
  enforce_keeps c {c'} k d found used h = elim (Bool-cases (ltb c.size_quota c.current_size)) [
    | inl over ↦
        cleanup_keeps (c.current_size - c.size_quota) c {c' = c'} k d found used (ground arith)
    | inr within ↦ ground arith
  ]

  -- What the release itself leaves alone.
  release_keeps :
      (fresh : Ptr) (f : CacheEntry) (key : ℕ) (c : Cache) (k : ℕ)
      → f.name ≡ key
      → k ≢ key
      → Distinct c.cache_map
      → (find k (release reread fresh f key c).cache_map ≡ find k c.cache_map)
        × Distinct (release reread fresh f key c).cache_map
  release_keeps fresh f key c k named other d = elim (Bool-cases (f.ref_count - 1 == 0)) [
    | inl last ↦
        rw last
          (find-update k key _ c.cache_map named other, update-Distinct key _ c.cache_map named d)
    | inr more ↦
        rw more
          (find-update k key _ c.cache_map named other, update-Distinct key _ c.cache_map named d)
  ]

  done_found_ok :
      (fresh : Ptr) (f : CacheEntry) (key : ℕ) (c : Cache) {c' : Cache}
      → done_found reread (some f) fresh key c ≡ ok c'
      → enforce_quota reread (release reread fresh f key c) ≡ ok c'
  done_found_ok fresh f key c h = elim (Bool-cases (ltb 0 f.ref_count)) [
    | inl held ↦ rw held at h
    | inr gone ↦ absurd (ground arith)
  ]

  -- Whenever `doneWith` returns, the entry of any other key that is in use is still in the cache, as it
  -- was, however much `cleanup` has evicted.
  pub done_with_keeps :
      (fresh : Ptr) (key : ℕ) (c : Cache) {c' : Cache} (k : ℕ) {e : CacheEntry}
      → Distinct c.cache_map
      → find k c.cache_map ≡ some e
      → 0 < e.ref_count
      → k ≢ key
      → done_with reread fresh key c ≡ ok c'
      → find k c'.cache_map ≡ some e
  unfolding done_with
  done_with_keeps fresh key c {c'} k {e} d found used other h =
      elim (Option-cases (find key c.cache_map)) [
        | inl lost ↦ absurd (ground arith)
        | inr (f, at) ↦
            let (same, distinct) =
              release_keeps fresh f key c k (find-name key c.cache_map at) other d in
            enforce_keeps (release reread fresh f key c) {c' = c'} k distinct (same ∙ found) used
              (done_found_ok fresh f key c (ground arith))
      ]
