-- ===== src/Cache/Preserves.antt =====
-- webserver/cache.cc: `put`, `get`, `reserve` and `cancelReservation` keep the reference counts and the
-- free list in agreement, where the counts do not overflow.
use libeventdisp.Base.{
  ℕ, ◌+◌, ◌<◌, ◌≡◌, refl, Bool, true, false, not, none, some, List, [], ◌∷◌, ◌++◌, ◌==◌, length,
  if◌then◌else◌, word_size, incr, Bool-cases, Option-cases, Outcome-cases, ok, inl, inr, sym, ◌∙◌,
  arith,
}
use libeventdisp.FastFifo.Spec.{Cells, remove}
use libeventdisp.Cache.Defs.{
  Ptr, null, CacheEntry, reserved_entry, new_entry, Cache, find, entry_at, update, put, put_found,
  get, hand_over, run_queue, run_callback, count_queue, reserve, cancel_reservation, cancel_found,
}
use libeventdisp.Cache.Slots.{find-name}
use libeventdisp.Cache.FreeList.{entry_at-find_name}
use libeventdisp.Cache.Evict.{Sound, Kept-same}
use libeventdisp.Cache.Moves.{Kept-take}
use libeventdisp.Cache.Kept.{in_use, idle, Kept, Kept-update, Kept-append}

-- The counts of an entry, and of those who wait for it, are far from an overflow.
abbrev pub Small : Cache → Type 0
Small c =
    (p : Ptr) (e : CacheEntry)
    → entry_at p c.cache_map ≡ some e
    → e.ref_count + length e.queue + 1 < word_size

-- What a method changes, where it succeeds.
pub put_reserved-changes :
    (fresh : Ptr) (key : ℕ) (buf : Ptr) (size : ℕ) (c d : Cache) (b : Bool) (e : CacheEntry)
    → e.is_reserved ≡ true
    → put_found (some e) fresh key buf size c ≡ ok (d, b)
    → (d.cache_map
        ≡ update key
            (record e {
              buf = buf;
              size = size;
              ref_count = count_queue e.queue e.ref_count;
              is_reserved = false;
            })
            c.cache_map)
      × (d.free_list ≡ c.free_list)
put_reserved-changes fresh key buf size c d b e held is =
    elim (Outcome-cases
      (run_queue e.queue (record { buf = buf; size = size; is_cached = true }) c.log)) [
        | inl bad ↦ absurd (ground (arith, held, is, bad))
        | inr (log, ran) ↦ (ground (arith, held, is, ran), ground (arith, held, is, ran))
      ]

pub cancel-changes :
    (key : ℕ) (c d : Cache) (b : Bool) (e : CacheEntry)
    → e.is_reserved ≡ true
    → cancel_found (some e) key c ≡ ok (d, b)
    → (d.cache_map ≡ update key (record e { is_reserved = false }) c.cache_map)
      × (d.free_list ≡ c.free_list)
cancel-changes key c d b e held is =
    elim (Outcome-cases
      (run_queue e.queue (record { buf = null; size = 0; is_cached = false }) c.log)) [
        | inl bad ↦ absurd (ground (arith, held, is, bad))
        | inr (log, ran) ↦ (ground (arith, held, is, ran), ground (arith, held, is, ran))
      ]

pub hand_over-changes :
    (e : CacheEntry) (key cb : ℕ) (c d : Cache) (b : Bool)
    → hand_over e key (some cb) c ≡ ok (d, b)
    → (d.cache_map
        ≡ update key (record e { ref_count = incr e.ref_count; free_list_ref = null }) c.cache_map)
      × (d.free_list ≡ (
          if not (e.free_list_ref == null)
          then remove e.free_list_ref c.free_list
          else c.free_list))
hand_over-changes e key cb c d b is =
    elim (Outcome-cases
      (run_callback cb (record { buf = e.buf; size = e.size; is_cached = true }) c.log)) [
        | inl bad ↦ absurd (ground (arith, is, bad))
        | inr (log, ran) ↦ (ground (arith, is, ran), ground (arith, is, ran))
      ]

count_queue-positive :
    (q : List ℕ) (n : ℕ) → 0 < n → n + length q + 1 < word_size → 0 < count_queue q n
unfolding count_queue
count_queue-positive [] n pos small = pos
count_queue-positive (cb ∷ q) n pos small =
    count_queue-positive q (incr n) (omega (arith, small)) (omega (arith, small))

reserved-in_use :
    {m : List CacheEntry} {l : Cells} {e : CacheEntry} (key : ℕ)
    → Kept m l
    → find key m ≡ some e
    → e.is_reserved ≡ true
    → (e.free_list_ref ≡ null) × (0 < e.ref_count)
reserved-in_use {m} {e = e} key v found held =
    elim (v.fits e.address e (entry_at-find_name key m v.apart found)) [
      | in_use off used ↦ (off, used)
      | idle on unused free at ↦ absurd (ground (arith, held, free))
    ]

-- A found entry is changed, and the free list is not.
changes-Kept :
    {m m' : List CacheEntry} {l l' : Cells} {e : CacheEntry} (key : ℕ) (f : CacheEntry)
    → Kept m l
    → find key m ≡ some e
    → f.name ≡ e.name
    → f.address ≡ e.address
    → e.free_list_ref ≡ null
    → f.free_list_ref ≡ null
    → 0 < f.ref_count
    → (m' ≡ update key f m) × (l' ≡ l)
    → Kept m' l'
changes-Kept {m} key f v found named here was off used (map, list) = Kept-same map list (
    Kept-update key f v found (named ∙ find-name key m found) here (off ∙ sym was)
      (in_use off used))

pub put-Sound :
    (fresh : Ptr) (key : ℕ) (buf : Ptr) (size : ℕ) (c d : Cache) (b : Bool)
    → Sound c
    → Small c
    → entry_at fresh c.cache_map ≡ none
    → put fresh key buf size c ≡ ok (d, b)
    → Sound d
unfolding put
put-Sound fresh key buf size c d b v small apart is = elim (Option-cases (find key c.cache_map)) [
  | inl new ↦
      Kept-same (ground (arith, is, new)) (ground (arith, is, new))
        (Kept-append (new_entry fresh key buf size) v new apart refl (omega arith))
  | inr (e, found) ↦ elim (Bool-cases e.is_reserved) [
    | inr full ↦ Kept-same (ground (arith, is, found, full)) (ground (arith, is, found, full)) v
    | inl held ↦
        (let (off, used) = reserved-in_use key v found held in
          let room = small e.address e (entry_at-find_name key c.cache_map v.apart found) in
          changes-Kept key
            (record e {
              buf = buf;
              size = size;
              ref_count = count_queue e.queue e.ref_count;
              is_reserved = false;
            })
            v found refl refl off off (count_queue-positive e.queue e.ref_count used room)
            (put_reserved-changes fresh key buf size c d b e held (ground (arith, is, found))))
  ]
]

pub cancel-Sound :
    (key : ℕ) (c d : Cache) (b : Bool) → Sound c → cancel_reservation key c ≡ ok (d, b) → Sound d
unfolding cancel_reservation
cancel-Sound key c d b v is = elim (Option-cases (find key c.cache_map)) [
  | inl new ↦ Kept-same (ground (arith, is, new)) (ground (arith, is, new)) v
  | inr (e, found) ↦ elim (Bool-cases e.is_reserved) [
    | inr full ↦ Kept-same (ground (arith, is, found, full)) (ground (arith, is, found, full)) v
    | inl held ↦
        (let (off, used) = reserved-in_use key v found held in
          changes-Kept key (record e { is_reserved = false }) v found refl refl off off used
            (cancel-changes key c d b e held (ground (arith, is, found))))
  ]
]

pub reserve-Sound :
    (fresh : Ptr) (key : ℕ) (c : Cache)
    → Sound c
    → entry_at fresh c.cache_map ≡ none
    → ((e : CacheEntry) → find key c.cache_map ≡ some e → 0 < e.ref_count)
    → Sound (reserve fresh key c).0
unfolding reserve
reserve-Sound fresh key c v apart busy = elim (Option-cases (find key c.cache_map)) [
  | inl new ↦ rw new (Kept-append (reserved_entry fresh key) v new apart refl (omega arith))
  | inr (e, found) ↦ elim (Bool-cases e.is_reserved) [
    | inl held ↦ rw (found, held) v
    | inr full ↦
        (let at = entry_at-find_name key c.cache_map v.apart found in
          let off : e.free_list_ref ≡ null = elim (v.fits e.address e at) [
            | in_use off used ↦ off
            | idle on unused free there ↦ absurd (omega (arith, busy e found, unused))
          ] in
          rw (found, full)
            (changes-Kept key (record e { is_reserved = true }) v found refl refl off off
              (busy e found) (refl, refl)))
  ]
]

pub get-Sound :
    (key cb : ℕ) (c d : Cache) (b : Bool)
    → Sound c
    → Small c
    → get key (some cb) c ≡ ok (d, b)
    → Sound d
unfolding get
get-Sound key cb c d b v small is = elim (Option-cases (find key c.cache_map)) [
  | inl new ↦ Kept-same (ground (arith, is, new)) (ground (arith, is, new)) v
  | inr (e, found) ↦ elim (Bool-cases e.is_reserved) [
    | inl held ↦
        (let (off, used) = reserved-in_use key v found held in
          changes-Kept key (record e { queue = e.queue ++ cb ∷ [] }) v found refl refl off off used
            (ground (arith, is, found, held), ground (arith, is, found, held)))
    | inr full ↦
        (let at = entry_at-find_name key c.cache_map v.apart found in
          let room = small e.address e at in
          let (map, list) = hand_over-changes e key cb c d b (ground (arith, is, found, full)) in
          let f = record e { ref_count = incr e.ref_count; free_list_ref = null } in
          let counted : 0 < f.ref_count = omega (arith, room) in
          elim (v.fits e.address e at) [
            | in_use off used ↦
                changes-Kept key f v found refl refl off refl counted
                  (map, list ∙ ground (arith, off))
            | idle on unused free there ↦
                Kept-same map (list ∙ ground (arith, on)) (
                  Kept-take key f v found (find-name key c.cache_map found) refl refl counted there)
          ])
  ]
]
