-- ===== src/Cache/Hash.antt =====
-- webserver/cache.h: `HashCharPtr`, the hash function of the cache's map, without USE_STRING_HASHING.
use libeventdisp.Base.{
  ℕ, zero, suc, ◌+◌, ◌-◌, ◌%◌, ◌<◌, ◌≤◌, ◌≡◌, refl, ◌≢◌, ◌⊎◌, inl, inr, not, ◌&&◌, List, [], ◌∷◌,
  ◌==◌, ltb, if◌then◌else◌, length, Bool-cases, Outcome, ok, crash, ◌>>=◌, arith,
}
use libeventdisp.EventDispatcher.{is_empty}

-- The four characters of an `IntChar`.
pub record IntChar : Type 0 where
  pub val1 : ℕ
  pub val2 : ℕ
  pub val3 : ℕ
  pub val4 : ℕ

-- What one turn of the loop leaves: `val`, the characters after `charsHashed`, and how many it read.
pub record Turn : Type 0 where
  pub val : IntChar
  pub rest : List ℕ
  pub copied : ℕ

abbrev padding : ℕ
padding = 0

-- The cases of the switch; a read past the end of the string is a crash.
unfoldable pub copy_four : List ℕ → Outcome Turn
copy_four (a ∷ b ∷ c ∷ d ∷ r) =
    ok (record { val = record { val1 = a; val2 = b; val3 = c; val4 = d }; rest = r; copied = 4 })
copy_four [] = crash
copy_four (a ∷ []) = crash
copy_four (a ∷ b ∷ []) = crash
copy_four (a ∷ b ∷ c ∷ []) = crash

unfoldable pub copy_one : List ℕ → Outcome Turn
copy_one [] = crash
copy_one (a ∷ r) = ok (record {
  val = record { val1 = a; val2 = padding; val3 = padding; val4 = padding };
  rest = r;
  copied = 1;
})

unfoldable pub copy_two : List ℕ → Outcome Turn
copy_two (a ∷ b ∷ r) = ok (record {
  val = record { val1 = a; val2 = b; val3 = padding; val4 = padding };
  rest = r;
  copied = 2;
})
copy_two [] = crash
copy_two (a ∷ []) = crash

unfoldable pub copy_three : List ℕ → Outcome Turn
copy_three (a ∷ b ∷ c ∷ r) =
    ok (record {
      val = record { val1 = a; val2 = b; val3 = c; val4 = padding };
      rest = r;
      copied = 3;
    })
copy_three [] = crash
copy_three (a ∷ []) = crash
copy_three (a ∷ b ∷ []) = crash

unfoldable pub copy : ℕ → List ℕ → Outcome Turn
unfolding copy_one copy_two copy_three copy_four
copy to_copy c =
    if to_copy == 0
    then copy_four c
    else if to_copy == 1
    then copy_one c
    else if to_copy == 2
    then copy_two c
    else copy_three c

abbrev pub max_len_to_hash : ℕ
max_len_to_hash = 16

-- A turn reads at least one character and at most four, and none past the end.
record Good (c : List ℕ) (t : Turn) : Type 0 where
  some_read : 0 < t.copied
  few_read : t.copied ≤ 4
  inside : t.copied + length t.rest ≡ length c

copy_long-Good :
    (k a b c d : ℕ) (r : List ℕ)
    → k < 4
    → (t : Turn) × (copy k (a ∷ b ∷ c ∷ d ∷ r) ≡ ok t) × Good (a ∷ b ∷ c ∷ d ∷ r) t
unfolding copy
copy_long-Good zero a b c d r h =
    (_, refl, record { some_read = omega arith; few_read = omega arith; inside = omega arith })
copy_long-Good (suc zero) a b c d r h =
    (_, refl, record { some_read = omega arith; few_read = omega arith; inside = omega arith })
copy_long-Good (suc (suc zero)) a b c d r h =
    (_, refl, record { some_read = omega arith; few_read = omega arith; inside = omega arith })
copy_long-Good (suc (suc (suc zero))) a b c d r h =
    (_, refl, record { some_read = omega arith; few_read = omega arith; inside = omega arith })
copy_long-Good (suc (suc (suc (suc k)))) a b c d r h = absurd (omega arith)

copy-Good : (c : List ℕ) → c ≢ [] → (t : Turn) × (copy (length c % 4) c ≡ ok t) × Good c t
unfolding copy
copy-Good [] ne = absurd (ne refl)
copy-Good (a ∷ []) ne =
    (_, refl, record { some_read = omega arith; few_read = omega arith; inside = refl })
copy-Good (a ∷ b ∷ []) ne =
    (_, refl, record { some_read = omega arith; few_read = omega arith; inside = refl })
copy-Good (a ∷ b ∷ c ∷ []) ne =
    (_, refl, record { some_read = omega arith; few_read = omega arith; inside = refl })
copy-Good (a ∷ b ∷ c ∷ d ∷ r) ne =
    copy_long-Good (length (a ∷ b ∷ c ∷ d ∷ r) % 4) a b c d r (omega arith)

-- The string ends within the characters read, or enough were read.
pub record Hashed (c : List ℕ) (hashed k : ℕ) : Type 0 where
  pub few : k ≤ 19
  pub inside : k ≤ hashed + length c
  pub enough : (16 ≤ k) ⊎ (k ≡ hashed + length c)

-- What `boost::hash_combine` and the layout of the union do is a parameter.
module _ (hash_combine : ℕ → ℕ → ℕ) (int_val : IntChar → ℕ) where
  -- The loop, on fuel: `hash_seed` and `charsHashed`.
  unfoldable pub hash_loop : ℕ → ℕ → ℕ → List ℕ → Outcome (ℕ × ℕ)
  unfolding copy is_empty
  hash_loop zero hashed seed c = crash
  hash_loop (suc fuel) hashed seed c =
      if ltb hashed max_len_to_hash && not (is_empty c)
      then (do
        t ← copy (length c % 4) c
        hash_loop fuel (hashed + t.copied) (hash_combine seed (int_val t.val)) t.rest)
      else ok (seed, hashed)

  -- `operator()`, and how many characters it has hashed.
  unfoldable pub hash_char_ptr : List ℕ → Outcome (ℕ × ℕ)
  unfolding hash_loop
  hash_char_ptr c = hash_loop (suc max_len_to_hash) 0 0 c

  hash_loop_lem :
      (fuel hashed seed : ℕ) (c : List ℕ)
      → max_len_to_hash - hashed < fuel
      → hashed ≤ 19
      → (r : ℕ × ℕ) × (hash_loop fuel hashed seed c ≡ ok r) × Hashed c hashed r.1
  unfolding hash_loop is_empty
  hash_loop_lem zero hashed seed c enough few = absurd (omega arith)
  hash_loop_lem (suc fuel) hashed seed [] enough few = (
    (seed, hashed),
    ground arith,
    record { few = few; inside = omega arith; enough = inr (omega arith) },
  )
  hash_loop_lem (suc fuel) hashed seed (a ∷ c) enough few =
      elim (Bool-cases (ltb hashed max_len_to_hash)) [
        | inr over ↦ (
          (seed, hashed),
          ground arith,
          record { few = few; inside = omega arith; enough = inl (ground arith) },
        )
        | inl more ↦
            let (t, e, g) = copy-Good (a ∷ c) (λ h. cc) in
            let below : hashed < 16 = ground arith in
            let (r, e', h) =
              hash_loop_lem fuel (hashed + t.copied) (hash_combine seed (int_val t.val)) t.rest
                (omega (arith, g.some_read)) (omega (arith, g.few_read)) in
            (
              r,
              rw (more, e) e',
              record {
                few = h.few;
                inside = omega (arith, h.inside, g.inside);
                enough = ground (arith, h.enough, g.inside);
              },
            )
      ]

  -- Hashing returns for every string, and reads no character past its end; it hashes at most 19
  -- characters, and stops only at the end or after 16 or more.
  pub hash_char_ptr_lem :
      (c : List ℕ)
      → (seed k : ℕ) × (hash_char_ptr c ≡ ok (seed, k))
        × (k ≤ 19)
        × (k ≤ length c)
        × ((16 ≤ k) ⊎ (k ≡ length c))
  unfolding hash_char_ptr
  hash_char_ptr_lem c =
      let ((seed, k), e, h) =
        hash_loop_lem (suc max_len_to_hash) 0 0 c (omega arith) (omega arith) in
      (seed, k, e, h.few, omega (arith, h.inside), ground (arith, h.enough))
