-- ===== src/Copy/Whole.antt =====
-- sample/copy.cc: what the destination is, whatever the transfers do.
use libeventdisp.Base.{
  ℕ, suc, ◌≡◌, refl, Bool, true, false, some, [], ◌∷◌, ◌++◌, append_assoc, append-nil, length, sym,
  ap, ◌∙◌, subst, ok, arith,
}
use libeventdisp.Http.Text.{Bytes, drop}
use libeventdisp.Copy.Defs.{
  Phase, reading, writing, returned_usage, exited, Copy, main, copy_to, write_at, Step, reads,
  writes, fails_read, fails_write, Reach, starts, goes_on,
}

-- What is known in each phase.
abbrev pub Stage : Bytes → Copy → Phase → Type 0
Stage source s (reading n off) = (n ≡ length source) × (off ≡ 0) × (s.dest ≡ [])
Stage source s (writing d off) =
    (off ≡ 0) × (s.dest ≡ []) × (s.source_open ≡ false) × ((r : Bytes) × (source ≡ d ++ r))
Stage source s returned_usage = false ≡ true
Stage source s (exited code) = (code ≡ 0) × (s.source_open ≡ false)

pub record Copied (source : Bytes) (s : Copy) : Type 0 where
  pub same : s.source ≡ source
  pub left : Bytes
  pub prefix : source ≡ s.dest ++ left
  pub stage : Stage source s s.phase

main-Copied :
    (a b : ℕ) (source dest : Bytes) {s : Copy}
    → main 3 (some (suc a)) (some (suc b)) true source dest ≡ ok s
    → Copied source s
unfolding main
main-Copied a b source dest {s} is =
    let first : Copy = record {
      source = source;
      dest = [];
      source_open = true;
      dest_open = true;
      phase = reading (length source) 0;
    } in
    let same : first ≡ s = ground (arith, is) in
    subst (Copied source) same
      (record { same = refl; left = source; prefix = refl; stage = (refl, refl, refl) })

copy_to-goes :
    (started : Bool) (d : Bytes) (s t : Copy)
    → copy_to started d s ≡ ok t
    → record s { source_open = false; phase = writing d 0 } ≡ t
unfolding copy_to
copy_to-goes true d s t is = ground (arith, is)
copy_to-goes false d s t is = absurd (ground (arith, is))

drop_zero : (source : Bytes) → source ≡ drop 0 source
drop_zero [] = refl
drop_zero (c ∷ source) = refl

from_start : {off : ℕ} (source : Bytes) → off ≡ 0 → source ≡ drop off source
from_start source start = rw start (drop_zero source)

staged : {source : Bytes} {s : Copy} {p : Phase} → Copied source s → s.phase ≡ p → Stage source s p
staged {source} {s} v at = subst (Stage source s) at v.stage

-- Bytes that are written at the start of an empty file are the file.
write_at-empty : (off : ℕ) (part file : Bytes) → off ≡ 0 → file ≡ [] → write_at off part file ≡ part
unfolding write_at
write_at-empty off part file start empty = rw (start, empty) (ground (arith, append-nil part))

-- A write ends, with or without an error, and has put some of its bytes into the file.
write_ends :
    {source : Bytes} {s : Copy} {d : Bytes} {off : ℕ} (part rest : Bytes) (open_still : Bool)
    → Copied source s
    → s.phase ≡ writing d off
    → d ≡ part ++ rest
    → Copied source
        (record s { dest = write_at off part s.dest; dest_open = open_still; phase = exited 0 })
write_ends {s = s} {off = off} part rest open_still v at is =
    let (start, empty, shut, (r, whole)) = staged v at in
    record {
      same = v.same;
      left = rest ++ r;
      prefix =
          whole
          ∙ ap (λ x. x ++ r) is
          ∙ append_assoc part rest r
          ∙ ap (λ x. x ++ (rest ++ r)) (sym (write_at-empty off part s.dest start empty));
      stage = (refl, shut);
    }

Step-Copied : {source : Bytes} {s t : Copy} → Copied source s → Step s t → Copied source t
Step-Copied {source} {s} {t} v (reads started d rest at is few goes) =
    let (n, start, empty) = staged v at in
    subst (Copied source) (copy_to-goes started d s t goes) (record {
      same = v.same;
      left = v.left;
      prefix = v.prefix;
      stage = (refl, empty, refl, (rest, sym v.same ∙ from_start s.source start ∙ is));
    })
Step-Copied v (writes part rest at is) = write_ends part rest false v at is
Step-Copied v (fails_read at) = record {
  same = v.same;
  left = v.left;
  prefix = v.prefix;
  stage = (refl, refl);
}
Step-Copied v (fails_write part rest at is) = write_ends part rest false v at is

-- From the start of the program with two files that could be opened, whatever the transfers give and
-- whether they fail: the destination is some of the first bytes of the source, which is unchanged; and
-- when the program has ended, it is with the code 0, and the source's descriptor is closed.
pub Reach-Copied :
    (a b : ℕ) (source dest : Bytes) {s t : Copy}
    → main 3 (some (suc a)) (some (suc b)) true source dest ≡ ok s
    → Reach s t
    → Copied source t
Reach-Copied a b source dest is starts = main-Copied a b source dest is
Reach-Copied a b source dest is (goes_on before step) =
    Step-Copied (Reach-Copied a b source dest is before) step
