-- ===== src/Copy/Tests.antt =====
-- sample/copy.cc: a copy of three bytes, of which two are written.
use libeventdisp.Base.{◌≡◌, refl, true, false, some, [], ◌∷◌, ok, arith}
use libeventdisp.Copy.Defs.{
  Copy, reading, writing, main, copy_to, copy_done, write_at, reads, writes, Reach, starts, goes_on,
}
use libeventdisp.Copy.Whole.{Copied, Reach-Copied}

abbrev begun : Copy
begun = record {
  source = 1 ∷ 2 ∷ 3 ∷ [];
  dest = [];
  source_open = true;
  dest_open = true;
  phase = reading 3 0;
}

abbrev has_read : Copy
has_read = record begun { source_open = false; phase = writing (1 ∷ 2 ∷ 3 ∷ []) 0 }

abbrev ended : Copy
ended = copy_done (record has_read { dest = 1 ∷ 2 ∷ [] })

main-begun : main 3 (some 5) (some 6) true (1 ∷ 2 ∷ 3 ∷ []) (9 ∷ []) ≡ ok begun
unfolding main
main-begun = refl

copy_to-has_read : copy_to true (1 ∷ 2 ∷ 3 ∷ []) begun ≡ ok has_read
unfolding copy_to
copy_to-has_read = refl

ended-Reach : Reach begun ended
unfolding write_at
ended-Reach =
    goes_on
      (goes_on starts (reads true (1 ∷ 2 ∷ 3 ∷ []) [] refl refl (omega arith) copy_to-has_read))
      (writes (1 ∷ 2 ∷ []) (3 ∷ []) refl refl)

Reach-Copied_example : Copied (1 ∷ 2 ∷ 3 ∷ []) ended
Reach-Copied_example = Reach-Copied 4 5 (1 ∷ 2 ∷ 3 ∷ []) (9 ∷ []) main-begun ended-Reach
