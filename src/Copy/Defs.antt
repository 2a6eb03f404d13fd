-- ===== src/Copy/Defs.antt =====
-- sample/copy.cc: `main` up to its loop, and the callbacks of the two transfers.
--
-- The results of `open` and of the calls that start the transfers are parameters. What `copyDone` prints
-- is left out.
use libeventdisp.Base.{
  ℕ, zero, suc, ◌+◌, ◌-◌, ◌≤◌, replicate, ◌≡◌, Bool, true, false, not, Option, none, some, [], ◌++◌,
  ◌==◌, length, if◌then◌else◌, Outcome, ok, ◌>>◌, assert,
}
use libeventdisp.Http.Text.{Bytes, take, drop}

-- What the program waits for: the transfer with its length or its bytes, and its offset; or that it has ended, by
-- `return -1` or by `exit`.
pub data Phase : Type 0 where
  reading : ℕ → ℕ → Phase
  writing : Bytes → ℕ → Phase
  returned_usage : Phase
  exited : ℕ → Phase

-- The two files, whether their descriptors are open, and the phase.
pub record Copy : Type 0 where
  pub source : Bytes
  pub dest : Bytes
  pub source_open : Bool
  pub dest_open : Bool
  pub phase : Phase

-- `fd > 0`, where -1 is `none`.
abbrev pub positive : Option ℕ → Bool
positive none = false
positive (some zero) = false
positive (some (suc fd)) = true

-- `main`: the second `open` empties the destination; `started` tells that `aio_read` returned 0.
unfoldable pub main : ℕ → Option ℕ → Option ℕ → Bool → Bytes → Bytes → Outcome Copy
main argc source_fd dest_fd started source dest =
    if not (argc == 3)
    then ok (record {
      source = source;
      dest = dest;
      source_open = false;
      dest_open = false;
      phase = returned_usage;
    })
    else (do
      assert (positive source_fd)
      assert (positive dest_fd)
      assert started
      ok (record {
        source = source;
        dest = [];
        source_open = true;
        dest_open = true;
        phase = reading (length source) 0;
      }))

-- `copyTo`, with the bytes that were read: `started` tells that `aio_write` returned 0.
unfoldable pub copy_to : Bool → Bytes → Copy → Outcome Copy
copy_to started contents s = do
  assert started
  ok (record s { source_open = false; phase = writing contents 0 })

-- `copyDone`
abbrev pub copy_done : Copy → Copy
copy_done s = record s { dest_open = false; phase = exited 0 }

-- `errOccured`, with the descriptor of the transfer.
abbrev pub read_failed : Copy → Copy
read_failed s = record s { source_open = false; phase = exited 0 }

abbrev pub write_failed : Copy → Copy
write_failed s = record s { dest_open = false; phase = exited 0 }

-- A file after bytes were written at an offset: what was there before stays, and a gap is zeros.
unfoldable pub write_at : ℕ → Bytes → Bytes → Bytes
write_at off part file =
    take off file ++ replicate (off - length file) 0 ++ part ++ drop (off + length part) file

-- The transfers: a read gives some of the bytes of the file from the offset, no more than it was asked
-- for; a write puts some of the first of its bytes into the file, at the offset; and either may fail, a
-- write with some of its bytes written.
pub data Step : Copy → Copy → Type 0 where
  reads :
      {s t : Copy} {n off : ℕ} (started : Bool) (d rest : Bytes)
      → s.phase ≡ reading n off
      → drop off s.source ≡ d ++ rest
      → length d ≤ n
      → copy_to started d s ≡ ok t
      → Step s t
  writes :
      {s : Copy} {d : Bytes} {off : ℕ} (part rest : Bytes)
      → s.phase ≡ writing d off
      → d ≡ part ++ rest
      → Step s (copy_done (record s { dest = write_at off part s.dest }))
  fails_read : {s : Copy} {n off : ℕ} → s.phase ≡ reading n off → Step s (read_failed s)
  fails_write :
      {s : Copy} {d : Bytes} {off : ℕ} (part rest : Bytes)
      → s.phase ≡ writing d off
      → d ≡ part ++ rest
      → Step s (write_failed (record s { dest = write_at off part s.dest }))

pub data Reach (s : Copy) : Copy → Type 0 where
  starts : Reach s s
  goes_on : {t u : Copy} → Reach s t → Step t u → Reach s u
