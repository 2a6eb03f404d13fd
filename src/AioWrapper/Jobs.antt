-- ===== src/AioWrapper/Jobs.antt =====
-- lib/aio_wrapper.cc: what becomes of a transfer, from its start to the deletion of its callback.
use libeventdisp.Base.{
  ℕ, zero, suc, ◌+◌, ◌≤◌, ◌≡◌, refl, ◌≢◌, false, Option, none, some, List, [], ◌∷◌, ◌++◌, ◌==◌,
  if◌then◌else◌, replicate, Outcome, ok, ◌>>=◌, Option-cases, ◌⊎◌, inl, inr, arith,
}
use libeventdisp.AioWrapper.Defs.{
  report_err, IoCallback, Aiocb, Event, enqueued_ok, enqueued_err, enqueued_poll, deleted_function,
  deleted_callback, deleted_aiocb, delete_callback, delete_function, delete_info, aio_done,
  check_io_progress, aio_skeleton_function, aio_skeleton_signal,
}

-- The polls of one transfer as the dispatcher runs them, one after the other; each status is what
-- `aio_error` answers to one poll.
unfoldable pub run_polls : ℕ → List ℕ → ℕ → Aiocb → Option IoCallback → Outcome (List Event)
run_polls einprogress [] result a callback = ok []
run_polls einprogress (status ∷ later) result a callback =
    let rest = run_polls einprogress later result a callback in
    (do
      events ← check_io_progress einprogress status result a callback
      more ← (if status == einprogress then rest else ok [])
      ok (events ++ more))

-- How often a callback's functions are enqueued.
unfoldable pub reports : List Event → ℕ
reports [] = 0
reports (enqueued_ok i f d b r ∷ l) = 1 + reports l
reports (enqueued_err i f d s ∷ l) = 1 + reports l
reports (enqueued_poll i ∷ l) = reports l
reports (deleted_function f ∷ l) = reports l
reports (deleted_callback ∷ l) = reports l
reports (deleted_aiocb ∷ l) = reports l

-- How often the `aiocb` is deleted.
unfoldable pub releases : List Event → ℕ
releases [] = 0
releases (enqueued_ok i f d b r ∷ l) = releases l
releases (enqueued_err i f d s ∷ l) = releases l
releases (enqueued_poll i ∷ l) = releases l
releases (deleted_function f ∷ l) = releases l
releases (deleted_callback ∷ l) = releases l
releases (deleted_aiocb ∷ l) = 1 + releases l

-- Once a transfer is no longer in progress, a poll does what the signal's handler does, in the same
-- order: the two builds report and release alike.
pub poll-done :
    (einprogress status result : ℕ) (a : Aiocb) (callback : Option IoCallback)
    → status ≢ einprogress
    → check_io_progress einprogress status result a callback
      ≡ ok (aio_done status result a callback)
unfolding check_io_progress aio_done delete_info
poll-done e status result a none over = ground arith
poll-done e status result a (some c) over = ground arith

poll_step :
    (einprogress status result : ℕ) (a : Aiocb) (c : IoCallback) (later : List ℕ)
    {events : List Event}
    → run_polls einprogress later result a (some c) ≡ ok events
    → run_polls einprogress (einprogress ∷ later) result a (some c)
      ≡ ok (enqueued_poll c.id ∷ events)
unfolding run_polls check_io_progress
poll_step e status result a c later p = ground arith

-- A transfer with a callback that `n` polls find in progress and the next finds ended: there are `n`
-- further polls, each under the group of the callback, and then the report and the deletions of the
-- signal's handler, and nothing more.
pub polls_lem :
    (einprogress n status result : ℕ) (a : Aiocb) (c : IoCallback) (later : List ℕ)
    → status ≢ einprogress
    → run_polls einprogress (replicate n einprogress ++ status ∷ later) result a (some c)
      ≡ ok (replicate n (enqueued_poll c.id) ++ aio_done status result a (some c) ++ [])
unfolding run_polls
polls_lem e zero status result a c later over =
    let p = poll-done e status result a (some c) over in ground arith
polls_lem e (suc n) status result a c later over =
    let p = polls_lem e n status result a c later over in
    poll_step e status result a c (replicate n e ++ status ∷ later) p

-- Whatever the status and the callback, the handler reports at most once, and deletes the `aiocb`
-- exactly once.
pub done_once :
    (status result : ℕ) (a : Aiocb) (callback : Option IoCallback)
    → (reports (aio_done status result a callback) ≤ 1)
      × (releases (aio_done status result a callback) ≡ 1)
unfolding aio_done delete_info delete_callback reports releases
done_once status result a none = (omega arith, refl)
done_once status result a (some c) =
    let o : (c.ok_cb ≡ none) ⊎ ((f : ℕ) × (c.ok_cb ≡ some f)) = Option-cases c.ok_cb in
    let e : (c.err_cb ≡ none) ⊎ ((f : ℕ) × (c.err_cb ≡ some f)) = Option-cases c.err_cb in
    elim o [
      | inl no_ok ↦ elim e [ inl no_err ↦ ground arith | inr (f, err) ↦ ground arith ]
      | inr (g, found) ↦ elim e [ inl no_err ↦ ground arith | inr (f, err) ↦ ground arith ]
    ]

-- The report of an error, where there is a callback that has a function for it.
abbrev pub notice : ℕ → Aiocb → Option IoCallback → List Event
notice errno a none = []
notice errno a (some c) = report_err c.err_cb c.id errno a

signal-refuses :
    (c : IoCallback)
    → (reports (aio_skeleton_signal false (some c)) ≡ 0)
      × (releases (aio_skeleton_signal false (some c)) ≡ 1)
unfolding aio_skeleton_signal delete_info reports releases delete_callback
signal-refuses c =
    let e : (c.err_cb ≡ none) ⊎ ((f : ℕ) × (c.err_cb ≡ some f)) = Option-cases c.err_cb in
    elim (Option-cases c.ok_cb) [
      | inl no_ok ↦ elim e [ inl no_err ↦ ground arith | inr (f, err) ↦ ground arith ]
      | inr (g, found) ↦ elim e [ inl no_err ↦ ground arith | inr (f, err) ↦ ground arith ]
    ]

-- A transfer that could not start, with any callback or none: the polled build does what the signalled
-- one does, after it has reported the error where there is a function for it; the signalled build never
-- reports it; and both delete the `aiocb` exactly once.
pub refused_lem :
    (einprogress errno status result : ℕ) (a : Aiocb) (callback : Option IoCallback)
    → (aio_skeleton_function einprogress false errno status result a callback
        ≡ ok (notice errno a callback ++ aio_skeleton_signal false callback))
      × (reports (aio_skeleton_signal false callback) ≡ 0)
      × (releases (aio_skeleton_signal false callback) ≡ 1)
unfolding aio_skeleton_function aio_skeleton_signal delete_info reports releases delete_callback
refused_lem e errno status result a none = ground arith
refused_lem e errno status result a (some c) =
    let (r, d) = signal-refuses c in
    (unfold notice delete_callback delete_function in ground arith, r, d)
