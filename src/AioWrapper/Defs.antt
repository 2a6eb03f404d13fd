-- ===== src/AioWrapper/Defs.antt =====
-- lib/aio_wrapper.cc: the functions, as the lists of what they do.
--
-- The results of `aio_error`, `aio_return` and of the call that starts the transfer, and the value of
-- EINPROGRESS, are parameters. Functions and buffers are named by numbers.
use libeventdisp.Base.{
  ℕ, Bool, Option, none, some, List, [], ◌∷◌, ◌++◌, ◌==◌, if◌then◌else◌, Outcome, ok, crash,
}

-- `IOCallback`; a missing function is a null pointer.
pub record IoCallback : Type 0 where
  pub id : ℕ
  pub ok_cb : Option ℕ
  pub err_cb : Option ℕ

-- The constructor that takes no id.
abbrev pub default_callback : Option ℕ → Option ℕ → IoCallback
default_callback ok_cb err_cb = record { id = 0; ok_cb = ok_cb; err_cb = err_cb }

-- The fields of an `aiocb` that the program sets.
pub record Aiocb : Type 0 where
  pub buf : ℕ
  pub fildes : ℕ
  pub nbytes : ℕ
  pub offset : ℕ

-- What the functions do: they enqueue, under a group, a call of a function of the callback or a poll;
-- and they delete a function, the callback, and the `aiocb`.
pub data Event : Type 0 where
  enqueued_ok : ℕ → ℕ → ℕ → ℕ → ℕ → Event
  enqueued_err : ℕ → ℕ → ℕ → ℕ → Event
  enqueued_poll : ℕ → Event
  deleted_function : ℕ → Event
  deleted_callback : Event
  deleted_aiocb : Event

abbrev pub delete_function : Option ℕ → List Event
delete_function none = []
delete_function (some f) = deleted_function f ∷ []

-- `delete callback`, which runs `IOCallback::~IOCallback`.
unfoldable pub delete_callback : IoCallback → List Event
delete_callback c = delete_function c.ok_cb ++ delete_function c.err_cb ++ deleted_callback ∷ []

-- `if (callback->okCB != NULL)` and its block, which calls `aio_return`, and the same for `errCB`.
abbrev pub report_ok : Option ℕ → ℕ → ℕ → Aiocb → List Event
report_ok none id result a = []
report_ok (some f) id result a = enqueued_ok id f a.fildes a.buf result ∷ []

abbrev pub report_err : Option ℕ → ℕ → ℕ → Aiocb → List Event
report_err none id status a = []
report_err (some f) id status a = enqueued_err id f a.fildes status ∷ []

-- `AIOSigHandlerInfo::~AIOSigHandlerInfo`
unfoldable pub delete_info : Option IoCallback → List Event
unfolding delete_callback
delete_info none = deleted_aiocb ∷ []
delete_info (some c) = delete_callback c ++ deleted_aiocb ∷ []

-- The block of `aio_done` for SIGIO, which `aioDone` has too.
abbrev pub done_report : ℕ → ℕ → Aiocb → Option IoCallback → List Event
done_report status result a none = []
done_report status result a (some c) =
    if status == 0 then report_ok c.ok_cb c.id result a else report_err c.err_cb c.id status a

unfoldable pub aio_done : ℕ → ℕ → Aiocb → Option IoCallback → List Event
unfolding delete_info
aio_done status result a callback = done_report status result a callback ++ delete_info callback

-- `checkIOProgress`, whose first branch reads `callback->id`.
abbrev pub poll_again : Option IoCallback → Outcome (List Event)
poll_again none = crash
poll_again (some c) = ok (enqueued_poll c.id ∷ [])

abbrev pub finish : ℕ → ℕ → Aiocb → Option IoCallback → List Event
finish status result a none = deleted_aiocb ∷ []
finish status result a (some c) =
    (if status == 0 then report_ok c.ok_cb c.id result a else report_err c.err_cb c.id status a)
    ++ delete_callback c
    ++ deleted_aiocb ∷ []

unfoldable pub check_io_progress : ℕ → ℕ → ℕ → Aiocb → Option IoCallback → Outcome (List Event)
unfolding delete_callback
check_io_progress einprogress status result a callback =
    if status == einprogress then poll_again callback else ok (finish status result a callback)

-- `aioSkeletonFunction` without LIBEVENT_USE_SIG: `started` tells whether `aio_func` has returned a
-- number that is not negative, and then `status` and `result` are for the first poll.
abbrev pub refuse : ℕ → Aiocb → Option IoCallback → List Event
refuse errno a none = deleted_aiocb ∷ []
refuse errno a (some c) =
    report_err c.err_cb c.id errno a ++ delete_callback c ++ deleted_aiocb ∷ []

unfoldable pub aio_skeleton_function :
    ℕ → Bool → ℕ → ℕ → ℕ → Aiocb → Option IoCallback → Outcome (List Event)
unfolding check_io_progress delete_callback
aio_skeleton_function einprogress started errno status result a callback =
    if started
    then check_io_progress einprogress status result a callback
    else ok (refuse errno a callback)

-- The same with LIBEVENT_USE_SIG: the signal's handler does the rest.
unfoldable pub aio_skeleton_signal : Bool → Option IoCallback → List Event
unfolding delete_info
aio_skeleton_signal started callback = if started then [] else delete_info callback
