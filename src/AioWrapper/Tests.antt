-- ===== src/AioWrapper/Tests.antt =====
-- lib/aio_wrapper.cc: runs of the model, with the number 115 for EINPROGRESS.
use libeventdisp.Base.{◌≤◌, ◌≡◌, false, some, [], ◌∷◌, ◌++◌, replicate, ok, arith}
use libeventdisp.AioWrapper.Defs.{
  IoCallback, Aiocb, enqueued_poll, aio_done, aio_skeleton_function, aio_skeleton_signal,
}
use libeventdisp.AioWrapper.Jobs.{
  run_polls, reports, releases, polls_lem, done_once, notice, refused_lem,
}

abbrev transfer : Aiocb
transfer = record { buf = 500; fildes = 3; nbytes = 64; offset = 0 }

abbrev callback : IoCallback
callback = record { id = 9; ok_cb = some 1; err_cb = some 2 }

polls_lem_example :
    run_polls 115 (replicate 2 115 ++ 0 ∷ []) 64 transfer (some callback)
    ≡ ok (replicate 2 (enqueued_poll 9) ++ aio_done 0 64 transfer (some callback) ++ [])
polls_lem_example = polls_lem 115 2 0 64 transfer callback [] (omega arith)

done_once_example :
    (reports (aio_done 5 0 transfer (some callback)) ≤ 1)
    × (releases (aio_done 5 0 transfer (some callback)) ≡ 1)
done_once_example = done_once 5 0 transfer (some callback)

refused_lem_example :
    (aio_skeleton_function 115 false 11 0 0 transfer (some callback)
      ≡ ok (notice 11 transfer (some callback) ++ aio_skeleton_signal false (some callback)))
    × (reports (aio_skeleton_signal false (some callback)) ≡ 0)
    × (releases (aio_skeleton_signal false (some callback)) ≡ 1)
refused_lem_example = refused_lem 115 11 0 0 transfer (some callback)
