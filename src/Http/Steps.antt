-- ===== src/Http/Steps.antt =====
-- webserver/svr_http.cc: the steps of a connection: one pending call is made, with any result.
use libeventdisp.Base.{length, Outcome, crash}
use libeventdisp.Http.Package.{
  Pending, task_read, task_fetch, reading, writing_head, writing, fetching, waiting_head,
  waiting_body, Session,
}
use libeventdisp.Http.Text.{Bytes}
use libeventdisp.Http.Final.{queued, running, final_aio, body_cancelled}
use libeventdisp.Http.Parse.{read, parse_aio}
use libeventdisp.Http.Serve.{
  Env, fetch, header_wio, header_to_body_aio, body_rio, body_wio, body_pio,
}

-- How a pending call comes back: a transfer with its bytes, or failed; the cache with data, or with
-- none after a cancelled reservation. A task of the dispatcher just runs.
pub data Result : Type 0 where
  done : Bytes → Result
  failed : Result

-- Which handler is called.
abbrev pub resume : Pending → Result → Env → Session → Outcome Session
resume (task_read p) r e s = read p s
resume (task_fetch p) r e s = fetch e p s
resume (reading p) (done t) e s = parse_aio p t s
resume (reading p) failed e s = final_aio queued p s
resume (writing_head p d) (done t) e s = header_to_body_aio e p s
resume (writing_head p d) failed e s = final_aio queued p s
resume (writing p d) (done t) e s = body_rio e p (length t) s
resume (writing p d) failed e s = final_aio queued p s
resume (fetching p off) (done t) e s = body_pio e p t s
resume (fetching p off) failed e s = final_aio queued p s
resume (waiting_head p key) (done t) e s = header_wio p t s
resume (waiting_head p key) failed e s = crash
resume (waiting_body p key) (done t) e s = body_wio running p t s
resume (waiting_body p key) failed e s = body_cancelled p s
