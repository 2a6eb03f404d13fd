-- ===== src/Http/Tests.antt =====
-- webserver/svr_http.cc: runs of the model.
use libeventdisp.Base.{
  ◌+◌, ◌≡◌, refl, true, false, some, List, [], ◌∷◌, ◌++◌, Outcome, ok, crash, arith,
}
use libeventdisp.Http.Text.{Bytes, codes, crlf, sline_400, starts_with, find_crlf, find_char, c_str}
use libeventdisp.Http.Package.{
  Pending, task_fetch, reading, writing_head, writing, fetching, Session, write, load,
}
use libeventdisp.Http.Parse.{read, link, parse_get, parse_loop, parse, parse_aio}
use libeventdisp.Http.Serve.{
  miss, Env, write_400, header_wio, header_200, put_head, header_rio, head_key, body_key, header,
  fetch, body_wio, body, header_to_body_aio, body_pio,
}
use libeventdisp.Http.Steps.{Result, done, failed, resume}
use libeventdisp.Http.Lines.{Line, get, other}
use libeventdisp.Http.Serial.Body.{IsGood}
use libeventdisp.Http.Serial.Always.{returns, take_pending}
use libeventdisp.Http.Serial.Reach.{
  new_conn, Runs, stays, calls, Reached, Served, Reached-resume, Reached-Served, bad_request-crash,
}

-- Two requests in one read, and the head of a third line.
abbrev lines : List Line
lines =
    get (codes "a") (codes "HTTP/1.1")
    ∷ other (codes "Host: h")
    ∷ get (codes "b") (codes "HTTP/1.0")
    ∷ []

abbrev request : Bytes
request = codes "GET /a HTTP/1.1" ++ (crlf ++ crlf)

-- Every key is missing from the cache, and the file can be opened.
abbrev pub env : Env
env = record {
  answer = λ key. miss true true;
  opened = some 5;
  size = 3;
  is_put = true;
  date = codes "d";
  last_modified = codes "m";
  decimal = λ n. (n + 48) ∷ [];
}

pub env-IsGood : IsGood env
env-IsGood = record { puts = refl; answers = λ key. refl }

abbrev session_of : Outcome Session → Session
session_of (ok s) = s
session_of crash = new_conn 0

abbrev pub move : Pending → Result → Session → Session
move x r s = session_of (resume x r env (take_pending s))

-- The request is read and parsed, its header is sent, and a part of its body is read and is being sent.
abbrev pub opened_at : Session
opened_at = session_of (read 1 (new_conn 1))

abbrev pub parsed : Session
parsed = move (reading 1) (done request) opened_at

abbrev pub fetched : Session
fetched = move (task_fetch 2) (done []) parsed

abbrev pub head_sent : Session
head_sent = move (writing_head 2 (header_200 env 1)) (done (header_200 env 1)) fetched

abbrev body_read : Session
body_read = move (fetching 2 0) (done (7 ∷ 8 ∷ [])) head_sent

pub opened_returns : read 1 (new_conn 1) ≡ ok opened_at
unfolding read load write
opened_returns = refl

pub parsed-Runs : (s : Session) → Runs parsed s → Runs opened_at s
unfolding read load write parse_aio parse parse_loop parse_get link starts_with find_crlf find_char
parsed-Runs s more = calls (reading 1) (done request) env env-IsGood refl refl refl more

pub fetched-Runs : (s : Session) → Runs fetched s → Runs parsed s
unfolding read load write parse_aio parse parse_loop parse_get link starts_with find_crlf find_char
    fetch header header_rio put_head header_200 header_wio c_str head_key
fetched-Runs s more = calls (task_fetch 2) (done []) env env-IsGood refl refl refl more

pub head_sent-Runs : (s : Session) → Runs head_sent s → Runs fetched s
unfolding read load write parse_aio parse parse_loop parse_get link starts_with find_crlf find_char
    fetch header header_rio put_head header_200 header_wio c_str head_key header_to_body_aio body
    body_key
head_sent-Runs s more =
    calls (writing_head 2 (header_200 env 1)) (done (header_200 env 1)) env env-IsGood refl refl
      refl more

body_read-Runs : Runs head_sent body_read
unfolding read load write parse_aio parse parse_loop parse_get link starts_with find_crlf find_char
    fetch header header_rio put_head header_200 header_wio c_str head_key header_to_body_aio body
    body_key body_pio body_wio
body_read-Runs = calls (fetching 2 0) (done (7 ∷ 8 ∷ [])) env env-IsGood refl refl refl stays

body_read-Reached : Reached 1 body_read
body_read-Reached = (
  opened_at,
  opened_returns,
  parsed-Runs body_read (fetched-Runs body_read (head_sent-Runs body_read body_read-Runs)),
)

body_read_idle : body_read.pending ≡ writing 2 (7 ∷ 8 ∷ []) ∷ []
unfolding read load write parse_aio parse parse_loop parse_get link starts_with find_crlf find_char
    fetch header header_rio put_head header_200 header_wio c_str head_key header_to_body_aio body
    body_key body_pio body_wio
body_read_idle = refl

body_read_returns : returns (writing 2 (7 ∷ 8 ∷ [])) failed env body_read.pkgs ≡ true
unfolding read load write parse_aio parse parse_loop parse_get link starts_with find_crlf find_char
    fetch header header_rio put_head header_200 header_wio c_str head_key header_to_body_aio body
    body_key body_pio body_wio
body_read_returns = refl

Reached-resume_example :
    (t : Session) × (resume (writing 2 (7 ∷ 8 ∷ [])) failed env (take_pending body_read) ≡ ok t)
    × Reached 1 t
Reached-resume_example =
    Reached-resume 1 (writing 2 (7 ∷ 8 ∷ [])) failed env (omega arith) body_read-Reached env-IsGood
      body_read_idle body_read_returns

Reached-Served_example : Served body_read
Reached-Served_example = Reached-Served 1 (omega arith) body_read-Reached

-- A request line with no version.
abbrev bad_parsed : Session
bad_parsed = move (reading 1) (done (codes "GET /a" ++ (crlf ++ crlf))) opened_at

abbrev bad_answered : Session
bad_answered = move (task_fetch 2) (done []) bad_parsed

abbrev bad_answer : Bytes
bad_answer = sline_400 1 ++ (crlf ++ crlf)

bad_answered-Runs : Runs opened_at bad_answered
unfolding read load write parse_aio parse parse_loop parse_get link starts_with find_crlf find_char
    fetch write_400
bad_answered-Runs =
    calls (reading 1) (done (codes "GET /a" ++ (crlf ++ crlf))) env env-IsGood refl refl refl
      (calls (task_fetch 2) (done []) env env-IsGood refl refl refl stays)

bad_answered_idle : bad_answered.pending ≡ writing 2 bad_answer ∷ []
unfolding read load write parse_aio parse parse_loop parse_get link starts_with find_crlf find_char
    fetch write_400
bad_answered_idle = refl

bad_answered_returns : returns (writing 2 bad_answer) failed env bad_answered.pkgs ≡ false
unfolding read load write parse_aio parse parse_loop parse_get link starts_with find_crlf find_char
    fetch write_400
bad_answered_returns = refl

bad_request-crash_example :
    resume (writing 2 bad_answer) failed env (take_pending bad_answered) ≡ crash
bad_request-crash_example =
    bad_request-crash 1 2 bad_answer env (omega arith)
      (opened_at, opened_returns, bad_answered-Runs) bad_answered_idle bad_answered_returns
