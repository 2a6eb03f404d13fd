-- ===== src/Http/Stream.antt =====
-- webserver/svr_http.cc: the bytes of a file on the socket. After the header, `svr_http_body` asks the
-- cache for the part of the file at `tr_offset`, reads it where the cache has none, writes it, and goes
-- on behind the bytes that were written, which may be fewer than it asked to write.
pub mod Carry
pub mod Runs
pub mod Whole
pub mod Ends
pub mod Puts
mod Tests
use libeventdisp.Base.{ℕ, ◌<◌, ◌≡◌, true, false, some, List, [], ◌∷◌, ◌++◌, length, ok}
use libeventdisp.TcpServer.{cs_connected}
use libeventdisp.Http.Text.{Bytes, drop}
use libeventdisp.Http.Package.{
  Ptr, null, Pending, ws_body, Hpkg, task_read, task_fetch, reading, writing_head, waiting_head,
  writing, fetching, waiting_body, Session,
}
use libeventdisp.Http.Final.{is_some}
use libeventdisp.Http.Serve.{hit, Env, body_key}
use libeventdisp.Http.Serial.Body.{IsGood}
use libeventdisp.Http.Serial.Head.{is_hollow}
use libeventdisp.Http.Serial.Always.{take_pending}
use libeventdisp.Http.Steps.{done, resume}

-- A file, under its URI, and the decimal texts that `snprintf` makes.
pub record Doc : Type 0 where
  pub uri : Bytes
  pub file : Bytes
  pub decimal : ℕ → Bytes

-- What a read may give where `left` is left of the file: some of its first bytes, and none at the end
-- only.
abbrev pub IsPart : Bytes → Bytes → Type 0
IsPart left [] = left ≡ []
IsPart left (b ∷ d) = (r : Bytes) × (left ≡ (b ∷ d) ++ r)

-- The data of the cache under a key that the document has for an offset are a part of the file there.
abbrev pub Holds : Doc → Bytes → Bytes → Type 0
Holds doc key d = (o : ℕ) → key ≡ body_key doc.decimal doc.uri o → IsPart (drop o doc.file) d

-- The outside during a handler: the calls that the code asserts succeed, no reservation is cancelled,
-- and what the cache has for the document is the document's.
pub record Truthful (doc : Doc) (e : Env) : Type 0 where
  pub good : IsGood e
  pub decimal : e.decimal ≡ doc.decimal
  pub whole : (key : Bytes) → is_hollow (e.answer key) ≡ false
  pub hits : (key d : Bytes) → e.answer key ≡ hit d → Holds doc key d

-- The calls of a package that sends the document, with the bytes that they put on the socket: a write
-- ends with at least one byte of those that it was given, a read with a part of the file at its offset,
-- and a callback in the cache with data for its key.
pub data Sends (doc : Doc) (c : Ptr) : Session → Bytes → Session → Type 0 where
  sent : {s : Session} → Sends doc c s [] s
  writes :
      {s t u : Session} {more : Bytes} (e : Env) (part rest : Bytes)
      → Truthful doc e
      → s.pending ≡ writing c (part ++ rest) ∷ []
      → 0 < length part
      → resume (writing c (part ++ rest)) (done part) e (take_pending s) ≡ ok t
      → Sends doc c t more u
      → Sends doc c s (part ++ more) u
  reads :
      {s t u : Session} {more : Bytes} (e : Env) (off : ℕ) (d : Bytes)
      → Truthful doc e
      → s.pending ≡ fetching c off ∷ []
      → IsPart (drop off doc.file) d
      → resume (fetching c off) (done d) e (take_pending s) ≡ ok t
      → Sends doc c t more u
      → Sends doc c s more u
  waits :
      {s t u : Session} {more : Bytes} (e : Env) (key d : Bytes)
      → Truthful doc e
      → s.pending ≡ waiting_body c key ∷ []
      → Holds doc key d
      → resume (waiting_body c key) (done d) e (take_pending s) ≡ ok t
      → Sends doc c t more u
      → Sends doc c s more u

-- What is pending for a package that has sent `n` bytes of the document.
abbrev pub BodyStage : Doc → ℕ → Hpkg → Pending → Type 0
BodyStage doc n k (writing p d) = (k.wst ≡ ws_body) × IsPart (drop n doc.file) d
BodyStage doc n k (fetching p off) = (off ≡ n) × (k.bodykey ≡ some (body_key doc.decimal doc.uri n))
BodyStage doc n k (waiting_body p key) = key ≡ body_key doc.decimal doc.uri n
BodyStage doc n k (task_read p) = false ≡ true
BodyStage doc n k (task_fetch p) = false ≡ true
BodyStage doc n k (reading p) = false ≡ true
BodyStage doc n k (writing_head p t) = false ≡ true
BodyStage doc n k (waiting_head p key) = false ≡ true

pub record Carries (doc : Doc) (c : Ptr) (n : ℕ) (s : Session) : Type 0 where
  pub k : Hpkg
  pub x : Pending
  pub pending : s.pending ≡ x ∷ []
  pub stage : BodyStage doc n k x
  pub at : s.pkgs c ≡ some k
  pub key : is_some k.bodykey ≡ true
  pub uri : k.uri ≡ some doc.uri
  pub offset : k.tr_offset ≡ n
  pub is_open : s.cst ≡ cs_connected
