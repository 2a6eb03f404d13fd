-- ===== src/Http/Package.antt =====
-- webserver/svr_http.h: the packages, on a heap, and the state of one connection.
--
-- Buffers are their contents; who frees them is left out, but for the `cached` flags that the handlers
-- set. The debug blocks, which need DBGL above 0, and the fields that only they read are left out.
use libeventdisp.Base.{
  ℕ, ◌+◌, Bool, false, Option, none, some, List, [], ◌∷◌, ◌++◌, ◌==◌, if◌then◌else◌, Outcome, ok,
  crash,
}
use libeventdisp.TcpServer.{ConnSt, cs_closed}
use libeventdisp.Http.Text.{Bytes}

abbrev pub Ptr : Type 0
Ptr = ℕ

abbrev pub null : Ptr
null = 0

pub data HttpSn : Type 0 where
  n_200 : HttpSn
  n_404 : HttpSn
  n_400 : HttpSn
  n_uno : HttpSn

pub data HttpSt : Type 0 where
  hs_reading : HttpSt
  hs_parsing : HttpSt
  hs_fetching : HttpSt
  hs_writing : HttpSt
  hs_unknown : HttpSt

pub data HttpWst : Type 0 where
  ws_head : HttpWst
  ws_body : HttpWst
  ws_uno : HttpWst

-- `HPKG`; a missing text or descriptor is a null pointer or -1.
pub record Hpkg : Type 0 where
  pub hsn : HttpSn
  pub hst : HttpSt
  pub wst : HttpWst
  pub vern : ℕ
  pub ver : Option Bytes
  pub met : Option Bytes
  pub uri : Option Bytes
  pub chead : Option Bytes
  pub chead_cached : Bool
  pub headkey : Option Bytes
  pub cbody_cached : Bool
  pub bodykey : Option Bytes
  pub hfd : Option ℕ
  pub tr_offset : ℕ
  pub tr_nbytes : ℕ
  pub ppg : Ptr
  pub lcg : Ptr
  pub nsg : Ptr

-- The constructor; it leaves `hsn` and `wst` as the memory has them, for which the last value of each
-- stands here: they are written before they are read.
abbrev pub new_hpkg : Hpkg
new_hpkg = record {
  hsn = n_uno;
  hst = hs_unknown;
  wst = ws_uno;
  vern = 1;
  ver = none;
  met = none;
  uri = none;
  chead = none;
  chead_cached = false;
  headkey = none;
  cbody_cached = false;
  bodykey = none;
  hfd = none;
  tr_offset = 0;
  tr_nbytes = 0;
  ppg = null;
  lcg = null;
  nsg = null;
}

-- What will call a handler of the connection: a task of the dispatcher; a transfer, which calls one
-- handler when it ends well and `svr_http_final_aio` when it fails; or the cache, which holds a
-- callback until the package that reserved the slot puts or cancels. A write has its bytes, a read of
-- the file its offset, and a callback in the cache the key that it waits for.
pub data Pending : Type 0 where
  task_read : Ptr → Pending
  task_fetch : Ptr → Pending
  reading : Ptr → Pending
  writing_head : Ptr → Bytes → Pending
  writing : Ptr → Bytes → Pending
  fetching : Ptr → ℕ → Pending
  waiting_head : Ptr → Bytes → Pending
  waiting_body : Ptr → Bytes → Pending

abbrev pub Heap : Type 0
Heap = Ptr → Option Hpkg

-- The connection's `cst`, its packages, the next address that `new` gives, what is pending, and the
-- histories: packages made by the parser and deleted, in order, calls of `svr_conn_close`, references
-- that the cache has counted for the connection, those given back by `doneWith`, and those counted for a
-- callback that got no data.
pub record Session : Type 0 where
  pub cst : ConnSt
  pub pkgs : Heap
  pub fresh : Ptr
  pub pending : List Pending
  pub created : List Ptr
  pub finished : List Ptr
  pub closes : ℕ
  pub heads_taken : ℕ
  pub heads_done : ℕ
  pub bodies_taken : ℕ
  pub bodies_done : ℕ
  pub bodies_lost : ℕ

unfoldable pub write : Heap → Ptr → Option Hpkg → Heap
write h p c q = if q == p then c else h q

-- A read through a null or dangling pointer is a crash.
abbrev pub found : Option Hpkg → Outcome Hpkg
found none = crash
found (some k) = ok k

unfoldable pub load : Ptr → Session → Outcome Hpkg
load p s = if p == null then crash else found (s.pkgs p)

abbrev pub save : Ptr → Hpkg → Session → Session
save p k s = record s { pkgs = write s.pkgs p (some k) }

abbrev pub free : Ptr → Session → Session
free p s = record s { pkgs = write s.pkgs p none }

abbrev pub add : Pending → Session → Session
add x s = record s { pending = s.pending ++ x ∷ [] }

-- `svr_conn_close` deletes the connection.
abbrev pub close : Session → Session
close s = record s { cst = cs_closed; closes = s.closes + 1 }
