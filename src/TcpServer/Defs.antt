-- ===== src/TcpServer/Defs.antt =====
-- webserver/svr_tcp_ip.h and webserver/svr_tcp_ip.cc: the listening connection, the connections that it
-- has accepted, and the four operations.
--
-- The results of the socket calls and of `svr_http_read` are parameters. Addresses and the debug fields
-- are left out.
use libeventdisp.Base.{
  ℕ, zero, suc, ◌≡◌, Bool, true, false, not, Option, none, some, List, [], ◌∷◌, ◌++◌, ltb,
  if◌then◌else◌, incr, decr, get_elem?,
}

pub data ErrConn : Type 0 where
  errconn_ok : ErrConn
  errconn_cr : ErrConn
  errconn_bi : ErrConn
  errconn_li : ErrConn
  errconn_ac : ErrConn
  errconn_cl : ErrConn
  errconn_co : ErrConn
  errconn_ka : ErrConn

pub data ConnSt : Type 0 where
  cs_listening : ConnSt
  cs_connecting : ConnSt
  cs_connected : ConnSt
  cs_closing_r : ConnSt
  cs_closing_w : ConnSt
  cs_closing : ConnSt
  cs_closed : ConnSt

-- A `Conn` that `svr_conn_accept` made: its parent is the server.
pub record Conn : Type 0 where
  pub cst : ConnSt
  pub cfd : ℕ

-- The server's `Conn`, the connections that have it as their parent and are not deleted, and a
-- history: the descriptors closed.
pub record Server : Type 0 where
  pub cst : ConnSt
  pub cfd : ℕ
  pub nc : ℕ
  pub peers : List Conn
  pub closed : List ℕ

-- `Conn::Conn` without a parent: it leaves `cst` and `cfd` as the memory has them.
abbrev pub init : ConnSt → ℕ → Server
init cst cfd = record { cst = cst; cfd = cfd; nc = 0; peers = []; closed = [] }

-- `Conn::Conn` with the server as the parent, and the two assignments after it.
abbrev pub new_conn : ℕ → Server → Server
new_conn fd s = record s {
  nc = incr s.nc;
  peers = s.peers ++ record { cst = cs_connected; cfd = fd } ∷ [];
}

-- `svr_conn_listen`: the results of `socket`, `bind` and `listen`.
unfoldable pub svr_conn_listen : Option ℕ → Bool → Bool → Server → Server × ErrConn
svr_conn_listen none bound heard s = (s, errconn_cr)
svr_conn_listen (some fd) bound heard s =
    if not bound
    then (record s { closed = s.closed ++ fd ∷ [] }, errconn_bi)
    else if not heard
    then (s, errconn_li)
    else (record s { cst = cs_listening; cfd = fd }, errconn_ok)

abbrev pub is_listening : ConnSt → Bool
is_listening cs_listening = true
is_listening cs_connecting = false
is_listening cs_connected = false
is_listening cs_closing_r = false
is_listening cs_closing_w = false
is_listening cs_closing = false
is_listening cs_closed = false

-- `svr_conn_accept` from the call of `accept` on: its result, that of `setsockopt`, and whether
-- `svr_http_read` gave something else than EHTTP_READ.
abbrev pub accepted : Option ℕ → Bool → Bool → Server → Server × ErrConn
accepted none timeout_set reads s = (s, errconn_ac)
accepted (some fd) timeout_set reads s =
    if not timeout_set
    then (s, errconn_ac)
    else (new_conn fd s, if reads then errconn_ok else errconn_ac)

-- `svr_conn_accept`; `none` while the loop sleeps because the pool is full.
unfoldable pub svr_conn_accept : ℕ → Option ℕ → Bool → Bool → Server → Option (Server × ErrConn)
svr_conn_accept max_accept fd timeout_set reads s =
    if not (is_listening s.cst)
    then some (s, errconn_ac)
    else if ltb max_accept s.nc
    then none
    else some (accepted fd timeout_set reads s)

-- `svr_conn_connect`; `none` is a null pointer.
unfoldable pub svr_conn_connect : Bool → Option Conn → Option Conn × ErrConn
svr_conn_connect connects none = (none, errconn_co)
svr_conn_connect connects (some p) =
    if not connects
    then (some (record p { cst = cs_connecting }), errconn_co)
    else (some (record p { cst = cs_connected }), errconn_ok)

abbrev pub remove_at : ℕ → List Conn → List Conn
remove_at i [] = []
remove_at zero (p ∷ l) = l
remove_at (suc i) (p ∷ l) = p ∷ remove_at i l

-- `svr_conn_close` of the accepted connection `p`, which is number `i`: `delete` runs `Conn::~Conn`.
unfoldable pub svr_conn_close : Bool → ℕ → Conn → Server → Server × ErrConn
svr_conn_close shut i p s = if not shut then (s, errconn_cl) else (
  record s { nc = decr s.nc; peers = remove_at i s.peers; closed = s.closed ++ p.cfd ∷ [] },
  errconn_ok,
)

-- A server that starts with any memory, and then calls in any order.
pub data Reach (max_accept : ℕ) : Server → Type 0 where
  start : (cst : ConnSt) (cfd : ℕ) → Reach max_accept (init cst cfd)
  listens :
      {s : Server} (fd : Option ℕ) (bound heard : Bool)
      → Reach max_accept s
      → Reach max_accept (svr_conn_listen fd bound heard s).0
  accepts :
      {s t : Server} {err : ErrConn} (fd : Option ℕ) (timeout_set reads : Bool)
      → Reach max_accept s
      → svr_conn_accept max_accept fd timeout_set reads s ≡ some (t, err)
      → Reach max_accept t
  closes :
      {s : Server} (shut : Bool) (i : ℕ) (p : Conn)
      → Reach max_accept s
      → get_elem? s.peers i ≡ some p
      → Reach max_accept (svr_conn_close shut i p s).0
