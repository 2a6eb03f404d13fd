-- ===== src/TcpServer/Main.antt =====
-- webserver/websvrd.cc: the main program, on the operations of the connections.
use libeventdisp.Base.{
  ℕ, ◌+◌, ◌<◌, ◌≤◌, word_size, length, ◌≡◌, refl, ◌≢◌, Bool, true, false, Option, none, some, List,
  [], ◌∷◌, ltb, if◌then◌else◌, ap, ◌∙◌, arith,
}
use libeventdisp.TcpServer.Defs.{
  ErrConn, errconn_ok, errconn_cr, errconn_bi, errconn_li, errconn_ac, errconn_cl, errconn_co,
  errconn_ka, ConnSt, Server, init, svr_conn_listen, is_listening, svr_conn_accept, Reach, start,
  listens, accepts,
}
use libeventdisp.TcpServer.Pool.{pool_lem}

-- The value of the enumerator.
abbrev err_code : ErrConn → ℕ
err_code errconn_ok = 0
err_code errconn_cr = 1
err_code errconn_bi = 2
err_code errconn_li = 3
err_code errconn_ac = 4
err_code errconn_cl = 5
err_code errconn_co = 6
err_code errconn_ka = 7

-- What a turn of the accept loop meets: the results of `accept`, of `setsockopt` and of `svr_http_read`.
pub record Arrival : Type 0 where
  pub fd : Option ℕ
  pub timeout_set : Bool
  pub reads : Bool

-- One turn of the loop of `svr_start`. While the pool is full the call sleeps, and the state stays.
abbrev turn_end : Option (Server × ErrConn) → Server → Server
turn_end none s = s
turn_end (some (t, err)) s = t

unfoldable pub accept_turn : ℕ → Arrival → Server → Server
unfolding svr_conn_accept
accept_turn max_accept a s = turn_end (svr_conn_accept max_accept a.fd a.timeout_set a.reads s) s

-- The loop, which has no end, as far as the arrivals go.
unfoldable pub accept_loop : ℕ → List Arrival → Server → Server
unfolding accept_turn
accept_loop max_accept [] s = s
accept_loop max_accept (a ∷ l) s = accept_loop max_accept l (accept_turn max_accept a s)

-- `svr_stop`: `svr_conn_close` of the server, by the result of `close`. It deletes the connection and sets
-- `svrC` to null.
unfoldable pub svr_stop : Bool → Server → Option Server
svr_stop shut s = if shut then none else some s

-- `svr_start`: the state that the memory gives the new connection, and the results of the calls; what
-- `svrC` is then.
unfoldable pub svr_start :
    ℕ → ConnSt → ℕ → Option ℕ → Bool → Bool → Bool → List Arrival → Option Server
unfolding svr_conn_listen accept_loop svr_stop
svr_start max_accept cst cfd fd bound heard shut l =
    let (s, err) = svr_conn_listen fd bound heard (init cst cfd) in
    if ltb (err_code err) 0 then svr_stop shut s else some (accept_loop max_accept l s)

never_negative : (err : ErrConn) → ltb (err_code err) 0 ≡ false
never_negative err = ground arith

svr_start-loops :
    (max_accept : ℕ) (cst : ConnSt) (cfd : ℕ) (fd : Option ℕ) (bound heard shut : Bool)
    (l : List Arrival)
    → svr_start max_accept cst cfd fd bound heard shut l
      ≡ some (accept_loop max_accept l (svr_conn_listen fd bound heard (init cst cfd)).0)
unfolding svr_start
svr_start-loops max_accept cst cfd fd bound heard shut l =
    rw (never_negative (svr_conn_listen fd bound heard (init cst cfd)).1) refl

turn-Reach :
    (max_accept : ℕ) (a : Arrival) (s : Server)
    → Reach max_accept s
    → (r : Option (Server × ErrConn)) → svr_conn_accept max_accept a.fd a.timeout_set a.reads s ≡ r
    → Reach max_accept (turn_end r s)
turn-Reach max_accept a s reach none e = reach
turn-Reach max_accept a s reach (some (t, err)) e = accepts a.fd a.timeout_set a.reads reach e

accept_loop-Reach :
    (max_accept : ℕ) (l : List Arrival) (s : Server)
    → Reach max_accept s
    → Reach max_accept (accept_loop max_accept l s)
unfolding accept_loop accept_turn
accept_loop-Reach max_accept [] s reach = reach
accept_loop-Reach max_accept (a ∷ l) s reach =
    accept_loop-Reach max_accept l _ (turn-Reach max_accept a s reach _ refl)

-- The main program never has more connections than the limit and one, whatever arrives, and counts them
-- right.
pub svr_start_pool :
    (max_accept : ℕ) (cst : ConnSt) (cfd : ℕ) (fd : Option ℕ) (bound heard shut : Bool)
    (l : List Arrival)
    → max_accept + 1 < word_size
    → (s : Server) × (svr_start max_accept cst cfd fd bound heard shut l ≡ some s)
      × (s.nc ≡ length s.peers)
      × (s.nc ≤ max_accept + 1)
svr_start_pool max_accept cst cfd fd bound heard shut l small =
    let (count, within) =
      pool_lem small (accept_loop-Reach max_accept l _ (listens fd bound heard (start cst cfd))) in
    (
      accept_loop max_accept l (svr_conn_listen fd bound heard (init cst cfd)).0,
      svr_start-loops max_accept cst cfd fd bound heard shut l,
      count,
      within,
    )

deaf_turn :
    (max_accept : ℕ) (a : Arrival) (s : Server)
    → is_listening s.cst ≡ false
    → accept_turn max_accept a s ≡ s
unfolding accept_turn svr_conn_accept
deaf_turn max_accept a s deaf = rw deaf refl

deaf_loop :
    (max_accept : ℕ) (l : List Arrival) (s : Server)
    → is_listening s.cst ≡ false
    → accept_loop max_accept l s ≡ s
unfolding accept_loop
deaf_loop max_accept [] s deaf = refl
deaf_loop max_accept (a ∷ l) s deaf =
    ap (accept_loop max_accept l) (deaf_turn max_accept a s deaf) ∙ deaf_loop max_accept l s deaf

failed_listen :
    (cst : ConnSt) (cfd : ℕ) (fd : Option ℕ) (bound heard : Bool)
    → (svr_conn_listen fd bound heard (init cst cfd)).1 ≢ errconn_ok
    → (svr_conn_listen fd bound heard (init cst cfd)).0.cst ≡ cst
unfolding svr_conn_listen
failed_listen cst cfd none bound heard bad = refl
failed_listen cst cfd (some fd) false heard bad = refl
failed_listen cst cfd (some fd) true false bad = refl
failed_listen cst cfd (some fd) true true bad = absurd (bad refl)

-- When the server cannot listen, and the memory of its connection does not happen to say that it does,
-- the main program does not stop: whatever arrives, it goes on in the loop and accepts nothing.
pub svr_start_deaf :
    (max_accept : ℕ) (cst : ConnSt) (cfd : ℕ) (fd : Option ℕ) (bound heard shut : Bool)
    (l : List Arrival)
    → is_listening cst ≡ false
    → (svr_conn_listen fd bound heard (init cst cfd)).1 ≢ errconn_ok
    → svr_start max_accept cst cfd fd bound heard shut l
      ≡ some (svr_conn_listen fd bound heard (init cst cfd)).0
svr_start_deaf max_accept cst cfd fd bound heard shut l silent bad =
    svr_start-loops max_accept cst cfd fd bound heard shut l
    ∙ ap some (
        deaf_loop max_accept l _
          (ap is_listening (failed_listen cst cfd fd bound heard bad) ∙ silent))
