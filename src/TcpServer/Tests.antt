-- ===== src/TcpServer/Tests.antt =====
-- webserver/svr_tcp_ip.cc: a run of the model: the server listens, and accepts one connection.
use libeventdisp.Base.{
  ◌≢◌, List, true, false, ◌+◌, ◌<◌, ◌≤◌, ◌≡◌, refl, some, [], ◌∷◌, word_size, length, arith,
}
use libeventdisp.TcpServer.Defs.{
  errconn_ok, cs_closed, Server, init, new_conn, svr_conn_listen, svr_conn_accept, Reach, start,
  listens, accepts,
}
use libeventdisp.TcpServer.Main.{Arrival, svr_start, svr_start_deaf}
use libeventdisp.TcpServer.Pool.{pool_lem}

abbrev listening : Server
listening = (svr_conn_listen (some 3) true true (init cs_closed 0)).0

abbrev one_conn : Server
one_conn = new_conn 4 listening

accept-one_conn : svr_conn_accept 1024 (some 4) true true listening ≡ some (one_conn, errconn_ok)
unfolding svr_conn_accept svr_conn_listen
accept-one_conn = refl

one_conn-Reach : Reach 1024 one_conn
one_conn-Reach =
    accepts (some 4) true true (listens (some 3) true true (start cs_closed 0)) accept-one_conn

limit : 1024 + 1 < word_size
limit = omega arith

pool_lem_example : (one_conn.nc ≡ length one_conn.peers) × (one_conn.nc ≤ 1024 + 1)
pool_lem_example = pool_lem limit one_conn-Reach

-- `listen` fails, and two peers knock.
abbrev knocks : List Arrival
knocks =
    record { fd = some 4; timeout_set = true; reads = true }
    ∷ record { fd = some 5; timeout_set = true; reads = true }
    ∷ []

listen_fails : (svr_conn_listen (some 3) true false (init cs_closed 0)).1 ≢ errconn_ok
unfolding svr_conn_listen
listen_fails = ground arith

svr_start_deaf_example :
    svr_start 1024 cs_closed 0 (some 3) true false true knocks
    ≡ some (svr_conn_listen (some 3) true false (init cs_closed 0)).0
svr_start_deaf_example =
    svr_start_deaf 1024 cs_closed 0 (some 3) true false true knocks refl listen_fails
