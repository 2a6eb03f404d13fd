-- ===== src/TcpServer/Pool.antt =====
-- webserver/svr_tcp_ip.cc: the count of connections, and the limit on it.
use libeventdisp.Base.{
  ℕ, zero, suc, ◌+◌, ◌-◌, ◌<◌, ◌≤◌, ◌≡◌, refl, Bool, true, Option, none, some, List, [], ◌∷◌, ◌++◌,
  ltb, incr, word_size, length, length-append, get_elem?, get_elem?-lt, Bool-cases, inl, inr, arith,
}
use libeventdisp.TcpServer.Defs.{
  ErrConn, errconn_ok, ConnSt, cs_listening, cs_connecting, cs_connected, cs_closing_r,
  cs_closing_w, cs_closing, cs_closed, Conn, Server, svr_conn_listen, is_listening, accepted,
  svr_conn_accept, remove_at, svr_conn_close, Reach, start, listens, accepts, closes,
}

length-remove_at : (i : ℕ) (l : List Conn) → i < length l → length (remove_at i l) ≡ length l - 1
length-remove_at i [] h = absurd (omega arith)
length-remove_at zero (p ∷ l) h = omega arith
length-remove_at (suc i) (p ∷ l) h = omega (arith, length-remove_at i l (omega arith))

record Inv (max_accept : ℕ) (s : Server) : Type 0 where
  count : s.nc ≡ length s.peers
  few : s.nc ≤ max_accept + 1

module _ {max_accept : ℕ} (small : max_accept + 1 < word_size) where
  listen-Inv :
      {s : Server} (fd : Option ℕ) (bound heard : Bool)
      → Inv max_accept s
      → Inv max_accept (svr_conn_listen fd bound heard s).0
  unfolding svr_conn_listen
  listen-Inv none bound heard v = v
  listen-Inv (some fd) bound heard v = ground arith

  accepted-Inv :
      (s : Server) (fd : Option ℕ) (timeout_set reads : Bool)
      → Inv max_accept s
      → s.nc ≤ max_accept
      → Inv max_accept (accepted fd timeout_set reads s).0
  accepted-Inv s none timeout_set reads v h = v
  accepted-Inv s (some fd) timeout_set reads v h =
      ground (arith, length-append s.peers (record { cst = cs_connected; cfd = fd } ∷ []))

  accept-Inv :
      {s t : Server} {err : ErrConn} (fd : Option ℕ) (timeout_set reads : Bool)
      → Inv max_accept s
      → svr_conn_accept max_accept fd timeout_set reads s ≡ some (t, err)
      → Inv max_accept t
  unfolding svr_conn_accept
  accept-Inv {s} fd timeout_set reads v h = elim (Bool-cases (ltb max_accept s.nc)) [
    | inl full ↦ ground arith
    | inr room ↦ let w = accepted-Inv s fd timeout_set reads v (ground arith) in ground arith
  ]

  close-Inv :
      {s : Server} (shut : Bool) (i : ℕ) (p : Conn)
      → Inv max_accept s
      → get_elem? s.peers i ≡ some p
      → Inv max_accept (svr_conn_close shut i p s).0
  unfolding svr_conn_close
  close-Inv {s} shut i p v at_i =
      let inside = get_elem?-lt s.peers i at_i in ground (arith, length-remove_at i s.peers inside)

  Reach-Inv : {s : Server} → Reach max_accept s → Inv max_accept s
  Reach-Inv (start cst cfd) = record { count = refl; few = omega arith }
  Reach-Inv (listens fd bound l r) = listen-Inv fd bound l (Reach-Inv r)
  Reach-Inv (accepts fd timeout_set reads r h) = accept-Inv fd timeout_set reads (Reach-Inv r) h
  Reach-Inv (closes c i p r at_i) = close-Inv c i p (Reach-Inv r) at_i

  -- In every reachable state `nc` is the number of accepted connections that are not deleted, and it
  -- exceeds the limit by at most one: it never wraps around in either direction.
  pub pool_lem :
      {s : Server} → Reach max_accept s → (s.nc ≡ length s.peers) × (s.nc ≤ max_accept + 1)
  pool_lem r = let v = Reach-Inv r in (v.count, v.few)

is_listening_lem : (cst : ConnSt) → is_listening cst ≡ true → cst ≡ cs_listening
is_listening_lem cs_listening h = refl
is_listening_lem cs_connecting h = cc
is_listening_lem cs_connected h = cc
is_listening_lem cs_closing_r h = cc
is_listening_lem cs_closing_w h = cc
is_listening_lem cs_closing h = cc
is_listening_lem cs_closed h = cc

-- What a successful `accepted` has done.
accepted_ok :
    (s : Server) {t : Server} (fd : Option ℕ) (timeout_set reads : Bool)
    → accepted fd timeout_set reads s ≡ (t, errconn_ok)
    → (d : ℕ) × (fd ≡ some d)
      × (t.peers ≡ s.peers ++ record { cst = cs_connected; cfd = d } ∷ [])
      × (t.nc ≡ incr s.nc)
accepted_ok s none timeout_set reads h = absurd (ground arith)
accepted_ok s (some d) timeout_set reads h = (d, refl, ground arith, ground arith)

-- When `svr_conn_accept` reports success, the server was listening, the pool was not over its limit, the
-- socket call gave a descriptor, and exactly one connection, with that descriptor and connected, has
-- been added behind the others and counted.
pub accept_ok :
    (max_accept : ℕ) (s : Server) {t : Server} (fd : Option ℕ) (timeout_set reads : Bool)
    → svr_conn_accept max_accept fd timeout_set reads s ≡ some (t, errconn_ok)
    → (s.cst ≡ cs_listening)
      × (s.nc ≤ max_accept)
      × (d : ℕ) × (fd ≡ some d)
      × (t.peers ≡ s.peers ++ record { cst = cs_connected; cfd = d } ∷ [])
      × (t.nc ≡ incr s.nc)
unfolding svr_conn_accept
accept_ok max_accept s {t} fd timeout_set reads h = elim (Bool-cases (is_listening s.cst)) [
  | inr deaf ↦ absurd (ground arith)
  | inl up ↦ elim (Bool-cases (ltb max_accept s.nc)) [
    | inl full ↦ absurd (ground arith)
    | inr room ↦
        let (d, e, peers, nc) = accepted_ok s {t = t} fd timeout_set reads (ground arith) in
        (is_listening_lem s.cst up, ground arith, d, e, peers, nc)
  ]
]
