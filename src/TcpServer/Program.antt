-- ===== src/TcpServer/Program.antt =====
-- webserver/websvrd.cc: `main`, with which the dispatcher is there before the server starts.
use libeventdisp.Base.{
  ℕ, ◌<◌, ◌≡◌, refl, Bool, true, Option, some, List, ltb, if◌then◌else◌, Bool-cases, inl, inr,
  arith,
}
use libeventdisp.Dispatcher.{Dispatcher, new_dispatcher, enqueue, Reach}
use libeventdisp.Dispatcher
use libeventdisp.TcpServer.Defs.{ConnSt, Server}
use libeventdisp.TcpServer.Main.{Arrival, svr_start}

pub record Program : Type 0 where
  pub dispatcher : Option Dispatcher
  pub server : Option Server

-- `main`, by `NDISPATCHER`, the last instance of the dispatcher, and what `svr_start` takes.
unfoldable pub main :
    ℕ → Option Dispatcher → ℕ → ConnSt → ℕ → Option ℕ → Bool → Bool → Bool → List Arrival → Program
unfolding Dispatcher.init Dispatcher.init_default svr_start
main ndispatcher last max_accept cst cfd fd bound heard shut l = record {
  dispatcher =
      if ltb 1 ndispatcher
      then Dispatcher.init ndispatcher true last
      else Dispatcher.init_default last;
  server = svr_start max_accept cst cfd fd bound heard shut l;
}

-- The number of event loops.
abbrev loops : ℕ → ℕ
loops ndispatcher = if ltb 1 ndispatcher then ndispatcher else 1

loops_positive : (n : ℕ) → 0 < loops n
loops_positive n = ground arith

-- Whatever NDISPATCHER is and whatever the last instance was, the program makes the dispatcher in the
-- mode for it, with at least one event loop.
pub main_dispatcher :
    (n : ℕ) (last : Option Dispatcher) (max_accept : ℕ) (cst : ConnSt) (cfd : ℕ) (fd : Option ℕ)
    (bound heard shut : Bool) (l : List Arrival)
    → (main n last max_accept cst cfd fd bound heard shut l).dispatcher
      ≡ some (new_dispatcher (loops n) (ltb 1 n))
unfolding main Dispatcher.init Dispatcher.init_default
main_dispatcher n last max_accept cst cfd fd bound heard shut l = elim (Bool-cases (ltb 1 n)) [
  | inl several ↦ rw several refl
  | inr one ↦ rw one refl
]
