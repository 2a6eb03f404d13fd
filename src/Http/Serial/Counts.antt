-- ===== src/Http/Serial/Counts.antt =====
-- webserver/svr_http.cc: the changes that a handler makes to the connection besides its package.
use libeventdisp.Base.{ℕ, ◌+◌, List, arith}
use libeventdisp.TcpServer.{ConnSt}
use libeventdisp.Http.Package.{Ptr, Hpkg, Session}
use libeventdisp.Http.Serial.{IsOpen, Ctx}

-- A reference to a cached body is counted for the package.
pub Ctx-take :
    {root c : Ptr} {k : Hpkg} {l : List Ptr} {s : Session}
    → Ctx root c k l s 0
    → Ctx root c k l (record s { bodies_taken = s.bodies_taken + 1 }) 1
Ctx-take {s = s} x = record {
  heap = x.heap;
  books = record {
    order = x.books.order;
    not_closed = x.books.not_closed;
    balance = ground (arith, x.books.balance);
  };
  idle = x.idle;
  is_open = x.is_open;
}

-- A reference is counted for the package, which gets no data.
pub Ctx-lose :
    {root c : Ptr} {k : Hpkg} {l : List Ptr} {s : Session}
    → Ctx root c k l s 0
    → Ctx root c k l
        (record s { bodies_taken = s.bodies_taken + 1; bodies_lost = s.bodies_lost + 1 })
        0
Ctx-lose {s = s} x = record {
  heap = x.heap;
  books = record {
    order = x.books.order;
    not_closed = x.books.not_closed;
    balance = ground (arith, x.books.balance);
  };
  idle = x.idle;
  is_open = x.is_open;
}

-- It is given back.
pub Ctx-give :
    {root c : Ptr} {k : Hpkg} {l : List Ptr} {s : Session}
    → Ctx root c k l s 1
    → Ctx root c k l (record s { bodies_done = s.bodies_done + 1 }) 0
Ctx-give {s = s} x = record {
  heap = x.heap;
  books = record {
    order = x.books.order;
    not_closed = x.books.not_closed;
    balance = ground (arith, x.books.balance);
  };
  idle = x.idle;
  is_open = x.is_open;
}

-- References to cached headers do not enter the books.
pub Ctx-heads :
    {root c : Ptr} {k : Hpkg} {l : List Ptr} {s : Session} {refs : ℕ} (taken done : ℕ)
    → Ctx root c k l s refs
    → Ctx root c k l (record s { heads_taken = taken; heads_done = done }) refs
Ctx-heads taken done x = record {
  heap = x.heap;
  books = record {
    order = x.books.order;
    not_closed = x.books.not_closed;
    balance = x.books.balance;
  };
  idle = x.idle;
  is_open = x.is_open;
}

-- The connection is closed for writing.
pub Ctx-cst :
    {root c : Ptr} {k : Hpkg} {l : List Ptr} {s : Session} {refs : ℕ} (cst : ConnSt)
    → Ctx root c k l s refs
    → IsOpen cst
    → Ctx root c k l (record s { cst = cst }) refs
Ctx-cst cst x o = record {
  heap = x.heap;
  books = record {
    order = x.books.order;
    not_closed = x.books.not_closed;
    balance = x.books.balance;
  };
  idle = x.idle;
  is_open = o;
}
