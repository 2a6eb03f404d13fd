-- ===== src/Http/Serial/Finish.antt =====
-- webserver/svr_http.cc: `svr_http_final` of a package at hand: the next one is fetched, or the root
-- reads again.
use libeventdisp.Base.{◌≡◌, List, [], ◌∷◌, ◌++◌, append-nil, append_assoc, sym, ap, ◌∙◌, ok, arith}
use libeventdisp.Http.Package.{
  Ptr, null, Hpkg, task_read, task_fetch, Session, write, load, save, free, add,
}
use libeventdisp.Http.Final.{final, final_next}
use libeventdisp.Http.Chain.{Live-end, Live-next}
use libeventdisp.Http.Serial.{to_read, to_fetch, at_root, at_child, Lands, lands, Ctx}

-- The last package of a request is finished: the root reads again.
final_last :
    {root c : Ptr} {k : Hpkg} {s : Session}
    → (x : Ctx root c k [] s 0)
    → final c s
      ≡ ok (
          add (task_read root) (
            save root
              (record x.heap.r { lcg = null })
              (record (free c s) { finished = s.finished ++ c ∷ [] })))
unfolding final final_next load write
final_last {root} {c} {k} {s} x =
    let v = x.heap in let at_c = v.c_at in let at_root' = v.root_at in ground arith

final_more :
    {root c : Ptr} {k : Hpkg} (q : Ptr) (l : List Ptr) {s : Session}
    → Ctx root c k (q ∷ l) s 0
    → final c s ≡ ok (add (task_fetch q) (record (free c s) { finished = s.finished ++ c ∷ [] }))
unfolding final final_next load write
final_more q l x = let v = x.heap in let (e, ne, nr, once, rest) = v.siblings in ground arith

pub final-Lands :
    {root c : Ptr} {k : Hpkg} (l : List Ptr) {s : Session}
    → Ctx root c k l s 0
    → Lands root (final c s)
final-Lands {root} {c} [] {s} x = rw (final_last x) (
    lands (
      at_root (record {
        r = record x.heap.r { lcg = null };
        x = task_read root;
        pending = ap (λ p. p ++ task_read root ∷ []) x.idle;
        stage = to_read;
        heap = Live-end x.heap;
        is_open = x.is_open;
        books = record {
          order = x.books.order ∙ sym (append-nil (s.finished ++ c ∷ []));
          not_closed = x.books.not_closed;
          balance = x.books.balance;
        };
      })))
final-Lands {root} {c} (q ∷ l) {s} x =
    let (k', e, new, heap) = Live-next q l x.heap in
    rw (final_more q l x) (
      lands (
        at_child (record {
          c = q;
          k = k';
          l = l;
          x = task_fetch q;
          pending = ap (λ p. p ++ task_fetch q ∷ []) x.idle;
          stage = to_fetch new.no_head new.no_key new.at_start;
          heap = heap;
          is_open = x.is_open;
          books = record {
            order = x.books.order ∙ sym (append_assoc s.finished (c ∷ []) (q ∷ l));
            not_closed = x.books.not_closed;
            balance = x.books.balance;
          };
        })))
