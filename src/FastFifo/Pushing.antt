-- ===== src/FastFifo/Pushing.antt =====
-- webserver/fast_fifo.h: the heap that `push` leaves.
use libeventdisp.Base.{
  ◌≡◌, ◌≢◌, false, none, some, [], ◌∷◌, sym, ◌∙◌, ◌==◌, if◌then◌else◌, ok, Bool-cases, inl, inr,
  arith,
}
use libeventdisp.FastFifo.Defs.{Ptr, null, Heap, write, Fifo, push}
use libeventdisp.FastFifo.Spec.{Cells, has}
use libeventdisp.FastFifo.Chain.{
  node, Chain, last, first, Chain-first, Chain-last, Chain-holds, Pushed,
}
use libeventdisp.FastFifo.Represents.{Represents, load-ok, set_before-ok, set_next-ok}

-- The heap that `push` leaves, where the sentinel's `before` is `end` and that node holds `y` and `b`.
unfoldable pub pushed : Heap → Ptr → Ptr → Ptr → Ptr → Ptr → Ptr → Heap
pushed h tail fresh item end y b =
    write
      (if end == null
        then write
            (write (write h fresh (some (node item null null))) fresh (some (node item end null)))
            fresh (some (node item end tail))
        else write
            (write
              (write (write h fresh (some (node item null null))) fresh (some (node item end null)))
              fresh (some (node item end tail)))
            end (some (node y b fresh)))
      tail (some (node null fresh null))

pub push-pushed :
    (h : Heap) (f : Fifo) (fresh item end y b n : Ptr)
    → f.tail ≢ null
    → fresh ≢ null
    → fresh ≢ f.tail
    → h f.tail ≡ some (node null end null)
    → end ≢ f.tail
    → end ≢ fresh
    → (end ≢ null → h end ≡ some (node y b n))
    → push fresh item f h
      ≡ ok (
        (fresh, if f.head == f.tail then record f { head = fresh } else f),
        pushed h f.tail fresh item end y b,
      )
unfolding push pushed
push-pushed h f fresh item end y b n nt nf nft sentinel nend nef held =
    let h1 = write h fresh (some (node item null null)) in
    let h2 = write h1 fresh (some (node item end null)) in
    let h3 = write h2 fresh (some (node item end f.tail)) in
    let t1 : h1 f.tail ≡ some (node null end null) = unfold write in ground arith in
    let t2 : h3 f.tail ≡ some (node null end null) = unfold write in ground arith in
    let f1 : h1 fresh ≡ some (node item null null) = unfold write in ground arith in
    let f2 : h2 fresh ≡ some (node item end null) = unfold write in ground arith in
    rw (load-ok h1 nt t1, set_before-ok h1 nf f1 end, set_next-ok h2 nf f2 f.tail, load-ok h3 nt t2)
      (elim (Bool-cases (end == null)) [
        | inl empty ↦ rw (empty, set_before-ok h3 nt t2 fresh)
        | inr linked ↦
            let ne : end ≢ null = ground arith in
            let e3 : h3 end ≡ some (node y b n) = unfold write in ground (arith, held ne) in
            let h4 = write h3 end (some (node y b fresh)) in
            let t4 : h4 f.tail ≡ some (node null end null) = unfold write in ground (arith, t2) in
            rw (linked, e3, set_before-ok h4 nt t4 fresh)
      ])

-- The last node of a chain, which the sentinel names, if there is one.
pub record Ends (h : Heap) (f : Fifo) (fresh end : Ptr) : Type 0 where
  pub y : Ptr
  pub b : Ptr
  pub n : Ptr
  pub apart : end ≢ f.tail
  pub old : end ≢ fresh
  pub held : end ≢ null → h end ≡ some (node y b n)

pub ends :
    {h : Heap} {f : Fifo} {l : Cells} (fresh : Ptr)
    → Represents h f l
    → fresh ≢ null
    → h fresh ≡ none
    → Ends h f fresh (last null l)
ends {h} {f} {l} fresh r ne unused = elim (Chain-last r.chain) [
  | inl e ↦ record {
    y = null;
    b = null;
    n = null;
    apart = λ e'. r.sentinel (sym e' ∙ e);
    old = λ e'. ne (sym e' ∙ e);
    held = λ ne'. absurd (ne' e);
  }
  | inr m ↦
      let (y, b, n, held, _, apart) = Chain-holds (last null l) r.chain m in
      record { y = y; b = b; n = n; apart = apart; old = λ e. cc; held = λ _. held }
]

pub not-has-fresh :
    {h : Heap} {f : Fifo} {l : Cells} (fresh : Ptr)
    → Represents h f l
    → h fresh ≡ none
    → has fresh l ≡ false
not-has-fresh {l} fresh r unused = elim (Bool-cases (has fresh l)) [
  | inr out ↦ out
  | inl m ↦ let (y, b, n, held, _, _) = Chain-holds fresh r.chain m in absurd (ground arith)
]

pub pushed-Pushed :
    {h : Heap} {tail end y b n : Ptr} (fresh item : Ptr)
    → fresh ≢ tail
    → end ≢ tail
    → end ≢ fresh
    → (end ≢ null → h end ≡ some (node y b n))
    → Pushed h (pushed h tail fresh item end y b) tail fresh end item
unfolding pushed write
pushed-Pushed fresh item nft nend nef held = record {
  new = ground arith;
  sentinel = ground arith;
  linked = λ y' b' n' ne e. ground (arith, held ne);
  same = λ a nf nt ne. ground arith;
}

pub new_head :
    {h : Heap} {f : Fifo} (fresh : Ptr) (l : Cells)
    → Chain h f.tail null f.head l
    → (if f.head == f.tail then record f { head = fresh } else f)
      ≡ record f { head = first fresh l }
new_head fresh [] c = ground (arith, Chain-first c)
new_head fresh ((a, x) ∷ l) c =
    let (y, b, n, held, ne, apart) = Chain-holds a c (ground arith) in ground (arith, Chain-first c)
