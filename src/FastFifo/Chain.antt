-- ===== src/FastFifo/Chain.antt =====
-- webserver/fast_fifo.h: what a heap holds when it holds a queue, and how single writes change it.
use libeventdisp.Base.{
  ◌≡◌, refl, ◌≢◌, true, false, some, [], ◌∷◌, ◌++◌, ◌⊎◌, sym, ◌∙◌, ◌==◌, ◌||◌, if◌then◌else◌, subst,
  Bool-cases, inl, inr, arith,
}
use libeventdisp.FastFifo.Defs.{Ptr, null, Node, Heap}
use libeventdisp.FastFifo.Spec.{Cells, has, remove}

abbrev pub node : Ptr → Ptr → Ptr → Node
node item before next = record { item = item; before = before; next = next }

-- From `p`, whose `before` is `b`, the `next` pointers lead through the nodes of `l` to the sentinel.
pub data Chain (h : Heap) (tail : Ptr) : Ptr → Ptr → Cells → Type 0 where
  nil : {b : Ptr} → h tail ≡ some (node null b null) → Chain h tail b tail []
  cons :
      {b a n x : Ptr} {l : Cells}
      → a ≢ null
      → a ≢ tail
      → has a l ≡ false
      → h a ≡ some (node x b n)
      → Chain h tail a n l
      → Chain h tail b a ((a, x) ∷ l)

-- The node before the sentinel.
abbrev pub last : Ptr → Cells → Ptr
last b [] = b
last b ((a, x) ∷ l) = last a l

-- The first node, or the sentinel.
abbrev pub first : Ptr → Cells → Ptr
first tail [] = tail
first tail ((a, x) ∷ l) = a

module _ {h : Heap} {tail : Ptr} where
  pub Chain-first : {b p : Ptr} {l : Cells} → Chain h tail b p l → p ≡ first tail l
  Chain-first (nil t) = refl
  Chain-first (cons ne nt out held c) = refl

  pub Chain-tail :
      {b p : Ptr} {l : Cells} → Chain h tail b p l → h tail ≡ some (node null (last b l) null)
  Chain-tail (nil t) = t
  Chain-tail (cons ne nt out held c) = Chain-tail c

  pub Chain-last :
      {b p : Ptr} {l : Cells} → Chain h tail b p l → (last b l ≡ b) ⊎ (has (last b l) l ≡ true)
  Chain-last (nil t) = inl refl
  Chain-last (cons ne nt out held c) = elim (Chain-last c) [
    | inl e ↦ inr (ground arith)
    | inr m ↦ inr (ground arith)
  ]

  pub Chain-holds :
      {b p : Ptr} {l : Cells} (a : Ptr)
      → Chain h tail b p l
      → has a l ≡ true
      → (x y n : Ptr) × (h a ≡ some (node x y n)) × (a ≢ null) × (a ≢ tail)
  Chain-holds a (nil t) m = cc
  Chain-holds a (cons {b} {a = q} {n} {x} ne nt out held c) m = elim (Bool-cases (q == a)) [
    | inl e ↦ (x, b, n, ground arith, ground arith, ground arith)
    | inr e ↦ Chain-holds a c (ground arith)
  ]

  -- A chain survives any change that spares its nodes and the sentinel.
  pub Chain-frame :
      {g : Heap} {b p : Ptr} {l : Cells}
      → Chain h tail b p l
      → ((a : Ptr) → (has a l ≡ true) ⊎ (a ≡ tail) → g a ≡ h a)
      → Chain g tail b p l
  Chain-frame (nil t) same = nil (same tail (inr refl) ∙ t)
  Chain-frame (cons {a} ne nt out held c) same =
      cons ne nt out (same a (inl (ground arith)) ∙ held) (
        Chain-frame c (λ q inside. elim inside [
          | inl m ↦ same q (inl (ground arith))
          | inr e ↦ same q (inr e)
        ]))

-- A node outside a list is none of its nodes.
apart :
    {p stop : Ptr} (q : Ptr) (l : Cells)
    → has q l ≡ false
    → q ≢ stop
    → (has p l ≡ true) ⊎ (p ≡ stop)
    → p ≢ q
apart q l out ne (inl m) e = ground arith
apart q l out ne (inr e') e = ground arith

-- Appending a node behind `end`: what the heap must hold afterwards.
pub record Pushed (h g : Heap) (tail fresh end x : Ptr) : Type 0 where
  pub new : g fresh ≡ some (node x end tail)
  pub sentinel : g tail ≡ some (node null fresh null)
  pub linked :
      (y b n : Ptr) → end ≢ null → h end ≡ some (node y b n) → g end ≡ some (node y b fresh)
  pub same : (a : Ptr) → a ≢ fresh → a ≢ tail → a ≢ end → g a ≡ h a

has-append : (a q x : Ptr) (l : Cells) → has a (l ++ (q, x) ∷ []) ≡ (has a l || q == a)
has-append a q x [] = ground arith
has-append a q x ((c, y) ∷ l) = ground (arith, has-append a q x l)

-- The node in front of the chain points to the new node if the chain was empty.
Pushed-before :
    {h g : Heap} {tail a n : Ptr} (fresh x y b : Ptr) (l : Cells)
    → Pushed h g tail fresh (last a l) x
    → Chain h tail a n l
    → a ≢ null
    → a ≢ tail
    → a ≢ fresh
    → has a l ≡ false
    → h a ≡ some (node y b n)
    → g a ≡ some (node y b (first fresh l))
Pushed-before {n} fresh x y b [] w c na nt nf out held = w.linked y b n na held
Pushed-before {a} fresh x y b ((q, z) ∷ l) w (cons nq ntq out_q held_q c) na nt nf out held =
    let inside : (has (last q l) l ≡ true) ⊎ (last q l ≡ q) = elim (Chain-last c) [
      | inl e ↦ inr e
      | inr m ↦ inl m
    ] in
    w.same a nf nt (λ e. apart a l (ground arith) (ground arith) inside (sym e)) ∙ held

pub Chain-push :
    {h g : Heap} {tail b p : Ptr} {l : Cells} (fresh x : Ptr)
    → Chain h tail b p l
    → Pushed h g tail fresh (last b l) x
    → fresh ≢ null
    → fresh ≢ tail
    → has fresh l ≡ false
    → Chain g tail b (first fresh l) (l ++ (fresh, x) ∷ [])
Chain-push fresh x (nil t) w ne nt out = cons ne nt refl w.new (nil w.sentinel)
Chain-push fresh x (cons {b} {a} {x = y} {l} na nta out_a held c) w ne nt out =
    cons na nta (ground (arith, has-append a fresh x l))
      (Pushed-before fresh x y b l w c na nta (ground arith) out_a held)
      (Chain-push fresh x c w ne nt (ground arith))

-- Unlinking the node `a` that lies between `before` and `next`: what the heap must hold afterwards.
pub record Unlinked (h g : Heap) (a before next : Ptr) : Type 0 where
  pub forward :
      (y b n : Ptr) → before ≢ null → h before ≡ some (node y b n) → g before ≡ some (node y b next)
  pub backward : (y b n : Ptr) → h next ≡ some (node y b n) → g next ≡ some (node y before n)
  pub same : (q : Ptr) → q ≢ a → q ≢ before → q ≢ next → g q ≡ h q

-- The rest of the chain behind the unlinked node.
Chain-behind :
    {h g : Heap} {tail a n : Ptr} {l : Cells} (before : Ptr)
    → Chain h tail a n l
    → Unlinked h g a before n
    → has a l ≡ false
    → has before l ≡ false
    → a ≢ tail
    → before ≢ tail
    → Chain g tail before n l
Chain-behind before (nil t) w out out_b nt nb = nil (w.backward null _ null t)
Chain-behind {tail} {a} before (cons {a = q} {n} {x} {l} ne nq out_q held c) w out out_b nt nb =
    cons ne nq out_q (w.backward x _ n held) (
      Chain-frame c (λ p inside.
        w.same p (apart a l (ground arith) nt inside) (apart before l (ground arith) nb inside)
          (apart q l out_q nq inside)))

-- The node before a node of a chain lies in the chain, or in front of it.
pub Chain-before :
    {h : Heap} {tail b p x before next : Ptr} {l : Cells} (a : Ptr)
    → Chain h tail b p l
    → h a ≡ some (node x before next)
    → has a l ≡ true
    → ((p ≡ a) × (before ≡ b)) ⊎ (has before l ≡ true)
Chain-before a (nil t) held m = cc
Chain-before a (cons {a = q} ne nq out held_q c) held m = elim (Bool-cases (q == a)) [
  | inl here ↦ inl (ground arith)
  | inr there ↦ inr (elim (Chain-before a c held (ground arith)) [
    | inl (e, f) ↦ ground arith
    | inr inside ↦ ground arith
  ])
]

pub Chain-front :
    {h : Heap} {tail b p x before next : Ptr} {l : Cells} (a : Ptr)
    → Chain h tail b p l
    → h a ≡ some (node x before next)
    → has a l ≡ true
    → p ≡ a
    → before ≡ b
Chain-front a (nil t) held m e = cc
Chain-front a (cons ne nq out held_q c) held m e = ground arith

Chain-start :
    {h : Heap} {tail b p : Ptr} {l : Cells} → Chain h tail b p l → (has p l ≡ true) ⊎ (p ≡ tail)
Chain-start (nil t) = inr refl
Chain-start (cons ne nq out held c) = inl (ground arith)

-- The node behind a node of a chain lies in the chain, or is the sentinel.
pub Chain-next :
    {h : Heap} {tail b p x before next : Ptr} {l : Cells} (a : Ptr)
    → Chain h tail b p l
    → h a ≡ some (node x before next)
    → has a l ≡ true
    → (has next l ≡ true) ⊎ (next ≡ tail)
Chain-next a (nil t) held m = cc
Chain-next {tail} {next} a (cons {a = q} {n} {x} {l} ne nq out held_q c) held m =
    elim (Bool-cases (q == a)) [
      | inl here ↦
          let e : n ≡ next = ground arith in
          deeper (subst (λ z. (has z l ≡ true) ⊎ (z ≡ tail)) e (Chain-start c))
      | inr there ↦ deeper (Chain-next a c held (ground arith))
    ]
  where
    deeper : (has next l ≡ true) ⊎ (next ≡ tail) → (has next ((q, x) ∷ l) ≡ true) ⊎ (next ≡ tail)
    deeper (inl m) = inl (ground arith)
    deeper (inr e) = inr e

not-has-remove : (q a : Ptr) (l : Cells) → has q l ≡ false → has q (remove a l) ≡ false
unfolding remove
not-has-remove q a [] out = refl
not-has-remove q a ((c, x) ∷ l) out = ground (arith, not-has-remove q a l)

-- Removing a node from a chain.
pub Chain-remove :
    {h g : Heap} {tail b p x before next : Ptr} {l : Cells} (a : Ptr)
    → Chain h tail b p l
    → h a ≡ some (node x before next)
    → has a l ≡ true
    → Unlinked h g a before next
    → has b l ≡ false
    → b ≢ tail
    → Chain g tail b (if p == a then next else p) (remove a l)
unfolding remove
Chain-remove a (nil t) held m w out nb = cc
Chain-remove {h} {g} {tail} {b} {before} {next} a (cons {a = q} {n} {x} {l} ne nq out_q held_q c)
      held m w out nb =
    elim (Bool-cases (q == a)) [
      | inl here ↦ at_front here
      | inr there ↦ rw there (
          cons ne nq (not-has-remove q a l out_q) (relinked there)
            (Chain-remove a c held (ground arith) w out_q nq))
    ]
  where
    at_front : (q == a) ≡ true → Chain g tail b (if q == a then next else q) (remove a ((q, x) ∷ l))
    at_front here =
        let e1 : a ≡ q = ground arith in
        let e2 : before ≡ b = ground arith in
        let e3 : next ≡ n = ground arith in
        let w1 = subst (λ z. Unlinked h g a before z) e3 w in
        let w2 = subst (λ z. Unlinked h g a z n) e2 w1 in
        let w3 = subst (λ z. Unlinked h g z b n) e1 w2 in
        rw here (
          subst (λ z. Chain g tail b z l) (sym e3) (Chain-behind b c w3 out_q (ground arith) nq nb))

    apart_before : (n == a) ≡ false → before ≢ q
    apart_before far e = elim (Chain-before a c held (ground arith)) [
      | inl (f, _) ↦ ground arith
      | inr inside ↦ ground arith
    ]

    relinked : (q == a) ≡ false → g q ≡ some (node x b (if n == a then next else n))
    relinked there = elim (Bool-cases (n == a)) [
      | inl adjacent ↦
          let e : before ≡ q = Chain-front a c held (ground arith) (ground arith) in
          rw adjacent (
            subst (λ z. g z ≡ some (node x b next)) e
              (w.forward x b n (ground arith)
                (subst (λ z. h z ≡ some (node x b n)) (sym e) held_q)))
      | inr far ↦ rw far (
          w.same q (ground arith) (λ e. apart_before far (sym e))
            (λ e. apart q l out_q nq (Chain-next a c held (ground arith)) (sym e))
          ∙ held_q)
    ]

-- The first node of a chain, or the sentinel, points back to what lies in front.
Chain-back :
    {h : Heap} {tail b p : Ptr} {l : Cells}
    → Chain h tail b p l
    → (z m : Ptr) × (h p ≡ some (node z b m))
Chain-back (nil t) = (null, null, t)
Chain-back (cons {n} {x} ne nt out held c) = (x, n, held)

-- The node `a` of a chain and its two neighbours: they are three, and the next points back to `a`.
pub record Around (h : Heap) (a before next : Ptr) : Type 0 where
  pub z : Ptr
  pub m : Ptr
  pub back : h next ≡ some (node z a m)
  pub not_before : a ≢ before
  pub not_next : a ≢ next
  pub sides : before ≢ next

pub Chain-Around :
    {h : Heap} {tail b p x before next : Ptr} {l : Cells} (a : Ptr)
    → Chain h tail b p l
    → h a ≡ some (node x before next)
    → has a l ≡ true
    → has b l ≡ false
    → b ≢ tail
    → Around h a before next
Chain-Around a (nil t) held m out nb = cc
Chain-Around {h} {tail} {b} {before} {next} a (cons {a = q} {n} {x = y} {l} ne nq out_q held_q c)
      held m out nb =
    elim (Bool-cases (q == a)) [
      | inl here ↦ at_front here (Chain-back c)
      | inr there ↦ Chain-Around a c held (ground arith) out_q nq
    ]
  where
    at_front : (q == a) ≡ true → (z m : Ptr) × (h n ≡ some (node z q m)) → Around h a before next
    at_front here (z, m, back) =
        let e1 : q ≡ a = ground arith in
        let e2 : b ≡ before = ground arith in
        let e3 : n ≡ next = ground arith in
        subst (λ r. Around h r before next) e1
          (subst (λ r. Around h q r next) e2
            (subst (λ r. Around h q b r) e3
              (record {
                z = z;
                m = m;
                back = back;
                not_before = ground arith;
                not_next = λ e. apart q l out_q nq (Chain-start c) (sym e);
                sides = λ e. apart b l (ground arith) nb (Chain-start c) (sym e);
              })))
