-- ===== src/FastFifo/Defs.antt =====
-- webserver/fast_fifo.h: nodes on a heap, and the methods of `FastFIFO` as commands on it. What `new`
-- returns is a parameter of the method that calls it.
use libeventdisp.Base.{
  ℕ, zero, suc, Bool, true, false, not, Option, none, some, ◌==◌, if◌then◌else◌, Outcome, ok, crash,
}

abbrev pub Ptr : Type 0
Ptr = ℕ

abbrev pub null : Ptr
null = 0

-- `FastFIFONode`; `item` is its `data`, a pointer.
pub record Node : Type 0 where
  pub item : Ptr
  pub before : Ptr
  pub next : Ptr

-- The constructor of `FastFIFONode`.
abbrev pub new_node : Ptr → Node
new_node item = record { item = item; before = null; next = null }

abbrev pub Heap : Type 0
Heap = Ptr → Option Node

unfoldable pub write : Heap → Ptr → Option Node → Heap
write heap p cell q = if q == p then cell else heap q

-- The two pointers of the class.
pub record Fifo : Type 0 where
  pub tail : Ptr
  pub head : Ptr

abbrev pub Cmd : Type 0 → Type 0
Cmd A = Heap → Outcome (A × Heap)

abbrev pub pure : {A : Type 0} → A → Cmd A
pure a h = ok (a, h)

abbrev pub then_run : {A B : Type 0} → Outcome (A × Heap) → (A → Cmd B) → Outcome (B × Heap)
then_run (ok (a, h)) f = f a h
then_run crash f = crash

infixl 5 ◌>>=◌ ◌>>◌
abbrev pub ◌>>=◌ : {A B : Type 0} → Cmd A → (A → Cmd B) → Cmd B
(m >>= f) h = then_run (m h) f

abbrev pub ◌>>◌ : {B : Type 0} → Cmd (Unit {0}) → Cmd B → Cmd B
m >> k = m >>= λ _. k

-- A read through a null or dangling pointer is a crash.
unfoldable pub read : Option Node → Heap → Outcome (Node × Heap)
read none h = crash
read (some n) h = ok (n, h)

unfoldable pub load : Ptr → Cmd Node
unfolding read
load p h = if p == null then crash else read (h p) h

abbrev pub store : Ptr → Option Node → Cmd (Unit {0})
store p c h = ok (tt, write h p c)

unfoldable pub set_before : Ptr → Ptr → Cmd (Unit {0})
unfolding load
set_before p q = do n ← load p; store p (some (record n { before = q }))

unfoldable pub set_next : Ptr → Ptr → Cmd (Unit {0})
unfolding load
set_next p q = do n ← load p; store p (some (record n { next = q }))

unfoldable pub delete : Ptr → Cmd (Unit {0})
unfolding load
delete p = do n ← load p; store p none

-- `if` between two commands.
abbrev pub branch : {A : Type 0} → Bool → Cmd A → Cmd A → Cmd A
branch b m n h = if b then m h else n h

abbrev check : Bool → Cmd (Unit {0})
check b h = if b then ok (tt, h) else crash

-- The constructor: `sentinel` is what `new` returns.
unfoldable pub init : Ptr → Cmd Fifo
init sentinel = do
  store sentinel (some (new_node null))
  pure (record { tail = sentinel; head = sentinel })

-- `push`: `fresh` is what `new` returns, and the node returned.
unfoldable pub push : Ptr → Ptr → Fifo → Cmd (Ptr × Fifo)
unfolding load set_before set_next
push fresh item f = do
  store fresh (some (new_node item))
  tail ← load f.tail
  set_before fresh tail.before
  set_next fresh f.tail
  tail ← load f.tail
  branch (not (tail.before == null)) (set_next tail.before fresh) (pure tt)
  set_before f.tail fresh
  pure (fresh, if f.head == f.tail then record f { head = fresh } else f)

-- `removeNode`
unfoldable pub remove_node : Ptr → Fifo → Cmd Fifo
unfolding load set_before set_next delete
remove_node node f = do
  check (not (node == null))
  n ← load node
  check (not (n.next == null))
  f' ←
      branch (n.before == null) (pure (record f { head = n.next }))
        (do set_next n.before n.next; pure f)
  set_before n.next n.before
  delete node
  pure f'

-- `pop`: `none` for a false result.
unfoldable pub pop : Fifo → Cmd (Option Ptr × Fifo)
unfolding remove_node
pop f =
    branch (not (f.head == f.tail))
      (do n ← load f.head; f' ← remove_node f.head f; pure (some n.item, f')) (pure (none, f))

abbrev pub is_popped : Option Ptr → Bool
is_popped none = false
is_popped (some x) = true

-- The destructor, `while (pop(&dummy));`, on fuel.
unfoldable pub destroy : ℕ → Fifo → Cmd Fifo
unfolding pop
destroy zero f h = crash
destroy (suc fuel) f h = (do (x, f') ← pop f; branch (is_popped x) (destroy fuel f') (pure f')) h
