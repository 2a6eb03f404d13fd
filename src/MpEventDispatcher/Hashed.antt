-- ===== src/MpEventDispatcher/Hashed.antt =====
-- lib/mp_event_dispatcher.cc with USE_HASHING, the build of lib/Makefile: a group's dispatcher is the
-- remainder of its hash. The hash function is a parameter.
use libeventdisp.Base.{
  ℕ, ◌%◌, ◌<◌, ◌≡◌, refl, ◌≢◌, Bool, true, Option, some, List, [], ◌++◌, length, length-replicate,
  get_elem?-replicate, ok, get_elem?, get_elem?-some, word_size, subst, sym, ◌∙◌, arith,
}
use native.Mathlib.Nat.{mod-lt}
use libeventdisp.EventDispatcher
use libeventdisp.EventDispatcher.{EventDispatcher, UnitTask}
use libeventdisp.EventDispatcher.Order.{sizes}
use libeventdisp.MpEventDispatcher.Defs.{
  MpEventDispatcher, init, deliver, loop_in, hashed, enqueue_hashed, get_size_hashed,
}
use libeventdisp.MpEventDispatcher.Groups.{
  of_group, Hosts, Grouped, deliver-Grouped, deliver-Delivered, deliver_returns, loop-Grouped,
  Grouped-order,
}

-- What a program can do with a dispatcher made for `n` threads: calls of `enqueueTask` that return,
-- with moves of the event loops in between.
pub data Reach (hash : ℕ → ℕ) (n : ℕ) : MpEventDispatcher → Type 0 where
  start : Reach hash n (init n)
  enqueues :
      {m m' : MpEventDispatcher} {done : Bool} (t : UnitTask)
      → Reach hash n m
      → enqueue_hashed hash (some t) m ≡ ok (m', done)
      → Reach hash n m'
  loops :
      {m : MpEventDispatcher} (i : ℕ) (d : EventDispatcher)
      → Reach hash n m
      → get_elem? m.dispatchers i ≡ some d
      → Reach hash n (loop_in i d m)

hashed_lem :
    (hash : ℕ → ℕ) (n id : ℕ) (m : MpEventDispatcher)
    → 0 < n
    → m.concurrent_task_count ≡ n
    → hashed hash id m ≡ ok (hash id % n)
unfolding hashed
hashed_lem hash n id m pos e = rw e (ground arith)

get_size_at :
    (hash : ℕ → ℕ) (g i : ℕ) (m : MpEventDispatcher) (d : EventDispatcher) {size : ℕ}
    → hashed hash g m ≡ ok i
    → get_elem? m.dispatchers i ≡ some d
    → EventDispatcher.pending_tasks d ≡ size
    → get_size_hashed hash g m ≡ ok size
unfolding get_size_hashed
get_size_at hash g i m d e at_i p = ground arith

loop-count :
    (m : MpEventDispatcher) (i : ℕ) (d : EventDispatcher) {n : ℕ}
    → m.concurrent_task_count ≡ n
    → (loop_in i d m).concurrent_task_count ≡ n
unfolding loop_in
loop-count m i d e = e

module _ (hash : ℕ → ℕ) {n : ℕ} (pos : 0 < n) where
  abbrev pub home : ℕ → Option ℕ
  home g = some (hash g % n)

  record Inv (m : MpEventDispatcher) : Type 0 where
    grouped : Grouped home m
    count : m.concurrent_task_count ≡ n

  Inv-init : Inv (init n)
  unfolding init of_group
  Inv-init = record {
    grouped = record {
      size = length-replicate n EventDispatcher.init;
      hosts = λ i d at_i.
          subst (Hosts home [] i) (sym (get_elem?-replicate n i EventDispatcher.init at_i))
            (record {
              reach = EventDispatcher.start;
              running = (refl, refl);
              outside = refl;
              groups = λ g. ground arith;
            });
    };
    count = refl;
  }

  enqueue-deliver :
      {m : MpEventDispatcher} (t : UnitTask)
      → Inv m
      → enqueue_hashed hash (some t) m ≡ deliver (hash t.id % n) t m
  unfolding enqueue_hashed
  enqueue-deliver {m} t v = rw (hashed_lem hash n t.id m pos v.count)

  Reach-Inv : {m : MpEventDispatcher} → Reach hash n m → Inv m
  Reach-Inv start = Inv-init
  Reach-Inv (enqueues t r h) =
      let v = Reach-Inv r in
      let sent = sym (enqueue-deliver t v) ∙ h in
      record {
        grouped = deliver-Grouped (hash t.id % n) t refl v.grouped sent;
        count = (deliver-Delivered (hash t.id % n) t sent).count ∙ v.count;
      }
  Reach-Inv (loops {m} i d r at_i) =
      let v = Reach-Inv r in
      record { grouped = loop-Grouped i d at_i v.grouped; count = loop-count m i d v.count }

  -- With at least one dispatcher, `enqueueTask` of a task never crashes and reports success.
  pub enqueue_hashed_returns :
      {m : MpEventDispatcher} (t : UnitTask)
      → Reach hash n m
      → (m' : MpEventDispatcher) × (enqueue_hashed hash (some t) m ≡ ok (m', true))
  enqueue_hashed_returns {m} t reach =
      let v = Reach-Inv reach in
      rw (enqueue-deliver t v) (
        deliver_returns m (hash t.id % n) t
          (omega (arith, mod-lt (hash t.id) pos, v.count, v.grouped.size)))

  -- Tasks of one group all go to the dispatcher that the hash names: it has accepted the group's tasks
  -- in the order of the `enqueueTask` calls, and those that it has run are a prefix of that sequence.
  -- No other dispatcher has accepted or run any of them.
  pub hashed_group_order :
      {m : MpEventDispatcher} (g j : ℕ) (d : EventDispatcher)
      → Reach hash n m
      → get_elem? m.dispatchers j ≡ some d
      → (j ≡ hash g % n
          → (of_group g d.accepted ≡ of_group g m.enqueued)
            × (rest : List UnitTask) × (of_group g m.enqueued ≡ of_group g d.executed ++ rest))
        × (j ≢ hash g % n → (of_group g d.accepted ≡ []) × (of_group g d.executed ≡ []))
  hashed_group_order g j d r at_j = Grouped-order g (hash g % n) j d (Reach-Inv r).grouped refl at_j

  -- `getSize` reports the queue length, modulo 2^64, of the dispatcher that the hash names.
  pub get_size_lem :
      {m : MpEventDispatcher} (g : ℕ)
      → Reach hash n m
      → (d : EventDispatcher) × (get_elem? m.dispatchers (hash g % n) ≡ some d)
        × (get_size_hashed hash g m ≡ ok (length d.task_queue % word_size))
  get_size_lem {m} g r =
      let v = Reach-Inv r in
      let (d, at_i) =
        get_elem?-some m.dispatchers (hash g % n)
          (omega (arith, mod-lt (hash g) pos, v.count, v.grouped.size)) in
      (
        d,
        at_i,
        get_size_at hash g (hash g % n) m d (hashed_lem hash n g m pos v.count) at_i
            (sizes g (v.grouped.hosts (hash g % n) d at_i).reach).0,
      )
