-- ===== src/MpEventDispatcher/Table.antt =====
-- lib/mp_event_dispatcher.cc without USE_HASHING: the table gives each group the dispatcher that the
-- round-robin token named when the group was first seen.
use libeventdisp.Base.{
  ℕ, ◌+◌, ◌%◌, ◌<◌, ◌≡◌, refl, ◌≢◌, Bool, true, Option, none, some, List, [], ◌∷◌, ◌++◌, ◌==◌,
  if◌then◌else◌, word_size, length, length-append, length-replicate, get_elem?-replicate, ok,
  get_elem?, lookup, lookup-append, Option-cases, inl, inr, subst, ◌∙◌, ap, ap₂, sym, arith,
}
use native.Mathlib.Decide.{dec_lt}
use native.Mathlib.Nat.{mod-lt, mod-eq_of_lt, mod-add-mod, mod_self}
use libeventdisp.EventDispatcher
use libeventdisp.EventDispatcher.{EventDispatcher, UnitTask}
use libeventdisp.MpEventDispatcher.Defs.{
  MpEventDispatcher, init, deliver, loop_in, next_token, route_at, route, enqueue_task,
}
use libeventdisp.MpEventDispatcher.Groups.{
  of_group, of_group-append_one, Hosts, Grouped, deliver-Grouped, deliver-Delivered,
  deliver_returns, loop-Grouped, Grouped-order,
}

-- What a program can do with a dispatcher made for `n` threads: calls of `enqueueTask` that return,
-- with moves of the event loops in between.
pub data Reach (n : ℕ) : MpEventDispatcher → Type 0 where
  start : Reach n (init n)
  enqueues :
      {m m' : MpEventDispatcher} {done : Bool} (t : UnitTask)
      → Reach n m
      → enqueue_task (some t) m ≡ ok (m', done)
      → Reach n m'
  loops :
      {m : MpEventDispatcher} (i : ℕ) (d : EventDispatcher)
      → Reach n m
      → get_elem? m.dispatchers i ≡ some d
      → Reach n (loop_in i d m)

abbrev pub home : MpEventDispatcher → ℕ → Option ℕ
home m g = lookup g m.task_id_table

record Inv (n : ℕ) (m : MpEventDispatcher) : Type 0 where
  grouped : Grouped (home m) m
  count : m.concurrent_task_count ≡ n
  fresh : (g : ℕ) → home m g ≡ none → of_group g m.enqueued ≡ []
  range : (g i : ℕ) → home m g ≡ some i → i < n
  token : m.round_robin_token ≡ length m.task_id_table % n

Inv-init : (n : ℕ) → Inv n (init n)
unfolding init of_group lookup
Inv-init n = record {
  grouped = record {
    size = length-replicate n EventDispatcher.init;
    hosts = λ i d at_i.
        subst (Hosts (λ g. none) [] i) (sym (get_elem?-replicate n i EventDispatcher.init at_i))
          (record {
            reach = EventDispatcher.start;
            running = (refl, refl);
            outside = refl;
            groups = λ g. refl;
          });
  };
  count = refl;
  fresh = λ g h. refl;
  range = λ g i h. cc;
  token = grind arith;
}

-- The token steps through the dispatchers in turn.
next_token-mod : (k n : ℕ) → 0 < n → n < word_size → next_token (k % n) n ≡ (k + 1) % n
unfolding next_token
next_token-mod k n pos small = elim (dec_lt (k % n + 1) n) [
  | yes below ↦
      let e : (k + 1) % n ≡ k % n + 1 = sym (mod-add-mod k n 1) ∙ mod-eq_of_lt below in
      rw e (ground (arith, mod-lt k pos))
  | no full ↦
      let last : k % n + 1 ≡ n = omega (arith, mod-lt k pos) in
      let e : (k + 1) % n ≡ 0 = sym (mod-add-mod k n 1) ∙ ap (λ r. r % n) last ∙ mod_self n in
      rw e (ground arith)
]

-- A group that the table does not know takes the token.
new_home :
    (m : MpEventDispatcher) (id g : ℕ)
    → home m id ≡ none
    → home (route_at none id m).1 g ≡ (if id == g then some m.round_robin_token else home m g)
unfolding route_at
new_home m id g h = ground (arith, lookup-append id g m.round_robin_token m.task_id_table)

-- The new entry leaves what the dispatchers hold as it was.
new-Hosts :
    (m : MpEventDispatcher) {i : ℕ} {d : EventDispatcher} (id : ℕ)
    → home m id ≡ none
    → of_group id m.enqueued ≡ []
    → Hosts (home m) m.enqueued i d
    → Hosts (home (route_at none id m).1) m.enqueued i d
new-Hosts m {i} id h empty was = record {
  reach = was.reach;
  running = was.running;
  outside = was.outside;
  groups = λ g. ground (arith, was.groups g, was.groups id, new_home m id g h);
}

-- What the locked block gives: the invariant again, and a destination, in range, that is from now on
-- the group's home; for a new group it is the next in turn.
record Routed (n id : ℕ) (m : MpEventDispatcher) (known : Option ℕ) (r : ℕ × MpEventDispatcher)
    : Type 0 where
  inv : Inv n r.1
  at_home : home r.1 id ≡ some r.0
  range : r.0 < n
  turn : known ≡ none → r.0 ≡ length m.task_id_table % n

module _ {n : ℕ} (pos : 0 < n) (small : n < word_size) where
  route_at-Inv :
      {m : MpEventDispatcher} (id : ℕ)
      → Inv n m
      → (known : Option ℕ) → home m id ≡ known
      → Routed n id m known (route_at known id m)
  unfolding route_at
  route_at-Inv id v (some i) h = record {
    inv = v;
    at_home = h;
    range = v.range id i h;
    turn = λ e. cc;
  }
  route_at-Inv {m} id v none h =
      let in_range : m.round_robin_token < n = rw v.token (mod-lt _ pos) in
      record {
        inv = record {
          grouped = record {
            size = v.grouped.size;
            hosts = λ i d at_i. new-Hosts m id h (v.fresh id h) (v.grouped.hosts i d at_i);
          };
          count = v.count;
          fresh = λ g e. v.fresh g (ground (arith, new_home m id g h));
          range = λ g i e. ground (arith, new_home m id g h, v.range g i);
          token =
              ap₂ next_token v.token v.count
              ∙ next_token-mod (length m.task_id_table) n pos small
              ∙ ap (λ l. l % n)
                  (sym (length-append m.task_id_table ((id, m.round_robin_token) ∷ [])));
        };
        at_home = ground (arith, new_home m id id h);
        range = in_range;
        turn = λ e. v.token;
      }

  route-Inv : {m : MpEventDispatcher} (id : ℕ) → Inv n m → Routed n id m (home m id) (route id m)
  unfolding route
  route-Inv {m} id v = route_at-Inv id v (home m id) refl

  deliver-Inv :
      {m m' : MpEventDispatcher} {done : Bool} (i : ℕ) (t : UnitTask)
      → Inv n m
      → home m t.id ≡ some i
      → deliver i t m ≡ ok (m', done)
      → Inv n m'
  deliver-Inv {m} {m'} i t v e h =
      let k = deliver-Delivered i t h in
      let same : home m ≡ home m' = ap (λ table g. lookup g table) (sym k.table) in
      record {
        grouped = subst (λ f. Grouped f m') same (deliver-Grouped i t e v.grouped h);
        count = k.count ∙ v.count;
        fresh = λ g none_yet.
            let old : home m g ≡ none = ap (λ f. f g) same ∙ none_yet in
            ap (of_group g) k.enqueued
            ∙ ground (arith, of_group-append_one g m.enqueued t, v.fresh g old);
        range = λ g j there. v.range g j (ap (λ f. f g) same ∙ there);
        token = k.token ∙ v.token ∙ ap (λ table. length table % n) (sym k.table);
      }

  enqueue-Inv :
      {m m' : MpEventDispatcher} {done : Bool} (t : UnitTask)
      → Inv n m
      → enqueue_task (some t) m ≡ ok (m', done)
      → Inv n m'
  unfolding enqueue_task
  enqueue-Inv t v h = let r = route-Inv t.id v in deliver-Inv _ t r.inv r.at_home h

  loop-Inv :
      {m : MpEventDispatcher} (i : ℕ) (d : EventDispatcher)
      → get_elem? m.dispatchers i ≡ some d
      → Inv n m
      → Inv n (loop_in i d m)
  loop-Inv i d at_i v =
      let grouped = loop-Grouped i d at_i v.grouped in
      unfold loop_in in
      record {
        grouped = unfold loop_in in grouped;
        count = v.count;
        fresh = v.fresh;
        range = v.range;
        token = v.token;
      }

  Reach-Inv : {m : MpEventDispatcher} → Reach n m → Inv n m
  Reach-Inv start = Inv-init n
  Reach-Inv (enqueues t r h) = enqueue-Inv t (Reach-Inv r) h
  Reach-Inv (loops i d r at_i) = loop-Inv i d at_i (Reach-Inv r)

  -- With at least one dispatcher, `enqueueTask` of a task never crashes and reports success.
  pub enqueue_returns :
      {m : MpEventDispatcher} (t : UnitTask)
      → Reach n m
      → (m' : MpEventDispatcher) × (enqueue_task (some t) m ≡ ok (m', true))
  unfolding enqueue_task
  enqueue_returns t reach =
      let r = route-Inv t.id (Reach-Inv reach) in
      deliver_returns _ _ t (omega (arith, r.range, r.inv.count, r.inv.grouped.size))

  -- A group that is new goes to the dispatcher whose index is the number of groups seen before,
  -- modulo the number of dispatchers; a group that is known goes where it went before.
  pub route_turn :
      {m : MpEventDispatcher} (id : ℕ)
      → Reach n m
      → (home m id ≡ none → (route id m).0 ≡ length m.task_id_table % n)
        × ((i : ℕ) → home m id ≡ some i → (route id m).0 ≡ i)
  unfolding route route_at
  route_turn {m} id reach =
      ((route-Inv id (Reach-Inv reach)).turn, λ i known. ap (λ k. (route_at k id m).0) known)

  -- Tasks of one group all go to one dispatcher, the one that the table names: it has accepted the
  -- group's tasks in the order of the `enqueueTask` calls, and those that it has run are a prefix of
  -- that sequence. No other dispatcher has accepted or run any of them.
  pub group_order :
      {m : MpEventDispatcher} (g i j : ℕ) (d : EventDispatcher)
      → Reach n m
      → home m g ≡ some i
      → get_elem? m.dispatchers j ≡ some d
      → (j ≡ i
          → (of_group g d.accepted ≡ of_group g m.enqueued)
            × (rest : List UnitTask) × (of_group g m.enqueued ≡ of_group g d.executed ++ rest))
        × (j ≢ i → (of_group g d.accepted ≡ []) × (of_group g d.executed ≡ []))
  group_order g i j d r e at_j = Grouped-order g i j d (Reach-Inv r).grouped e at_j

  -- A group of which a task was enqueued has a home, and it is one of the dispatchers.
  pub has_home :
      {m : MpEventDispatcher} (g : ℕ)
      → Reach n m
      → of_group g m.enqueued ≢ []
      → (i : ℕ) × (home m g ≡ some i) × (i < n)
  has_home {m} g reach some_task = elim (Option-cases (home m g)) [
    | inl out ↦ absurd (some_task ((Reach-Inv reach).fresh g out))
    | inr (i, e) ↦ (i, e, (Reach-Inv reach).range g i e)
  ]
