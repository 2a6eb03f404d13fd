-- ===== src/MpEventDispatcher/Groups.antt =====
-- lib/mp_event_dispatcher.cc: every group of tasks has one dispatcher, which gets its tasks in the
-- order of the calls, whichever way the program finds the dispatcher.
use libeventdisp.Base.{
  ℕ, ◌<◌, ◌≡◌, refl, ◌≢◌, Bool, true, false, Option, none, some, List, [], ◌∷◌, ◌++◌, ◌==◌,
  if◌then◌else◌, length, length-set, ok, get_elem?, set, get_elem?-set, get_elem?-lt,
  get_elem?-some, Bool-cases, Option-cases, inl, inr, subst, ◌∙◌, ap, sym, arith,
}
use libeventdisp.EventDispatcher
use libeventdisp.EventDispatcher.{EventDispatcher, UnitTask, Step, Reach, start, next, loops}
use libeventdisp.EventDispatcher.Order.{loop_step-Keeps, executed-prefix, moves_when_outside}
use libeventdisp.EventDispatcher.Invariant.{enqueue-Reach}
use libeventdisp.MpEventDispatcher.Defs.{MpEventDispatcher, deliver, loop_in}

-- The tasks of a group, in order.
unfoldable pub of_group : ℕ → List UnitTask → List UnitTask
of_group g [] = []
of_group g (t ∷ q) = if t.id == g then t ∷ of_group g q else of_group g q

pub of_group-append_one :
    (g : ℕ) (q : List UnitTask) (t : UnitTask)
    → of_group g (q ++ t ∷ []) ≡ (if t.id == g then of_group g q ++ t ∷ [] else of_group g q)
unfolding of_group
of_group-append_one g [] t = refl
of_group-append_one g (s ∷ q) t = ground (arith, of_group-append_one g q t)

pub of_group-append :
    (g : ℕ) (p q : List UnitTask) → of_group g (p ++ q) ≡ of_group g p ++ of_group g q
unfolding of_group
of_group-append g [] q = refl
of_group-append g (t ∷ p) q = ground (arith, of_group-append g p q)

abbrev pub at_home : Option ℕ → ℕ → Bool
at_home none i = false
at_home (some j) i = j == i

prefix_of_nil : (p q : List UnitTask) → [] ≡ p ++ q → p ≡ []
prefix_of_nil [] q h = refl
prefix_of_nil (t ∷ p) q h = cc

-- Dispatcher `i` is in a reachable state in which no one has stopped it, and of each group it has
-- accepted all tasks enqueued so far, in order, if it is the group's home, and none otherwise.
pub record Hosts (home : ℕ → Option ℕ) (q : List UnitTask) (i : ℕ) (d : EventDispatcher)
    : Type 0 where
  pub reach : Reach d
  pub running : (d.is_stopped ≡ false) × (d.is_dying ≡ false)
  pub outside : d.entering ≡ none
  pub groups : (g : ℕ) → of_group g d.accepted ≡ (if at_home (home g) i then of_group g q else [])

pub record Grouped (home : ℕ → Option ℕ) (m : MpEventDispatcher) : Type 0 where
  pub size : length m.dispatchers ≡ m.concurrent_task_count
  pub hosts :
      (i : ℕ) (d : EventDispatcher) → get_elem? m.dispatchers i ≡ some d → Hosts home m.enqueued i d

enqueue-Hosts :
    {home : ℕ → Option ℕ} {enqueued : List UnitTask} {i : ℕ} {d : EventDispatcher} (t : UnitTask)
    → home t.id ≡ some i
    → Hosts home enqueued i d
    → Hosts home (enqueued ++ t ∷ []) i (EventDispatcher.enqueue_task (some t) d).0
unfolding EventDispatcher.enqueue_task EventDispatcher.test_stopped EventDispatcher.push_entering
    EventDispatcher.push_task
enqueue-Hosts {home} {enqueued} {i} {d} t e h = record {
  reach = enqueue-Reach (some t) h.reach h.outside;
  running = ground arith;
  outside = ground arith;
  groups = λ g.
      ground
        (arith, h.groups g, of_group-append_one g enqueued t, of_group-append_one g d.accepted t);
}

other-Hosts :
    {home : ℕ → Option ℕ} {enqueued : List UnitTask} {i j : ℕ} {d : EventDispatcher} (t : UnitTask)
    → home t.id ≡ some j
    → (j == i) ≡ false
    → Hosts home enqueued i d
    → Hosts home (enqueued ++ t ∷ []) i d
other-Hosts {home} {enqueued} {i} t e ne h = record {
  reach = h.reach;
  running = h.running;
  outside = h.outside;
  groups = λ g. ground (arith, h.groups g, of_group-append_one g enqueued t);
}

-- The rewritten dispatcher at `j`, and the others as they were.
deliver-Hosts :
    {home : ℕ → Option ℕ} {m : MpEventDispatcher} (j : ℕ) (t : UnitTask) (d : EventDispatcher)
    → get_elem? m.dispatchers j ≡ some d
    → j < length m.dispatchers
    → home t.id ≡ some j
    → Grouped home m
    → (i : ℕ) (e : EventDispatcher)
    → get_elem? (set m.dispatchers j (EventDispatcher.enqueue_task (some t) d).0) i ≡ some e
    → Hosts home (m.enqueued ++ t ∷ []) i e
deliver-Hosts {home} {m} j t d at_j lt e gm i f at_i =
    let new = (EventDispatcher.enqueue_task (some t) d).0 in
    elim (Bool-cases (j == i)) [
      | inl same ↦
          let here : new ≡ f = ground (arith, get_elem?-set m.dispatchers j i new lt) in
          let place : j ≡ i = ground arith in
          subst (λ k. Hosts home (m.enqueued ++ t ∷ []) k f) place
            (subst (Hosts home (m.enqueued ++ t ∷ []) j) here
              (enqueue-Hosts t e (gm.hosts j d at_j)))
      | inr apart ↦
          other-Hosts t e apart
            (gm.hosts i f (ground (arith, get_elem?-set m.dispatchers j i new lt)))
    ]

-- What a delivery adds to the history and leaves alone elsewhere.
pub record Delivered (t : UnitTask) (m m' : MpEventDispatcher) : Type 0 where
  pub table : m'.task_id_table ≡ m.task_id_table
  pub count : m'.concurrent_task_count ≡ m.concurrent_task_count
  pub token : m'.round_robin_token ≡ m.round_robin_token
  pub enqueued : m'.enqueued ≡ m.enqueued ++ t ∷ []

pub deliver-Delivered :
    {m m' : MpEventDispatcher} {done : Bool} (i : ℕ) (t : UnitTask)
    → deliver i t m ≡ ok (m', done)
    → Delivered t m m'
unfolding deliver
deliver-Delivered i t h = ground arith

pub deliver_returns :
    (m : MpEventDispatcher) (j : ℕ) (t : UnitTask)
    → j < length m.dispatchers
    → (m' : MpEventDispatcher) × (deliver j t m ≡ ok (m', true))
unfolding deliver
deliver_returns m j t lt =
    let (d, e) = get_elem?-some m.dispatchers j lt in
    (
      record m {
        dispatchers = set m.dispatchers j (EventDispatcher.enqueue_task (some t) d).0;
        enqueued = m.enqueued ++ t ∷ [];
      },
      ground arith,
    )

module _ {home : ℕ → Option ℕ} where
  pub deliver-Grouped :
      {m m' : MpEventDispatcher} {done : Bool} (j : ℕ) (t : UnitTask)
      → home t.id ≡ some j
      → Grouped home m
      → deliver j t m ≡ ok (m', done)
      → Grouped home m'
  unfolding deliver
  deliver-Grouped {m} {m'} j t e gm h = elim (Option-cases (get_elem? m.dispatchers j)) [
    | inl out ↦ absurd (ground arith)
    | inr (d, at_j) ↦ subst (Grouped home) (delivered d at_j) (record {
      size =
          omega (
            arith,
            gm.size,
            length-set m.dispatchers j (EventDispatcher.enqueue_task (some t) d).0,
          );
      hosts = deliver-Hosts j t d at_j (get_elem?-lt m.dispatchers j at_j) e gm;
    })
  ]
    where
      delivered :
          (d : EventDispatcher)
          → get_elem? m.dispatchers j ≡ some d
          → record m {
            dispatchers = set m.dispatchers j (EventDispatcher.enqueue_task (some t) d).0;
            enqueued = m.enqueued ++ t ∷ [];
          }
            ≡ m'
      delivered d at_j = ground arith

  loop-Hosts :
      {q : List UnitTask} {i : ℕ} {d : EventDispatcher}
      → Hosts home q i d
      → Hosts home q i (EventDispatcher.loop_step d)
  loop-Hosts {d} h =
      let k = loop_step-Keeps d in
      record {
        reach = next h.reach (loops (moves_when_outside d.pc h.outside));
        running = (k.stopped ∙ h.running.0, k.dying ∙ h.running.1);
        outside = k.entering ∙ h.outside;
        groups = λ g. rw k.accepted (h.groups g);
      }

  pub loop-Grouped :
      {m : MpEventDispatcher} (j : ℕ) (d : EventDispatcher)
      → get_elem? m.dispatchers j ≡ some d
      → Grouped home m
      → Grouped home (loop_in j d m)
  unfolding loop_in
  loop-Grouped {m} j d at_j gm = record {
    size = omega (arith, gm.size, length-set m.dispatchers j (EventDispatcher.loop_step d));
    hosts = λ i f at_i. elim (Bool-cases (j == i)) [
      | inl same ↦
          let here : EventDispatcher.loop_step d ≡ f = ground (arith, read i) in
          let place : j ≡ i = ground arith in
          subst (λ k. Hosts home m.enqueued k f) place
            (subst (Hosts home m.enqueued j) here (loop-Hosts (gm.hosts j d at_j)))
      | inr apart ↦ gm.hosts i f (ground (arith, read i))
    ];
  }
    where
      read :
          (i : ℕ)
          → get_elem? (set m.dispatchers j (EventDispatcher.loop_step d)) i
            ≡ (if j == i then some (EventDispatcher.loop_step d) else get_elem? m.dispatchers i)
      read i = get_elem?-set m.dispatchers j i _ (get_elem?-lt m.dispatchers j at_j)

  -- What grouping means for a group with a home: its dispatcher has accepted all its tasks in the
  -- order of the calls and run them in that order, and no other dispatcher has any of them.
  pub Grouped-order :
      {m : MpEventDispatcher} (g i j : ℕ) (d : EventDispatcher)
      → Grouped home m
      → home g ≡ some i
      → get_elem? m.dispatchers j ≡ some d
      → (j ≡ i
          → (of_group g d.accepted ≡ of_group g m.enqueued)
            × (rest : List UnitTask) × (of_group g m.enqueued ≡ of_group g d.executed ++ rest))
        × (j ≢ i → (of_group g d.accepted ≡ []) × (of_group g d.executed ≡ []))
  Grouped-order {m} g i j d gm e at_j =
      let h = gm.hosts j d at_j in
      let (rest, p) = executed-prefix h.reach in
      let split = ap (of_group g) p ∙ of_group-append g d.executed rest in
      (
        λ same.
            let all : of_group g d.accepted ≡ of_group g m.enqueued = ground (arith, h.groups g) in
            (all, of_group g rest, sym all ∙ split),
        λ apart.
            let nothing : of_group g d.accepted ≡ [] = ground (arith, h.groups g) in
            (nothing, prefix_of_nil _ _ (sym nothing ∙ split)),
      )
