-- ===== src/EventDispatcher/Invariant.antt =====
-- lib/event_dispatcher.cc: what holds of a dispatcher in every state that its threads can reach.
use libeventdisp.Base.{
  ℕ, ◌%◌, ◌≡◌, ◌≢◌, refl, ◌⊎◌, Bool, true, false, Option, none, some, List, [], ◌∷◌, ◌++◌,
  append-nil, append_assoc, subst, word_size, incr, decr, Bool-cases, inl, inr, length,
  length-append, arith,
}
use libeventdisp.EventDispatcher.Defs.{
  UnitTask, Pc, waiting, taken, running, done, test_stopped, push_task, push_entering, test_dying,
  can_move, is_free, returned, EventDispatcher, change, init, enqueue_task, stop, resume, destroy,
  pending_tasks, take_front, run_task, pop_task, loop_at, loop_step, Step, enters, pushes, stops,
  resumes, destroys, loops, Reach, start, next,
}
use libeventdisp.EventDispatcher.Counts.{
  number, count_of, number-change, count_of-append, pending-incr, pending-decr,
}

-- The task that the event loop has run and not yet popped.
abbrev pub in_flight : Pc → List UnitTask
in_flight (done t) = t ∷ []
in_flight _ = []

-- What the position of the event-loop thread says about the queue and the flag.
abbrev pub Held : Pc → List UnitTask → Bool → Bool → Type 0
Held waiting q executing dying = executing ≡ false
Held (taken t) q executing dying = (executing ≡ true) × (r : List UnitTask) × (q ≡ t ∷ r)
Held (running t) q executing dying = (executing ≡ true) × (r : List UnitTask) × (q ≡ t ∷ r)
Held (done t) q executing dying = (executing ≡ true) × (r : List UnitTask) × (q ≡ t ∷ r)
Held returned q executing dying = (executing ≡ false) × (q ≡ []) × (dying ≡ true)

pub record Inv (d : EventDispatcher) : Type 0 where
  pub held : Held d.pc d.task_queue d.is_executing d.is_dying
  pub order : d.accepted ≡ d.popped ++ d.task_queue
  pub counted : (id : ℕ) → number id d.task_count ≡ count_of id d.task_queue % word_size
  pub pending : pending_tasks d ≡ length d.task_queue % word_size
  pub ran : d.is_dying ≡ false → d.executed ≡ d.popped ++ in_flight d.pc
  pub kept : (r : List UnitTask) × (d.accepted ≡ d.executed ++ r)
  pub dying : d.is_dying ≡ true → d.is_stopped ≡ true
  pub begun : (t : UnitTask) → d.pc ≡ running t → d.executed ≡ d.popped
  pub outside : d.pc ≡ returned → d.entering ≡ none

Inv-init : Inv init
unfolding number count_of pending_tasks
Inv-init = record {
  held = refl;
  order = refl;
  counted = λ id. refl;
  pending = refl;
  ran = λ h. refl;
  kept = ([], refl);
  dying = λ h. h;
  begun = λ t h. refl;
  outside = λ h. refl;
}

Held-append :
    (pc : Pc) (q : List UnitTask) (t : UnitTask) (executing dying : Bool)
    → Held pc q executing dying
    → pc ≢ returned
    → Held pc (q ++ t ∷ []) executing dying
Held-append waiting q t executing dying h stays = h
Held-append (taken s) q t executing dying (e, r, p) stays = (e, r ++ t ∷ [], rw p)
Held-append (running s) q t executing dying (e, r, p) stays = (e, r ++ t ∷ [], rw p)
Held-append (done s) q t executing dying (e, r, p) stays = (e, r ++ t ∷ [], rw p)
Held-append returned q t executing dying h stays = absurd (stays refl)

pushed-Inv :
    {d : EventDispatcher} (t : UnitTask) → Inv d → d.entering ≡ some t → Inv (push_task t d)
unfolding push_task pending_tasks
pushed-Inv {d} t v h =
    let (r, e) = v.kept in
    record {
      held =
          Held-append d.pc d.task_queue t d.is_executing d.is_dying v.held
            (λ p. ground (arith, v.outside p, h));
      order = rw (v.order, append_assoc);
      counted = λ id. ground (
        arith,
        v.counted id,
        v.counted t.id,
        number-change incr id t.id d.task_count,
        count_of-append id d.task_queue t,
      );
      pending =
          omega
            (arith, v.pending, pending-incr t.id d.task_count, length-append d.task_queue (t ∷ []));
      ran = v.ran;
      kept = (r ++ t ∷ [], rw (e, append_assoc));
      dying = v.dying;
      begun = v.begun;
      outside = λ p. refl;
    }

-- A call enters only a dispatcher that is not stopped, so not one whose loop has returned.
test_stopped-Inv : {d : EventDispatcher} (t : UnitTask) → Inv d → Inv (test_stopped t d)
unfolding pending_tasks
test_stopped-Inv {d} t v = elim (Bool-cases d.is_stopped) [
  | inr e ↦ subst Inv (enters_it e) (record {
    held = v.held;
    order = v.order;
    counted = v.counted;
    pending = v.pending;
    ran = v.ran;
    kept = v.kept;
    dying = v.dying;
    begun = v.begun;
    outside = λ p.
        absurd
          (not_returned (subst (λ pc. Held pc d.task_queue d.is_executing d.is_dying) p v.held) e);
  })
  | inl e ↦ subst Inv (refused e) (record {
    held = v.held;
    order = v.order;
    counted = v.counted;
    pending = v.pending;
    ran = v.ran;
    kept = v.kept;
    dying = v.dying;
    begun = v.begun;
    outside = v.outside;
  })
]
  where
    enters_it : d.is_stopped ≡ false → record d { entering = some t } ≡ test_stopped t d
    enters_it e = unfold test_stopped in rw e

    refused :
        d.is_stopped ≡ true → record d { discarded = d.discarded ++ t ∷ [] } ≡ test_stopped t d
    refused e = unfold test_stopped in rw e

    not_returned : Held returned d.task_queue d.is_executing d.is_dying → d.is_stopped ≢ false
    not_returned (x, q, dies) e = ground (arith, v.dying dies, e)

destroy-Held :
    (pc : Pc) (q : List UnitTask) (executing dying : Bool)
    → Held pc q executing dying
    → Held pc q executing true
destroy-Held waiting q executing dying h = h
destroy-Held (taken t) q executing dying h = h
destroy-Held (running t) q executing dying h = h
destroy-Held (done t) q executing dying h = h
destroy-Held returned q executing dying (e, p, f) = (e, p, refl)

-- A change of the flags alone.
flags-Inv :
    {d : EventDispatcher} (stopped dying : Bool)
    → Inv d
    → ((dying ≡ d.is_dying) ⊎ (dying ≡ true))
    → (dying ≡ true → stopped ≡ true)
    → Inv (record d { is_stopped = stopped; is_dying = dying })
unfolding pending_tasks
flags-Inv {d} stopped dying v change h = record {
  held = elim change [
    | inl e ↦ rw e v.held
    | inr e ↦ rw e (destroy-Held d.pc d.task_queue d.is_executing d.is_dying v.held)
  ];
  order = v.order;
  counted = v.counted;
  pending = v.pending;
  ran = λ no_death. elim change [ inl e ↦ v.ran (ground arith) | inr e ↦ cc ];
  kept = v.kept;
  dying = h;
  begun = v.begun;
  outside = v.outside;
}

resume-Inv : {d : EventDispatcher} → Inv d → Inv (resume d)
resume-Inv {d} v = elim (Bool-cases d.is_dying) [
  | inl e ↦ subst Inv (still e) v
  | inr e ↦ subst Inv (wakes e) (flags-Inv false d.is_dying v (inl refl) (ground arith))
]
  where
    still : d.is_dying ≡ true → d ≡ resume d
    still e = unfold resume in rw e

    wakes : d.is_dying ≡ false → record d { is_stopped = false } ≡ resume d
    wakes e = unfold resume in rw e

take_front-Inv :
    {d : EventDispatcher} (q : List UnitTask)
    → d.task_queue ≡ q
    → d.pc ≡ waiting
    → d.entering ≡ none
    → Inv d
    → Inv (take_front q d)
unfolding take_front pending_tasks
take_front-Inv {d} [] e p out v = elim (Bool-cases d.is_dying) [
  | inr alive ↦ subst Inv (stays alive) v
  | inl dying ↦ subst Inv (leaves dying) (record {
    held = (ground arith, e, dying);
    order = v.order;
    counted = v.counted;
    pending = v.pending;
    ran = ground arith;
    kept = v.kept;
    dying = v.dying;
    begun = λ t h. ground (arith, h);
    outside = λ h. out;
  })
]
  where
    stays : d.is_dying ≡ false → d ≡ take_front [] d
    stays alive = rw alive

    leaves : d.is_dying ≡ true → record d { pc = returned } ≡ take_front [] d
    leaves dying = rw dying
take_front-Inv {d} (t ∷ r) e p out v = record {
  held = (refl, r, e);
  order = v.order;
  counted = v.counted;
  pending = v.pending;
  ran = ground arith;
  kept = v.kept;
  dying = v.dying;
  begun = λ s h. ground (arith, h);
  outside = λ h. out;
}

-- While the event loop holds a task, that task is the front of the queue.
pub holding :
    {d : EventDispatcher} (t : UnitTask)
    → (d.pc ≡ taken t) ⊎ (d.pc ≡ running t) ⊎ (d.pc ≡ done t)
    → Inv d
    → (d.is_executing ≡ true) × (r : List UnitTask) × (d.task_queue ≡ t ∷ r)
holding {d} t (inl p) v = subst (λ pc. Held pc d.task_queue d.is_executing d.is_dying) p v.held
holding {d} t (inr (inl p)) v =
    subst (λ pc. Held pc d.task_queue d.is_executing d.is_dying) p v.held
holding {d} t (inr (inr p)) v =
    subst (λ pc. Held pc d.task_queue d.is_executing d.is_dying) p v.held

test_dying-Inv :
    {d : EventDispatcher} (t : UnitTask) → d.pc ≡ taken t → Inv d → Inv (test_dying t d)
unfolding test_dying pending_tasks
test_dying-Inv {d} t p v =
    let (executing, r, e) = holding t (inl p) v in
    elim (Bool-cases d.is_dying) [
      | inl dying ↦ subst Inv (skips dying) (record {
        held = (executing, r, e);
        order = v.order;
        counted = v.counted;
        pending = v.pending;
        ran = ground arith;
        kept = v.kept;
        dying = v.dying;
        begun = λ s h. ground (arith, h);
        outside = λ h. ground (arith, h);
      })
      | inr alive ↦
          let ran : d.executed ≡ d.popped = ground (arith, append-nil d.popped) in
          subst Inv (runs alive) (record {
            held = (executing, r, e);
            order = v.order;
            counted = v.counted;
            pending = v.pending;
            ran = λ h. ground (arith, ran, append-nil d.popped);
            kept = v.kept;
            dying = v.dying;
            begun = λ s h. ran;
            outside = λ h. ground (arith, h);
          })
    ]
  where
    skips : d.is_dying ≡ true → record d { pc = done t } ≡ test_dying t d
    skips dying = rw dying

    runs : d.is_dying ≡ false → record d { pc = running t } ≡ test_dying t d
    runs alive = rw alive

-- A task that is running is the front of the queue, and those that have run were popped.
run_task-Inv : {d : EventDispatcher} (t : UnitTask) → d.pc ≡ running t → Inv d → Inv (run_task t d)
unfolding run_task pending_tasks
run_task-Inv {d} t p v =
    let (executing, r, e) = holding t (inr (inl p)) v in
    let ran = v.begun t p in
    record {
      held = (executing, r, e);
      order = v.order;
      counted = v.counted;
      pending = v.pending;
      ran = λ h. ground (arith, ran);
      kept = (r, ground (arith, append_assoc d.popped (t ∷ []) r, ran));
      dying = v.dying;
      begun = λ s h. ground (arith, h);
      outside = λ h. ground (arith, h);
    }

pop_task-Inv : {d : EventDispatcher} (t : UnitTask) → d.pc ≡ done t → Inv d → Inv (pop_task t d)
unfolding pop_task pending_tasks count_of
pop_task-Inv {d} t p v =
    let (executing, r, e) = holding t (inr (inr p)) v in
    record {
      held = refl;
      order = ground (arith, append_assoc d.popped (t ∷ []) r);
      counted = λ id.
          ground (arith, v.counted id, v.counted t.id, number-change decr id t.id d.task_count);
      pending = ground (arith, v.pending, pending-decr t.id d.task_count);
      ran = ground (arith, append-nil (d.popped ++ t ∷ []));
      kept = v.kept;
      dying = v.dying;
      begun = λ s h. ground (arith, h);
      outside = λ h. ground (arith, h);
    }

is_free-none : (entering : Option UnitTask) → is_free entering ≡ true → entering ≡ none
unfolding is_free
is_free-none none h = refl
is_free-none (some t) h = absurd (ground (arith, h))

loop_at-Inv :
    {d : EventDispatcher} (pc : Pc)
    → d.pc ≡ pc
    → can_move pc d.entering ≡ true
    → Inv d
    → Inv (loop_at pc d)
unfolding loop_at can_move
loop_at-Inv {d} waiting p can v = take_front-Inv d.task_queue refl p (is_free-none d.entering can) v
loop_at-Inv (taken t) p can v = test_dying-Inv t p v
loop_at-Inv (running t) p can v = run_task-Inv t p v
loop_at-Inv (done t) p can v = pop_task-Inv t p v
loop_at-Inv returned p can v = v

-- Every step of any thread keeps the invariant.
pub Step-Inv : {d e : EventDispatcher} → Step d e → Inv d → Inv e
Step-Inv (enters t out) v = test_stopped-Inv t v
Step-Inv (pushes t inside) v = pushed-Inv t v inside
Step-Inv {d} stops v = unfold stop in flags-Inv true d.is_dying v (inl refl) (λ h. refl)
Step-Inv resumes v = resume-Inv v
Step-Inv destroys v = unfold destroy in flags-Inv true true v (inr refl) (λ h. refl)
Step-Inv {d} (loops can) v = unfold loop_step in loop_at-Inv d.pc refl can v

-- The invariant holds in every reachable state.
pub Reach-Inv : {d : EventDispatcher} → Reach d → Inv d
Reach-Inv start = Inv-init
Reach-Inv (next r s) = Step-Inv s (Reach-Inv r)

-- A whole call of `enqueueTask` is made of such steps.
pub enqueue-Reach :
    (t : Option UnitTask) {d : EventDispatcher}
    → Reach d
    → d.entering ≡ none
    → Reach (enqueue_task t d).0
unfolding enqueue_task push_entering
enqueue-Reach none r out = r
enqueue-Reach (some t) {d} r out =
    push-Reach (test_stopped t d).entering (next r (enters t out)) refl
  where
    push-Reach :
        (x : Option UnitTask) {e : EventDispatcher}
        → Reach e
        → e.entering ≡ x
        → Reach (push_entering x e)
    push-Reach none r is = r
    push-Reach (some u) r is = next r (pushes u is)
