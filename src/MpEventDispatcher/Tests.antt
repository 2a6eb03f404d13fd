-- ===== src/MpEventDispatcher/Tests.antt =====
-- lib/mp_event_dispatcher.cc: runs of the model with two dispatchers.
use libeventdisp.Base.{
  ℕ, ◌%◌, ◌<◌, ◌≡◌, refl, ◌≢◌, true, none, some, List, length, [], ◌∷◌, ◌++◌, word_size, ok,
  get_elem?, lookup, arith,
}
use libeventdisp.EventDispatcher
use libeventdisp.EventDispatcher.{EventDispatcher, UnitTask, unit_task_of}
use libeventdisp.MpEventDispatcher.Defs.{
  MpEventDispatcher, init, route, deliver, enqueue_task, next_token, hashed, enqueue_hashed,
}
use libeventdisp.MpEventDispatcher.Groups.{of_group}
use libeventdisp.MpEventDispatcher.Table
use libeventdisp.MpEventDispatcher.Table.{home, route_turn, enqueue_returns, group_order, has_home}
use libeventdisp.MpEventDispatcher.Hashed
use libeventdisp.MpEventDispatcher.Hashed.{enqueue_hashed_returns, hashed_group_order, get_size_lem}

abbrev task : UnitTask
task = unit_task_of 9 5

abbrev hash : ℕ → ℕ
hash id = id

abbrev second : EventDispatcher
second = (EventDispatcher.enqueue_task (some task) EventDispatcher.init).0

two : 0 < 2
two = omega arith

two-small : 2 < word_size
two-small = omega arith

-- The first task of a group goes to dispatcher 0.
abbrev sent : MpEventDispatcher
sent = record {
  dispatchers = second ∷ EventDispatcher.init ∷ [];
  concurrent_task_count = 2;
  task_id_table = (5, 0) ∷ [];
  round_robin_token = 1;
  enqueued = task ∷ [];
}

enqueue-sent : enqueue_task (some task) (init 2) ≡ ok (sent, true)
unfolding enqueue_task deliver route lookup init next_token
enqueue-sent = refl

sent-Reach : Table.Reach 2 sent
sent-Reach = Table.enqueues task Table.start enqueue-sent

home-sent : home sent 5 ≡ some 0
unfolding lookup
home-sent = refl

elem-sent : get_elem? sent.dispatchers 0 ≡ some second
elem-sent = ground arith

some_task : of_group 5 sent.enqueued ≢ []
unfolding of_group
some_task e = cc

-- With the hash function that is the identity, group 5 goes to dispatcher 1.
abbrev hashed_sent : MpEventDispatcher
hashed_sent = record {
  dispatchers = EventDispatcher.init ∷ second ∷ [];
  concurrent_task_count = 2;
  task_id_table = [];
  round_robin_token = 0;
  enqueued = task ∷ [];
}

enqueue-hashed_sent : enqueue_hashed hash (some task) (init 2) ≡ ok (hashed_sent, true)
unfolding enqueue_hashed hashed init deliver
enqueue-hashed_sent = refl

hashed_sent-Reach : Hashed.Reach hash 2 hashed_sent
hashed_sent-Reach = Hashed.enqueues task Hashed.start enqueue-hashed_sent

elem-hashed_sent : get_elem? hashed_sent.dispatchers 1 ≡ some second
elem-hashed_sent = ground arith

route_turn_example :
    (home sent 6 ≡ none → (route 6 sent).0 ≡ length sent.task_id_table % 2)
    × ((i : ℕ) → home sent 6 ≡ some i → (route 6 sent).0 ≡ i)
route_turn_example = route_turn two two-small 6 sent-Reach

group_order_example :
    (◌≡◌ {A = ℕ} 0 0
      → (of_group 5 second.accepted ≡ of_group 5 sent.enqueued)
        × (rest : List UnitTask) × (of_group 5 sent.enqueued ≡ of_group 5 second.executed ++ rest))
    × (◌≢◌ {A = ℕ} 0 0 → (of_group 5 second.accepted ≡ []) × (of_group 5 second.executed ≡ []))
group_order_example = group_order two two-small 5 0 0 second sent-Reach home-sent elem-sent

hashed_group_order_example :
    (◌≡◌ {A = ℕ} 1 (hash 5 % 2)
      → (of_group 5 second.accepted ≡ of_group 5 hashed_sent.enqueued)
        × (rest : List UnitTask) × (of_group 5 hashed_sent.enqueued
            ≡ of_group 5 second.executed ++ rest))
    × (◌≢◌ {A = ℕ} 1 (hash 5 % 2)
        → (of_group 5 second.accepted ≡ []) × (of_group 5 second.executed ≡ []))
hashed_group_order_example =
    hashed_group_order hash two 5 1 second hashed_sent-Reach elem-hashed_sent
