-- ===== src/Tests/Queues.antt =====
-- A queue that works through a few calls, and the theorems at its states.
use artie_takehome.Base.{
  ◌≡◌, refl, List, [], ◌∷◌, Perm, arith, true, false, Option, some, none, pos, ◌+ℤ◌, ◌⊎◌, ◌≢◌,
  leb_ℤ, if◌then◌else◌, inc_u64, inc_int, Returns,
}
use artie_takehome.Heap
use artie_takehome.MsgHeap
use artie_takehome.Msg.{ready, order_by, lifo}
use artie_takehome.Msg.Order.{order_by_total}
use artie_takehome.Record.{Record, Error, no_lease, storage, err, visibility}
use artie_takehome.Queue.{Queue, new, no_msg, tick, pop_ready, push_inflight, exhausted}
use artie_takehome.Queue.Leases.{lookup, put}
use artie_takehome.Queue.Core.{IsConsistent, held}
use artie_takehome.Queue.Produce.{enqueue, replay_dlq, new_msg}
use artie_takehome.Queue.Consume.{try_receive, ack, nack, extend}
use artie_takehome.Queue.Create.{new-IsConsistent, IsUsable, new-IsUsable}
use artie_takehome.Queue.Deliver.{Enqueued, enqueue-Returns}
use artie_takehome.Queue.Commit.{IsFresh}
use artie_takehome.Queue.Receive.{Received, try_receive-Returns}
use artie_takehome.Queue.Settle.{Acked, ack-Returns, Nacked, nack-Returns, Extended, extend-Returns}
use artie_takehome.Queue.Advance.{Advanced, tick_advances}
use artie_takehome.Queue.Loss.{nack_loses}
use artie_takehome.Queue.Replay.{Replayed, replay_dlq-Returns}
use artie_takehome.Tests.Data.{
  value, Returns-value, list_log, full_log, jobs, token, token-injective, empty_queue,
  empty-IsConsistent,
}

abbrev pub Log : Type 0
Log = List Record

-- A message that is ready at once.
abbrev pub one_ready : Queue Log
one_ready =
    (value (empty_queue, err no_lease)
      (enqueue list_log empty_queue "a" (pos 0) (pos 0) (pos 10) "m1")).0

pub one_ready-IsConsistent : IsConsistent one_ready
one_ready-IsConsistent =
    (Returns-value (empty_queue, err no_lease)
      (enqueue-Returns list_log empty_queue "a" "m1" (pos 0) (pos 0) (pos 10) empty-IsConsistent
        refl)).consistent

-- And one that is more urgent.
abbrev two_ready : Queue Log
two_ready =
    (value (one_ready, err no_lease)
      (enqueue list_log one_ready "b" (pos 5) (pos 0) (pos 20) "m2")).0

two_ready-IsConsistent : IsConsistent two_ready
unfolding enqueue new ready ◌+ℤ◌ Heap.push Heap.up MsgHeap.swap MsgHeap.less_at order_by
two_ready-IsConsistent =
    (Returns-value (one_ready, err no_lease)
      (enqueue-Returns list_log one_ready "b" "m2" (pos 5) (pos 0) (pos 20) one_ready-IsConsistent
        refl)).consistent

-- The urgent message comes first.
two_ready-order : two_ready.ready ≡ 2 ∷ 1 ∷ []
unfolding enqueue new ready ◌+ℤ◌ Heap.push Heap.up MsgHeap.swap MsgHeap.less_at order_by
two_ready-order = refl

two_ready-IsFresh : IsFresh token 0 two_ready.leases
unfolding enqueue new ready ◌+ℤ◌ Heap.push Heap.up MsgHeap.swap MsgHeap.less_at order_by lookup
two_ready-IsFresh = record { distinct = token-injective; unused = λ j h. refl }

-- The urgent message is leased for 100 ns.
abbrev pub one_leased : Queue Log
one_leased =
    (value (two_ready, err no_lease)
      (try_receive list_log two_ready (pos 1) (pos 100) (pos 30) token)).0

pub one_leased-IsConsistent : IsConsistent one_leased
one_leased-IsConsistent =
    (Returns-value (two_ready, err no_lease)
      (try_receive-Returns list_log two_ready (pos 1) (pos 100) (pos 30) token
        two_ready-IsConsistent two_ready-IsFresh)).consistent

one_leased-lookup : lookup (token 0) one_leased.leases ≡ some 2
unfolding enqueue new ready ◌+ℤ◌ Heap.push Heap.up MsgHeap.swap MsgHeap.less_at order_by lookup
    try_receive MsgHeap.peek pop_ready Heap.pop Heap.down MsgHeap.pop push_inflight put token
    Heap.remove exhausted inc_int
one_leased-lookup = refl

ack-Returns_example :
    Returns (Acked list_log one_leased 2 (token 0)) (ack list_log one_leased (token 0))
ack-Returns_example =
    ack-Returns list_log one_leased (token 0) 2 one_leased-IsConsistent one_leased-lookup

nack-Returns_example :
    Returns
      (Nacked one_leased 2 (token 0) (pos 40))
      (nack list_log one_leased (token 0) (pos 5) (pos 40))
nack-Returns_example =
    nack-Returns list_log one_leased (token 0) (pos 5) (pos 40) 2 one_leased-IsConsistent
      one_leased-lookup

extend-Returns_example :
    Returns
      (Extended one_leased 2
        (pos 40 +ℤ (if leb_ℤ (pos 7) (pos 0) then visibility one_leased.cfg else pos 7)))
      (extend one_leased (token 0) (pos 7) (pos 40))
extend-Returns_example =
    extend-Returns one_leased (token 0) (pos 7) (pos 40) 2 one_leased-IsConsistent one_leased-lookup

-- The lease has expired by then, and the message has burned through its one attempt.
tick_advances_example : Returns (Advanced one_leased (pos 200)) (tick list_log one_leased (pos 200))
tick_advances_example = tick_advances list_log (pos 200) one_leased one_leased-IsConsistent

try_receive-Returns_example :
    Returns
      (Received list_log two_ready (pos 2) (pos 40) (pos 40 +ℤ pos 100) token)
      (try_receive list_log two_ready (pos 2) (pos 100) (pos 40) token)
try_receive-Returns_example =
    try_receive-Returns list_log two_ready (pos 2) (pos 100) (pos 40) token two_ready-IsConsistent
      two_ready-IsFresh

enqueue-Returns_example :
    Returns
      (Enqueued list_log empty_queue
        (new_msg "m1" "a" (pos 0) (inc_u64 empty_queue.seq) (pos 10) (pos 60))
        (pos 10))
      (enqueue list_log empty_queue "a" (pos 0) (pos 60) (pos 10) "m1")
enqueue-Returns_example =
    enqueue-Returns list_log empty_queue "a" "m1" (pos 0) (pos 60) (pos 10) empty-IsConsistent refl

-- The message that failed for good.
abbrev one_dead : Queue Log
one_dead = (value (one_leased, none) (nack list_log one_leased (token 0) (pos 5) (pos 40))).0

one_dead-IsConsistent : IsConsistent one_dead
one_dead-IsConsistent =
    (Returns-value (one_leased, none)
      (nack-Returns list_log one_leased (token 0) (pos 5) (pos 40) 2 one_leased-IsConsistent
        one_leased-lookup)).consistent

one_dead-dlq : one_dead.dlq ≡ 2 ∷ []
unfolding enqueue new ready ◌+ℤ◌ Heap.push Heap.up MsgHeap.swap MsgHeap.less_at order_by lookup
    try_receive MsgHeap.peek pop_ready Heap.pop Heap.down MsgHeap.pop push_inflight put token
    Heap.remove exhausted inc_int nack
one_dead-dlq = refl

replay_dlq-Returns_example :
    Returns (Replayed (pos 50) one_dead one_dead.dlq 0) (replay_dlq list_log one_dead (pos 50))
replay_dlq-Returns_example = replay_dlq-Returns list_log (pos 50) one_dead one_dead-IsConsistent

new-IsUsable_example : IsUsable jobs empty_queue
new-IsUsable_example = new-IsUsable jobs [] (omega arith)

one_ready-seq : (one_ready.msgs 1).seq ≢ no_msg.seq
unfolding enqueue new ready ◌+ℤ◌ Heap.push Heap.up MsgHeap.swap MsgHeap.less_at order_by inc_u64
one_ready-seq e = absurd (omega (arith, e))

order_by_total_example :
    ((order_by lifo (one_ready.msgs 1) no_msg ≡ true)
      × (order_by lifo no_msg (one_ready.msgs 1) ≡ false))
    ⊎ ((order_by lifo (one_ready.msgs 1) no_msg ≡ false)
        × (order_by lifo no_msg (one_ready.msgs 1) ≡ true))
order_by_total_example = order_by_total lifo (one_ready.msgs 1) no_msg one_ready-seq

-- Three attempts are allowed here.
abbrev patient : Queue Log
patient = new (record jobs { max_attempts = pos 3 }) []

abbrev patient_ready : Queue Log
patient_ready =
    (value (patient, err no_lease) (enqueue list_log patient "a" (pos 0) (pos 0) (pos 10) "m1")).0

patient_ready-IsConsistent : IsConsistent patient_ready
patient_ready-IsConsistent =
    (Returns-value (patient, err no_lease)
      (enqueue-Returns list_log patient "a" "m1" (pos 0) (pos 0) (pos 10)
        (new-IsConsistent (record jobs { max_attempts = pos 3 }) []).0 refl)).consistent

patient_ready-IsFresh : IsFresh token 0 patient_ready.leases
unfolding enqueue new ready ◌+ℤ◌ Heap.push Heap.up MsgHeap.swap MsgHeap.less_at order_by lookup
patient_ready-IsFresh = record { distinct = token-injective; unused = λ j h. refl }

abbrev patient_leased : Queue Log
patient_leased =
    (value (patient_ready, err no_lease)
      (try_receive list_log patient_ready (pos 1) (pos 100) (pos 30) token)).0

patient_leased-IsConsistent : IsConsistent patient_leased
patient_leased-IsConsistent =
    (Returns-value (patient_ready, err no_lease)
      (try_receive-Returns list_log patient_ready (pos 1) (pos 100) (pos 30) token
        patient_ready-IsConsistent patient_ready-IsFresh)).consistent

patient_leased-lookup : lookup (token 0) patient_leased.leases ≡ some 1
unfolding enqueue new ready ◌+ℤ◌ Heap.push Heap.up MsgHeap.swap MsgHeap.less_at order_by lookup
    try_receive MsgHeap.peek pop_ready Heap.pop Heap.down MsgHeap.pop push_inflight put token
    Heap.remove exhausted inc_int
patient_leased-lookup = refl

patient_leased-left : exhausted full_log patient_leased 1 ≡ false
unfolding enqueue new ready ◌+ℤ◌ Heap.push Heap.up MsgHeap.swap MsgHeap.less_at order_by lookup
    try_receive MsgHeap.peek pop_ready Heap.pop Heap.down MsgHeap.pop push_inflight put token
    Heap.remove exhausted inc_int
patient_leased-left = refl

nack_loses_example :
    Returns
      (λ (r : Queue Log × Option Error).
        (r.1 ≡ some (storage "no space left on device"))
        × Perm (1 ∷ held r.0) (held patient_leased))
      (nack full_log patient_leased (token 0) (pos 5) (pos 40))
nack_loses_example =
    nack_loses full_log (storage "no space left on device") (λ w rec. refl) patient_leased (token 0)
      (pos 5) (pos 40) 1 patient_leased-IsConsistent patient_leased-lookup patient_leased-left
