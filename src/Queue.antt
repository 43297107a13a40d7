-- ===== src/Queue.antt =====
-- queue/queue.go: the state of a queue, the calls of its three heaps, and the private steps that
-- file messages into them. The log W is any type with the two appends. Every call of time.Now is an
-- argument `now`, and newID is a function of the call's number.
pub mod Leases
pub mod Produce
pub mod Consume
pub mod Core
pub mod Push
pub mod Pull
pub mod Retry
pub mod Matching
pub mod Release
pub mod Gate
pub mod Reclaim
pub mod Advance
pub mod Settle
pub mod Once
pub mod Arrive
pub mod Deliver
pub mod Replay
pub mod Pick
pub mod Lend
pub mod Commit
pub mod Receive
pub mod Create
pub mod Wait
pub mod Total
pub mod Runs
pub mod Loss
use artie_takehome.Base.{
  ℕ, zero, suc, ◌+◌, ◌≡◌, Bool, true, false, not, ◌&&◌, String, ℤ, pos, negsuc, ◌+ℤ◌, ◌≤ℤ◌, List,
  [], ◌∷◌, ◌++◌, Option, none, some, ◌>>=◌, if◌then◌else◌, ltb_ℤ, leb_ℤ, str_eq, length, inc_u64,
}
use artie_takehome.MsgHeap
use artie_takehome.MsgHeap.{MsgHeap, update}
use artie_takehome.Heap
use artie_takehome.Msg.{
  Msg, Time, Duration, after, ready, order_by, by_visible_at, by_lease_expiry, fifo, zero_time,
}
use artie_takehome.Msg.Order.{through}
use artie_takehome.Record.{Config, Record, new_record, Op, Error, Log}
use Leases.{delete}

-- The heaps' items are pointers into `msgs`, whose messages' indices are `index`; `wake` counts the
-- wake channels that were closed.
pub record Queue (W : Type 0) : Type 0 where
  pub cfg : Config
  pub wal : W
  pub seq : ℕ
  pub ready : List ℕ
  pub delayed : List ℕ
  pub inflight : List ℕ
  pub leases : List (String × ℕ)
  pub dlq : List ℕ
  pub enqueued : ℕ
  pub delivered : ℕ
  pub acked : ℕ
  pub nacked : ℕ
  pub expired : ℕ
  pub wal_err : Option Error
  pub wake : ℕ
  pub msgs : ℕ → Msg
  pub index : ℕ → ℤ
  pub next : ℕ

abbrev pub no_msg : Msg
no_msg = record {
  id = "";
  body = "";
  priority = pos 0;
  seq = 0;
  visible_at = zero_time;
  enqueued_at = zero_time;
  attempts = pos 0;
  receipt = "";
  lease_expiry = zero_time;
}

abbrev default_visibility : Config → ℤ
default_visibility c =
    if leb_ℤ c.visibility_timeout_ms (pos 0) then pos 30000 else c.visibility_timeout_ms

unfoldable pub first_error : Option Error → Option Error → Option Error
first_error none e = e
first_error (some old) e = some old

-- The lease taken off a message.
abbrev pub clear_lease : Msg → Msg
clear_lease m = record m { receipt = ""; lease_expiry = zero_time }

module _ {W : Type 0} where
  unfoldable pub new : Config → W → Queue W
  new c w = record {
    cfg = record c {
      mode = if str_eq c.mode "" then fifo else c.mode;
      visibility_timeout_ms = default_visibility c;
    };
    wal = w;
    seq = 0;
    ready = [];
    delayed = [];
    inflight = [];
    leases = [];
    dlq = [];
    enqueued = 0;
    delivered = 0;
    acked = 0;
    nacked = 0;
    expired = 0;
    wal_err = none;
    wake = 0;
    msgs = λ p. no_msg;
    index = λ p. pos 0;
    next = 1;
  }

  -- The comparators of the three heaps, at the messages as they are.
  abbrev pub ready_less : Queue W → ℕ → ℕ → Bool
  ready_less q = through q.msgs (order_by q.cfg.mode)

  abbrev pub delayed_less : Queue W → ℕ → ℕ → Bool
  delayed_less q = through q.msgs by_visible_at

  abbrev pub inflight_less : Queue W → ℕ → ℕ → Bool
  inflight_less q = through q.msgs by_lease_expiry

  abbrev pub ready_heap : Queue W → MsgHeap
  ready_heap q = record { items = q.ready; index = q.index }

  abbrev pub delayed_heap : Queue W → MsgHeap
  delayed_heap q = record { items = q.delayed; index = q.index }

  abbrev pub inflight_heap : Queue W → MsgHeap
  inflight_heap q = record { items = q.inflight; index = q.index }

  abbrev set_ready : Queue W → MsgHeap → Queue W
  set_ready q h = record q { ready = h.items; index = h.index }

  abbrev set_delayed : Queue W → MsgHeap → Queue W
  set_delayed q h = record q { delayed = h.items; index = h.index }

  abbrev set_inflight : Queue W → MsgHeap → Queue W
  set_inflight q h = record q { inflight = h.items; index = h.index }

  -- heap.Push, heap.Pop, heap.Remove and heap.Fix at the queue's heaps.
  unfoldable pub push_ready : Queue W → ℕ → Option (Queue W)
  push_ready q m = Heap.push (ready_less q) (ready_heap q) m >>= λ h. some (set_ready q h)

  unfoldable pub pop_ready : Queue W → Option (Queue W)
  pop_ready q = Heap.pop (ready_less q) (ready_heap q) >>= λ (h, _). some (set_ready q h)

  unfoldable pub push_delayed : Queue W → ℕ → Option (Queue W)
  push_delayed q m = Heap.push (delayed_less q) (delayed_heap q) m >>= λ h. some (set_delayed q h)

  unfoldable pub pop_delayed : Queue W → Option (Queue W)
  pop_delayed q = Heap.pop (delayed_less q) (delayed_heap q) >>= λ (h, _). some (set_delayed q h)

  unfoldable pub push_inflight : Queue W → ℕ → Option (Queue W)
  push_inflight q m =
      Heap.push (inflight_less q) (inflight_heap q) m >>= λ h. some (set_inflight q h)

  unfoldable pub pop_inflight : Queue W → Option (Queue W)
  pop_inflight q =
      Heap.pop (inflight_less q) (inflight_heap q) >>= λ (h, _). some (set_inflight q h)

  unfoldable pub remove_inflight : Queue W → ℕ → Option (Queue W)
  remove_inflight q m = Heap.remove (inflight_less q) (inflight_heap q) (q.index m) >>= λ (h, _).
      some (set_inflight q h)

  unfoldable pub fix_inflight : Queue W → ℕ → Option (Queue W)
  fix_inflight q m =
      Heap.fix (inflight_less q) (inflight_heap q) (q.index m) >>= λ h. some (set_inflight q h)

  -- A write of a message through its pointer.
  abbrev pub set_msg : Queue W → ℕ → Msg → Queue W
  set_msg q p m = record q { msgs = update q.msgs p m }

  unfoldable pub signal_locked : Queue W → Queue W
  signal_locked q = record q { wake = q.wake + 1 }

  unfoldable pub place_locked : Queue W → ℕ → Time → Option (Queue W)
  unfolding push_ready push_delayed
  place_locked q m now = if ready (q.msgs m) now then push_ready q m else push_delayed q m

  module _ (log : Log W) where
    abbrev pub log_sync : Queue W → Record → Queue W × Option Error
    log_sync q rec = let (w, e) = log.append_sync q.wal rec in (record q { wal = w }, e)

    abbrev pub log_append : Queue W → Record → Queue W × Option Error
    log_append q rec = let (w, e) = log.append q.wal rec in (record q { wal = w }, e)

    -- Whether the message has burned through its attempts.
    unfoldable pub exhausted : Queue W → ℕ → Bool
    exhausted q m = ltb_ℤ (pos 0) q.cfg.max_attempts && leb_ℤ q.cfg.max_attempts (q.msgs m).attempts

    park : Queue W → ℕ → Time → Option (Queue W × Option Error)
    unfolding place_locked
    park q m now =
        let (q', e) = log_sync q (record (new_record Op.dlq q.cfg.name) { id = (q.msgs m).id }) in
        elim e [
          | some x ↦
              place_locked (set_msg q' m (record (q.msgs m) { visible_at = now })) m now >>= λ q''.
              some (q'', some x)
          | none ↦ some (record q' { dlq = q'.dlq ++ m ∷ [] }, none)
        ]

    back_off : Queue W → ℕ → Time → Duration → Option (Queue W × Option Error)
    unfolding place_locked
    back_off q m now delay =
        let msg = record (q.msgs m) { visible_at = now +ℤ delay } in
        let (q', e) =
          log_sync (set_msg q m msg)
            (record (new_record Op.nack q.cfg.name) { id = msg.id; msg = some msg }) in
        elim e [
          | some x ↦ some (q', some x)
          | none ↦ place_locked q' m now >>= λ q''. some (q'', none)
        ]

    unfoldable pub retry_locked : Queue W → ℕ → Time → Duration → Option (Queue W × Option Error)
    unfolding park back_off
    retry_locked q m now delay = if exhausted q m then park q m now else back_off q m now delay

    -- The delay gate: whether it woke anyone is the second result. Each round takes a message off.
    unfoldable pub open_gates : ℕ → Queue W → Time → Bool → Option (Queue W × Bool)
    open_gates zero q now woke = none
    open_gates (suc fuel) q now woke = elim (MsgHeap.peek q.delayed) [
      | none ↦ some (q, woke)
      | some m ↦
          let next =
            pop_delayed q >>= λ q1. push_ready q1 m >>= λ q2. open_gates fuel q2 now true in
          if not (ready (q.msgs m) now) then some (q, woke) else next
    ]

    -- A background error is kept if it is the first.
    unfoldable pub latch : Queue W → Option Error → Queue W
    unfolding first_error
    latch q e = record q { wal_err = first_error q.wal_err e }

    -- One expired lease: off the heap and the map, and back through `retry_locked`.
    unfoldable pub reclaim_one : Queue W → ℕ → Time → Option (Queue W)
    unfolding pop_inflight retry_locked latch
    reclaim_one q m now = pop_inflight q >>= λ q1.
        let msg = q1.msgs m in
        let q2 = record q1 {
          leases = delete msg.receipt q1.leases;
          msgs = update q1.msgs m (clear_lease msg);
          expired = inc_u64 q1.expired;
        } in
        retry_locked q2 m now (pos 0) >>= λ (q3, e). some (latch q3 e)

    unfoldable pub reclaim : ℕ → Queue W → Time → Bool → Option (Queue W × Bool)
    reclaim zero q now woke = none
    reclaim (suc fuel) q now woke = elim (MsgHeap.peek q.inflight) [
      | none ↦ some (q, woke)
      | some m ↦
          let next = reclaim_one q m now >>= λ q'. reclaim fuel q' now true in
          if after (q.msgs m).lease_expiry now then some (q, woke) else next
    ]

    unfoldable pub advance_locked : Queue W → Time → Option (Queue W)
    unfolding open_gates reclaim reclaim_one pop_delayed push_ready
    advance_locked q now = open_gates (suc (length q.delayed)) q now false >>= λ (q1, woke1).
        reclaim (suc (length q1.inflight)) q1 now woke1 >>= λ (q2, woke2).
        some (if woke2 then signal_locked q2 else q2)

    unfoldable pub tick : Queue W → Time → Option (Queue W)
    unfolding advance_locked
    tick q now = advance_locked q now
