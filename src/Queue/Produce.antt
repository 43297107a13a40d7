-- ===== src/Queue/Produce.antt =====
-- queue/queue.go: Enqueue, ReplayDLQ and Stats.
use artie_takehome.Base.{
  ℕ, zero, suc, ◌+◌, ◌/◌, Bool, not, ◌&&◌, ◌||◌, String, ℤ, pos, negsuc, ◌+ℤ◌, ◌-ℤ◌, List, [], ◌∷◌,
  Option, none, some, ◌>>=◌, if◌then◌else◌, eqb_ℤ, length, inc_u64,
}
use artie_takehome.MsgHeap.{update}
use artie_takehome.Msg.{Msg, Mode, Time, Duration, before, zero_time}
use artie_takehome.Record.{new_record, Op, Error, priority_disabled, Result, ok, err, Log}
use artie_takehome.Queue.{Queue, no_msg, set_msg, place_locked, signal_locked, log_sync}

-- A snapshot; `degraded` is the latched error.
pub record Stats : Type 0 where
  pub name : String
  pub mode : Mode
  pub priority : Bool
  pub ready : ℕ
  pub delayed : ℕ
  pub inflight : ℕ
  pub dlq : ℕ
  pub enqueued : ℕ
  pub delivered : ℕ
  pub acked : ℕ
  pub nacked : ℕ
  pub expired : ℕ
  pub oldest_ready_age_ms : ℤ
  pub degraded : Option Error

-- The message that Enqueue makes.
abbrev pub new_msg : String → String → ℤ → ℕ → Time → Duration → Msg
new_msg id body priority seq now delay = record no_msg {
  id = id;
  body = body;
  priority = priority;
  seq = seq;
  visible_at = now +ℤ delay;
  enqueued_at = now;
}

-- The earliest EnqueuedAt of the messages, from the zero time on.
oldest_of : (ℕ → Msg) → Time → List ℕ → Time
oldest_of msgs oldest [] = oldest
oldest_of msgs oldest (m ∷ items) =
    oldest_of msgs
      (if eqb_ℤ oldest zero_time || before (msgs m).enqueued_at oldest
        then (msgs m).enqueued_at
        else oldest)
      items

-- Milliseconds of a Duration, which rounds towards zero.
milliseconds : Duration → ℤ
milliseconds (pos n) = pos (n / 1_000_000)
milliseconds (negsuc n) = pos 0 -ℤ pos (suc n / 1_000_000)

module _ {W : Type 0} where
  unfoldable pub stats : Queue W → Time → Stats
  unfolding oldest_of milliseconds
  stats q now =
      let oldest = oldest_of q.msgs zero_time q.ready in
      record {
        name = q.cfg.name;
        mode = q.cfg.mode;
        priority = q.cfg.priority;
        ready = length q.ready;
        delayed = length q.delayed;
        inflight = length q.inflight;
        dlq = length q.dlq;
        enqueued = q.enqueued;
        delivered = q.delivered;
        acked = q.acked;
        nacked = q.nacked;
        expired = q.expired;
        degraded = q.wal_err;
        oldest_ready_age_ms =
            if eqb_ℤ oldest zero_time then pos 0 else milliseconds (now -ℤ oldest);
      }

  module _ (log : Log W) where
    -- `id` is what newID returns. A message whose record is not logged stays unreachable.
    unfoldable pub enqueue :
        Queue W → String → ℤ → Duration → Time → String → Option (Queue W × Result Msg)
    unfolding place_locked signal_locked
    enqueue q body priority delay now id =
        let seq = inc_u64 q.seq in
        let msg = new_msg id body priority seq now delay in
        let m = q.next in
        let q1 = record q { seq = seq; msgs = update q.msgs m msg; next = m + 1 } in
        let (q2, e) =
          log_sync log q1 (record (new_record Op.enqueue q.cfg.name) { msg = some msg }) in
        if not (eqb_ℤ priority (pos 0)) && not q.cfg.priority
        then some (q, err priority_disabled)
        else elim e [
          | some x ↦ some (q2, err x)
          | none ↦ place_locked q2 m now >>= λ q3.
              some (signal_locked (record q3 { enqueued = inc_u64 q3.enqueued }), ok (q3.msgs m))
        ]

    -- The loop over the dead letters: how many were replayed, and the error that stopped it.
    unfoldable pub replay_loop : Queue W → List ℕ → Time → ℕ → Option (Queue W × ℕ × Option Error)
    replay_loop q [] now done = some (record q { dlq = [] }, done, none)
    replay_loop q (m ∷ ms) now done =
        let (q1, e) =
          log_sync log q (record (new_record Op.replay q.cfg.name) { id = (q.msgs m).id }) in
        elim e [
          | some x ↦ some (record q1 { dlq = m ∷ ms }, done, some x)
          | none ↦
              place_locked
                (set_msg q1 m (record (q1.msgs m) { attempts = pos 0; visible_at = now })) m now
              >>= λ q2. replay_loop q2 ms now (done + 1)
        ]

    unfoldable pub replay_dlq : Queue W → Time → Option (Queue W × ℕ × Option Error)
    unfolding replay_loop place_locked signal_locked
    replay_dlq q now = replay_loop q q.dlq now 0 >>= λ (q', done, e).
        some (elim done [ zero ↦ q' | suc n ↦ signal_locked q' ], done, e)
