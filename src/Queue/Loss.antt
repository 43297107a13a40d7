-- ===== src/Queue/Loss.antt =====
-- Nack when the log fails: what becomes of the message.
use artie_takehome.Base.{
  ℕ, ◌≡◌, refl, ◌∷◌, Perm, arith, false, Option, some, none, Returns, returns, Returns-bind, String,
  inc_u64,
}
use artie_takehome.MsgHeap.{MsgHeap, update}
use artie_takehome.Msg.{Time, Duration}
use artie_takehome.Record.{Error, Log, Record}
use artie_takehome.Queue.{
  Queue, set_inflight, clear_lease, retry_locked, exhausted, back_off, signal_locked,
}
use artie_takehome.Queue.Leases.{lookup, delete}
use artie_takehome.Queue.Consume.{nack}
use artie_takehome.Queue.Core.{IsConsistent, held}
use artie_takehome.Queue.Pull.{remove_inflight_lem}

module _ {W : Type 0} (log : Log W) where
  -- The queue once the lease is taken off.
  abbrev unleased : Queue W → ℕ → String → MsgHeap → ℕ → Queue W
  unleased q m receipt h n = record (set_inflight q h) {
    leases = delete receipt q.leases;
    msgs = update q.msgs m (clear_lease (q.msgs m));
    nacked = n;
  }

  exhausted-unleased :
      (q : Queue W) (m : ℕ) (receipt : String) (h : MsgHeap) (n : ℕ)
      → exhausted log q m ≡ false
      → exhausted log (unleased q m receipt h n) m ≡ false
  unfolding exhausted
  exhausted-unleased q m receipt h n e = rw (same) e
    where
      same : (update q.msgs m (clear_lease (q.msgs m)) m).attempts ≡ (q.msgs m).attempts
      same = ground arith

  module _ (x : Error) (fails : (w : W) (rec : Record) → (log.append_sync w rec).1 ≡ some x) where
    back_off_loses :
        (q : Queue W) (m : ℕ) (now : Time) (delay : Duration)
        → Returns (λ r. (r.1 ≡ some x) × (held r.0 ≡ held q)) (back_off log q m now delay)
    unfolding back_off
    back_off_loses q m now delay = rw (fails, back_off) (returns (refl, refl))

    reported :
        (q s : Queue W) (m : ℕ)
        → Perm (m ∷ held s) (held q)
        → (r : Queue W × Option Error) → (r.1 ≡ some x) × (held r.0 ≡ held s)
        → Returns
            (λ (t : Queue W × Option Error). (t.1 ≡ some x) × Perm (m ∷ held t.0) (held q))
            (elim r.1 [ some y ↦ some (r.0, some y) | none ↦ some (signal_locked r.0, none) ])
    reported q s m all (r, e) (bad, same) = rw bad (returns (refl, rw same all))

    -- On a consistent queue Nack of a live lease of a message that has attempts left, on a log that
    -- fails every durable record, reports that error, and the message is nowhere in the queue any
    -- more.
    pub nack_loses :
        (q : Queue W) (receipt : String) (delay : Duration) (now : Time) (m : ℕ)
        → IsConsistent q
        → lookup receipt q.leases ≡ some m
        → exhausted log q m ≡ false
        → Returns
            (λ r. (r.1 ≡ some x) × Perm (m ∷ held r.0) (held q))
            (nack log q receipt delay now)
    unfolding nack retry_locked
    nack_loses q receipt delay now m v e left =
        let (k, own) = v.leases.listed receipt m e in
        rw (e, nack)
          (Returns-bind (remove_inflight_lem q m v.core k) λ q1 (h, same, c, all, old).
            rw (same, exhausted-unleased q m receipt h (inc_u64 q.nacked) left)
              (Returns-bind (back_off_loses (unleased q m receipt h (inc_u64 q.nacked)) m now delay)
                (reported q (unleased q m receipt h (inc_u64 q.nacked)) m (rw same at all))))
