-- ===== src/Queue/Retry.antt =====
-- retryLocked: a message outside the queue comes back, is parked, or is lost with the log's error.
use mathlib.Core.List.{Nodup-cons, mem-append_left}
use mathlib.Core.List.Perm
use artie_takehome.Base.{
  ℕ, ◌≡◌, ◌≢◌, refl, ap, [], ◌∷◌, ◌++◌, Mem, Perm, Nodup, arith, true, false, Option, some, none,
  ◌⊎◌, inl, inr, Returns, returns, Returns-bind, Returns-if, Option-cases, ◌+ℤ◌,
}
use artie_takehome.MsgHeap.{update}
use artie_takehome.Msg.{Msg, Time, Duration, ready, after}
use artie_takehome.Record.{Error, Log, new_record, Op}
use artie_takehome.Queue.{Queue, set_msg, exhausted, park, back_off, retry_locked}
use artie_takehome.Queue.Core.{Core, Core-msgs, held, held-dlq, AreDue}
use artie_takehome.Queue.Push.{Placed, Placed-AreDue, place_locked_lem}

module _ {W : Type 0} where
  -- What a retry of the loose message `m` leaves.
  pub record Retried (q : Queue W) (m : ℕ) (now : Time) (delay : Duration)
      (r : Queue W × Option Error) : Type 0 where
    pub core : Core r.0
    pub kept : r.1 ≡ none → Perm (held r.0) (m ∷ held q)
    pub whole : Perm (held r.0) (m ∷ held q) ⊎ Perm (held r.0) (held q)
    pub leases : r.0.leases ≡ q.leases
    pub inflight : r.0.inflight ≡ q.inflight
    pub msgs : (x : ℕ) → x ≢ m → r.0.msgs x ≡ q.msgs x
    pub next : r.0.next ≡ q.next
    pub prompt : after (now +ℤ delay) now ≡ false → r.0.delayed ≡ q.delayed
    pub latched : r.0.wal_err ≡ q.wal_err
    pub due : AreDue now q.msgs q.ready → AreDue now r.0.msgs r.0.ready

  module _ (q : Queue W) (m : ℕ) (c : Core q) (n : Nodup (m ∷ held q)) (now : Time)
      (delay : Duration) where
    written : (msg : Msg) → Core (set_msg q m msg)
    written msg =
        Core-msgs q (update q.msgs m msg) (λ x k. other x (λ e. (Nodup-cons.0 n).0 (rw e at k))) c
      where
        other : (x : ℕ) → x ≢ m → update q.msgs m msg x ≡ q.msgs x
        other x ne = ground arith

    -- A write to `m` leaves the ready messages as they are.
    written-AreDue :
        (msg : Msg) → AreDue now q.msgs q.ready → AreDue now (update q.msgs m msg) q.ready
    written-AreDue msg d x k =
        let there : Mem x (held q) = mem-append_left (q.delayed ++ (q.inflight ++ q.dlq)) k in
        rw (other x λ e. (Nodup-cons.0 n).0 (rw e at there)) (d x k)
      where
        other : (x : ℕ) → x ≢ m → update q.msgs m msg x ≡ q.msgs x
        other x ne = ground arith

    -- Filing `m` again after a write to it, with the error `e` of the log.
    Placed-Retried :
        (msg : Msg) (w : W) (e : Option Error) (r : Queue W)
        → Placed (record (set_msg q m msg) { wal = w }) m (written msg) n now r
        → (after (now +ℤ delay) now ≡ false → ready (update q.msgs m msg m) now ≡ true)
        → Retried q m now delay (r, e)
    Placed-Retried msg w e r p due =
        let (ready, delayed, index, same) = p.keeps in
        record {
          core = p.core;
          kept = λ _. p.same;
          whole = inl p.same;
          leases = ap (λ (s : Queue W). s.leases) same;
          inflight = ap (λ (s : Queue W). s.inflight) same;
          msgs = λ x ne. rw same (ground arith);
          next = ap (λ (s : Queue W). s.next) same;
          prompt = λ f. p.prompt (due f);
          latched = ap (λ (s : Queue W). s.wal_err) same;
          due = λ d. rw (ap (λ (s : Queue W). s.msgs) same) (
              Placed-AreDue (record (set_msg q m msg) { wal = w }) m (written msg) n now r p
                (written-AreDue msg d));
        }

    parked-Retried :
        (w : W) → Retried q m now delay (record q { wal = w; dlq = q.dlq ++ m ∷ [] }, none)
    parked-Retried w =
        let same = held-dlq q m in
        record {
          core = record {
            ready_valid = c.ready_valid;
            delayed_valid = c.delayed_valid;
            inflight_valid = c.inflight_valid;
            apart = Perm.nodup (Perm.symm same) n;
          };
          kept = λ _. same;
          whole = inl same;
          leases = refl;
          inflight = refl;
          msgs = λ x ne. refl;
          next = refl;
          latched = refl;
          due = λ d. d;
          prompt = λ _. refl;
        }

    -- The message that the log would not take back is in no heap.
    lost-Retried :
        (msg : Msg) (w : W) (x : Error)
        → Retried q m now delay (record (set_msg q m msg) { wal = w }, some x)
    lost-Retried msg w x = record {
      core = written msg;
      kept = λ e. absurd (cc);
      whole = inr Perm.rfl;
      leases = refl;
      inflight = refl;
      msgs = λ y ne. ground arith;
      next = refl;
      latched = refl;
      due = λ d. written-AreDue msg d;
      prompt = λ _. refl;
    }

    module _ (log : Log W) where
      park_lem : Returns (Retried q m now delay) (park log q m now)
      unfolding park ready
      park_lem =
          let rec = record (new_record Op.dlq q.cfg.name) { id = (q.msgs m).id } in
          let msg = record (q.msgs m) { visible_at = now } in
          let w = (log.append_sync q.wal rec).0 in
          elim (Option-cases (log.append_sync q.wal rec).1) [
            | inl e ↦ rw (e, park) (returns (parked-Retried w))
            | inr (x, e) ↦
                rw (e, park)
                  (Returns-bind
                    (place_locked_lem (record (set_msg q m msg) { wal = w }) m (written msg) n now)
                    λ r p. returns (Placed-Retried msg w (some x) r p (λ f. ground arith)))
          ]

      back_off_lem : Returns (Retried q m now delay) (back_off log q m now delay)
      unfolding back_off ready
      back_off_lem =
          let msg = record (q.msgs m) { visible_at = now +ℤ delay } in
          let rec = record (new_record Op.nack q.cfg.name) { id = msg.id; msg = some msg } in
          let w = (log.append_sync q.wal rec).0 in
          elim (Option-cases (log.append_sync q.wal rec).1) [
            | inl e ↦
                rw (e, back_off)
                  (Returns-bind
                    (place_locked_lem (record (set_msg q m msg) { wal = w }) m (written msg) n now)
                    λ r p. returns (Placed-Retried msg w none r p (λ f. ground arith)))
            | inr (x, e) ↦ rw (e, back_off) (returns (lost-Retried msg w x))
          ]

      pub retry_locked_lem : Returns (Retried q m now delay) (retry_locked log q m now delay)
      unfolding retry_locked
      retry_locked_lem = Returns-if (exhausted log q m) (λ _. park_lem) (λ _. back_off_lem)
