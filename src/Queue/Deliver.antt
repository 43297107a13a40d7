-- ===== src/Queue/Deliver.antt =====
-- Enqueue: how messages come in.
use mathlib.Core.List.{mem-append_left}
use artie_takehome.Base.{
  ℕ, ◌+◌, ◌≡◌, refl, ◌∙◌, ap, ◌∷◌, ◌++◌, Perm, arith, true, false, not, ◌&&◌, some, none, Returns,
  returns, Returns-bind, Option-cases, inl, inr, String, ℤ, pos, eqb_ℤ, inc_u64,
}
use artie_takehome.MsgHeap.{update}
use artie_takehome.Msg.{Msg, Time, Duration, ready}
use artie_takehome.Record.{Error, priority_disabled, Log, new_record, Op, Result, ok, err}
use artie_takehome.Queue.{Queue, signal_locked}
use artie_takehome.Queue.Produce.{enqueue, new_msg}
use artie_takehome.Queue.Core.{IsConsistent, AreDue, held}
use artie_takehome.Queue.Arrive.{
  logged, fresh, written, logged-Core, logged-leases, filed-IsConsistent,
}
use artie_takehome.Queue.Push.{Placed, Placed-AreDue, place_locked_lem}

module _ {W : Type 0} where
  -- A queue without priority refuses one, and nothing has changed.
  pub enqueue-disabled :
      (log : Log W) (q : Queue W) (body id : String) (priority : ℤ) (delay : Duration) (now : Time)
      → eqb_ℤ priority (pos 0) ≡ false
      → q.cfg.priority ≡ false
      → enqueue log q body priority delay now id ≡ some (q, err priority_disabled)
  unfolding enqueue
  enqueue-disabled log q body id priority delay now e f = rw (e, f)

  -- What Enqueue leaves: `msg` at the new pointer if the answer is ok, else no new message.
  pub record Enqueued (log : Log W) (q : Queue W) (msg : Msg) (now : Time)
      (r : Queue W × Result Msg) : Type 0 where
    pub consistent : IsConsistent r.0
    pub numbered : r.0.seq ≡ inc_u64 q.seq
    pub stored :
        (m : Msg)
        → r.1 ≡ ok m
        → (m ≡ msg)
          × (r.0.msgs q.next ≡ msg)
          × Perm (held r.0) (q.next ∷ held q)
          × (ready msg now ≡ true → Perm r.0.ready (q.next ∷ q.ready))
          × (ready msg now ≡ false → Perm r.0.delayed (q.next ∷ q.delayed))
          × ((log.append_sync q.wal
                (record (new_record Op.enqueue q.cfg.name) { msg = some msg })).1
              ≡ none)
    pub refused : (e : Error) → r.1 ≡ err e → held r.0 ≡ held q
    pub due : AreDue now q.msgs q.ready → AreDue now r.0.msgs r.0.ready

  module _ (log : Log W) (q : Queue W) (v : IsConsistent q) (msg : Msg) (now : Time) where
    -- The finishing state: signalled, with one more message counted.
    abbrev finished : Queue W → ℕ → Queue W
    finished r n = record r { enqueued = n; wake = r.wake + 1 }

    unwritten : AreDue now q.msgs q.ready → AreDue now (update q.msgs q.next msg) q.ready
    unwritten d x k =
        rw (written q v msg x (mem-append_left (q.delayed ++ (q.inflight ++ q.dlq)) k)) (d x k)

    stored-Enqueued :
        (w : W) (r : Queue W) (n : ℕ)
        → ((log.append_sync q.wal (record (new_record Op.enqueue q.cfg.name) { msg = some msg })).1
            ≡ none)
        → Placed
            (logged q v msg (inc_u64 q.seq) w)
            q.next
            (logged-Core q v msg (inc_u64 q.seq) w)
            (fresh q v msg)
            now
            r
        → Enqueued log q msg now (finished r n, ok (r.msgs q.next))
    stored-Enqueued w r n good p =
        let (a, b, i, e) = p.keeps in
        let here : (logged q v msg (inc_u64 q.seq) w).msgs q.next ≡ msg = ground arith in
        let there : r.msgs q.next ≡ msg = ap (λ (t : Queue W). t.msgs q.next) e ∙ here in
        record {
          consistent =
              let f = filed-IsConsistent q v msg now (inc_u64 q.seq) w r p in
              record { core = f.core; leases = f.leases; allocated = f.allocated };
          numbered = ap (λ (t : Queue W). t.seq) e;
          stored = λ m same. (
            ground arith,
            there,
            p.same,
            (λ due. p.at_once (rw here due)),
            (λ late. (p.late (rw here late)).1),
            good,
          );
          refused = λ x bad. absurd (cc);
          due = λ d. rw (ap (λ (t : Queue W). t.msgs) e) (
              Placed-AreDue (logged q v msg (inc_u64 q.seq) w) q.next
                (logged-Core q v msg (inc_u64 q.seq) w) (fresh q v msg) now r p (unwritten d));
        }

    refused-Enqueued :
        (w : W) (x : Error) → Enqueued log q msg now (logged q v msg (inc_u64 q.seq) w, err x)
    refused-Enqueued w x = record {
      consistent = record {
        core = logged-Core q v msg (inc_u64 q.seq) w;
        leases = logged-leases q v msg;
        allocated = λ p k. omega (arith, v.allocated p k);
      };
      numbered = refl;
      stored = λ m bad. absurd (cc);
      refused = λ e same. refl;
      due = unwritten;
    }

  -- On a consistent queue Enqueue that the queue's configuration allows returns: the answer is ok
  -- only if the log took the record, and then the queue holds one more message, which is ready or
  -- delayed as its delay says; on an error it holds no new message. The sequence number is used up
  -- in both cases. If all ready messages were visible at the time, all still are.
  pub enqueue-Returns :
      (log : Log W) (q : Queue W) (body id : String) (priority : ℤ) (delay : Duration) (now : Time)
      → IsConsistent q
      → not (eqb_ℤ priority (pos 0)) && not q.cfg.priority ≡ false
      → Returns
          (Enqueued log q (new_msg id body priority (inc_u64 q.seq) now delay) now)
          (enqueue log q body priority delay now id)
  unfolding enqueue signal_locked
  enqueue-Returns log q body id priority delay now v allowed =
      let msg = new_msg id body priority (inc_u64 q.seq) now delay in
      let rec = record (new_record Op.enqueue q.cfg.name) { msg = some msg } in
      let w = (log.append_sync q.wal rec).0 in
      rw allowed (elim (Option-cases (log.append_sync q.wal rec).1) [
        | inl good ↦
            rw (good, enqueue)
              (Returns-bind
                (place_locked_lem (logged q v msg (inc_u64 q.seq) w) q.next
                  (logged-Core q v msg (inc_u64 q.seq) w) (fresh q v msg) now)
                λ r p. returns (stored-Enqueued log q v msg now w r (inc_u64 r.enqueued) good p))
        | inr (x, bad) ↦ rw (bad, enqueue) (returns (refused-Enqueued log q v msg now w x))
      ])
