-- ===== src/Queue/Advance.antt =====
-- advanceLocked and Tick as a whole.
use mathlib.Core.List.Perm
use artie_takehome.Base.{
  ℕ, suc, ◌≡◌, sym, ◌∙◌, ap, Mem, Perm, arith, Bool, true, false, none, Returns, returns,
  Returns-bind, length, if◌then◌else◌, String,
}
use artie_takehome.Msg.{Time, ready, after}
use artie_takehome.Record.{Log}
use artie_takehome.Queue.{Queue, advance_locked, signal_locked, tick}
use artie_takehome.Queue.Leases.{lookup}
use artie_takehome.Queue.Core.{IsConsistent, held, AreDue}
use artie_takehome.Queue.Gate.{Opened, open_gates_lem}
use artie_takehome.Queue.Reclaim.{Reclaimed, reclaim_lem}

module _ {W : Type 0} where
  -- The state `r` after both clocks were read at `now`.
  pub record Advanced (q : Queue W) (now : Time) (r : Queue W) : Type 0 where
    pub consistent : IsConsistent r
    pub kept : r.wal_err ≡ none → (q.wal_err ≡ none) × Perm (held r) (held q)
    pub gated : (x : ℕ) → Mem x r.delayed → ready (r.msgs x) now ≡ false
    pub live : (x : ℕ) → Mem x r.inflight → after (r.msgs x).lease_expiry now ≡ true
    pub next : r.next ≡ q.next
    pub fewer : (k : String) → lookup k q.leases ≡ none → lookup k r.leases ≡ none
    pub due : AreDue now q.msgs q.ready → AreDue now r.msgs r.ready

  module _ (log : Log W) (now : Time) where
    Opened-IsConsistent :
        (q s : Queue W) (woke : Bool) → IsConsistent q → Opened q now (s, woke) → IsConsistent s
    Opened-IsConsistent q s woke v o =
        let (a, b, i, e) = o.keeps in
        record {
          core = o.core;
          leases = rw e v.leases;
          allocated = λ p k. rw e (v.allocated p ((Perm.mem_iff o.same).0 k));
        }

    advanced :
        (q s : Queue W) (woke : Bool)
        → Opened q now (s, woke)
        → (r : Queue W × Bool) → Reclaimed log now s r
        → Advanced q now r.0
    advanced q s woke o r c =
        let (a, b, i, e) = o.keeps in
        record {
          consistent = c.swept.consistent;
          kept = λ clean.
              let (before, p) = c.swept.kept clean in
              (sym (ap (λ (t : Queue W). t.wal_err) e) ∙ before, Perm.trans p o.same);
          gated = λ x k.
              let w = rw c.swept.delayed at k in
              rw (c.swept.waiting x w, ap (λ (t : Queue W). t.msgs) e) (o.gated x w);
          live = c.live;
          next = c.swept.next ∙ ap (λ (t : Queue W). t.next) e;
          due = λ d. c.swept.due (rw (ap (λ (t : Queue W). t.msgs) e) (o.due d));
          fewer = λ k f. c.swept.fewer k (rw (ap (λ (t : Queue W). t.leases) e) f);
        }

    signalled :
        (q r : Queue W) (woke : Bool)
        → Advanced q now r
        → Advanced q now (if woke then signal_locked r else r)
    unfolding signal_locked
    signalled q r true a = record {
      consistent = record {
        core = a.consistent.core;
        leases = a.consistent.leases;
        allocated = a.consistent.allocated;
      };
      kept = a.kept;
      gated = a.gated;
      live = a.live;
      next = a.next;
      fewer = a.fewer;
      due = a.due;
    }
    signalled q r false a = a

    pub advance_locked_lem :
        (q : Queue W) → IsConsistent q → Returns (Advanced q now) (advance_locked log q now)
    unfolding advance_locked
    advance_locked_lem q v =
        Returns-bind (open_gates_lem log now (suc (length q.delayed)) q false v.core (omega arith))
          λ s o.
            Returns-bind
              (reclaim_lem log now (suc (length s.0.inflight)) s.0 s.1
                (Opened-IsConsistent q s.0 s.1 v o) (omega arith))
              λ r c. returns (signalled q r.0 r.1 (advanced q s.0 s.1 o r c))

    -- From a consistent queue Tick returns, without a panic, a consistent queue in which every
    -- delayed message lies in the future and every lease is live; if it leaves no latched error, it
    -- holds exactly the messages that it held before. If all ready messages were visible at the
    -- time, all still are.
    pub tick_advances : (q : Queue W) → IsConsistent q → Returns (Advanced q now) (tick log q now)
    unfolding tick
    tick_advances q v = advance_locked_lem q v
