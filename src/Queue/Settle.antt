-- ===== src/Queue/Settle.antt =====
-- Ack, Nack and Extend: the three answers to a lease.
use mathlib.Core.List.{mem-cons_of_mem}
use mathlib.Core.List.Perm
use artie_takehome.Base.{
  ℕ, ◌≡◌, ◌≢◌, refl, sym, ◌∙◌, List, ◌∷◌, Perm, arith, Option, some, none, Returns, returns,
  Returns-bind, Option-cases, inl, inr, String, inc_u64, ◌+ℤ◌, pos, leb_ℤ, if◌then◌else◌,
  str_eq_refl,
}
use artie_takehome.MsgHeap.{MsgHeap, update}
use artie_takehome.Msg.{Msg, Time, Duration, ready}
use artie_takehome.Record.{Error, no_lease, Log, new_record, Op, Result, ok, err, visibility}
use artie_takehome.Queue.{Queue, set_inflight, set_msg, signal_locked}
use artie_takehome.Queue.Leases.{lookup, delete, lookup-delete}
use artie_takehome.Queue.Consume.{ack, nack, extend}
use artie_takehome.Queue.Core.{Core, AreDue, LeasesOf, IsConsistent, held}
use artie_takehome.Queue.Pull.{remove_inflight_lem, fix_inflight_lem}
use artie_takehome.Queue.Release.{Returned, release_lem, inner}
use artie_takehome.Queue.Matching.{LeasesOf-delete, LeasesOf-perm}

-- A receipt is dead once it is deleted.
dead : (k : String) (ls : List (String × ℕ)) → lookup k (delete k ls) ≡ none
dead k ls = rw (lookup-delete k k ls, str_eq_refl)

-- A longer lease does not change when a message is visible.
renewed-ready :
    (msgs : ℕ → Msg) (m x : ℕ) (expiry now : Time)
    → ready (update msgs m (record (msgs m) { lease_expiry = expiry }) x) now ≡ ready (msgs x) now
unfolding ready
renewed-ready msgs m x expiry now = ground arith

module _ {W : Type 0} where
  -- Without a lease under the receipt nothing changes and the caller is told.
  pub settle-no_lease :
      (log : Log W) (q : Queue W) (receipt : String) (d : Duration) (now : Time)
      → lookup receipt q.leases ≡ none
      → (ack log q receipt ≡ some (q, some no_lease))
        × (nack log q receipt d now ≡ some (q, some no_lease))
        × (extend q receipt d now ≡ some (q, err no_lease))
  unfolding ack nack extend
  settle-no_lease log q receipt d now e = (rw (e, ack), rw (e, nack), rw (e, extend))

  -- What Nack leaves of a queue that leases `m` under the receipt.
  pub record Nacked (q : Queue W) (m : ℕ) (receipt : String) (now : Time)
      (r : Queue W × Option Error) : Type 0 where
    pub consistent : IsConsistent r.0
    pub kept : r.1 ≡ none → Perm (held r.0) (held q)
    pub released : Perm (m ∷ r.0.inflight) q.inflight
    pub retired : lookup receipt r.0.leases ≡ none
    pub due : AreDue now q.msgs q.ready → AreDue now r.0.msgs r.0.ready

  nacked :
      (q : Queue W) (m : ℕ) (now : Time) (delay : Duration)
      → (r : Queue W × Option Error) → Returned q m now delay r
      → Returns
          (Nacked q m (q.msgs m).receipt now)
          (elim r.1 [ some x ↦ some (r.0, some x) | none ↦ some (signal_locked r.0, none) ])
  unfolding signal_locked
  nacked q m now delay (r, some x) t = returns (record {
    consistent = t.consistent;
    kept = λ e. absurd (cc);
    released = t.shrunk;
    retired = rw t.leases (dead (q.msgs m).receipt q.leases);
    due = t.due;
  })
  nacked q m now delay (r, none) t = returns (record {
    consistent = record {
      core = t.consistent.core;
      leases = t.consistent.leases;
      allocated = t.consistent.allocated;
    };
    kept = t.kept;
    released = t.shrunk;
    retired = rw t.leases (dead (q.msgs m).receipt q.leases);
    due = t.due;
  })

  -- On a consistent queue Nack of a live lease returns: the message leaves the inflight heap and
  -- its receipt dies, the queue stays consistent, and if no error is reported every message is
  -- still held. If all ready messages were visible at the time, all still are.
  pub nack-Returns :
      (log : Log W) (q : Queue W) (receipt : String) (delay : Duration) (now : Time) (m : ℕ)
      → IsConsistent q
      → lookup receipt q.leases ≡ some m
      → Returns (Nacked q m receipt now) (nack log q receipt delay now)
  unfolding nack
  nack-Returns log q receipt delay now m v e =
      let (k, own) = v.leases.listed receipt m e in
      rw (e, nack)
        (Returns-bind (remove_inflight_lem q m v.core k) λ q1 (h, same, c, all, old).
          rw (same, sym own)
            (Returns-bind
              (release_lem q m v h q.expired (inc_u64 q.nacked) (rw same at c) (rw same at all) old
                log now delay)
              (nacked q m now delay)))

  -- What the log says to the record of an ack of the message.
  abbrev pub ack_logged : Log W → Queue W → ℕ → W × Option Error
  ack_logged log q m =
      log.append_sync q.wal (record (new_record Op.ack q.cfg.name) { id = (q.msgs m).id })

  -- What Ack leaves: it answers what the log does. On success the one message `m` is gone, and on
  -- an error nothing but the log moves.
  pub record Acked (log : Log W) (q : Queue W) (m : ℕ) (receipt : String)
      (r : Queue W × Option Error) : Type 0 where
    pub consistent : IsConsistent r.0
    pub logged : (r.1 ≡ (ack_logged log q m).1) × (r.0.wal ≡ (ack_logged log q m).0)
    pub removed : r.1 ≡ none → Perm (m ∷ held r.0) (held q) × (lookup receipt r.0.leases ≡ none)
    pub refused : r.1 ≢ none → r.0 ≡ record q { wal = r.0.wal }
    pub due : (now : Time) → AreDue now q.msgs q.ready → AreDue now r.0.msgs r.0.ready

  acked :
      (log : Log W) (q : Queue W) (m : ℕ) (v : IsConsistent q) (h : MsgHeap) (n : ℕ)
      → (ack_logged log q m).1 ≡ none
      → Core (set_inflight q h)
      → Perm (m ∷ held (set_inflight q h)) (held q)
      → Perm (m ∷ h.items) q.inflight
      → Acked log q m (q.msgs m).receipt (
        record (set_inflight q h) {
          wal = (ack_logged log q m).0;
          leases = delete (q.msgs m).receipt q.leases;
          acked = n;
        },
        none,
      )
  acked log q m v h n good c all old = record {
    logged = (sym good, refl);
    consistent = record {
      core = c;
      leases =
          LeasesOf-delete q.msgs m h.items q.inflight q.leases (inner q m v h 0 0 c all old) old
            v.leases;
      allocated = λ p k. v.allocated p ((Perm.mem_iff all).0 (mem-cons_of_mem m k));
    };
    removed = λ _. (all, dead (q.msgs m).receipt q.leases);
    refused = λ ne. absurd (ne refl);
    due = λ now d. d;
  }

  failed :
      (log : Log W) (q : Queue W) (m : ℕ) (x : Error)
      → (ack_logged log q m).1 ≡ some x
      → IsConsistent q
      → Acked log q m (q.msgs m).receipt (record q { wal = (ack_logged log q m).0 }, some x)
  failed log q m x bad v = record {
    logged = (sym bad, refl);
    consistent = record { core = v.core; leases = v.leases; allocated = v.allocated };
    removed = λ e. absurd (cc);
    refused = λ _. refl;
    due = λ now d. d;
  }

  -- On a consistent queue Ack of a live lease returns, and answers with an error exactly if the log
  -- gives it for the record of the ack: if the log takes the record, exactly that message leaves
  -- the queue and its receipt dies, and if the log refuses it only the log has changed.
  -- At any time at which all ready messages were visible, all still are.
  pub ack-Returns :
      (log : Log W) (q : Queue W) (receipt : String) (m : ℕ)
      → IsConsistent q
      → lookup receipt q.leases ≡ some m
      → Returns (Acked log q m receipt) (ack log q receipt)
  unfolding ack
  ack-Returns log q receipt m v e =
      let (k, own) = v.leases.listed receipt m e in
      let w = (ack_logged log q m).0 in
      rw (e, ack)
        (elim (Option-cases (ack_logged log q m).1) [
          | inl good ↦
              rw (good, ack)
                (Returns-bind (remove_inflight_lem (record q { wal = w }) m v.core k)
                  λ r (h, same, c, all, old).
                    rw (same, sym own)
                      (returns (
                        acked log q m v h (inc_u64 q.acked) good (rw same at c) (rw same at all)
                          old)))
          | inr (x, bad) ↦ rw (bad, ack, sym own) (returns (failed log q m x bad v))
        ])

  -- What Extend leaves: the lease of `m` runs to the new deadline, and all else is as it was.
  pub record Extended (q : Queue W) (m : ℕ) (expiry : Time) (r : Queue W × Result Time)
      : Type 0 where
    pub consistent : IsConsistent r.0
    pub same : Perm (held r.0) (held q)
    pub frame : r.0 ≡ record q { msgs = r.0.msgs; inflight = r.0.inflight; index = r.0.index }
    pub kept : Perm r.0.inflight q.inflight
    pub answer : r.1 ≡ ok expiry
    pub renewed : r.0.msgs m ≡ record (q.msgs m) { lease_expiry = expiry }
    pub others : (x : ℕ) → x ≢ m → r.0.msgs x ≡ q.msgs x
    pub due : (t : Time) → AreDue t q.msgs q.ready → AreDue t r.0.msgs r.0.ready

  extended :
      (q : Queue W) (m : ℕ) (expiry : Time) (v : IsConsistent q) (h : MsgHeap)
      → let r = set_inflight (set_msg q m (record (q.msgs m) { lease_expiry = expiry })) h in
        Core r
        → Perm h.items q.inflight
        → Perm (held r) (held q)
        → Extended q m expiry (r, ok (r.msgs m).lease_expiry)
  extended q m expiry v h c old all = record {
    consistent = record {
      core = c;
      leases = LeasesOf-perm _ h.items q.inflight q.leases old renewed-leases;
      allocated = λ p k. v.allocated p ((Perm.mem_iff all).0 k);
    };
    same = all;
    frame = refl;
    kept = old;
    answer = ground arith;
    renewed = ground arith;
    others = λ x ne. ground arith;
    due = λ t d x k. renewed-ready q.msgs m x expiry t ∙ d x k;
  }
    where
      msgs : ℕ → Msg
      msgs = update q.msgs m (record (q.msgs m) { lease_expiry = expiry })

      receipts : (x : ℕ) → (msgs x).receipt ≡ (q.msgs x).receipt
      receipts x = ground arith

      renewed-leases : LeasesOf msgs q.inflight q.leases
      renewed-leases = record {
        listed = λ r p e. let (k, at) = v.leases.listed r p e in (k, receipts p ∙ at);
        found = λ p k. rw (receipts p) (v.leases.found p k);
      }

  -- On a consistent queue Extend of a live lease returns the new deadline, which is `duration` from
  -- now or the queue's own visibility if the duration is not positive; of the
  -- messages only this one's deadline is another. Only the inflight heap changes beside it, in the
  -- order of its entries and their indices, and no other field of the queue does. All ready
  -- messages stay visible at any time at which they were.
  pub extend-Returns :
      (q : Queue W) (receipt : String) (duration : Duration) (now : Time) (m : ℕ)
      → IsConsistent q
      → lookup receipt q.leases ≡ some m
      → Returns
          (Extended q m (now +ℤ (if leb_ℤ duration (pos 0) then visibility q.cfg else duration)))
          (extend q receipt duration now)
  unfolding extend
  extend-Returns q receipt duration now m v e =
      let expiry = now +ℤ (if leb_ℤ duration (pos 0) then visibility q.cfg else duration) in
      let (k, own) = v.leases.listed receipt m e in
      rw (e, extend)
        (Returns-bind (fix_inflight_lem q m v.core (record (q.msgs m) { lease_expiry = expiry }) k)
          λ r (h, same, c, old, all).
            rw same (returns (extended q m expiry v h (rw same at c) old (rw same at all))))
