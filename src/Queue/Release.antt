-- ===== src/Queue/Release.antt =====
-- A lease ends, by Nack or by its expiry: the message leaves the inflight heap and the lease map,
-- and goes back through retryLocked.
use mathlib.Core.List.{Nodup-cons, Nodup-append, mem-cons_of_mem, mem-append_left, mem-append_right}
use mathlib.Core.List.Perm
use artie_takehome.Base.{
  ℕ, ◌≡◌, ◌≢◌, ◌∙◌, List, ◌∷◌, ◌++◌, Mem, Perm, Nodup, arith, false, Option, none, ◌⊎◌, inl, inr,
  Returns, Returns-map, ◌+ℤ◌,
}
use artie_takehome.MsgHeap.{MsgHeap, update}
use artie_takehome.Msg.{Msg, Time, Duration, after, ready}
use artie_takehome.Record.{Error, Log}
use artie_takehome.Queue.{Queue, set_inflight, clear_lease, retry_locked}
use artie_takehome.Queue.Leases.{delete}
use artie_takehome.Queue.Core.{Core, Core-msgs, IsConsistent, held, AreDue}
use artie_takehome.Queue.Retry.{Retried, retry_locked_lem}
use artie_takehome.Queue.Matching.{LeasesOf-delete, LeasesOf-msgs}

-- The end of a lease does not change when a message is visible.
clear_lease-ready :
    (msgs : ℕ → Msg) (m x : ℕ) (now : Time)
    → ready (update msgs m (clear_lease (msgs m)) x) now ≡ ready (msgs x) now
unfolding ready
clear_lease-ready msgs m x now = ground arith

module _ {W : Type 0} where
  -- What the end of the lease of `m` leaves.
  pub record Returned (q : Queue W) (m : ℕ) (now : Time) (delay : Duration)
      (r : Queue W × Option Error) : Type 0 where
    pub consistent : IsConsistent r.0
    pub kept : r.1 ≡ none → Perm (held r.0) (held q)
    pub shrunk : Perm (m ∷ r.0.inflight) q.inflight
    pub others : (x : ℕ) → x ≢ m → r.0.msgs x ≡ q.msgs x
    pub prompt : after (now +ℤ delay) now ≡ false → r.0.delayed ≡ q.delayed
    pub leases : r.0.leases ≡ delete (q.msgs m).receipt q.leases
    pub next : r.0.next ≡ q.next
    pub latched : r.0.wal_err ≡ q.wal_err
    pub due : AreDue now q.msgs q.ready → AreDue now r.0.msgs r.0.ready

  -- The queue just before the retry: `a` and `b` are the two counters.
  abbrev pub ended : Queue W → ℕ → MsgHeap → ℕ → ℕ → Queue W
  ended q m h a b = record (set_inflight q h) {
    leases = delete (q.msgs m).receipt q.leases;
    msgs = update q.msgs m (clear_lease (q.msgs m));
    expired = a;
    nacked = b;
  }

  module _ (q : Queue W) (m : ℕ) (v : IsConsistent q) (h : MsgHeap) (a b : ℕ)
      (c : Core (set_inflight q h)) (all : Perm (m ∷ held (set_inflight q h)) (held q))
      (old : Perm (m ∷ h.items) q.inflight) where
    alone : Nodup (m ∷ held (set_inflight q h))
    alone = Perm.nodup (Perm.symm all) v.core.apart

    ended-Core : Core (ended q m h a b)
    ended-Core =
        Core-msgs (set_inflight q h) (update q.msgs m (clear_lease (q.msgs m)))
          (λ x k. other x (λ e. (Nodup-cons.0 alone).0 (rw e at k))) c
      where
        other : (x : ℕ) → x ≢ m → update q.msgs m (clear_lease (q.msgs m)) x ≡ q.msgs x
        other x ne = ground arith

    pub inner : Nodup (m ∷ h.items)
    inner =
        let n = (Nodup-cons.0 alone) in
        Nodup-cons.1 (
          (λ k.
              n.0
                (mem-append_right q.ready (mem-append_right q.delayed (mem-append_left q.dlq k)))),
          (Nodup-append.0 (part q.delayed (part q.ready n.1))).0,
        )
      where
        part : {xs : List ℕ} (ys : List ℕ) → Nodup (ys ++ xs) → Nodup xs
        part {xs} ys n = ((Nodup-append {l₁ = ys} {l₂ = xs}).0 n).1

    returned :
        (now : Time) (delay : Duration) (r : Queue W × Option Error)
        → Retried (ended q m h a b) m now delay r
        → Returned q m now delay r
    returned now delay r t = record {
      consistent = record {
        core = t.core;
        leases =
            rw (t.inflight, t.leases)
              (LeasesOf-msgs q.msgs r.0.msgs h.items (delete (q.msgs m).receipt q.leases)
                (λ x k. others x (λ e. (Nodup-cons.0 inner).0 (rw e at k)))
                (LeasesOf-delete q.msgs m h.items q.inflight q.leases inner old v.leases));
        allocated = λ p k. rw t.next (v.allocated p ((Perm.mem_iff all).0 (within t.whole k)));
      };
      kept = λ e. Perm.trans (t.kept e) all;
      shrunk = rw t.inflight old;
      others = others;
      prompt = t.prompt;
      leases = t.leases;
      next = t.next;
      latched = t.latched;
      due = λ d. t.due λ x k. clear_lease-ready q.msgs m x now ∙ d x k;
    }
      where
        others : (x : ℕ) → x ≢ m → r.0.msgs x ≡ q.msgs x
        others x ne = t.msgs x ne ∙ ground arith

        within :
            {p : ℕ}
            → Perm (held r.0) (m ∷ held (set_inflight q h))
              ⊎ Perm (held r.0) (held (set_inflight q h))
            → Mem p (held r.0)
            → Mem p (m ∷ held (set_inflight q h))
        within (inl s) k = (Perm.mem_iff s).0 k
        within (inr s) k = mem-cons_of_mem m ((Perm.mem_iff s).0 k)

    pub release_lem :
        (log : Log W) (now : Time) (delay : Duration)
        → Returns (Returned q m now delay) (retry_locked log (ended q m h a b) m now delay)
    release_lem log now delay =
        Returns-map (retry_locked_lem (ended q m h a b) m ended-Core alone now delay log)
          (returned now delay)
