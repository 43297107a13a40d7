-- ===== src/Queue/Reclaim.antt =====
-- The reclaiming of expired leases in advanceLocked.
use mathlib.Core.List.{not-mem-nil}
use mathlib.Core.List.Perm
use artie_takehome.Base.{
  ℕ, zero, suc, ◌<◌, ◌≡◌, refl, sym, ◌∙◌, ◌∷◌, Mem, Perm, pos, ◌+ℤ◌, arith, Bool, true, false,
  Option, some, none, Returns, returns, Returns-bind, Returns-map, Returns-if, Option-cases, length,
  length-perm, inc_u64, String, str_eq, if◌then◌else◌, inl, inr,
}
use artie_takehome.MsgHeap.{peek}
use artie_takehome.Msg.{Time, after, by_lease_expiry}
use artie_takehome.Msg.Order.{by_lease_expiry-IsOrder}
use artie_takehome.Record.{Error, Log}
use artie_takehome.Queue.{
  Queue, inflight_less, inflight_heap, first_error, latch, reclaim_one, reclaim,
}
use artie_takehome.Queue.Leases.{lookup, lookup-delete}
use artie_takehome.Queue.Core.{Core, IsConsistent, held, AreDue, Separate, Nodup-Separate}
use artie_takehome.Queue.Pull.{pop_inflight_lem, peek-none, peek-slot, peek-least}
use artie_takehome.Queue.Release.{Returned, release_lem}

-- Nothing is due at the moment itself.
after_now : (now : Time) → after (now +ℤ pos 0) now ≡ false
unfolding ◌+ℤ◌
after_now now = ground arith

latched-first : (old e : Option Error) → first_error old e ≡ none → (old ≡ none) × (e ≡ none)
unfolding first_error
latched-first none e h = (refl, h)
latched-first (some x) e h = absurd (cc)

module _ {W : Type 0} where
  -- What the end of expired leases leaves, seen from the state `q` before.
  pub record Swept (now : Time) (q r : Queue W) : Type 0 where
    pub consistent : IsConsistent r
    pub kept : r.wal_err ≡ none → (q.wal_err ≡ none) × Perm (held r) (held q)
    pub delayed : r.delayed ≡ q.delayed
    pub waiting : (x : ℕ) → Mem x q.delayed → r.msgs x ≡ q.msgs x
    pub next : r.next ≡ q.next
    pub fewer : (k : String) → lookup k q.leases ≡ none → lookup k r.leases ≡ none
    pub due : AreDue now q.msgs q.ready → AreDue now r.msgs r.ready

  pub Swept-refl : (now : Time) (q : Queue W) → IsConsistent q → Swept now q q
  Swept-refl now q v = record {
    consistent = v;
    kept = λ e. (e, Perm.rfl);
    delayed = refl;
    waiting = λ x k. refl;
    next = refl;
    fewer = λ k e. e;
    due = λ d. d;
  }

  Swept-trans : (now : Time) (q s r : Queue W) → Swept now q s → Swept now s r → Swept now q r
  Swept-trans now q s r a b = record {
    consistent = b.consistent;
    kept = λ e.
        let (clean, p) = b.kept e in let (clean', p') = a.kept clean in (clean', Perm.trans p p');
    delayed = b.delayed ∙ a.delayed;
    waiting = λ x k. b.waiting x (rw a.delayed k) ∙ a.waiting x k;
    next = b.next ∙ a.next;
    fewer = λ k e. b.fewer k (a.fewer k e);
    due = λ d. b.due (a.due d);
  }

  module _ (log : Log W) (now : Time) where
    latched-Swept :
        (q : Queue W) (m : ℕ) (r : Queue W × Option Error)
        → Core q
        → Mem m q.inflight
        → Returned q m now (pos 0) r
        → Swept now q (latch log r.0 r.1) × Perm (m ∷ (latch log r.0 r.1).inflight) q.inflight
    unfolding latch
    latched-Swept q m r c k t = (
      record {
        consistent = record {
          core = t.consistent.core;
          leases = t.consistent.leases;
          allocated = t.consistent.allocated;
        };
        kept = λ e.
            let (clean, good) = latched-first r.0.wal_err r.1 e in
            (sym t.latched ∙ clean, t.kept good);
        delayed = t.prompt (after_now now);
        waiting = λ x w. t.others x (λ e. apart.bc x w (rw e k));
        next = t.next;
        due = t.due;
        fewer = λ x e. rw (t.leases, lookup-delete x (q.msgs m).receipt q.leases) (gone x e);
      },
      t.shrunk,
    )
      where
        gone :
            (x : String)
            → lookup x q.leases ≡ none
            → (if str_eq (q.msgs m).receipt x then none else lookup x q.leases) ≡ none
        gone x e = ground arith

        apart : Separate q.ready q.delayed q.inflight
        apart = Nodup-Separate q.ready q.delayed q.inflight q.dlq c.apart

    reclaim_one_lem :
        (q : Queue W) (m : ℕ)
        → IsConsistent q
        → peek q.inflight ≡ some m
        → Returns (λ r. Swept now q r × Perm (m ∷ r.inflight) q.inflight) (reclaim_one log q m now)
    unfolding reclaim_one
    reclaim_one_lem q m v e =
        Returns-bind (pop_inflight_lem q m v.core e) λ q1 ((h, same, c, all, old), _). rw same (
          Returns-bind
            (release_lem q m v h (inc_u64 q.expired) q.nacked (rw same at c) (rw same at all) old
              log now (pos 0))
            λ r t. returns (latched-Swept q m r v.core (peek-slot q.inflight m e).2 t))

    still-live :
        (q : Queue W) (m : ℕ)
        → Core q
        → peek q.inflight ≡ some m
        → after (q.msgs m).lease_expiry now ≡ true
        → (x : ℕ) → Mem x q.inflight
        → after (q.msgs x).lease_expiry now ≡ true
    unfolding by_lease_expiry
    still-live q m c e late x k =
        let least =
          peek-least (inflight_less q) (inflight_heap q) m (by_lease_expiry-IsOrder q.msgs)
            c.inflight_valid e x k in
        ground arith

    -- The loop ends with live leases only.
    pub record Reclaimed (q : Queue W) (r : Queue W × Bool) : Type 0 where
      pub swept : Swept now q r.0
      pub live : (x : ℕ) → Mem x r.0.inflight → after (r.0.msgs x).lease_expiry now ≡ true

    pub reclaim_lem :
        (fuel : ℕ) (q : Queue W) (woke : Bool)
        → IsConsistent q
        → length q.inflight < fuel
        → Returns (Reclaimed q) (reclaim log fuel q now woke)
    unfolding reclaim
    reclaim_lem zero q woke v f = absurd (omega arith)
    reclaim_lem (suc fuel) q woke v f = elim (Option-cases (peek q.inflight)) [
      | inl e ↦
          rw (e, reclaim)
            (returns (record {
              swept = Swept-refl now q v;
              live = λ x k. absurd (not-mem-nil (rw (peek-none q.inflight e) at k));
            }))
      | inr (m, e) ↦
          rw (e, reclaim)
            (Returns-if (after (q.msgs m).lease_expiry now)
              (λ late.
                returns
                  (record { swept = Swept-refl now q v; live = still-live q m v.core e late }))
              λ due. Returns-bind (reclaim_one_lem q m v e) λ s (a, shrunk).
                Returns-map
                  (reclaim_lem fuel s true a.consistent (omega (arith, length-perm shrunk)))
                  λ r b. record { swept = Swept-trans now q s r.0 a b.swept; live = b.live })
    ]
