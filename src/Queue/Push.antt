-- ===== src/Queue/Push.antt =====
-- A message pushed onto one of the queue's heaps.
use mathlib.Core.List.Perm
use artie_takehome.Base.{
  ℕ, ◌≡◌, refl, ap, List, ◌∷◌, Perm, Nodup, ℤ, true, false, Returns, returns, Returns-bind,
  Returns-map, Returns-if, Bool-cases, inl, inr,
}
use artie_takehome.MsgHeap.{MsgHeap}
use artie_takehome.Msg.{Time}
use artie_takehome.Msg.{ready}
use artie_takehome.Msg.Order.{order_by-IsOrder, by_visible_at-IsOrder, by_lease_expiry-IsOrder}
use artie_takehome.Heap.Calls.{Pushed, push_lem}
use artie_takehome.Heap.Locate.{IsValid-index}
use artie_takehome.Queue.{
  Queue, ready_less, delayed_less, inflight_less, ready_heap, delayed_heap, inflight_heap,
  set_ready, set_delayed, set_inflight, push_ready, push_delayed, push_inflight, place_locked,
}
use artie_takehome.Queue.Core.{
  Core, Loose, Separate, held, Nodup-Separate, Nodup-Loose, Mem-cons_elim, held-ready, held-delayed,
  held-inflight, AreDue, AreDue-perm,
}

module _ {W : Type 0} (q : Queue W) (m : ℕ) (c : Core q) (n : Nodup (m ∷ held q)) where
  -- The queue after the push, which holds `m` too.
  abbrev pub Filed : (MsgHeap → Queue W) → List ℕ → Queue W → Type 0
  Filed place old r =
      (h : MsgHeap) × (r ≡ place h) × Core r × Perm (held r) (m ∷ held q) × Perm h.items (m ∷ old)

  sep : Separate q.ready q.delayed q.inflight
  sep = Nodup-Separate q.ready q.delayed q.inflight q.dlq c.apart

  loose : Loose q m
  loose = Nodup-Loose q m n

  ready-Filed :
      (h : MsgHeap)
      → Pushed (ready_less q) (ready_heap q) m h
      → Filed (set_ready q) q.ready (set_ready q h)
  ready-Filed h p =
      let same = held-ready q h.items (m ∷ q.ready) p.same in
      (
        h,
        refl,
        record {
          ready_valid = p.valid;
          delayed_valid =
              IsValid-index _ (delayed_heap q) h.index
                (λ x k.
                  p.others x
                    (Mem-cons_elim q.ready (λ e. loose.delayed (rw e at k)) (λ a. sep.ab x a k)))
                c.delayed_valid;
          inflight_valid =
              IsValid-index _ (inflight_heap q) h.index
                (λ x k.
                  p.others x
                    (Mem-cons_elim q.ready (λ e. loose.inflight (rw e at k)) (λ a. sep.ac x a k)))
                c.inflight_valid;
          apart = Perm.nodup (Perm.symm same) n;
        },
        same,
        p.same,
      )

  pub push_ready_lem : Returns (Filed (set_ready q) q.ready) (push_ready q m)
  unfolding push_ready
  push_ready_lem =
      Returns-bind
        (push_lem (ready_less q) (order_by-IsOrder q.cfg.mode q.msgs) (ready_heap q) m c.ready_valid
          loose.ready)
        λ h p. returns (ready-Filed h p)

  delayed-Filed :
      (h : MsgHeap)
      → Pushed (delayed_less q) (delayed_heap q) m h
      → Filed (set_delayed q) q.delayed (set_delayed q h)
  delayed-Filed h p =
      let same = held-delayed q m h.items q.delayed p.same in
      (
        h,
        refl,
        record {
          ready_valid =
              IsValid-index _ (ready_heap q) h.index
                (λ x k.
                  p.others x (Mem-cons_elim q.delayed (λ e. loose.ready (rw e at k)) (sep.ab x k)))
                c.ready_valid;
          delayed_valid = p.valid;
          inflight_valid =
              IsValid-index _ (inflight_heap q) h.index
                (λ x k.
                  p.others x
                    (Mem-cons_elim q.delayed (λ e. loose.inflight (rw e at k)) (λ a. sep.bc x a k)))
                c.inflight_valid;
          apart = Perm.nodup (Perm.symm same) n;
        },
        same,
        p.same,
      )

  pub push_delayed_lem : Returns (Filed (set_delayed q) q.delayed) (push_delayed q m)
  unfolding push_delayed
  push_delayed_lem =
      Returns-bind
        (push_lem (delayed_less q) (by_visible_at-IsOrder q.msgs) (delayed_heap q) m c.delayed_valid
          loose.delayed)
        λ h p. returns (delayed-Filed h p)

  inflight-Filed :
      (h : MsgHeap)
      → Pushed (inflight_less q) (inflight_heap q) m h
      → Filed (set_inflight q) q.inflight (set_inflight q h)
  inflight-Filed h p =
      let same = held-inflight q m h.items q.inflight p.same in
      (
        h,
        refl,
        record {
          ready_valid =
              IsValid-index _ (ready_heap q) h.index
                (λ x k.
                  p.others x (Mem-cons_elim q.inflight (λ e. loose.ready (rw e at k)) (sep.ac x k)))
                c.ready_valid;
          delayed_valid =
              IsValid-index _ (delayed_heap q) h.index
                (λ x k.
                  p.others x
                    (Mem-cons_elim q.inflight (λ e. loose.delayed (rw e at k)) (sep.bc x k)))
                c.delayed_valid;
          inflight_valid = p.valid;
          apart = Perm.nodup (Perm.symm same) n;
        },
        same,
        p.same,
      )

  pub push_inflight_lem : Returns (Filed (set_inflight q) q.inflight) (push_inflight q m)
  unfolding push_inflight
  push_inflight_lem =
      Returns-bind
        (push_lem (inflight_less q) (by_lease_expiry-IsOrder q.msgs) (inflight_heap q) m
          c.inflight_valid loose.inflight)
        λ h p. returns (inflight-Filed h p)

  -- What filing a message changes: the ready and delayed heaps alone.
  pub record Placed (now : Time) (r : Queue W) : Type 0 where
    pub core : Core r
    pub same : Perm (held r) (m ∷ held q)
    pub keeps :
        (ready delayed : List ℕ) × (index : ℕ → ℤ) × (r
          ≡ record q { ready = ready; delayed = delayed; index = index })
    pub prompt : ready (q.msgs m) now ≡ true → r.delayed ≡ q.delayed
    pub at_once : ready (q.msgs m) now ≡ true → Perm r.ready (m ∷ q.ready)
    pub late : ready (q.msgs m) now ≡ false → (r.ready ≡ q.ready) × Perm r.delayed (m ∷ q.delayed)

  -- The gate decides, and either heap takes the message.
  pub place_locked_lem : (now : Time) → Returns (Placed now) (place_locked q m now)
  unfolding place_locked
  place_locked_lem now =
      Returns-if (ready (q.msgs m) now)
        (λ e. Returns-map push_ready_lem λ r (h, same, core, perm, old). record {
          core = core;
          same = perm;
          keeps = (h.items, q.delayed, h.index, same);
          prompt = λ _. ap (λ (s : Queue W). s.delayed) same;
          at_once = λ _. rw same old;
          late = λ f. absurd (cc);
        })
        λ e. Returns-map push_delayed_lem λ r (h, same, core, perm, old). record {
          core = core;
          same = perm;
          keeps = (q.ready, h.items, h.index, same);
          prompt = λ due. absurd (cc);
          at_once = λ due. absurd (cc);
          late = λ _. (ap (λ (s : Queue W). s.ready) same, rw same old);
        }

  -- What was visible stays so, and the message joins the ready ones only if it is visible.
  pub Placed-AreDue :
      (now : Time) (r : Queue W)
      → Placed now r
      → AreDue now q.msgs q.ready
      → AreDue now q.msgs r.ready
  Placed-AreDue now r p d = elim (Bool-cases (ready (q.msgs m) now)) [
    | inl e ↦ AreDue-perm now q.msgs m r.ready q.ready (p.at_once e) e d
    | inr e ↦ rw (p.late e).0 d
  ]
