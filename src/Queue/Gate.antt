-- ===== src/Queue/Gate.antt =====
-- The delay gate of advanceLocked.
use mathlib.Core.List.{not-mem-nil}
use mathlib.Core.List.Perm
use artie_takehome.Base.{
  ℕ, zero, suc, ◌<◌, ◌≡◌, refl, ◌∙◌, ap, List, Mem, Perm, ℤ, arith, Bool, true, false, not, some,
  inl, inr, Returns, returns, Returns-bind, Returns-map, Returns-if, Option-cases, length,
  length-perm,
}
use artie_takehome.MsgHeap.{peek}
use artie_takehome.Msg.{Time, ready, by_visible_at}
use artie_takehome.Msg.Order.{by_visible_at-IsOrder}
use artie_takehome.Record.{Log}
use artie_takehome.Queue.{Queue, delayed_less, delayed_heap, set_ready, open_gates}
use artie_takehome.Queue.Core.{Core, held, AreDue, AreDue-perm}
use artie_takehome.Queue.Push.{push_ready_lem}
use artie_takehome.Queue.Pull.{pop_delayed_lem, peek-none, peek-least}

module _ {W : Type 0} where
  -- What the delay gate leaves: only the ready and delayed heaps change, and nothing is due.
  pub record Opened (q : Queue W) (now : Time) (r : Queue W × Bool) : Type 0 where
    pub core : Core r.0
    pub same : Perm (held r.0) (held q)
    pub keeps :
        (ready delayed : List ℕ) × (index : ℕ → ℤ) × (r.0
          ≡ record q { ready = ready; delayed = delayed; index = index })
    pub gated : (x : ℕ) → Mem x r.0.delayed → ready (q.msgs x) now ≡ false
    pub due : AreDue now q.msgs q.ready → AreDue now q.msgs r.0.ready

  not_due :
      (q : Queue W) (m : ℕ) (now : Time)
      → Core q
      → peek q.delayed ≡ some m
      → ready (q.msgs m) now ≡ false
      → (x : ℕ) → Mem x q.delayed
      → ready (q.msgs x) now ≡ false
  unfolding ready by_visible_at
  not_due q m now c e late x k =
      let least =
        peek-least (delayed_less q) (delayed_heap q) m (by_visible_at-IsOrder q.msgs)
          c.delayed_valid e x k in
      ground arith

  shut :
      (q : Queue W) (now : Time) (woke : Bool)
      → Core q
      → ((x : ℕ) → Mem x q.delayed → ready (q.msgs x) now ≡ false)
      → Opened q now (q, woke)
  shut q now woke c g = record {
    core = c;
    same = Perm.rfl;
    keeps = (q.ready, q.delayed, q.index, refl);
    gated = g;
    due = λ d. d;
  }

  -- A round moved `m` to the ready heap, and the rest of the loop ran from there.
  Opened-step :
      (q s : Queue W) (now : Time) (ready delayed : List ℕ) (index : ℕ → ℤ)
      → s ≡ record q { ready = ready; delayed = delayed; index = index }
      → Perm (held s) (held q)
      → (AreDue now q.msgs q.ready → AreDue now q.msgs ready)
      → (r : Queue W × Bool) → Opened s now r
      → Opened q now r
  Opened-step q s now ready delayed index e same due r o =
      let (a, b, i, f) = o.keeps in
      record {
        core = o.core;
        same = Perm.trans o.same same;
        keeps =
            (a, b, i, f ∙ ap (λ (t : Queue W). record t { ready = a; delayed = b; index = i }) e);
        gated = λ x k. rw (ap (λ (t : Queue W). t.msgs) e) at (o.gated x k);
        due = λ d. rw e at o.due (due d);
      }

  module _ (log : Log W) (now : Time) where
    pub open_gates_lem :
        (fuel : ℕ) (q : Queue W) (woke : Bool)
        → Core q
        → length q.delayed < fuel
        → Returns (Opened q now) (open_gates log fuel q now woke)
    unfolding open_gates
    open_gates_lem zero q woke c f = absurd (omega arith)
    open_gates_lem (suc fuel) q woke c f = elim (Option-cases (peek q.delayed)) [
      | inl e ↦
          rw (e, open_gates)
            (returns
              (shut q now woke c λ x k. absurd (not-mem-nil (rw (peek-none q.delayed e) at k))))
      | inr (m, e) ↦
          rw (e, open_gates)
            (Returns-if (not (ready (q.msgs m) now))
              (λ late. returns (shut q now woke c (not_due q m now c e (ground arith))))
              λ due. Returns-bind (pop_delayed_lem q m c e) λ q1 ((h1, e1, c1, p1, l1), _).
                Returns-bind (push_ready_lem q1 m c1 (Perm.nodup (Perm.symm p1) c.apart))
                  λ q2 (h2, e2, c2, p2, old).
                    let both = e2 ∙ ap (λ (t : Queue W). set_ready t h2) e1 in
                    Returns-map
                      (open_gates_lem fuel q2 true c2 (
                        omega (arith, ap (λ (t : Queue W). length t.delayed) both, length-perm l1)))
                      λ r o.
                        Opened-step q q2 now h2.items h1.items h2.index both (Perm.trans p2 p1)
                          (λ d.
                            AreDue-perm now q.msgs m h2.items q.ready (rw e1 at old)
                              (ground (arith, due)) d)
                          r o)
    ]
