-- ===== src/Queue/Total.antt =====
-- The operations of a consistent queue on any argument: each has a result and leaves a consistent
-- queue.
use artie_takehome.Base.{
  String, ℤ, pos, not, ◌&&◌, Returns, returns, Returns-map, Option-cases, Bool-cases, inl, inr,
  eqb_ℤ,
}
use artie_takehome.Msg.{Time, Duration}
use artie_takehome.Record.{Log}
use artie_takehome.Queue.{Queue}
use artie_takehome.Queue.Leases.{lookup}
use artie_takehome.Queue.Produce.{enqueue}
use artie_takehome.Queue.Consume.{ack, nack, extend}
use artie_takehome.Queue.Core.{IsConsistent}
use artie_takehome.Queue.Settle.{settle-no_lease, ack-Returns, nack-Returns, extend-Returns}
use artie_takehome.Queue.Deliver.{enqueue-Returns}

module _ {W : Type 0} where
  -- A result with a consistent queue.
  abbrev pub Consistently : {A : Type 0} → Queue W × A → Type 0
  Consistently r = IsConsistent r.0

  module _ (q : Queue W) (v : IsConsistent q) where
    pub enqueue_total :
        (log : Log W) (body id : String) (priority : ℤ) (delay : Duration) (now : Time)
        → Returns Consistently (enqueue log q body priority delay now id)
    unfolding enqueue
    enqueue_total log body id priority delay now =
        elim (Bool-cases (not (eqb_ℤ priority (pos 0)) && not q.cfg.priority)) [
          | inl bad ↦ rw (bad, enqueue) (returns v)
          | inr allowed ↦
              Returns-map (enqueue-Returns log q body id priority delay now v allowed)
                λ r e. e.consistent
        ]

    pub ack_total : (log : Log W) (receipt : String) → Returns Consistently (ack log q receipt)
    ack_total log receipt = elim (Option-cases (lookup receipt q.leases)) [
      | inl e ↦ rw (settle-no_lease log q receipt (pos 0) (pos 0) e).0 (returns v)
      | inr (m, e) ↦ Returns-map (ack-Returns log q receipt m v e) λ r a. a.consistent
    ]

    pub nack_total :
        (log : Log W) (receipt : String) (delay : Duration) (now : Time)
        → Returns Consistently (nack log q receipt delay now)
    nack_total log receipt delay now = elim (Option-cases (lookup receipt q.leases)) [
      | inl e ↦ rw (settle-no_lease log q receipt delay now e).1 (returns v)
      | inr (m, e) ↦ Returns-map (nack-Returns log q receipt delay now m v e) λ r n. n.consistent
    ]

    pub extend_total :
        (receipt : String) (d : Duration) (now : Time)
        → Returns Consistently (extend q receipt d now)
    unfolding extend
    extend_total receipt d now = elim (Option-cases (lookup receipt q.leases)) [
      | inl e ↦ rw (e, extend) (returns v)
      | inr (m, e) ↦ Returns-map (extend-Returns q receipt d now m v e) λ r x. x.consistent
    ]
