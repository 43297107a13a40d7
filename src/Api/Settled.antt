-- ===== src/Api/Settled.antt =====
-- What the responses of ack tell.
use artie_takehome.Base.{
  ℕ, ◌≡◌, ◌≢◌, refl, String, ◌∷◌, Perm, Option, some, none, Returns, returns, Returns-bind,
  Option-cases, inl, inr, pos,
}
use artie_takehome.Record.{Error, no_lease, Log, ok}
use artie_takehome.Queue.{Queue}
use artie_takehome.Queue.Core.{IsConsistent, held}
use artie_takehome.Queue.Leases.{lookup}
use artie_takehome.Queue.Settle.{Acked, ack-Returns, settle-no_lease}
use artie_takehome.Manager.{Manager, get}
use artie_takehome.Manager.Calls.{store}
use artie_takehome.Api.{Reply, value, acked, respond, fail, of_queue}
use artie_takehome.Api.Replies.{with_queue-found}
use artie_takehome.Api.Messages

module _ {W : Type 0} (m : Manager W) (name : String) (q : Queue W) (receipt : String) where
  -- What a response to an ack tells; `left` is the queue that the manager then has.
  pub record Told (r : Manager W × Reply) : Type 0 where
    pub left : Queue W
    pub stored : r.0 ≡ store m name left
    pub consistent : IsConsistent left
    pub gone :
        r.1 ≡ respond 200 acked
        → (p : ℕ) × (lookup receipt q.leases ≡ some p)
          × Perm (p ∷ held left) (held q)
          × (lookup receipt left.leases ≡ none)
    pub kept : r.1 ≢ respond 200 acked → left ≡ record q { wal = left.wal }
    pub conflict : lookup receipt q.leases ≡ none → r.1 ≡ fail 409 (of_queue no_lease)

  Acked-Told :
      (log : Log W) (p : ℕ) (t : Queue W × Option Error)
      → lookup receipt q.leases ≡ some p
      → Acked log q p receipt t
      → Told (store m name t.0, Messages.settle_reply acked t.1)
  unfolding Messages.settle_reply
  Acked-Told log p (left, none) e t = record {
    left = left;
    stored = refl;
    consistent = t.consistent;
    gone = λ _. let (all, dead) = t.removed refl in (p, e, all, dead);
    kept = λ ne. absurd (ne refl);
    conflict = λ f. absurd (cc (e, f));
  }
  Acked-Told log p (left, some x) e t = record {
    left = left;
    stored = refl;
    consistent = t.consistent;
    gone = λ f. absurd (cc);
    kept = λ _. t.refused (λ f. cc);
    conflict = λ f. absurd (cc (e, f));
  }

  conflict-Told : IsConsistent q → Told (store m name q, fail 409 (of_queue no_lease))
  conflict-Told v = record {
    left = q;
    stored = refl;
    consistent = v;
    gone = λ f. absurd (cc);
    kept = λ _. refl;
    conflict = λ _. refl;
  }

  -- The queue of the name is `q`, and it is consistent. Then an ack with a body that decodes
  -- returns: a response 200 means that the message leased under the receipt, and no other, has left
  -- the queue, and that its receipt is dead. Any other response means that nothing but the log has
  -- changed, and without a lease under the receipt it is 409.
  pub ack-Told :
      (log : Log W)
      → get m name ≡ ok q
      → IsConsistent q
      → Returns Told (Messages.ack log m name (value (record { receipt = receipt })))
  unfolding Messages.ack Messages.finish Messages.settle_reply
  ack-Told log e v =
      rw (with_queue-found m name q _ e) (elim (Option-cases (lookup receipt q.leases)) [
        | inl f ↦ rw (settle-no_lease log q receipt (pos 0) (pos 0) f).0 (returns (conflict-Told v))
        | inr (p, f) ↦
            Returns-bind (ack-Returns log q receipt p v f) λ t a. returns (Acked-Told log p t f a)
      ])
