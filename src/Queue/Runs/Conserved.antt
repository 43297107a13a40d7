-- ===== src/Queue/Runs/Conserved.antt =====
-- Conservation over runs: each message that came in is acknowledged or still held, once.
use mathlib.Core.List.{perm_middle}
use mathlib.Core.List.Perm
use mathlib.Core.Path.{subst}
use artie_takehome.Base.{
  ℕ, ◌≡◌, ◌≢◌, refl, sym, ◌∙◌, String, ℤ, pos, List, ◌∷◌, ◌++◌, Perm, none, Returns, returns,
  Returns-some, Returns-map, inl, inr, Bool-cases, Option-cases, eqb_ℤ, not, ◌&&◌,
}
use artie_takehome.Msg.{Msg, Time, Duration}
use artie_takehome.Record.{Error, Log, Result, ok, err}
use artie_takehome.Queue.{Queue}
use artie_takehome.Queue.Leases.{lookup}
use artie_takehome.Queue.Produce.{enqueue}
use artie_takehome.Queue.Consume.{ack, nack, extend}
use artie_takehome.Queue.Core.{IsConsistent, held}
use artie_takehome.Queue.Deliver.{enqueue-Returns}
use artie_takehome.Queue.Settle.{ack-Returns, nack-Returns, extend-Returns, settle-no_lease}
use artie_takehome.Queue.Replay.{replay_dlq-Returns}
use artie_takehome.Queue.Receive.{try_receive-Returns}
use artie_takehome.Queue.Advance.{tick_advances}
use artie_takehome.Queue.Runs.{
  Run, idle, added, rejected, received, acked, not_acked, nacked, extended, replayed, ticked,
}

module _ {W : Type 0} where
  -- A consistent queue that holds the messages of another.
  pub record Same (q r : Queue W) : Type 0 where
    pub consistent : IsConsistent r
    pub same : Perm (held r) (held q)

  pub record Balanced (q : Queue W) (a d : List ℕ) (r : Queue W) : Type 0 where
    pub consistent : IsConsistent r
    pub balance : Perm (d ++ held r) (a ++ held q)

  record Came (q : Queue W) (r : Queue W × Result Msg) : Type 0 where
    consistent : IsConsistent r.0
    stored : (m : Msg) → r.1 ≡ ok m → Perm (held r.0) (q.next ∷ held q)
    refused : (e : Error) → r.1 ≡ err e → held r.0 ≡ held q

  module _ (log : Log W) (q : Queue W) (v : IsConsistent q) where
    enqueue-Came :
        (body id : String) (priority : ℤ) (delay : Duration) (now : Time)
        → Returns (Came q) (enqueue log q body priority delay now id)
    unfolding enqueue
    enqueue-Came body id priority delay now =
        elim (Bool-cases (not (eqb_ℤ priority (pos 0)) && not q.cfg.priority)) [
          | inl bad ↦
              rw (bad, enqueue)
                (returns
                  (record { consistent = v; stored = λ m e. absurd (cc); refused = λ e f. refl }))
          | inr allowed ↦
              Returns-map (enqueue-Returns log q body id priority delay now v allowed) λ r e.
                record {
                  consistent = e.consistent;
                  stored = λ m f. (e.stored m f).2;
                  refused = e.refused;
                }
        ]

    -- An operation that answers with an error only of the lease or the log.
    ack-Same : (receipt : String) → Returns (λ r. r.1 ≢ none → Same q r.0) (ack log q receipt)
    ack-Same receipt = elim (Option-cases (lookup receipt q.leases)) [
      | inl e ↦
          rw (settle-no_lease log q receipt (pos 0) (pos 0) e).0
            (returns λ _. record { consistent = v; same = Perm.rfl })
      | inr (m, e) ↦ Returns-map (ack-Returns log q receipt m v e) λ r t ne. record {
        consistent = t.consistent;
        same = subst (λ (s : Queue W). Perm (held s) (held q)) (sym (t.refused ne)) Perm.rfl;
      }
    ]

    nack-Same :
        (receipt : String) (delay : Duration) (now : Time)
        → Returns (λ r. r.1 ≡ none → Same q r.0) (nack log q receipt delay now)
    nack-Same receipt delay now = elim (Option-cases (lookup receipt q.leases)) [
      | inl e ↦
          rw (settle-no_lease log q receipt delay now e).1
            (returns λ _. record { consistent = v; same = Perm.rfl })
      | inr (m, e) ↦
          Returns-map (nack-Returns log q receipt delay now m v e)
            λ r t ne. record { consistent = t.consistent; same = t.kept ne }
    ]

    extend-Same :
        (receipt : String) (d : Duration) (now : Time)
        → Returns (λ r. Same q r.0) (extend q receipt d now)
    unfolding extend
    extend-Same receipt d now = elim (Option-cases (lookup receipt q.leases)) [
      | inl e ↦ rw (e, extend) (returns (record { consistent = v; same = Perm.rfl }))
      | inr (m, e) ↦
          Returns-map (extend-Returns q receipt d now m v e)
            λ r t. record { consistent = t.consistent; same = t.same }
    ]

  kept-Balanced :
      (q : Queue W) (a d : List ℕ) (s r : Queue W) → Same s r → Balanced q a d s → Balanced q a d r
  kept-Balanced q a d s r t b = record {
    consistent = t.consistent;
    balance = Perm.trans (Perm.append_left d t.same) b.balance;
  }

  module _ (log : Log W) (q : Queue W) (v : IsConsistent q) where
    -- The queue is consistent at the start. After any run of its operations in which every nack is
    -- answered without an error and the retries of expired leases are logged, the messages
    -- acknowledged and those still held are, each once, those held at the start and those enqueued:
    -- none is lost and none is doubled. The queue is consistent at the end.
    pub run-Balanced : {a d : List ℕ} {r : Queue W} → Run log q a d r → Balanced q a d r
    run-Balanced idle = record { consistent = v; balance = Perm.rfl }
    run-Balanced {a} {d} {r} (added {s = s} {msg = msg} body id priority delay now run e) =
        let b = run-Balanced run in
        let t =
          Returns-some (rw e at (enqueue-Came log s b.consistent body id priority delay now)) in
        record {
          consistent = t.consistent;
          balance =
              Perm.trans (Perm.append_left d (t.stored msg refl))
                (Perm.trans (perm_middle d (held s)) (Perm.cons s.next b.balance));
        }
    run-Balanced {a} {d} {r} (rejected {s = s} {x = x} body id priority delay now run e) =
        let b = run-Balanced run in
        let t =
          Returns-some (rw e at (enqueue-Came log s b.consistent body id priority delay now)) in
        record {
          consistent = t.consistent;
          balance =
              subst (λ (ps : List ℕ). Perm (d ++ ps) (a ++ held q)) (sym (t.refused x refl))
                b.balance;
        }
    run-Balanced {a} {d} {r} (received {s = s} max visibility now new_id run fresh e latched) =
        let b = run-Balanced run in
        let t =
          Returns-some
            (rw e at (try_receive-Returns log s max visibility now new_id b.consistent fresh)) in
        kept-Balanced q a d s r
          (record {
            consistent = t.consistent;
            same = Perm.trans t.same (t.advanced.kept (sym t.latched ∙ latched)).1;
          })
          b
    run-Balanced {a} {d} {r} (acked {s = s} receipt m run k e) =
        let b = run-Balanced run in
        let t = Returns-some (rw e at (ack-Returns log s receipt m b.consistent k)) in
        record {
          consistent = t.consistent;
          balance =
              Perm.trans (Perm.symm (perm_middle _ (held r)))
                (Perm.trans (Perm.append_left _ (t.removed refl).0) b.balance);
        }
    run-Balanced {a} {d} {r} (not_acked {s = s} receipt run e) =
        let b = run-Balanced run in
        kept-Balanced q a d s r
          (Returns-some (rw e at (ack-Same log s b.consistent receipt)) λ f. cc) b
    run-Balanced {a} {d} {r} (nacked {s = s} receipt delay now run e) =
        let b = run-Balanced run in
        kept-Balanced q a d s r
          (Returns-some (rw e at (nack-Same log s b.consistent receipt delay now)) refl) b
    run-Balanced {a} {d} {r} (extended {s = s} receipt duration now run e) =
        let b = run-Balanced run in
        kept-Balanced q a d s r
          (Returns-some (rw e at (extend-Same log s b.consistent receipt duration now))) b
    run-Balanced {a} {d} {r} (replayed {s = s} now run e) =
        let b = run-Balanced run in
        let t = Returns-some (rw e at (replay_dlq-Returns log now s b.consistent)) in
        kept-Balanced q a d s r (record { consistent = t.consistent; same = t.same }) b
    run-Balanced {a} {d} {r} (ticked {s = s} now run e latched) =
        let b = run-Balanced run in
        let t = Returns-some (rw e at (tick_advances log now s b.consistent)) in
        kept-Balanced q a d s r (record { consistent = t.consistent; same = (t.kept latched).1 }) b
