-- ===== src/Queue/Lend.antt =====
-- The lease records of tryReceive, the commit of the leases, and the way back when a record fails.
use mathlib.Core.List.{
  mem-cons_self, mem-cons_of_mem, mem-append_right, Nodup-cons, Nodup-append, perm_middle,
}
use mathlib.Core.List.Perm
use artie_takehome.Base.{
  ℕ, ◌+◌, ◌≡◌, refl, ◌∙◌, ap, List, [], ◌∷◌, ◌++◌, Mem, Perm, Nodup, Option, some, none, Returns,
  returns, Returns-bind, Returns-map, Option-cases, inl, inr, String, ℤ,
}
use artie_takehome.Msg.{Msg, Time}
use artie_takehome.Record.{Error, Log, Record, new_record, Op}
use artie_takehome.Queue.{Queue}
use artie_takehome.Queue.Consume.{Lease, leased, put_back, log_leases}
use artie_takehome.Queue.Core.{Core, held}
use artie_takehome.Queue.Push.{push_ready_lem}

-- The leases of `n` messages, with the tokens from the i-th on.
unfoldable pub granted : (ℕ → String) → Time → ℕ → List ℕ → List Lease
granted new_id expiry i [] = []
granted new_id expiry i (m ∷ ms) =
    record { receipt = new_id i; expiry = expiry } ∷ granted new_id expiry (i + 1) ms

-- The copies that the consumer gets.
unfoldable pub deliveries : (ℕ → Msg) → List ℕ → List Lease → List Msg
deliveries msgs (m ∷ ms) (l ∷ ls) = leased (msgs m) l ∷ deliveries msgs ms ls
deliveries msgs ms ls = []

pub deliveries-msgs :
    (f g : ℕ → Msg) (ms : List ℕ) (ls : List Lease)
    → ((x : ℕ) → Mem x ms → f x ≡ g x)
    → deliveries f ms ls ≡ deliveries g ms ls
unfolding deliveries
deliveries-msgs f g [] ls e = refl
deliveries-msgs f g (m ∷ ms) [] e = refl
deliveries-msgs f g (m ∷ ms) (l ∷ ls) e =
    rw (e m mem-cons_self, deliveries-msgs f g ms ls (λ x k. e x (mem-cons_of_mem m k)))

-- The record of a lease.
abbrev pub lease_record : String → Msg → Lease → Record
lease_record name msg l = record (new_record Op.lease name) { msg = some (leased msg l) }

module _ {W : Type 0} (log : Log W) where
  -- The first error that the log gives when the records of the leases are appended in order.
  unfoldable pub refusal : W → String → (ℕ → Msg) → List ℕ → List Lease → Option Error
  refusal w name msgs (m ∷ ms) (l ∷ ls) = elim (log.append w (lease_record name (msgs m) l)).1 [
    | some x ↦ some x
    | none ↦ refusal (log.append w (lease_record name (msgs m) l)).0 name msgs ms ls
  ]
  refusal w name msgs ms ls = none

module _ {W : Type 0} where
  -- What the records leave: only the log has changed, without an error every message has a lease,
  -- and the error is the log's first.
  pub record Recorded (log : Log W) (q : Queue W) (ms : List ℕ) (new_id : ℕ → String) (i : ℕ)
      (expiry : Time) (r : Queue W × List Lease × Option Error) : Type 0 where
    pub outcome : r.2 ≡ refusal log q.wal q.cfg.name q.msgs ms (granted new_id expiry i ms)
    pub frame : r.0 ≡ record q { wal = r.0.wal }
    pub complete : r.2 ≡ none → r.1 ≡ granted new_id expiry i ms

  pub log_leases_lem :
      (log : Log W) (q : Queue W) (ms : List ℕ) (new_id : ℕ → String) (i : ℕ) (expiry : Time)
      → Recorded log q ms new_id i expiry (log_leases log q ms new_id i expiry)
  unfolding log_leases granted refusal
  log_leases_lem log q [] new_id i expiry = record {
    frame = refl;
    complete = λ e. refl;
    outcome = refl;
  }
  log_leases_lem log q (m ∷ ms) new_id i expiry =
      let l : Lease = record { receipt = new_id i; expiry = expiry } in
      let rec = record (new_record Op.lease q.cfg.name) { msg = some (leased (q.msgs m) l) } in
      let w = (log.append q.wal rec).0 in
      elim (Option-cases (log.append q.wal rec).1) [
        | inl good ↦
            let t = log_leases_lem log (record q { wal = w }) ms new_id (i + 1) expiry in
            rw (good, log_leases)
              (record {
                frame = t.frame;
                complete = λ e. ap (◌∷◌ l) (t.complete e);
                outcome = rw (good, refusal) t.outcome;
              })
        | inr (x, bad) ↦
            rw (bad, log_leases)
              (record { frame = refl; complete = λ e. absurd (cc); outcome = rw (bad, refusal) })
      ]

  -- The picked messages are back, and only the ready heap's layout may differ.
  pub record Restored (q : Queue W) (ms : List ℕ) (r : Queue W) : Type 0 where
    pub core : Core r
    pub same : Perm (held r) (ms ++ held q)
    pub keeps : (ready : List ℕ) × (index : ℕ → ℤ) × (r ≡ record q { ready = ready; index = index })
    pub again : Perm r.ready (ms ++ q.ready)

  pub put_back_lem :
      (q : Queue W) (ms : List ℕ)
      → Core q
      → Nodup (ms ++ held q)
      → Returns (Restored q ms) (put_back q ms)
  unfolding put_back
  put_back_lem q [] c n =
      returns
        (record { core = c; same = Perm.rfl; keeps = (q.ready, q.index, refl); again = Perm.rfl })
  put_back_lem q (m ∷ ms) c n =
      Returns-bind (push_ready_lem q m c (Nodup-cons.1 (outside, (tails ms (Nodup-cons.0 n).1))))
        λ s (h, e, c', all, old).
          let swap = Perm.trans (Perm.append_left ms all) (perm_middle ms (held q)) in
          Returns-map (put_back_lem s ms c' (Perm.nodup (Perm.symm swap) n)) λ r t.
            let (a, i, f) = t.keeps in
            record {
              core = t.core;
              same = Perm.trans t.same swap;
              again =
                  Perm.trans (rw e at t.again)
                    (Perm.trans (Perm.append_left ms old) (perm_middle ms q.ready));
              keeps = (a, i, f ∙ ap (λ (u : Queue W). record u { ready = a; index = i }) e);
            }
    where
      outside : ¬ Mem m (held q)
      outside k = (Nodup-cons.0 n).0 (mem-append_right ms k)

      tails : (xs : List ℕ) → Nodup (xs ++ held q) → Nodup (held q)
      tails xs k = ((Nodup-append {l₁ = xs} {l₂ = held q}).0 k).1
