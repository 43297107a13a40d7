-- ===== src/Queue/Receive.antt =====
-- tryReceive as a whole.
use mathlib.Core.List.{mem-append_left, mem-append_right}
use mathlib.Core.List.Perm
use artie_takehome.Base.{
  ℕ, suc, ◌<◌, ◌≡◌, refl, sym, ◌∙◌, ap, List, [], ◌∷◌, ◌++◌, Mem, Perm, Nodup, arith, Option, some,
  none, ◌>>=◌, Returns, returns, Returns-bind, ◌⊎◌, String, ℤ, pos, ◌≤ℤ◌, ◌+ℤ◌, length, false,
}
use artie_takehome.Msg.{Msg, Time, Duration}
use artie_takehome.Record.{Error, Log, Result, ok, err}
use artie_takehome.Queue.{Queue, ready_less}
use artie_takehome.Queue.Consume.{Lease, hand_out, try_receive, commit, put_back, log_leases}
use artie_takehome.Queue.Core.{IsConsistent, held, AreDue}
use artie_takehome.Queue.Advance.{Advanced, advance_locked_lem}
use artie_takehome.Queue.Pick.{InOrder, Picked, pick_lem}
use artie_takehome.Queue.Lend.{
  granted, deliveries, refusal, Recorded, log_leases_lem, Restored, put_back_lem,
}
use artie_takehome.Queue.Commit.{IsFresh, Committed, commit_lem}

ok-injective {ℓ} : {A : Type ℓ} {x y : A} → ok x ≡ ok y → x ≡ y
ok-injective e = cc

-- The answer to a receive: the error of the log if there is one, else the copies.
abbrev pub answer_of : Option Error → List Msg → Result (List Msg)
answer_of none out = ok out
answer_of (some x) out = err x

module _ {W : Type 0} where
  -- `s` is the state after the clocks were read, and `taken` are the messages picked from it.
  pub record Received (log : Log W) (q : Queue W) (max : ℤ) (now expiry : Time)
      (new_id : ℕ → String) (r : Queue W × Result (List Msg)) : Type 0 where
    pub s : Queue W
    pub advanced : Advanced q now s
    pub taken : List ℕ
    pub rest : List ℕ
    pub drawn : Perm (taken ++ rest) s.ready
    pub ordered : InOrder (ready_less s) taken
    pub ahead : (x y : ℕ) → Mem x rest → Mem y taken → ready_less s x y ≡ false
    pub bounded : pos 0 ≤ℤ max → pos (length taken) ≤ℤ max
    pub enough : (rest ≡ []) ⊎ (max ≤ℤ pos (length taken))
    pub consistent : IsConsistent r.0
    pub same : Perm (held r.0) (held s)
    pub latched : r.0.wal_err ≡ s.wal_err
    pub due : AreDue now s.msgs s.ready → AreDue now r.0.msgs r.0.ready
    pub answered :
        r.1
        ≡ answer_of
            (refusal log s.wal s.cfg.name s.msgs taken (granted new_id expiry 0 taken))
            (deliveries s.msgs taken (granted new_id expiry 0 taken))
    pub unlent : r.1 ≡ ok [] → r.0.leases ≡ s.leases
    pub delivered :
        (out : List Msg)
        → r.1 ≡ ok out
        → (out ≡ deliveries s.msgs taken (granted new_id expiry 0 taken))
          × Perm r.0.inflight (taken ++ s.inflight)
          × (r.0.ready ≡ rest)
    pub undone :
        (e : Error)
        → r.1 ≡ err e
        → (r.0.msgs ≡ s.msgs) × (r.0.leases ≡ s.leases) × (r.0.inflight ≡ s.inflight)

  module _ (log : Log W) (q : Queue W) (max : ℤ) (now : Time) (expiry : Time) (new_id : ℕ → String)
      (s : Queue W) (a : Advanced q now s) (p : Queue W × List ℕ) (k : Picked s max [] p)
      (f : IsFresh new_id 0 s.leases) where
    start : Queue W
    start = p.0

    -- The picked messages stand outside the queue `p.0`.
    alone : Nodup (k.taken ++ held p.0)
    alone = Perm.nodup (Perm.symm k.same) a.consistent.core.apart

    -- Once the leases are committed, or the messages put back.
    finish :
        (r : Queue W × Result (List Msg))
        → r.1
          ≡ answer_of
              (refusal log s.wal s.cfg.name s.msgs k.taken (granted new_id expiry 0 k.taken))
              (deliveries s.msgs k.taken (granted new_id expiry 0 k.taken))
        → (r.1 ≡ ok [] → r.0.leases ≡ s.leases)
        → IsConsistent r.0
        → Perm (held r.0) (k.taken ++ held p.0)
        → r.0.wal_err ≡ s.wal_err
        → (AreDue now s.msgs s.ready → AreDue now r.0.msgs r.0.ready)
        → ((out : List Msg)
            → r.1 ≡ ok out
            → (out ≡ deliveries s.msgs k.taken (granted new_id expiry 0 k.taken))
              × Perm r.0.inflight (k.taken ++ s.inflight)
              × (r.0.ready ≡ p.0.ready))
        → ((e : Error)
            → r.1 ≡ err e
            → (r.0.msgs ≡ s.msgs) × (r.0.leases ≡ s.leases) × (r.0.inflight ≡ s.inflight))
        → Received log q max now expiry new_id r
    finish r answered unlent v all l due good bad = record {
      answered = answered;
      unlent = unlent;
      due = due;
      latched = l;
      s = s;
      advanced = a;
      taken = k.taken;
      rest = p.0.ready;
      drawn = k.drawn;
      ordered = k.ordered;
      ahead = k.ahead;
      bounded = λ b. rw k.split at (k.bounded b);
      enough = rw k.split at k.enough;
      consistent = v;
      same = Perm.trans all k.same;
      delivered = good;
      undone = bad;
    }

    Picked-IsConsistent : IsConsistent p.0
    Picked-IsConsistent =
        let (ready, index, e) = k.keeps in
        record {
          core = k.core;
          leases = rw e a.consistent.leases;
          allocated = λ x m.
              rw e
                (a.consistent.allocated x ((Perm.mem_iff k.same).0 (mem-append_right k.taken m)));
        }

    in_range : (x : ℕ) → Mem x k.taken → x < p.0.next
    in_range x m =
        let (ready, index, e) = k.keeps in
        rw (ap (λ (t : Queue W). t.next) e)
          (a.consistent.allocated x ((Perm.mem_iff k.same).0 (mem-append_left (held p.0) m)))

    frame-IsFresh : IsFresh new_id 0 p.0.leases
    frame-IsFresh = let (ready, index, e) = k.keeps in rw (ap (λ (t : Queue W). t.leases) e) f

    -- What was not picked is a part of what was ready.
    left : AreDue now s.msgs s.ready → AreDue now s.msgs p.0.ready
    left d x m = d x ((Perm.mem_iff k.drawn).0 (mem-append_right k.taken m))

    -- The log's first error, from the state after the clocks were read.
    abbrev first_error : Option Error
    first_error = refusal log s.wal s.cfg.name s.msgs k.taken (granted new_id expiry 0 k.taken)

    outcome :
        (x : Option Error)
        → (x ≡ refusal log p.0.wal p.0.cfg.name p.0.msgs k.taken (granted new_id expiry 0 k.taken))
        → first_error ≡ x
    outcome x f =
        let (ready, index, e) = k.keeps in
        sym (
          f
          ∙ ap
              (λ (u : Queue W).
                refusal log u.wal u.cfg.name u.msgs k.taken (granted new_id expiry 0 k.taken))
              e)

    committed :
        first_error ≡ none
        → (w : W) (r : Queue W × List Msg)
        → Committed (record p.0 { wal = w }) k.taken (granted new_id expiry 0 k.taken) r
        → Received log q max now expiry new_id (r.0, ok r.1)
    committed f w r t =
        let (ready, index, e) = k.keeps in
        let copies =
          t.out
          ∙ ap (λ (u : Queue W). deliveries u.msgs k.taken (granted new_id expiry 0 k.taken)) e in
        finish (r.0, ok r.1) (rw f (ap (λ ms. ok ms) copies))
          (λ g. t.unlent (ok-injective g) ∙ ap (λ (u : Queue W). u.leases) e) t.consistent t.same
          (t.rest.1 ∙ ap (λ (u : Queue W). u.wal_err) e)
          (λ d x m.
            let there = rw t.rest.0 at m in
            let same =
              t.others x (mem-append_left (p.0.delayed ++ (p.0.inflight ++ p.0.dlq)) there) in
            rw (same, ap (λ (u : Queue W). u.msgs) e) (left d x there))
          (λ out same. (
            sym (ok-injective same) ∙ copies,
            rw (ap (λ (u : Queue W). u.inflight) e) at t.leased,
            t.rest.0,
          ))
          (λ x bad. absurd (cc))

    restored :
        (w : W) (x : Error) (r : Queue W)
        → first_error ≡ some x
        → Restored (record p.0 { wal = w }) k.taken r
        → Received log q max now expiry new_id (r, err x)
    restored w x r f t =
        let (ready, index, e) = k.keeps in
        let (ready', index', e') = t.keeps in
        let both : r ≡ record s { wal = w; ready = ready'; index = index' } =
          e' ∙ ap (λ (u : Queue W). record u { wal = w; ready = ready'; index = index' }) e in
        finish (r, err x) (rw f) (λ g. absurd (cc))
          (record {
            core = t.core;
            leases = rw both a.consistent.leases;
            allocated = λ y m.
                rw (ap (λ (u : Queue W). u.next) both)
                  (a.consistent.allocated y ((Perm.mem_iff k.same).0 ((Perm.mem_iff t.same).0 m)));
          })
          t.same (ap (λ (u : Queue W). u.wal_err) both)
          (λ d x m.
            rw (ap (λ (u : Queue W). u.msgs) both)
              (d x ((Perm.mem_iff k.drawn).0 ((Perm.mem_iff t.again).0 m))))
          (λ out bad. absurd (cc))
          (λ y same. (
            ap (λ (u : Queue W). u.msgs) both,
            ap (λ (u : Queue W). u.leases) both,
            ap (λ (u : Queue W). u.inflight) both,
          ))

    recorded :
        (t : Queue W × List Lease × Option Error)
        → Recorded log p.0 k.taken new_id 0 expiry t
        → Returns (Received log q max now expiry new_id) (elim t.2 [
          | some x ↦ put_back t.0 k.taken >>= λ q''. some (q'', err x)
          | none ↦ commit t.0 k.taken t.1 >>= λ (q'', out). some (q'', ok out)
        ])
    recorded (q', ls, some x) t = rw t.frame (
        Returns-bind (put_back_lem (record p.0 { wal = q'.wal }) k.taken k.core alone)
          λ r b. returns (restored q'.wal x r (outcome (some x) t.outcome) b))
    recorded (q', ls, none) t =
        rw (t.frame, t.complete refl)
          (Returns-bind
            (commit_lem new_id expiry (record p.0 { wal = q'.wal }) k.taken 0
              (record {
                core = Picked-IsConsistent.core;
                leases = Picked-IsConsistent.leases;
                allocated = Picked-IsConsistent.allocated;
              })
              alone in_range frame-IsFresh)
            λ r b. returns (committed (outcome none t.outcome) q'.wal r b))

    settled :
        (ms : List ℕ)
        → ms ≡ k.taken
        → Returns (Received log q max now expiry new_id) (elim ms [
          | [] ↦ some (p.0, ok [])
          | m ∷ rest ↦ hand_out log p.0 (m ∷ rest) new_id expiry
        ])
    unfolding hand_out deliveries granted refusal
    settled [] e =
        let (ready, index, g) = k.keeps in
        returns (
          finish (p.0, ok []) (rw (← e, refusal, deliveries))
            (λ same. ap (λ (u : Queue W). u.leases) g) Picked-IsConsistent (rw (← e) Perm.rfl)
            (ap (λ (u : Queue W). u.wal_err) g)
            (λ d x m. rw (ap (λ (u : Queue W). u.msgs) g) (left d x m))
            (λ out same.
              rw (← e)
                (sym (ok-injective same), rw (ap (λ (u : Queue W). u.inflight) g) Perm.rfl, refl))
            (λ x bad. absurd (cc)))
    settled (m ∷ ms) e = rw e (
        recorded (log_leases log p.0 k.taken new_id 0 expiry)
          (log_leases_lem log p.0 k.taken new_id 0 expiry))

  -- On a consistent queue, with tokens that are all different and not in use, one attempt to
  -- receive returns, without a panic. After the clocks are read it picks from the ready heap, in
  -- order, as many messages as there are up to `max`, and no message left behind sorts before a
  -- picked one. On success the consumer gets their copies with the attempt counted and fresh
  -- receipts, and they are inflight. It answers with an error exactly if the log refuses the record
  -- of a lease of a picked message, and then with the first such error, and no message, lease or
  -- inflight entry has changed since the clocks were read. Without a message no lease is new. The
  -- queue stays consistent and holds the same messages as after the clocks were read. If all ready
  -- messages were visible at the time after that reading, all still are.
  pub try_receive-Returns :
      (log : Log W) (q : Queue W) (max : ℤ) (visibility : Duration) (now : Time)
      (new_id : ℕ → String)
      → IsConsistent q
      → IsFresh new_id 0 q.leases
      → Returns
          (Received log q max now (now +ℤ visibility) new_id)
          (try_receive log q max visibility now new_id)
  unfolding try_receive
  try_receive-Returns log q max visibility now new_id v f =
      Returns-bind (advance_locked_lem log now q v) λ s a.
        Returns-bind (pick_lem (suc (length s.ready)) s max [] a.consistent.core (omega arith))
          λ p k.
            settled log q max now (now +ℤ visibility) new_id s a p k
              (record { distinct = f.distinct; unused = λ j h. a.fewer (new_id j) (f.unused j h) })
              p.1 k.split
