-- ===== src/Queue/Commit.antt =====
-- The commit of the leases in tryReceive.
use mathlib.Core.List.{
  mem-cons, mem-cons_self, mem-cons_of_mem, mem-append_left, mem-append_right, Nodup-cons,
  perm_middle, Nodup-append,
}
use mathlib.Core.List.Perm
use mathlib.Core.Logic.Or
use native.Mathlib.Bridge.{le_prop}
use artie_takehome.Base.{
  ℕ, ◌+◌, ◌≤◌, ◌<◌, ◌≡◌, ◌≢◌, refl, ap, ◌∙◌, List, [], ◌∷◌, ◌++◌, Mem, Perm, Nodup, arith, none,
  Returns, returns, Returns-bind, Bool-cases, inl, inr, String, inc_u64, str_eq, str_eq_iff,
}
use artie_takehome.MsgHeap.{MsgHeap, update}
use artie_takehome.Msg.{Msg, Time}
use artie_takehome.Queue.{Queue, set_inflight, set_msg}
use artie_takehome.Queue.Leases.{lookup, put, lookup-put}
use artie_takehome.Queue.Consume.{Lease, leased, commit}
use artie_takehome.Queue.Core.{Core, Core-msgs, IsConsistent, held}
use artie_takehome.Queue.Push.{push_inflight_lem}
use artie_takehome.Queue.Matching.{LeasesOf-msgs, LeasesOf-put}
use artie_takehome.Queue.Lend.{granted, deliveries, deliveries-msgs}

-- What the source relies on of newID: its tokens are all different, and none is in use from the
-- i-th on.
pub record IsFresh (new_id : ℕ → String) (i : ℕ) (leases : List (String × ℕ)) : Type 0 where
  pub distinct : (j k : ℕ) → new_id j ≡ new_id k → j ≡ k
  pub unused : (j : ℕ) → i ≤ j → lookup (new_id j) leases ≡ none

IsFresh-put :
    (new_id : ℕ → String) (i m : ℕ) (leases : List (String × ℕ))
    → IsFresh new_id i leases
    → IsFresh new_id (i + 1) (put (new_id i) m leases)
IsFresh-put new_id i m leases f = record {
  distinct = f.distinct;
  unused = λ j p.
      rw (lookup-put (new_id j) (new_id i) m leases)
        (elim (Bool-cases (str_eq (new_id i) (new_id j))) [
          | inl e ↦ absurd (omega (arith, f.distinct i j ((str_eq_iff (new_id i) (new_id j)).0 e)))
          | inr e ↦ rw e (f.unused j (omega arith))
        ]);
}

module _ {W : Type 0} where
  pub record Committed (q : Queue W) (ms : List ℕ) (ls : List Lease) (r : Queue W × List Msg)
      : Type 0 where
    pub consistent : IsConsistent r.0
    pub same : Perm (held r.0) (ms ++ held q)
    pub out : r.1 ≡ deliveries q.msgs ms ls
    pub unlent : r.1 ≡ [] → r.0.leases ≡ q.leases
    pub leased : Perm r.0.inflight (ms ++ q.inflight)
    pub rest : (r.0.ready ≡ q.ready) × (r.0.wal_err ≡ q.wal_err)
    pub others : (x : ℕ) → Mem x (held q) → r.0.msgs x ≡ q.msgs x

  module _ (q : Queue W) (m : ℕ) (ms : List ℕ) (v : IsConsistent q)
      (n : Nodup (m ∷ (ms ++ held q))) where
    outside : ¬ Mem m (held q)
    outside k = (Nodup-cons.0 n).0 (mem-append_right ms k)

    other : (msg : Msg) (x : ℕ) → m ≢ x → update q.msgs m msg x ≡ q.msgs x
    other msg x ne = ground arith

    others : (msg : Msg) (x : ℕ) → Mem x (held q) → update q.msgs m msg x ≡ q.msgs x
    others msg x k = other msg x (λ e. outside (rw e k))

    -- The queue with the first message leased.
    abbrev lent : Msg → MsgHeap → ℕ → Queue W
    lent msg h d = record (set_inflight (set_msg q m msg) h) {
      leases = put msg.receipt m q.leases;
      delivered = d;
    }

    lent-IsConsistent :
        (msg : Msg) (h : MsgHeap) (d : ℕ)
        → Core (set_inflight (set_msg q m msg) h)
        → Perm (held (set_inflight (set_msg q m msg) h)) (m ∷ held q)
        → Perm h.items (m ∷ q.inflight)
        → m < q.next
        → lookup msg.receipt q.leases ≡ none
        → IsConsistent (lent msg h d)
    lent-IsConsistent msg h d c all old inside free = record {
      core = c;
      leases = rw (ap (λ (x : Msg). x.receipt) here) at (
          LeasesOf-put msgs m q.inflight h.items q.leases (λ k. outside (in_flight k)) old
            (rw here free)
            (LeasesOf-msgs q.msgs msgs q.inflight q.leases (λ x k. others msg x (in_flight k))
              v.leases));
      allocated = λ p k.
          Or.elim le_prop (mem-cons.0 ((Perm.mem_iff all).0 k)) (λ e. rw e inside) (v.allocated p);
    }
      where
        msgs : ℕ → Msg
        msgs = update q.msgs m msg

        here : msgs m ≡ msg
        here = ground arith

        in_flight : {x : ℕ} → Mem x q.inflight → Mem x (held q)
        in_flight k =
            mem-append_right q.ready (mem-append_right q.delayed (mem-append_left q.dlq k))

  module _ (new_id : ℕ → String) (expiry : Time) where
    pub commit_lem :
        (q : Queue W) (ms : List ℕ) (i : ℕ)
        → IsConsistent q
        → Nodup (ms ++ held q)
        → ((x : ℕ) → Mem x ms → x < q.next)
        → IsFresh new_id i q.leases
        → Returns
            (Committed q ms (granted new_id expiry i ms))
            (commit q ms (granted new_id expiry i ms))
    unfolding commit granted deliveries
    commit_lem q [] i v n inside f = returns (record {
      consistent = v;
      same = Perm.rfl;
      out = refl;
      unlent = λ e. refl;
      leased = Perm.rfl;
      rest = (refl, refl);
      others = λ x k. refl;
    })
    commit_lem q (m ∷ ms) i v n inside f =
        let l : Lease = record { receipt = new_id i; expiry = expiry } in
        let msg = leased (q.msgs m) l in
        let away = outside q m ms v n in
        let c = Core-msgs q (update q.msgs m msg) (others q m ms v n msg) v.core in
        Returns-bind
          (push_inflight_lem (set_msg q m msg) m c
            (Nodup-cons.1 (away, ((Nodup-append {l₁ = ms} {l₂ = held q}).0 (Nodup-cons.0 n).1).1)))
          λ s (h, e, c', all, old). rw e (
            Returns-bind
              (commit_lem (lent q m ms v n msg h (inc_u64 q.delivered)) ms (i + 1)
                (lent-IsConsistent q m ms v n msg h (inc_u64 q.delivered) (rw e at c') (rw e at all)
                  old (inside m mem-cons_self) (f.unused i (omega arith)))
                (Perm.nodup (Perm.symm (later h (rw e at all))) n)
                (λ x k. inside x (mem-cons_of_mem m k)) (IsFresh-put new_id i m q.leases f))
              λ r t. returns (record {
                consistent = t.consistent;
                same = Perm.trans t.same (later h (rw e at all));
                out = out h r t.out;
                unlent = λ e. absurd (cc);
                leased =
                    Perm.trans t.leased
                      (Perm.trans (Perm.append_left ms old) (perm_middle ms q.inflight));
                rest = t.rest;
                others = λ x k.
                    t.others x ((Perm.mem_iff (rw e at all)).1 (mem-cons_of_mem m k))
                    ∙ others q m ms v n msg x k;
              }))
      where
        token : Lease
        token = record { receipt = new_id i; expiry = expiry }

        later :
            (h : MsgHeap)
            → Perm (held (set_inflight q h)) (m ∷ held q)
            → Perm (ms ++ held (set_inflight q h)) (m ∷ (ms ++ held q))
        later h all = Perm.trans (Perm.append_left ms all) (perm_middle ms (held q))

        out :
            (h : MsgHeap) (r : Queue W × List Msg)
            → r.1
              ≡ deliveries
                  (update q.msgs m (leased (q.msgs m) token))
                  ms
                  (granted new_id expiry (i + 1) ms)
            → (update q.msgs m (leased (q.msgs m) token) m ∷ r.1)
              ≡ leased (q.msgs m) token ∷ deliveries q.msgs ms (granted new_id expiry (i + 1) ms)
        out h r e =
            let here : update q.msgs m (leased (q.msgs m) token) m ≡ leased (q.msgs m) token =
              ground arith in
            rw (
              here,
              e,
              deliveries-msgs (update q.msgs m (leased (q.msgs m) token)) q.msgs ms
                  (granted new_id expiry (i + 1) ms) kept,
            )
          where
            kept : (x : ℕ) → Mem x ms → update q.msgs m (leased (q.msgs m) token) x ≡ q.msgs x
            kept x k =
                other q m ms v n (leased (q.msgs m) token) x
                  (λ d. (Nodup-cons.0 n).0 (mem-append_left (held q) (rw d k)))
