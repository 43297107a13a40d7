-- ===== src/Queue/Core.antt =====
-- The three heaps of a queue together: each is valid and no message is in two places.
use mathlib.Core.List.{
  Nodup-cons, Nodup-append, mem-append_left, mem-append_right, mem-cons, perm_middle,
}
use mathlib.Core.List.Perm
use mathlib.Core.Logic.Or
use mathlib.Core.Bool.{Bool-set}
use mathlib.Core.HLevel.{⊥_prop}
use artie_takehome.Base.{
  ℕ, ◌<◌, ◌≡◌, List, [], ◌∷◌, ◌++◌, Mem, Perm, Nodup, ℤ, concat-perm, String, some, true,
}
use artie_takehome.Msg.{Msg, Mode, Time, ready, order_by, by_visible_at, by_lease_expiry}
use artie_takehome.Msg.Order.{through}
use artie_takehome.Queue.Leases.{lookup}
use artie_takehome.Heap.Calls.{IsValid}
use artie_takehome.Heap.Locate.{IsValid-msgs}
use artie_takehome.Queue.{Queue, ready_heap, delayed_heap, inflight_heap}

-- Each message of the list is visible at the time.
abbrev pub AreDue : Time → (ℕ → Msg) → List ℕ → Type 0
AreDue now msgs xs = (x : ℕ) → Mem x xs → ready (msgs x) now ≡ true

pub AreDue-perm :
    (now : Time) (msgs : ℕ → Msg) (m : ℕ) (xs ys : List ℕ)
    → Perm xs (m ∷ ys)
    → ready (msgs m) now ≡ true
    → AreDue now msgs ys
    → AreDue now msgs xs
AreDue-perm now msgs m xs ys p e d x k =
    Or.elim (Bool-set _ _) (mem-cons.0 ((Perm.mem_iff p).0 k)) (λ same. rw same e) (d x)

-- No message is in two of the three lists.
pub record Separate (a b c : List ℕ) : Type 0 where
  pub ab : (x : ℕ) → Mem x a → ¬ Mem x b
  pub ac : (x : ℕ) → Mem x a → ¬ Mem x c
  pub bc : (x : ℕ) → Mem x b → ¬ Mem x c

pub Nodup-Separate : (a b c d : List ℕ) → Nodup (a ++ (b ++ (c ++ d))) → Separate a b c
Nodup-Separate a b c d n =
    let (_, nb, away) = Nodup-append.0 n in
    let (_, nc, away') = Nodup-append.0 nb in
    record {
      ab = λ x m k. away x m (mem-append_left _ k);
      ac = λ x m k. away x m (mem-append_right _ (mem-append_left _ k));
      bc = λ x m k. away' x m (mem-append_left _ k);
    }

pub Mem-cons_elim : {x m : ℕ} (xs : List ℕ) → (x ≡ m → ⊥) → (Mem x xs → ⊥) → ¬ Mem x (m ∷ xs)
Mem-cons_elim xs a b k = Or.elim ⊥_prop (mem-cons.0 k) a b

-- The parts of a queue's state that its heaps depend on. All other fields may change freely.
pub record CoreOf (mode : Mode) (msgs : ℕ → Msg) (index : ℕ → ℤ)
    (ready delayed inflight dlq : List ℕ) : Type 0 where
  pub ready_valid : IsValid (through msgs (order_by mode)) (record { items = ready; index = index })
  pub delayed_valid :
      IsValid (through msgs by_visible_at) (record { items = delayed; index = index })
  pub inflight_valid :
      IsValid (through msgs by_lease_expiry) (record { items = inflight; index = index })
  pub apart : Nodup (ready ++ (delayed ++ (inflight ++ dlq)))

-- The lease map lists exactly the messages of the inflight heap, each under its own receipt.
pub record LeasesOf (msgs : ℕ → Msg) (inflight : List ℕ) (leases : List (String × ℕ)) : Type 0 where
  pub listed :
      (r : String) (p : ℕ) → lookup r leases ≡ some p → Mem p inflight × ((msgs p).receipt ≡ r)
  pub found : (p : ℕ) → Mem p inflight → lookup (msgs p).receipt leases ≡ some p

module _ {W : Type 0} where
  -- Every message that the queue holds.
  abbrev pub held : Queue W → List ℕ
  held q = q.ready ++ (q.delayed ++ (q.inflight ++ q.dlq))

  abbrev pub Core : Queue W → Type 0
  Core q = CoreOf q.cfg.mode q.msgs q.index q.ready q.delayed q.inflight q.dlq

  -- A queue whose heaps are valid, whose leases match and whose messages are allocated.
  pub record IsConsistent (q : Queue W) : Type 0 where
    pub core : Core q
    pub leases : LeasesOf q.msgs q.inflight q.leases
    pub allocated : (p : ℕ) → Mem p (held q) → p < q.next

  -- What a message outside the queue is not in.
  pub record Loose (q : Queue W) (m : ℕ) : Type 0 where
    pub ready : ¬ Mem m q.ready
    pub delayed : ¬ Mem m q.delayed
    pub inflight : ¬ Mem m q.inflight

  pub Nodup-Loose : (q : Queue W) (m : ℕ) → Nodup (m ∷ held q) → Loose q m
  Nodup-Loose q m n =
      let out = (Nodup-cons.0 n).0 in
      record {
        ready = λ k. out (mem-append_left _ k);
        delayed = λ k. out (mem-append_right q.ready (mem-append_left _ k));
        inflight =
            λ k. out (mem-append_right q.ready (mem-append_right q.delayed (mem-append_left _ k)));
      }

  -- A write to a message outside the heaps leaves them valid.
  pub Core-msgs :
      (q : Queue W) (msgs : ℕ → Msg)
      → ((x : ℕ) → Mem x (held q) → msgs x ≡ q.msgs x)
      → Core q
      → Core (record q { msgs = msgs })
  Core-msgs q msgs same c = record {
    ready_valid =
        IsValid-msgs (order_by q.cfg.mode) q.msgs msgs (ready_heap q)
          (λ x k. same x (mem-append_left _ k)) c.ready_valid;
    delayed_valid =
        IsValid-msgs by_visible_at q.msgs msgs (delayed_heap q)
          (λ x k. same x (mem-append_right q.ready (mem-append_left _ k))) c.delayed_valid;
    inflight_valid =
        IsValid-msgs by_lease_expiry q.msgs msgs (inflight_heap q)
          (λ x k.
            same x (mem-append_right q.ready (mem-append_right q.delayed (mem-append_left _ k))))
          c.inflight_valid;
    apart = c.apart;
  }

  -- The places of the three heaps in `held`.
  pub held-ready :
      (q : Queue W) (xs ys : List ℕ)
      → Perm xs ys
      → Perm
          (xs ++ (q.delayed ++ (q.inflight ++ q.dlq)))
          (ys ++ (q.delayed ++ (q.inflight ++ q.dlq)))
  held-ready q xs ys p = Perm.append_right _ p

  pub held-delayed :
      (q : Queue W) (m : ℕ) (xs ys : List ℕ)
      → Perm xs (m ∷ ys)
      → Perm
          (q.ready ++ (xs ++ (q.inflight ++ q.dlq)))
          (m ∷ (q.ready ++ (ys ++ (q.inflight ++ q.dlq))))
  held-delayed q m xs ys p =
      Perm.trans (Perm.append_left q.ready (Perm.append_right _ p)) (perm_middle q.ready _)

  pub held-inflight :
      (q : Queue W) (m : ℕ) (xs ys : List ℕ)
      → Perm xs (m ∷ ys)
      → Perm
          (q.ready ++ (q.delayed ++ (xs ++ q.dlq)))
          (m ∷ (q.ready ++ (q.delayed ++ (ys ++ q.dlq))))
  held-inflight q m xs ys p =
      Perm.trans
        (Perm.append_left q.ready (
          Perm.trans (Perm.append_left q.delayed (Perm.append_right _ p))
            (perm_middle q.delayed _)))
        (perm_middle q.ready _)

  pub held-dlq :
      (q : Queue W) (m : ℕ)
      → Perm (q.ready ++ (q.delayed ++ (q.inflight ++ (q.dlq ++ m ∷ [])))) (m ∷ held q)
  held-dlq q m =
      Perm.trans
        (Perm.append_left q.ready (
          Perm.trans
            (Perm.append_left q.delayed (
              Perm.trans (Perm.append_left q.inflight (concat-perm q.dlq m))
                (perm_middle q.inflight _)))
            (perm_middle q.delayed _)))
        (perm_middle q.ready _)

  pub held-parked :
      (q : Queue W) (m : ℕ) (ms : List ℕ)
      → Perm
          (q.ready ++ (q.delayed ++ (q.inflight ++ m ∷ ms)))
          (m ∷ (q.ready ++ (q.delayed ++ (q.inflight ++ ms))))
  held-parked q m ms =
      Perm.trans
        (Perm.append_left q.ready (
          Perm.trans (Perm.append_left q.delayed (perm_middle q.inflight ms))
            (perm_middle q.delayed _)))
        (perm_middle q.ready _)
