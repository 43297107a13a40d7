-- ===== src/Manager/Staged.antt =====
-- What the records of a queue's messages do to a staging.
use mathlib.Core.List.{mem-cons, mem-cons_self, mem-cons_of_mem, Mem-prop, not-mem-nil}
use mathlib.Core.Logic.Or
use artie_takehome.Base.{
  ℕ, ◌≡◌, ◌≢◌, refl, sym, ◌∙◌, Bool, true, List, [], ◌∷◌, ◌++◌, map, Mem, arith, Option, none, some,
  ◌⊎◌, inl, inr, Bool-cases, str_eq, str_eq_iff, if◌then◌else◌, ◌==◌, String,
}
use artie_takehome.Maps.{find, insert, find-insert}
use artie_takehome.Record.{Record, new_record, Op}
use artie_takehome.Queue.{Queue, clear_lease}
use artie_takehome.Queue.Core.{held}
use artie_takehome.Manager.{Staging, stage, emit, dead_records}

-- The staging of a queue after its records.
unfoldable pub staged : Staging → List Record → Staging
staged s [] = s
staged s (rec ∷ recs) = staged (stage s rec) recs

later : {p x : ℕ} {xs : List ℕ} → Mem p (x ∷ xs) → x ≢ p → Mem p xs
later k ne = Or.elim Mem-prop (mem-cons.0 k) (λ e. absurd (ne (sym e))) (λ m. m)

pub Mem-cases : (p : ℕ) (xs : List ℕ) → Mem p xs ⊎ (¬ Mem p xs)
Mem-cases p [] = inr not-mem-nil
Mem-cases p (x ∷ xs) = elim (Bool-cases (x == p)) [
  | inl e ↦ let same : x ≡ p = ground arith in inl (rw same mem-cons_self)
  | inr e ↦ elim (Mem-cases p xs) [
    | inl k ↦ inl (mem-cons_of_mem x k)
    | inr gone ↦ inr (λ k. gone (later k (ground arith)))
  ]
]

module _ {W : Type 0} (q : Queue W) where
  abbrev pub id_of : ℕ → String
  id_of p = (q.msgs p).id

  -- Different messages have different ids.
  abbrev pub IsNamed : Type 0
  IsNamed = (p r : ℕ) → Mem p (held q) → Mem r (held q) → id_of p ≡ id_of r → p ≡ r

  -- The message is staged as it is, but for its lease.
  abbrev pub IsStaged : Staging → ℕ → Type 0
  IsStaged s p = find (id_of p) s.live ≡ some (clear_lease (q.msgs p))

  pub emit-live :
      (s : Staging) (x : ℕ)
      → (stage s (emit q x)).live ≡ insert (id_of x) (clear_lease (q.msgs x)) s.live
  unfolding stage
  emit-live s x = ground arith

  emit-dlq : (s : Staging) (x : ℕ) → (stage s (emit q x)).dlq ≡ s.dlq
  unfolding stage
  emit-dlq s x = ground arith

  module _ (named : IsNamed) where
    emit-IsStaged :
        (s : Staging) (x p : ℕ)
        → Mem x (held q)
        → Mem p (held q)
        → (x ≡ p) ⊎ IsStaged s p
        → IsStaged (stage s (emit q x)) p
    emit-IsStaged s x p hx hp old =
        rw (emit-live s x, find-insert (id_of p) (id_of x) (clear_lease (q.msgs x)) s.live)
          (elim (Bool-cases (str_eq (id_of x) (id_of p))) [
            | inl e ↦ rw (e, named x p hx hp ((str_eq_iff (id_of x) (id_of p)).0 e)) refl
            | inr e ↦ rw e (elim old [
              | inl same ↦ absurd (ground (arith, same, e, str_eq_iff (id_of x) (id_of p)))
              | inr there ↦ there
            ])
          ])

    pub emits-IsStaged :
        (s : Staging) (ps : List ℕ) (p : ℕ)
        → ((x : ℕ) → Mem x ps → Mem x (held q))
        → Mem p (held q)
        → Mem p ps ⊎ IsStaged s p
        → IsStaged (staged s (map (emit q) ps)) p
    unfolding staged
    emits-IsStaged s [] p inside hp (inl k) = absurd (not-mem-nil k)
    emits-IsStaged s [] p inside hp (inr old) = old
    emits-IsStaged s (x ∷ ps) p inside hp old =
        emits-IsStaged (stage s (emit q x)) ps p (λ y k. inside y (mem-cons_of_mem x k)) hp
          (elim (Bool-cases (x == p)) [
            | inl e ↦ inr (emit-IsStaged s x p (inside x mem-cons_self) hp (inl (ground arith)))
            | inr e ↦ elim old [
              | inl k ↦ inl (later k (ground arith))
              | inr there ↦ inr (emit-IsStaged s x p (inside x mem-cons_self) hp (inr there))
            ]
          ])

  -- The record of a dead letter marks its id and leaves the messages.
  abbrev pub mark : ℕ → Record
  mark x = record (new_record Op.dlq q.cfg.name) { id = id_of x }

  pub mark-live : (s : Staging) (x : ℕ) → (stage s (mark x)).live ≡ s.live
  unfolding stage
  mark-live s x = refl

  mark-dlq : (s : Staging) (x : ℕ) → (stage s (mark x)).dlq ≡ insert (id_of x) true s.dlq
  unfolding stage
  mark-dlq s x = refl

  -- The id of `p` is marked as a dead letter's, or it is not.
  abbrev pub Marked : Option Bool → Staging → ℕ → Type 0
  Marked b s p = find (id_of p) s.dlq ≡ b

  both-dlq :
      (s : Staging) (x p : ℕ)
      → find (id_of p) (stage (stage s (emit q x)) (mark x)).dlq
        ≡ (if str_eq (id_of x) (id_of p) then some true else find (id_of p) s.dlq)
  both-dlq s x p =
      rw (mark-dlq (stage s (emit q x)) x, emit-dlq s x)
        (find-insert (id_of p) (id_of x) true s.dlq)

  pub dead-Marked :
      (s : Staging) (ps : List ℕ) (p : ℕ)
      → Mem p ps ⊎ Marked (some true) s p
      → Marked (some true) (staged s (dead_records q ps)) p
  unfolding staged dead_records
  dead-Marked s [] p (inl k) = absurd (not-mem-nil k)
  dead-Marked s [] p (inr old) = old
  dead-Marked s (x ∷ ps) p old =
      dead-Marked (stage (stage s (emit q x)) (mark x)) ps p (elim (Bool-cases (x == p)) [
        | inl e ↦ inr (both-dlq s x p ∙ ground (arith, e, str_eq_iff (id_of x) (id_of p)))
        | inr e ↦ elim old [
          | inl k ↦ inl (later k (ground arith))
          | inr there ↦ inr (both-dlq s x p ∙ ground (arith, there))
        ]
      ])

  pub spared :
      (s : Staging) (ps : List ℕ) (p : ℕ)
      → ((x : ℕ) → Mem x ps → id_of x ≢ id_of p)
      → Marked none s p
      → Marked none (staged s (dead_records q ps)) p
  unfolding staged dead_records
  spared s [] p away old = old
  spared s (x ∷ ps) p away old =
      spared (stage (stage s (emit q x)) (mark x)) ps p (λ y k. away y (mem-cons_of_mem x k))
        (both-dlq s x p ∙ ground (arith, old, away x mem-cons_self, str_eq_iff (id_of x) (id_of p)))

  pub emits-dlq : (s : Staging) (ps : List ℕ) → (staged s (map (emit q) ps)).dlq ≡ s.dlq
  unfolding staged
  emits-dlq s [] = refl
  emits-dlq s (x ∷ ps) = emits-dlq (stage s (emit q x)) ps ∙ emit-dlq s x

  pub dead-IsStaged :
      (named : IsNamed) (s : Staging) (ps : List ℕ) (p : ℕ)
      → ((x : ℕ) → Mem x ps → Mem x (held q))
      → Mem p (held q)
      → Mem p ps ⊎ IsStaged s p
      → IsStaged (staged s (dead_records q ps)) p
  unfolding staged dead_records
  dead-IsStaged named s [] p inside hp (inl k) = absurd (not-mem-nil k)
  dead-IsStaged named s [] p inside hp (inr old) = old
  dead-IsStaged named s (x ∷ ps) p inside hp old =
      let here : (x ≡ p) ⊎ IsStaged s p → IsStaged (stage (stage s (emit q x)) (mark x)) p = λ o.
        rw (mark-live (stage s (emit q x)) x)
          (emit-IsStaged named s x p (inside x mem-cons_self) hp o) in
      dead-IsStaged named (stage (stage s (emit q x)) (mark x)) ps p
        (λ y k. inside y (mem-cons_of_mem x k)) hp
        (elim (Bool-cases (x == p)) [
          | inl e ↦ inr (here (inl (ground arith)))
          | inr e ↦ elim old [
            | inl k ↦ inl (later k (ground arith))
            | inr there ↦ inr (here (inr there))
          ]
        ])

  pub staged-append :
      (s : Staging) (xs ys : List Record) → staged s (xs ++ ys) ≡ staged (staged s xs) ys
  unfolding staged
  staged-append s [] ys = refl
  staged-append s (x ∷ xs) ys = staged-append (stage s x) xs ys
