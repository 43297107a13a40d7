-- ===== src/Queue/Matching.antt =====
-- How the lease map stays in step with the inflight heap.
use mathlib.Core.List.{Mem-prop, mem-cons, mem-cons_self, mem-cons_of_mem, Nodup-cons}
use mathlib.Core.List.Perm
use mathlib.Core.Logic.Or
use mathlib.Core.Option
use native.Mathlib.Nat.{ℕ_set}
use artie_takehome.Base.{
  ℕ, ◌≡◌, ◌≢◌, sym, ◌∙◌, ap, List, ◌∷◌, Mem, Perm, Nodup, String, arith, some, none, false,
  Bool-cases, inl, inr, str_eq, str_eq_iff, str_eq_refl, if◌then◌else◌,
}
use artie_takehome.Msg.{Msg}
use artie_takehome.Queue.Core.{LeasesOf}
use artie_takehome.Queue.Leases.{lookup, delete, put, lookup-delete, lookup-put}

-- Only the receipts of leased messages matter.
pub LeasesOf-msgs :
    (msgs msgs' : ℕ → Msg) (inflight : List ℕ) (leases : List (String × ℕ))
    → ((x : ℕ) → Mem x inflight → msgs' x ≡ msgs x)
    → LeasesOf msgs inflight leases
    → LeasesOf msgs' inflight leases
LeasesOf-msgs msgs msgs' inflight leases same l = record {
  listed =
      λ r p e. let (k, at) = l.listed r p e in (k, ap (λ (m : Msg). m.receipt) (same p k) ∙ at);
  found = λ p k. rw (same p k) (l.found p k);
}

-- Nor does the order of the heap.
pub LeasesOf-perm :
    (msgs : ℕ → Msg) (xs ys : List ℕ) (leases : List (String × ℕ))
    → Perm xs ys
    → LeasesOf msgs ys leases
    → LeasesOf msgs xs leases
LeasesOf-perm msgs xs ys leases same l = record {
  listed = λ r p e. let (k, at) = l.listed r p e in ((Perm.mem_iff same).1 k, at);
  found = λ p k. l.found p ((Perm.mem_iff same).0 k);
}

tail-mem : {p m : ℕ} (xs : List ℕ) → Mem p (m ∷ xs) → p ≢ m → Mem p xs
tail-mem xs k ne = Or.elim Mem-prop (mem-cons.0 k) (λ e. absurd (ne e)) (λ a. a)

module _ (msgs : ℕ → Msg) (m : ℕ) (xs ys : List ℕ) (leases : List (String × ℕ)) where
  -- A lease ends: its message leaves the heap, and its receipt the map.
  pub LeasesOf-delete :
      Nodup (m ∷ xs)
      → Perm (m ∷ xs) ys
      → LeasesOf msgs ys leases
      → LeasesOf msgs xs (delete (msgs m).receipt leases)
  LeasesOf-delete n same l = record {
    listed = λ r p e. still r p (live r p e) e;
    found = λ p k.
        let held = l.found p (before k) in
        rw (lookup-delete (msgs p).receipt (msgs m).receipt leases) (kept p k held);
  }
    where
      before : {p : ℕ} → Mem p xs → Mem p ys
      before k = (Perm.mem_iff same).0 (mem-cons_of_mem m k)

      own : lookup (msgs m).receipt leases ≡ some m
      own = l.found m ((Perm.mem_iff same).0 mem-cons_self)

      live :
          (r : String) (p : ℕ)
          → lookup r (delete (msgs m).receipt leases) ≡ some p
          → (lookup r leases ≡ some p) × (str_eq (msgs m).receipt r ≡ false)
      live r p e = ground (arith, lookup-delete r (msgs m).receipt leases)

      still :
          (r : String) (p : ℕ)
          → (lookup r leases ≡ some p) × (str_eq (msgs m).receipt r ≡ false)
          → lookup r (delete (msgs m).receipt leases) ≡ some p
          → Mem p xs × ((msgs p).receipt ≡ r)
      still r p (e, ne) _ =
          let (k, at) = l.listed r p e in
          (
            tail-mem xs ((Perm.mem_iff same).1 k) (λ (d : p ≡ m). cc (
              ne,
              (str_eq_iff (msgs m).receipt r).1 (ap (λ (x : ℕ). (msgs x).receipt) (sym d) ∙ at),
            )),
            at,
          )

      kept :
          (p : ℕ)
          → Mem p xs
          → lookup (msgs p).receipt leases ≡ some p
          → (if str_eq (msgs m).receipt (msgs p).receipt
              then none
              else lookup (msgs p).receipt leases)
            ≡ some p
      kept p k e = elim (Bool-cases (str_eq (msgs m).receipt (msgs p).receipt)) [
        | inl same' ↦
            let r : (msgs m).receipt ≡ (msgs p).receipt = (str_eq_iff _ _).0 same' in
            let again : lookup (msgs p).receipt leases ≡ some m = rw r at own in
            let both : p ≡ m = ground arith in absurd ((Nodup-cons.0 n).0 (rw both at k))
        | inr ne ↦ rw ne e
      ]

  -- A lease begins, under a receipt that the map does not hold.
  pub LeasesOf-put :
      ¬ Mem m xs
      → Perm ys (m ∷ xs)
      → lookup (msgs m).receipt leases ≡ none
      → LeasesOf msgs xs leases
      → LeasesOf msgs ys (put (msgs m).receipt m leases)
  LeasesOf-put out same fresh l = record {
    listed = λ r p e. elim (Bool-cases (str_eq (msgs m).receipt r)) [
      | inl hit ↦
          let at : (msgs m).receipt ≡ r = (str_eq_iff _ _).0 hit in
          let both : m ≡ p = ground (arith, lookup-put r (msgs m).receipt m leases) in
          (rw (← both) ((Perm.mem_iff same).1 mem-cons_self), rw (← both) at)
      | inr miss ↦
          let old : lookup r leases ≡ some p =
            ground (arith, lookup-put r (msgs m).receipt m leases) in
          let (k, at) = l.listed r p old in ((Perm.mem_iff same).1 (mem-cons_of_mem m k), at)
    ];
    found = λ p k. rw (lookup-put (msgs p).receipt (msgs m).receipt m leases) (
        Or.elim (Option.is_set ℕ_set _ _) (mem-cons.0 ((Perm.mem_iff same).0 k))
          (λ e. rw (e, str_eq_refl))
          (λ a. ground (arith, l.found p a, fresh, str_eq_iff (msgs m).receipt (msgs p).receipt)));
  }
