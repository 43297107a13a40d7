-- ===== src/Heap/Moves.antt =====
-- Swap keeps each message's `index` equal to its slot, and moves only pointers.
use mathlib.Core.List.{mem-cons, mem-cons_self, mem-cons_of_mem, not-mem-nil}
use mathlib.Core.Logic.Or
use mathlib.Core.List.Perm
use artie_takehome.Base.{
  ℕ, zero, suc, ◌≤◌, ◌<◌, ◌≡◌, ◌≢◌, refl, ◌∙◌, List, [], ◌∷◌, Mem, Perm, some, Bool, slot, length,
  arith, pos, exchange, slot-exchange, exchange-perm, length-exchange, get_elem?-slot,
}
use artie_takehome.MsgHeap.{MsgHeap, len, less_at, swap, update}

-- Every message's `index` names the slot that holds it.
abbrev pub IsSynced : MsgHeap → Type 0
IsSynced h = (i : ℕ) → i < len h → h.index (slot h.items i) ≡ pos i

pub slot-mem : (xs : List ℕ) (i : ℕ) → i < length xs → Mem (slot xs i) xs
unfolding slot
slot-mem [] i p = absurd (omega arith)
slot-mem (x ∷ xs) zero p = mem-cons_self
slot-mem (x ∷ xs) (suc i) p = mem-cons_of_mem x (slot-mem xs i (omega arith))

-- `g` holds the pointers of `h` in another order, with its slots from `n` on unchanged.
pub record Rearranged (n : ℕ) (h g : MsgHeap) : Type 0 where
  pub same : Perm g.items h.items
  pub synced : IsSynced h → IsSynced g
  pub others : (x : ℕ) → ¬ Mem x h.items → g.index x ≡ h.index x
  pub beyond : (k : ℕ) → n ≤ k → slot g.items k ≡ slot h.items k

pub Rearranged-refl : (n : ℕ) (h : MsgHeap) → Rearranged n h h
Rearranged-refl n h = record {
  same = Perm.rfl;
  synced = λ s. s;
  others = λ x m. refl;
  beyond = λ k p. refl;
}

pub Rearranged-trans :
    {n : ℕ} {f g h : MsgHeap} → Rearranged n f g → Rearranged n g h → Rearranged n f h
Rearranged-trans r s = record {
  same = Perm.trans s.same r.same;
  synced = λ t. s.synced (r.synced t);
  others = λ x m. s.others x (λ k. m ((Perm.mem_iff r.same).0 k)) ∙ r.others x m;
  beyond = λ k p. s.beyond k p ∙ r.beyond k p;
}

-- The heap that Swap leaves.
abbrev pub swapped : MsgHeap → ℕ → ℕ → MsgHeap
swapped h i j =
    let xs = exchange h.items i j in
    record { items = xs; index = update (update h.index (slot xs i) (pos i)) (slot xs j) (pos j) }

module _ (h : MsgHeap) (i j : ℕ) (hi : i < len h) (hj : j < len h) where
  pub less_at_lem :
      (less : ℕ → ℕ → Bool) → less_at less h i j ≡ some (less (slot h.items i) (slot h.items j))
  unfolding less_at
  less_at_lem less = rw (get_elem?-slot h.items i hi, get_elem?-slot h.items j hj)

  pub swap_lem : swap h i j ≡ some (swapped h i j)
  unfolding swap exchange
  swap_lem =
      let at =
        λ (k : ℕ) (p : k < len h). get_elem?-slot (exchange h.items i j) k (rw length-exchange p) in
      rw (get_elem?-slot h.items i hi, get_elem?-slot h.items j hj, at i hi, at j hj)

  swapped-IsSynced : IsSynced h → IsSynced (swapped h i j)
  swapped-IsSynced s k p = ground (
    arith,
    length-exchange h.items i j,
    slot-exchange h.items i j hi hj i,
    slot-exchange h.items i j hi hj j,
    slot-exchange h.items i j hi hj k,
    s i,
    s j,
    s k,
  )

  pub swapped-Rearranged : (n : ℕ) → i < n → j < n → Rearranged n h (swapped h i j)
  swapped-Rearranged n p q = record {
    same = exchange-perm h.items i j hi hj;
    synced = swapped-IsSynced;
    others = λ x m. ground (
      arith,
      slot-exchange h.items i j hi hj i,
      slot-exchange h.items i j hi hj j,
      absent i x m hi,
      absent j x m hj,
    );
    beyond = λ k r. ground (arith, slot-exchange h.items i j hi hj k);
  }
    where
      absent : (k x : ℕ) → ¬ Mem x h.items → k < len h → slot h.items k ≢ x
      absent k x m r e = m (rw e at (slot-mem h.items k r))

-- What holds of every slot holds of every member.
pub mem-slot :
    (P : ℕ → Type 0)
    → ((x : ℕ) → IsProp (P x))
    → (xs : List ℕ) → ((i : ℕ) → i < length xs → P (slot xs i))
    → (x : ℕ) → Mem x xs
    → P x
unfolding slot
mem-slot P prop [] h x m = absurd (not-mem-nil m)
mem-slot P prop (y ∷ xs) h x m =
    Or.elim (prop x) (mem-cons.0 m) (λ e. rw e (h 0 (omega arith)))
      (mem-slot P prop xs (λ i p. h (suc i) (omega arith)) x)
