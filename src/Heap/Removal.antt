-- ===== src/Heap/Removal.antt =====
-- Pop, Remove and Fix of container/heap.
use mathlib.Core.Bool.{Bool-set}
use mathlib.Core.List.Perm
use artie_takehome.Base.{
  ℕ, suc, ◌-◌, ◌≤◌, ◌<◌, ◌≡◌, ◌∙◌, refl, ap, List, ◌∷◌, Mem, Perm, none, Returns, returns,
  Returns-if, Returns-map, Returns-bind, Bool, false, slot, length, arith, ◌==◌, exchange,
  slot-exchange, length-exchange, pos, negsuc, length-perm, Bool-cases, inl, inr,
}
use artie_takehome.MsgHeap
use artie_takehome.MsgHeap.{MsgHeap, len, swap}
use artie_takehome.Heap.{parent, pop, sift, remove, fix}
use artie_takehome.Heap.Order.{IsOrder, IsHeapTo, IsHeap, UpInv, FixInv, IsSettled, root_least}
use artie_takehome.Heap.Moves.{
  IsSynced, Rearranged, Rearranged-refl, swapped, swap_lem, swapped-Rearranged, slot-mem, mem-slot,
}
use artie_takehome.Heap.Up.{Raised, up_raises}
use artie_takehome.Heap.Down.{Settled, down_sinks}
use artie_takehome.Heap.Calls.{IsValid, Cut, cut_lem}

module _ (less : ℕ → ℕ → Bool) where
  -- Taking `m` out of the heap `h` leaves `g`.
  pub record Removed (h : MsgHeap) (r : MsgHeap × ℕ) : Type 0 where
    pub valid : IsValid less r.0
    pub same : Perm (r.1 ∷ r.0.items) h.items
    pub out : r.0.index r.1 ≡ negsuc 0
    pub others : (x : ℕ) → ¬ Mem x h.items → r.0.index x ≡ h.index x

module _ (less : ℕ → ℕ → Bool) (o : IsOrder less) where
  settled-UpInv :
      (n : ℕ) (xs : List ℕ) (i : ℕ) → FixInv less n xs i → IsSettled less n xs i → UpInv less n xs i
  settled-UpInv n xs i v s = record {
    edges = λ c p q r. ground (arith, v.edges c p q r, s c p q);
    bridged = v.bridged;
  }

  -- An entry whose key changed moves down or up until the prefix is a heap again.
  sift_raises :
      (n : ℕ) (h : MsgHeap) (i : ℕ)
      → i < n
      → n ≤ len h
      → FixInv less n h.items i
      → Returns (Raised less o n h) (sift less h i n)
  unfolding sift
  sift_raises n h i p q v = Returns-bind (down_sinks less o n h i q v) λ r s.
      Returns-if r.1 (λ e. returns (s.moved e, s.kept))
        λ e.
          let (same, settled) = s.stayed e in
          rw same (up_raises less o n h i p q (settled-UpInv n h.items i v settled))

  exchange-FixInv_last :
      (n : ℕ) (xs : List ℕ) (i : ℕ)
      → length xs ≡ suc n
      → i < n
      → IsHeap less xs
      → FixInv less n (exchange xs i n) i
  exchange-FixInv_last n xs i size p heap =
      let at = slot-exchange xs i n (omega arith) (omega arith) in
      record {
        edges = λ c a b r t. ground (arith, at c, at (parent c), heap c a);
        bridged = λ c a b r t. ground (
          arith,
          at c,
          at (parent i),
          heap c a,
          heap i,
          o.trans (slot xs (parent i)) (slot xs i) (slot xs c),
        );
      }

  -- The last step of Pop and Remove, on a heap that only moved pointers of `h`.
  cut-Removed :
      (n : ℕ) (h g : MsgHeap)
      → len h ≡ suc n
      → n ≤ len h
      → Rearranged n h g
      → IsHeapTo less n g.items
      → IsSynced h
      → Returns (λ r. Removed less h r × (r.1 ≡ slot h.items n)) (MsgHeap.pop g)
  cut-Removed n h g size small moved heap s =
      Returns-map (cut_lem less o n g (length-perm moved.same ∙ size) heap (moved.synced s)) λ r c.
        (
          record {
            valid = c.valid;
            same = Perm.trans c.same moved.same;
            out = c.out;
            others = λ x m. c.others x (λ e. m (present r c x e)) ∙ moved.others x m;
          },
          c.last ∙ moved.beyond n (omega arith),
        )
    where
      present : (r : MsgHeap × ℕ) → Cut less n g r → (x : ℕ) → x ≡ r.1 → Mem x h.items
      present r c x e =
          rw (e, c.last)
            ((Perm.mem_iff moved.same).0
              (slot-mem g.items n (omega (arith, length-perm moved.same))))

  Removed-Rearranged :
      (k : ℕ) (h g : MsgHeap) (r : MsgHeap × ℕ)
      → Rearranged k h g
      → Removed less g r
      → Removed less h r
  Removed-Rearranged k h g r moved t = record {
    valid = t.valid;
    same = Perm.trans t.same moved.same;
    out = t.out;
    others = λ x m. t.others x (λ a. m ((Perm.mem_iff moved.same).0 a)) ∙ moved.others x m;
  }

  -- The last slot changes places with slot `i`, and is then taken off the re-ordered heap.
  swap-cut :
      (n : ℕ) (h : MsgHeap) (i : ℕ)
      → len h ≡ suc n
      → i < suc n
      → IsSynced h
      → (g : MsgHeap) → Raised less o n (swapped h i n) g
      → Returns (λ r. Removed less h r × (r.1 ≡ slot h.items i)) (MsgHeap.pop g)
  swap-cut n h i size p s g (heap, moved) =
      let hi : i < len h = omega arith in
      let hn : n < len h = omega arith in
      let before = swapped-Rearranged h i n hi hn (suc n) p (omega arith) in
      Returns-map
        (cut-Removed n (swapped h i n) g (length-exchange h.items i n ∙ size)
          (omega (arith, length-exchange h.items i n)) moved heap (before.synced s))
        λ r (t, u). (
          Removed-Rearranged (suc n) h (swapped h i n) r before t,
          ground (arith, u, slot-exchange h.items i n hi hn n),
        )

  -- With a comparator that sorts, Remove at a slot of a valid heap returns a valid heap and takes
  -- out exactly that slot's pointer.
  pub remove_lem :
      (h : MsgHeap) (i : ℕ)
      → IsValid less h
      → i < len h
      → Returns (λ r. Removed less h r × (r.1 ≡ slot h.items i)) (remove less h (pos i))
  unfolding remove
  remove_lem h i v p =
      let n = len h - 1 in
      let size : len h ≡ suc n = omega arith in
      Returns-if (len h == 0) (λ e. absurd (ground arith))
        λ some_left.
          Returns-if (n == i)
            (λ e.
              let here : n ≡ i = ground arith in
              Returns-map
                (cut-Removed n h h size (omega arith) (Rearranged-refl n h)
                  (λ c a b. v.heap c a (omega arith)) v.synced)
                λ r (t, u). (t, u ∙ ap (slot h.items) here))
            λ e.
              let inner : i < n = ground arith in
              rw (swap_lem h i n p (omega arith)) (
                Returns-bind
                  (sift_raises n (swapped h i n) i inner
                    (omega (arith, length-exchange h.items i n))
                    (exchange-FixInv_last n h.items i size inner v.heap))
                  (swap-cut n h i size (omega arith) v.synced))

  exchange-FixInv_root :
      (n : ℕ) (xs : List ℕ) → length xs ≡ suc n → IsHeap less xs → FixInv less n (exchange xs 0 n) 0
  exchange-FixInv_root n xs size heap =
      let at = slot-exchange xs 0 n (omega arith) (omega arith) in
      record {
        edges = λ c a b r t. ground (arith, at c, at (parent c), heap c a);
        bridged = λ c a b r t. absurd (omega arith);
      }

  root-Raised :
      (n : ℕ) (h : MsgHeap) (r : MsgHeap × Bool)
      → FixInv less n h.items 0
      → Settled less o n h 0 r
      → Raised less o n h r.0
  root-Raised n h r v s = elim (Bool-cases r.1) [
    | inl e ↦ (s.moved e, s.kept)
    | inr e ↦
        let (same, settled) = s.stayed e in
        let u = settled-UpInv n h.items 0 v settled in
        rw same ((λ c p q. u.edges c p q (omega arith)), Rearranged-refl n h)
  ]

  -- With a comparator that sorts, Pop of a valid heap that is not empty returns a valid heap and
  -- takes out the root, and no member sorts before it.
  pub pop_lem :
      (h : MsgHeap)
      → IsValid less h
      → 0 < len h
      → Returns
          (λ r.
            Removed less h r
            × (r.1 ≡ slot h.items 0)
            × ((x : ℕ) → Mem x h.items → less x r.1 ≡ false))
          (pop less h)
  unfolding pop
  pop_lem h v p =
      let n = len h - 1 in
      let size : len h ≡ suc n = omega arith in
      let start = exchange-FixInv_root n h.items size v.heap in
      rw (nonempty, swap_lem h 0 n p (omega arith))
        (Returns-bind
          (down_sinks less o n (swapped h 0 n) 0 (omega (arith, length-exchange h.items 0 n)) start)
          λ r s.
            Returns-map
              (swap-cut n h 0 size (omega arith) v.synced r.0
                (root-Raised n (swapped h 0 n) r start s))
              λ t (removed, root). (
                removed,
                root,
                λ x m. rw root (
                    mem-slot (λ y. less y (slot h.items 0) ≡ false) (λ y. Bool-set _ _) h.items
                      (λ i q. root_least less o (len h) h.items i v.heap q) x m),
              ))
    where
      nonempty : (len h == 0) ≡ false
      nonempty = ground arith

  -- Fix restores the heap after the key of one entry has changed.
  pub fix_lem :
      (h : MsgHeap) (i : ℕ)
      → i < len h
      → FixInv less (len h) h.items i
      → IsSynced h
      → Returns (λ g. IsValid less g × Rearranged (len h) h g) (fix less h (pos i))
  unfolding fix
  fix_lem h i p v s = Returns-map (sift_raises (len h) h i p (omega arith) v) λ g (heap, moved).
      (record { heap = rw (length-perm moved.same) heap; synced = moved.synced s }, moved)

  -- An index of -1, of a message that is in no heap, makes the call panic.
  pub remove_negative : (h : MsgHeap) (k : ℕ) → remove less h (negsuc k) ≡ none
  unfolding remove
  remove_negative h k = refl
