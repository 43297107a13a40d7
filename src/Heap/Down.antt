-- ===== src/Heap/Down.antt =====
-- The loop `down` of container/heap.
use artie_takehome.Base.{
  ℕ, zero, suc, ◌+◌, ◌-◌, ◌*◌, ◌≤◌, ◌<◌, ◌≡◌, ◌⊎◌, inl, inr, refl, List, Returns, returns,
  Returns-if, Returns-map, Returns-bind, Bool, true, false, slot, length, arith, ltb, slot-exchange,
  exchange, length-exchange, Bool-cases,
}
use artie_takehome.MsgHeap.{MsgHeap, len}
use artie_takehome.Heap.{parent, smaller_child, down_loop, down}
use artie_takehome.Heap.Order.{IsOrder, Ordered, IsHeapTo, FixInv, IsSettled, irrefl}
use artie_takehome.Heap.Moves.{
  Rearranged, Rearranged-refl, Rearranged-trans, swapped, less_at_lem, swap_lem, swapped-Rearranged,
}

module _ (less : ℕ → ℕ → Bool) (o : IsOrder less) where
  -- `m` is the child of `i` that sorts first.
  pub record IsSmallerChild (n : ℕ) (xs : List ℕ) (i m : ℕ) : Type 0 where
    pub inside : m < n
    pub child : (m ≡ 2 * i + 1) ⊎ (m ≡ 2 * i + 2)
    pub least : (c : ℕ) → 0 < c → c < n → parent c ≡ i → Ordered less xs m c

  smaller_child_lem :
      (n : ℕ) (h : MsgHeap) (i : ℕ)
      → 2 * i + 1 < n
      → n ≤ len h
      → Returns (IsSmallerChild n h.items i) (smaller_child less h (2 * i + 1) n)
  unfolding smaller_child
  smaller_child_lem n h i p q =
      let l = 2 * i + 1 in
      let r = 2 * i + 1 + 1 in
      let xs = h.items in
      Returns-if (ltb r n)
        (λ two.
          rw (less_at_lem h r l (ground arith) (ground arith) less)
            (elim (Bool-cases (less (slot xs r) (slot xs l))) [
              | inl e ↦ rw e (
                  returns (record {
                    inside = ground arith;
                    child = inr (omega arith);
                    least = λ c a b d.
                        ground (arith, cases c a d, o.asym _ _ e, irrefl less o (slot xs r));
                  }))
              | inr e ↦ rw e (
                  returns (record {
                    inside = p;
                    child = inl refl;
                    least = λ c a b d. ground (arith, cases c a d, e, irrefl less o (slot xs l));
                  }))
            ]))
        λ one. returns (record {
          inside = p;
          child = inl refl;
          least = λ c a b d. ground (arith, cases c a d, irrefl less o (slot xs l));
        })
    where
      cases : (c : ℕ) → 0 < c → parent c ≡ i → (c ≡ 2 * i + 1) ⊎ (c ≡ 2 * i + 1 + 1)
      cases c a d = omega arith

  module _ (n : ℕ) (xs : List ℕ) (i m : ℕ) (s : IsSmallerChild n xs i m) (size : n ≤ length xs)
      (below : less (slot xs m) (slot xs i) ≡ true) where
    exchange-FixInv : FixInv less n xs i → FixInv less n (exchange xs i m) m
    exchange-FixInv v =
        let at =
          slot-exchange xs i m (omega (arith, s.inside, s.child)) (omega (arith, s.inside)) in
        record {
          edges = λ c p q r t. ground (
            arith,
            at c,
            at (parent c),
            v.edges c p q,
            v.bridged m,
            s.least c p q,
            s.inside,
            s.child,
          );
          bridged =
              λ c p q r t. ground (arith, at c, at (parent m), v.edges c p q, s.inside, s.child);
        }

    -- The edge from `i` to `m` is in order after the exchange.
    exchange-Ordered : Ordered less (exchange xs i m) i m
    exchange-Ordered =
        let at =
          slot-exchange xs i m (omega (arith, s.inside, s.child)) (omega (arith, s.inside)) in
        ground (arith, at i, at m, o.asym _ _ below, s.child)

  -- What the loop leaves: the stop slot `j`, and a heap if the entry moved.
  pub record Sunk (n : ℕ) (h : MsgHeap) (i : ℕ) (r : MsgHeap × ℕ) : Type 0 where
    pub at_least : i ≤ r.1
    pub kept : Rearranged n h r.0
    pub stayed : r.1 ≡ i → (r.0 ≡ h) × IsSettled less n h.items i
    pub moved : i < r.1 → IsHeapTo less n r.0.items

  stop : (n : ℕ) (h : MsgHeap) (i : ℕ) → IsSettled less n h.items i → Sunk n h i (h, i)
  stop n h i s = record {
    at_least = omega arith;
    kept = Rearranged-refl n h;
    stayed = λ e. (refl, s);
    moved = λ p. absurd (omega arith);
  }

  FixInv-heap :
      (n : ℕ) (xs : List ℕ) (i m : ℕ)
      → parent m ≡ i
      → FixInv less n xs m
      → Ordered less xs i m
      → IsSettled less n xs m
      → IsHeapTo less n xs
  FixInv-heap n xs i m e v above below c p q = ground (arith, v.edges c p q, below c p q)

  move :
      (n : ℕ) (h : MsgHeap) (i m : ℕ)
      → IsSmallerChild n h.items i m
      → n ≤ len h
      → less (slot h.items m) (slot h.items i) ≡ true
      → FixInv less n h.items i
      → (r : MsgHeap × ℕ) → Sunk n (swapped h i m) m r
      → Sunk n h i r
  move n h i m s size below v r t =
      let hm : m < len h = omega (arith, s.inside) in
      let hi : i < len h = omega (arith, s.inside, s.child) in
      record {
        at_least = omega (arith, t.at_least, s.child);
        kept =
            Rearranged-trans
              (swapped-Rearranged h i m hi hm n (omega (arith, s.inside, s.child)) s.inside) t.kept;
        stayed = λ e. absurd (omega (arith, e, t.at_least, s.child));
        moved = λ p. elim (split r.1 t.at_least) [
          | inl e ↦ rw (t.stayed e).0 (
              FixInv-heap n (exchange h.items i m) i m (omega (arith, s.child))
                (exchange-FixInv n h.items i m s size below v)
                (exchange-Ordered n h.items i m s size below) (t.stayed e).1)
          | inr q ↦ t.moved q
        ];
      }
    where
      split : (j : ℕ) → m ≤ j → (j ≡ m) ⊎ (m < j)
      split j p = omega arith

  down_loop_sinks :
      (k n : ℕ) (h : MsgHeap) (i : ℕ)
      → n - i < k
      → n ≤ len h
      → FixInv less n h.items i
      → Returns (Sunk n h i) (down_loop less k h i n)
  unfolding down_loop
  down_loop_sinks zero n h i f size v = absurd (omega arith)
  down_loop_sinks (suc k) n h i f size v =
      Returns-if (ltb (2 * i + 1) n)
        (λ inner. Returns-bind (smaller_child_lem n h i (ground arith) size) λ m s.
          let hm : m < len h = omega (arith, s.inside) in
          let hi : i < len h = omega (arith, s.inside, s.child) in
          rw (less_at_lem h m i hm hi less) (
            Returns-if (less (slot h.items m) (slot h.items i))
              (λ below. rw (swap_lem h i m hi hm) (
                Returns-map
                  (down_loop_sinks k n (swapped h i m) m (omega (arith, s.inside, s.child))
                    (omega (arith, length-exchange h.items i m))
                    (exchange-FixInv n h.items i m s size below v))
                  (move n h i m s size below v)))
              λ above. returns (
                stop n h i λ c p q e.
                  o.trans (slot h.items i) (slot h.items m) (slot h.items c) above
                    (s.least c p q e))))
        λ leaf. returns (stop n h i λ c p q e. absurd (ground arith))

  -- What `down` reports: a heap if the entry moved, and otherwise nothing changed.
  pub record Settled (n : ℕ) (h : MsgHeap) (i : ℕ) (r : MsgHeap × Bool) : Type 0 where
    pub kept : Rearranged n h r.0
    pub stayed : r.1 ≡ false → (r.0 ≡ h) × IsSettled less n h.items i
    pub moved : r.1 ≡ true → IsHeapTo less n r.0.items

  pub down_sinks :
      (n : ℕ) (h : MsgHeap) (i : ℕ)
      → n ≤ len h
      → FixInv less n h.items i
      → Returns (Settled n h i) (down less h i n)
  unfolding down
  down_sinks n h i size v = Returns-bind (down_loop_sinks (suc n) n h i (omega arith) size v) λ r s.
      returns (record {
        kept = s.kept;
        stayed = λ e. s.stayed (omega (arith, s.at_least, ltb→le i r.1 e));
        moved = λ e. s.moved (ground arith);
      })
    where
      ltb→le : (a b : ℕ) → ltb a b ≡ false → b ≤ a
      ltb→le a b e = ground arith
