-- ===== src/Heap/Up.antt =====
-- The loop `up` of container/heap.
use artie_takehome.Base.{
  ℕ, zero, suc, ◌≤◌, ◌<◌, ◌≡◌, List, Returns, returns, Returns-if, Returns-map, Bool, true, false,
  slot, length, arith, ◌==◌, slot-exchange, exchange, length-exchange,
}
use artie_takehome.MsgHeap.{MsgHeap, len}
use artie_takehome.Heap.{parent, up_loop, up}
use artie_takehome.Heap.Order.{IsOrder, IsHeapTo, UpInv}
use artie_takehome.Heap.Moves.{
  Rearranged, Rearranged-refl, Rearranged-trans, swapped, less_at_lem, swap_lem, swapped-Rearranged,
}

module _ (less : ℕ → ℕ → Bool) (o : IsOrder less) where
  exchange-UpInv :
      (n : ℕ) (xs : List ℕ) (j : ℕ)
      → UpInv less n xs j
      → 0 < j
      → j < n
      → n ≤ length xs
      → less (slot xs j) (slot xs (parent j)) ≡ true
      → UpInv less n (exchange xs (parent j) j) (parent j)
  exchange-UpInv n xs j v pos inside size below =
      let i = parent j in
      let at = slot-exchange xs i j (omega arith) (omega arith) in
      let before : less (slot xs i) (slot xs j) ≡ false = o.asym _ _ below in
      record {
        edges = λ c p q r. ground (
          arith,
          before,
          at c,
          at (parent c),
          v.edges c p q,
          v.bridged c p q,
          o.trans (slot xs j) (slot xs i) (slot xs c),
        );
        bridged = λ c p q r s. ground (
          arith,
          at c,
          at (parent i),
          v.edges c p q,
          v.edges i,
          o.trans (slot xs (parent i)) (slot xs i) (slot xs c),
        );
      }

  -- `up` leaves a heap of the same pointers.
  abbrev pub Raised : ℕ → MsgHeap → MsgHeap → Type 0
  Raised n h g = IsHeapTo less n g.items × Rearranged n h g

  up_loop_raises :
      (k n : ℕ) (h : MsgHeap) (j : ℕ)
      → j < k
      → j < n
      → n ≤ len h
      → UpInv less n h.items j
      → Returns (Raised n h) (up_loop less k h j)
  unfolding up_loop
  up_loop_raises zero n h j f p q v = absurd (omega arith)
  up_loop_raises (suc k) n h j f p q v =
      let i = parent j in
      let hi : i < len h = omega arith in
      let hj : j < len h = omega arith in
      Returns-if (i == j)
        (λ root. returns (λ c a b. v.edges c a b (ground arith), Rearranged-refl n h))
        λ inner. rw (less_at_lem h j i hj hi less) (
          Returns-if (less (slot h.items j) (slot h.items i))
            (λ below. rw (swap_lem h i j hi hj) (
              Returns-map
                (up_loop_raises k n (swapped h i j) i (ground arith) (omega arith)
                  (omega (arith, length-exchange h.items i j))
                  (exchange-UpInv n h.items j v (ground arith) p q below))
                λ g r.
                  (r.0, Rearranged-trans (swapped-Rearranged h i j hi hj n (omega arith) p) r.1)))
            (λ settled. returns (λ c a b. ground (arith, v.edges c a b), Rearranged-refl n h)))

  pub up_raises :
      (n : ℕ) (h : MsgHeap) (j : ℕ)
      → j < n
      → n ≤ len h
      → UpInv less n h.items j
      → Returns (Raised n h) (up less h j)
  unfolding up
  up_raises n h j p q v = up_loop_raises (suc j) n h j (omega arith) p q v
