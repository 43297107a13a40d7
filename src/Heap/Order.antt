-- ===== src/Heap/Order.antt =====
-- The order that a heap keeps, over any comparator, and the invariants of the two loops.
use artie_takehome.Base.{
  ℕ, zero, suc, ◌<◌, ◌≡◌, ◌≢◌, Bool, true, false, List, slot, length, arith, Bool-cases, inl, inr,
}
use artie_takehome.Heap.{parent}

-- A comparator that sorts: what Go asks of every `Less`.
pub record IsOrder (less : ℕ → ℕ → Bool) : Type 0 where
  pub asym : (a b : ℕ) → less a b ≡ true → less b a ≡ false
  pub trans : (a b c : ℕ) → less b a ≡ false → less c b ≡ false → less c a ≡ false

module _ (less : ℕ → ℕ → Bool) where
  -- Slot `i` may stand above slot `j`.
  abbrev pub Ordered : List ℕ → ℕ → ℕ → Type 0
  Ordered xs i j = less (slot xs j) (slot xs i) ≡ false

  -- The first `n` slots form a heap.
  abbrev pub IsHeapTo : ℕ → List ℕ → Type 0
  IsHeapTo n xs = (c : ℕ) → 0 < c → c < n → Ordered xs (parent c) c

  abbrev pub IsHeap : List ℕ → Type 0
  IsHeap xs = IsHeapTo (length xs) xs

  -- The edges past `i`, from its parent to its children, are in order.
  abbrev pub IsBridged : ℕ → List ℕ → ℕ → Type 0
  IsBridged n xs i = (c : ℕ) → 0 < c → c < n → parent c ≡ i → 0 < i → Ordered xs (parent i) c

  -- Only the edge above `i` may be out of order.
  pub record UpInv (n : ℕ) (xs : List ℕ) (i : ℕ) : Type 0 where
    pub edges : (c : ℕ) → 0 < c → c < n → c ≢ i → Ordered xs (parent c) c
    pub bridged : IsBridged n xs i

  -- Only the edges at `i`, above it and below it, may be out of order.
  pub record FixInv (n : ℕ) (xs : List ℕ) (i : ℕ) : Type 0 where
    pub edges : (c : ℕ) → 0 < c → c < n → c ≢ i → parent c ≢ i → Ordered xs (parent c) c
    pub bridged : IsBridged n xs i

  -- The entry at `i` may stand above its children.
  abbrev pub IsSettled : ℕ → List ℕ → ℕ → Type 0
  IsSettled n xs i = (c : ℕ) → 0 < c → c < n → parent c ≡ i → Ordered xs i c

  module _ (o : IsOrder less) where
    pub irrefl : (a : ℕ) → less a a ≡ false
    irrefl a = elim (Bool-cases (less a a)) [ inl e ↦ o.asym a a e | inr e ↦ e ]

    root_least_below :
        (k n : ℕ) (xs : List ℕ) (i : ℕ) → IsHeapTo n xs → i < k → i < n → Ordered xs 0 i
    root_least_below zero n xs i h f p = absurd (omega arith)
    root_least_below (suc k) n xs zero h f p = irrefl (slot xs 0)
    root_least_below (suc k) n xs (suc i) h f p =
        o.trans (slot xs 0) (slot xs (parent (suc i))) (slot xs (suc i))
          (root_least_below k n xs (parent (suc i)) h (omega arith) (omega arith))
          (h (suc i) (omega arith) p)

    -- No entry of a heap sorts before its root.
    pub root_least : (n : ℕ) (xs : List ℕ) (i : ℕ) → IsHeapTo n xs → i < n → Ordered xs 0 i
    root_least n xs i h p = root_least_below (suc i) n xs i h (omega arith) p
