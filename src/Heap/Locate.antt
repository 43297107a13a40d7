-- ===== src/Heap/Locate.antt =====
-- A member of a synced heap is found through its `index`; what else leaves a heap valid.
use mathlib.Core.Bool.{Bool-set}
use artie_takehome.Base.{
  ℕ, ◌<◌, ◌≡◌, refl, List, Mem, Bool, true, false, ◌&&◌, slot, length, arith, ◌==◌, ltb, ℤ, pos,
  negsuc, ◌≢◌,
}
use artie_takehome.MsgHeap.{MsgHeap, len, update}
use artie_takehome.Msg.{Msg}
use artie_takehome.Msg.Order.{through}
use artie_takehome.Heap.{parent}
use artie_takehome.Heap.Order.{FixInv, IsOrder}
use artie_takehome.Heap.Moves.{IsSynced, slot-mem, mem-slot}
use artie_takehome.Heap.Calls.{IsValid}

is_located : List ℕ → ℕ → ℤ → Bool
is_located xs m (pos i) = ltb i (length xs) && (slot xs i == m)
is_located xs m (negsuc k) = false

located-slot :
    (xs : List ℕ) (m : ℕ) (z : ℤ)
    → is_located xs m z ≡ true
    → (i : ℕ) × (z ≡ pos i) × (i < length xs) × (slot xs i ≡ m)
unfolding is_located
located-slot xs m (pos i) e = (i, refl, ground arith, ground arith)
located-slot xs m (negsuc k) e = absurd (cc)

-- The slot of a member, which its `index` names.
pub locate :
    (h : MsgHeap) (m : ℕ)
    → IsSynced h
    → Mem m h.items
    → (i : ℕ) × (h.index m ≡ pos i) × (i < len h) × (slot h.items i ≡ m)
unfolding is_located
locate h m s a = located-slot h.items m (h.index m) (
    mem-slot (λ x. is_located h.items x (h.index x) ≡ true) (λ x. Bool-set _ _) h.items
      (λ i p. rw (s i p) (ground arith)) m a)

-- A heap does not see the indices of other messages.
pub IsValid-index :
    (less : ℕ → ℕ → Bool) (h : MsgHeap) (index : ℕ → ℤ)
    → ((x : ℕ) → Mem x h.items → index x ≡ h.index x)
    → IsValid less h
    → IsValid less (record h { index = index })
IsValid-index less h index same v = record {
  heap = v.heap;
  synced = λ i p. rw (same (slot h.items i) (slot-mem h.items i p)) (v.synced i p);
}

-- Nor the contents of other messages.
pub IsValid-msgs :
    (f : Msg → Msg → Bool) (msgs msgs' : ℕ → Msg) (h : MsgHeap)
    → ((x : ℕ) → Mem x h.items → msgs' x ≡ msgs x)
    → IsValid (through msgs f) h
    → IsValid (through msgs' f) h
IsValid-msgs f msgs msgs' h same v = record {
  heap = λ c p q.
      rw
        (
          same (slot h.items c) (slot-mem h.items c q),
          same (slot h.items (parent c)) (slot-mem h.items (parent c) (omega arith)),
        )
        (v.heap c p q);
  synced = v.synced;
}

-- A heap in which only the message at slot `i` has changed is one that Fix mends.
pub FixInv-change :
    (f : Msg → Msg → Bool) (msgs : ℕ → Msg) (h : MsgHeap) (i : ℕ) (m : Msg)
    → IsOrder (through msgs f)
    → IsValid (through msgs f) h
    → i < len h
    → FixInv (through (update msgs (slot h.items i) m) f) (len h) h.items i
FixInv-change f msgs h i m o v p =
    let msgs' = update msgs (slot h.items i) m in
    let other : (c : ℕ) → c < len h → c ≢ i → msgs' (slot h.items c) ≡ msgs (slot h.items c) =
      λ c q ne. ground (arith, v.synced c q, v.synced i p) in
    record {
      edges = λ c a b r t. rw (other c b r, other (parent c) (omega arith) t) (v.heap c a b);
      bridged = λ c a b r t.
          rw (other c b (omega arith), other (parent i) (omega arith) (omega arith))
            (o.trans (slot h.items (parent i)) (slot h.items i) (slot h.items c) (v.heap i t p)
              (rw r at (v.heap c a b)));
    }
