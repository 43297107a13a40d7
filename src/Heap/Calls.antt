-- ===== src/Heap/Calls.antt =====
-- The four calls of container/heap that the queue makes.
use mathlib.Core.List.Perm
use mathlib.Core.List.{mem-cons_self}
use artie_takehome.Base.{
  ℕ, suc, ◌-◌, ◌<◌, ◌≡◌, ◌≢◌, ◌∙◌, refl, sym, [], ◌∷◌, Mem, Perm, some, none, get_elem?, Returns,
  returns, Returns-map, Bool, slot, length, arith, ◌==◌, take, negsuc, slot-append_left,
  slot-append_last, slot-take, take-append-slot, length-append, length-perm, length-take,
  concat-perm, get_elem?-slot, if◌then◌else◌, inl, inr, ◌⊎◌,
}
use artie_takehome.MsgHeap
use artie_takehome.MsgHeap.{MsgHeap, len, swap, update}
use artie_takehome.Heap.{parent, push}
use artie_takehome.Heap.Order.{IsOrder, IsHeapTo, IsHeap, UpInv}
use artie_takehome.Heap.Moves.{IsSynced, Rearranged, slot-mem}
use artie_takehome.Heap.Up.{up_raises}

module _ (less : ℕ → ℕ → Bool) where
  -- A heap whose messages know their slots.
  pub record IsValid (h : MsgHeap) : Type 0 where
    pub heap : IsHeap less h.items
    pub synced : IsSynced h

  -- `g` is `h` with the pointer `m` added.
  pub record Pushed (h : MsgHeap) (m : ℕ) (g : MsgHeap) : Type 0 where
    pub valid : IsValid g
    pub same : Perm g.items (m ∷ h.items)
    pub others : (x : ℕ) → ¬ Mem x (m ∷ h.items) → g.index x ≡ h.index x

  -- The last slot taken off: `MsgHeap.pop` of a heap whose first `n` slots are in order.
  pub record Cut (n : ℕ) (h : MsgHeap) (r : MsgHeap × ℕ) : Type 0 where
    pub valid : IsValid r.0
    pub last : r.1 ≡ slot h.items n
    pub same : Perm (r.1 ∷ r.0.items) h.items
    pub out : r.0.index r.1 ≡ negsuc 0
    pub others : (x : ℕ) → x ≢ r.1 → r.0.index x ≡ h.index x

module _ (less : ℕ → ℕ → Bool) (o : IsOrder less) where
  appended-IsSynced :
      (h : MsgHeap) (m : ℕ) → ¬ Mem m h.items → IsSynced h → IsSynced (MsgHeap.push h m)
  unfolding MsgHeap.push
  appended-IsSynced h m fresh s i p =
      elim (last i (omega (arith, length-append h.items (m ∷ []), p))) [
        | inl e ↦ ground (arith, slot-append_last h.items m i, e)
        | inr q ↦ ground (arith, slot-append_left h.items (m ∷ []) i q, s i q, absent i q)
      ]
    where
      last : (i : ℕ) → i < suc (len h) → (i ≡ len h) ⊎ (i < len h)
      last i p = omega arith

      absent : (i : ℕ) → i < len h → m ≢ slot h.items i
      absent i q e = fresh (rw (sym e) at (slot-mem h.items i q))

  appended-UpInv :
      (h : MsgHeap) (m : ℕ)
      → IsHeap less h.items
      → UpInv less (len (MsgHeap.push h m)) (MsgHeap.push h m).items (len (MsgHeap.push h m) - 1)
  unfolding MsgHeap.push
  appended-UpInv h m heap =
      let size = length-append h.items (m ∷ []) in
      let at = slot-append_left h.items (m ∷ []) in
      record {
        edges = λ c p q r. ground (arith, size, heap c p, at c, at (parent c));
        bridged = λ c p q r. absurd (omega (arith, size));
      }

  -- Push adds exactly one pointer.
  pub push_lem :
      (h : MsgHeap) (m : ℕ)
      → IsValid less h
      → ¬ Mem m h.items
      → Returns (Pushed less h m) (push less h m)
  unfolding push
  push_lem h m v fresh =
      let h' = MsgHeap.push h m in
      let size = length-append h.items (m ∷ []) in
      Returns-map
        (up_raises less o (len h') h' (len h' - 1) (omega (arith, size)) (omega arith)
          (appended-UpInv h m v.heap))
        λ g (heap, moved). record {
          valid = record {
            heap = rw (length-perm moved.same) heap;
            synced = moved.synced (appended-IsSynced h m fresh v.synced);
          };
          same = Perm.trans moved.same (concat-perm h.items m);
          others = λ x absent. outside g x moved absent;
        }
    where
      other : (x : ℕ) → x ≢ m → (MsgHeap.push h m).index x ≡ h.index x
      other x ne = ground arith

      outside :
          (g : MsgHeap) (x : ℕ)
          → Rearranged (len (MsgHeap.push h m)) (MsgHeap.push h m) g
          → ¬ Mem x (m ∷ h.items)
          → g.index x ≡ h.index x
      outside g x moved absent =
          moved.others x (λ k. absent ((Perm.mem_iff (concat-perm h.items m)).0 k))
          ∙ other x (λ e. absent (rw e mem-cons_self))

  pub cut_lem :
      (n : ℕ) (h : MsgHeap)
      → len h ≡ suc n
      → IsHeapTo less n h.items
      → IsSynced h
      → Returns (Cut less n h) (MsgHeap.pop h)
  unfolding MsgHeap.pop
  cut_lem n h size heap s =
      rw (found, less-one)
        (returns (record {
          valid = record {
            heap = λ c p q. ground (arith, kept, heap c p, at c, at (parent c));
            synced = λ i p. ground (arith, kept, at i, s i, s n);
          };
          last = refl;
          same =
              Perm.trans (Perm.symm (concat-perm (take n h.items) (slot h.items n)))
                (rw (take-append-slot n h.items size) Perm.rfl);
          out = ground arith;
          others = λ x ne. ground arith;
        }))
    where
      less-one : len h - 1 ≡ n
      less-one = omega arith

      at : (i : ℕ) → i < n → slot (take n h.items) i ≡ slot h.items i
      at i p = slot-take n h.items i p

      kept : length (take n h.items) ≡ n
      kept = length-take n h.items (omega arith)

      found : (if len h == 0 then none else get_elem? h.items (len h - 1)) ≡ some (slot h.items n)
      found = ground (arith, get_elem?-slot h.items n)
