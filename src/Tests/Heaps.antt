-- ===== src/Tests/Heaps.antt =====
-- A heap of three messages, and the theorems on it.
use artie_takehome.Base.{
  ℕ, zero, suc, ◌<◌, ◌≡◌, refl, [], ◌∷◌, Mem, arith, false, pos, negsuc, ltb, ◌==◌, slot,
  if◌then◌else◌, Returns,
}
use artie_takehome.MsgHeap.{MsgHeap}
use artie_takehome.Heap
use artie_takehome.Heap.Order.{IsOrder}
use artie_takehome.Heap.Calls.{IsValid}
use artie_takehome.Heap.Removal.{Removed, pop_lem, remove_lem}

-- The pointers by their own numbers.
ltb-IsOrder : IsOrder ltb
ltb-IsOrder = record { asym = λ a b h. ground arith; trans = λ a b c h k. ground arith }

abbrev three : MsgHeap
three = record {
  items = 1 ∷ 3 ∷ 2 ∷ [];
  index =
      λ p. if p == 1 then pos 0 else if p == 3 then pos 1 else if p == 2 then pos 2 else negsuc 0;
}

three-IsValid : IsValid ltb three
unfolding slot
three-IsValid = record { heap = heap; synced = synced }
  where
    heap :
        (c : ℕ)
        → 0 < c
        → c < 3
        → ltb (slot (1 ∷ 3 ∷ 2 ∷ []) c) (slot (1 ∷ 3 ∷ 2 ∷ []) (Heap.parent c)) ≡ false
    heap zero p q = absurd (omega arith)
    heap (suc zero) p q = refl
    heap (suc (suc zero)) p q = refl
    heap (suc (suc (suc c))) p q = absurd (omega arith)

    synced : (i : ℕ) → i < 3 → three.index (slot (1 ∷ 3 ∷ 2 ∷ []) i) ≡ pos i
    synced zero p = refl
    synced (suc zero) p = refl
    synced (suc (suc zero)) p = refl
    synced (suc (suc (suc i))) p = absurd (omega arith)

pop_lem_example :
    Returns
      (λ r.
        Removed ltb three r
        × (r.1 ≡ slot three.items 0)
        × ((x : ℕ) → Mem x three.items → ltb x r.1 ≡ false))
      (Heap.pop ltb three)
pop_lem_example = pop_lem ltb ltb-IsOrder three three-IsValid (omega arith)

remove_lem_example :
    Returns (λ r. Removed ltb three r × (r.1 ≡ slot three.items 1)) (Heap.remove ltb three (pos 1))
remove_lem_example = remove_lem ltb ltb-IsOrder three 1 three-IsValid (omega arith)
