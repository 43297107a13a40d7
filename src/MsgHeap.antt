-- ===== src/MsgHeap.antt =====
-- queue/heaps.go: the methods of msgHeap, which container/heap drives. A *Msg is a pointer, a
-- number above 0; the messages' `index` fields are kept in a map of their own beside the messages.
use artie_takehome.Base.{
  ℕ, ◌-◌, List, [], ◌∷◌, ◌++◌, Option, none, some, Bool, ◌>>=◌, ℤ, pos, negsuc, if◌then◌else◌, ◌==◌,
  length, get_elem?, set, take,
}

-- A write through a pointer.
abbrev pub update {ℓ} : {A : Type ℓ} → (ℕ → A) → ℕ → A → ℕ → A
update f p v q = if p == q then v else f q

-- One heap with the `index` fields of all messages.
pub record MsgHeap : Type 0 where
  pub items : List ℕ
  pub index : ℕ → ℤ

pub new_msg_heap : List ℕ
new_msg_heap = []

abbrev pub len : MsgHeap → ℕ
len h = length h.items

-- Less(i, j), which panics out of range.
unfoldable pub less_at : (ℕ → ℕ → Bool) → MsgHeap → ℕ → ℕ → Option Bool
less_at less h i j = do a ← get_elem? h.items i; b ← get_elem? h.items j; some (less a b)

unfoldable pub swap : MsgHeap → ℕ → ℕ → Option MsgHeap
swap h i j = do
  a ← get_elem? h.items i
  b ← get_elem? h.items j
  let items = set (set h.items i b) j a
  p ← get_elem? items i
  q ← get_elem? items j
  some (record { items = items; index = update (update h.index p (pos i)) q (pos j) })

unfoldable pub push : MsgHeap → ℕ → MsgHeap
push h m = record { items = h.items ++ m ∷ []; index = update h.index m (pos (len h)) }

-- Pop of an empty slice panics.
unfoldable pub pop : MsgHeap → Option (MsgHeap × ℕ)
pop h = do
  let n = len h
  m ← if n == 0 then none else get_elem? h.items (n - 1)
  some (record { items = take (n - 1) h.items; index = update h.index m (negsuc 0) }, m)

unfoldable pub peek : List ℕ → Option ℕ
peek [] = none
peek (m ∷ items) = some m
