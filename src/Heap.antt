-- ===== src/Heap.antt =====
-- container/heap of Go's standard library, as queue/queue.go calls it over msgHeap: the loops `up`
-- and `down`, and Push, Pop, Remove and Fix. The loops run on fuel: `up` moves to a smaller slot
-- each round and `down` to a larger one below n, so the slot and n bound the rounds.
pub mod Order
pub mod Moves
pub mod Up
pub mod Down
pub mod Calls
pub mod Removal
pub mod Locate
use artie_takehome.Base.{
  ℕ, zero, suc, ◌+◌, ◌-◌, ◌*◌, ◌/◌, ◌≡◌, Option, none, some, Bool, true, false, not, ◌>>=◌, ℤ, pos,
  negsuc, if◌then◌else◌, ◌==◌, ltb, ◌&&◌,
}
use artie_takehome.MsgHeap
use artie_takehome.MsgHeap.{MsgHeap, len, less_at, swap}

-- The parent's slot; Go's (0 - 1) / 2 is 0, as here.
abbrev pub parent : ℕ → ℕ
parent j = (j - 1) / 2

module _ (less : ℕ → ℕ → Bool) where
  up_loop : ℕ → MsgHeap → ℕ → Option MsgHeap
  up_loop zero h j = none
  up_loop (suc fuel) h j =
      let i = parent j in
      let next = swap h i j >>= λ h'. up_loop fuel h' i in
      if i == j then some h else (less_at less h j i >>= λ b. if b then next else some h)

  unfoldable pub up : MsgHeap → ℕ → Option MsgHeap
  unfolding up_loop
  up h j = up_loop (suc j) h j

  -- The child of `i` that `down` compares with, among the slots below n.
  smaller_child : MsgHeap → ℕ → ℕ → Option ℕ
  smaller_child h j1 n =
      if ltb (j1 + 1) n
      then (less_at less h (j1 + 1) j1 >>= λ b. some (if b then j1 + 1 else j1))
      else some j1

  -- Returns the heap and the slot at which the loop stops.
  down_loop : ℕ → MsgHeap → ℕ → ℕ → Option (MsgHeap × ℕ)
  down_loop zero h i n = none
  down_loop (suc fuel) h i n =
      let j1 = 2 * i + 1 in
      let next = λ (j : ℕ). swap h i j >>= λ h'. down_loop fuel h' j n in
      if ltb j1 n
      then (smaller_child h j1 n >>= λ j.
          less_at less h j i >>= λ b. if b then next j else some (h, i))
      else some (h, i)

  -- Whether the entry moved is the second result.
  unfoldable pub down : MsgHeap → ℕ → ℕ → Option (MsgHeap × Bool)
  unfolding down_loop smaller_child
  down h i n = down_loop (suc n) h i n >>= λ (h', j). some (h', ltb i j)

  unfoldable pub push : MsgHeap → ℕ → Option MsgHeap
  unfolding MsgHeap.push
  push h m = let h' = MsgHeap.push h m in up h' (len h' - 1)

  unfoldable pub pop : MsgHeap → Option (MsgHeap × ℕ)
  pop h = do
    let n = len h - 1
    h' ← if len h == 0 then none else swap h 0 n
    (h'', _) ← down h' 0 n
    MsgHeap.pop h''

  -- `down`, and `up` where it did not move the entry.
  sift : MsgHeap → ℕ → ℕ → Option MsgHeap
  sift h i n = down h i n >>= λ (h', moved). if moved then some h' else up h' i

  -- A negative index makes the call panic.
  unfoldable pub remove : MsgHeap → ℤ → Option (MsgHeap × ℕ)
  unfolding sift
  remove h (negsuc k) = none
  remove h (pos i) =
      let n = len h - 1 in
      if len h == 0
      then none
      else if n == i
      then MsgHeap.pop h
      else (swap h i n >>= λ h'. sift h' i n >>= λ h''. MsgHeap.pop h'')

  unfoldable pub fix : MsgHeap → ℤ → Option MsgHeap
  unfolding sift
  fix h (negsuc k) = none
  fix h (pos i) = sift h i (len h)
