-- ===== src/Queue/Pull.antt =====
-- A message taken off one of the queue's heaps.
use mathlib.Core.List.{mem-cons_self, Nodup-cons}
use mathlib.Core.Bool.{Bool-set}
use mathlib.Core.List.Perm
use artie_takehome.Heap.Order.{IsOrder, root_least}
use artie_takehome.Heap.Moves.{mem-slot}
use artie_takehome.Base.{
  ℕ, ◌≡◌, ◌≢◌, ◌<◌, refl, ◌∙◌, List, [], ◌∷◌, Mem, Perm, Nodup, arith, Bool, false, Option, some,
  Returns, returns, Returns-bind, slot, length,
}
use artie_takehome.MsgHeap.{MsgHeap, peek, update}
use artie_takehome.Msg.{Msg, order_by, by_visible_at, by_lease_expiry}
use artie_takehome.Msg.Order.{order_by-IsOrder, by_visible_at-IsOrder, by_lease_expiry-IsOrder}
use artie_takehome.Heap.Calls.{IsValid}
use artie_takehome.Heap.Removal.{Removed, pop_lem, remove_lem, fix_lem}
use artie_takehome.Heap.Locate.{IsValid-index, IsValid-msgs, locate, FixInv-change}
use artie_takehome.Queue.{
  Queue, ready_less, delayed_less, inflight_less, ready_heap, delayed_heap, inflight_heap,
  set_ready, set_delayed, set_inflight, set_msg, pop_ready, pop_delayed, pop_inflight,
  remove_inflight, fix_inflight,
}
use artie_takehome.Queue.Core.{
  Core, Separate, held, Nodup-Separate, held-ready, held-delayed, held-inflight,
}

-- The root of a heap is what `peek` shows.
pub peek-slot :
    (xs : List ℕ) (m : ℕ) → peek xs ≡ some m → (slot xs 0 ≡ m) × (0 < length xs) × Mem m xs
unfolding peek slot
peek-slot [] m e = absurd (cc)
peek-slot (x ∷ xs) m e =
    let same : x ≡ m = ground arith in (same, omega arith, rw (← same) mem-cons_self)

pub peek-none : (xs : List ℕ) → peek xs ≡ Option.none → xs ≡ []
unfolding peek
peek-none [] e = refl
peek-none (x ∷ xs) e = absurd (cc)

-- The root sorts before no other member.
pub peek-least :
    (less : ℕ → ℕ → Bool) (h : MsgHeap) (m : ℕ)
    → IsOrder less
    → IsValid less h
    → peek h.items ≡ some m
    → (x : ℕ) → Mem x h.items
    → less x m ≡ false
peek-least less h m o v e x k = rw (peek-slot h.items m e).0 at (
    mem-slot (λ y. less y (slot h.items 0) ≡ false) (λ y. Bool-set _ _) h.items
      (λ i p. root_least less o (length h.items) h.items i v.heap p) x k)

module _ {W : Type 0} (q : Queue W) (m : ℕ) (c : Core q) where
  -- The queue without `m`.
  abbrev pub Drawn : (MsgHeap → Queue W) → List ℕ → Queue W → Type 0
  Drawn place old r =
      (h : MsgHeap) × (r ≡ place h) × Core r × Perm (m ∷ held r) (held q) × Perm (m ∷ h.items) old

  sep : Separate q.ready q.delayed q.inflight
  sep = Nodup-Separate q.ready q.delayed q.inflight q.dlq c.apart

  rest-Nodup : {xs : List ℕ} → Perm (m ∷ xs) (held q) → Nodup xs
  rest-Nodup p = (Nodup-cons.0 (Perm.nodup (Perm.symm p) c.apart)).1

  ready-Drawn :
      (h : MsgHeap)
      → Removed (ready_less q) (ready_heap q) (h, m)
      → Drawn (set_ready q) q.ready (set_ready q h)
  ready-Drawn h r =
      let same = held-ready q (m ∷ h.items) q.ready r.same in
      (
        h,
        refl,
        record {
          ready_valid = r.valid;
          delayed_valid =
              IsValid-index _ (delayed_heap q) h.index (λ x k. r.others x (λ a. sep.ab x a k))
                c.delayed_valid;
          inflight_valid =
              IsValid-index _ (inflight_heap q) h.index (λ x k. r.others x (λ a. sep.ac x a k))
                c.inflight_valid;
          apart = rest-Nodup same;
        },
        same,
        r.same,
      )

  -- The head that a pop takes sorts before no member of the heap.
  abbrev pub IsFirst : (ℕ → ℕ → Bool) → List ℕ → Type 0
  IsFirst less xs = (x : ℕ) → Mem x xs → less x m ≡ false

  pub pop_ready_lem :
      peek q.ready ≡ some m
      → Returns (λ r. Drawn (set_ready q) q.ready r × IsFirst (ready_less q) q.ready) (pop_ready q)
  unfolding pop_ready
  pop_ready_lem e =
      let (root, some_left, _) = peek-slot q.ready m e in
      Returns-bind
        (pop_lem (ready_less q) (order_by-IsOrder q.cfg.mode q.msgs) (ready_heap q) c.ready_valid
          some_left)
        λ (h, x) (r, at, least).
          let same : x ≡ m = at ∙ root in returns (ready-Drawn h (rw same at r), rw same at least)

  delayed-Drawn :
      (h : MsgHeap)
      → Removed (delayed_less q) (delayed_heap q) (h, m)
      → Drawn (set_delayed q) q.delayed (set_delayed q h)
  delayed-Drawn h r =
      let same = Perm.symm (held-delayed q m q.delayed h.items (Perm.symm r.same)) in
      (
        h,
        refl,
        record {
          ready_valid =
              IsValid-index _ (ready_heap q) h.index (λ x k. r.others x (sep.ab x k)) c.ready_valid;
          delayed_valid = r.valid;
          inflight_valid =
              IsValid-index _ (inflight_heap q) h.index (λ x k. r.others x (λ a. sep.bc x a k))
                c.inflight_valid;
          apart = rest-Nodup same;
        },
        same,
        r.same,
      )

  pub pop_delayed_lem :
      peek q.delayed ≡ some m
      → Returns
          (λ r. Drawn (set_delayed q) q.delayed r × IsFirst (delayed_less q) q.delayed)
          (pop_delayed q)
  unfolding pop_delayed
  pop_delayed_lem e =
      let (root, some_left, _) = peek-slot q.delayed m e in
      Returns-bind
        (pop_lem (delayed_less q) (by_visible_at-IsOrder q.msgs) (delayed_heap q) c.delayed_valid
          some_left)
        λ (h, x) (r, at, least).
          let same : x ≡ m = at ∙ root in returns (delayed-Drawn h (rw same at r), rw same at least)

  inflight-Drawn :
      (h : MsgHeap)
      → Removed (inflight_less q) (inflight_heap q) (h, m)
      → Drawn (set_inflight q) q.inflight (set_inflight q h)
  inflight-Drawn h r =
      let same = Perm.symm (held-inflight q m q.inflight h.items (Perm.symm r.same)) in
      (
        h,
        refl,
        record {
          ready_valid =
              IsValid-index _ (ready_heap q) h.index (λ x k. r.others x (sep.ac x k)) c.ready_valid;
          delayed_valid =
              IsValid-index _ (delayed_heap q) h.index (λ x k. r.others x (sep.bc x k))
                c.delayed_valid;
          inflight_valid = r.valid;
          apart = rest-Nodup same;
        },
        same,
        r.same,
      )

  pub pop_inflight_lem :
      peek q.inflight ≡ some m
      → Returns
          (λ r. Drawn (set_inflight q) q.inflight r × IsFirst (inflight_less q) q.inflight)
          (pop_inflight q)
  unfolding pop_inflight
  pop_inflight_lem e =
      let (root, some_left, _) = peek-slot q.inflight m e in
      Returns-bind
        (pop_lem (inflight_less q) (by_lease_expiry-IsOrder q.msgs) (inflight_heap q)
          c.inflight_valid some_left)
        λ (h, x) (r, at, least).
          let same : x ≡ m = at ∙ root in
          returns (inflight-Drawn h (rw same at r), rw same at least)

  -- heap.Remove at the message's own index takes out that message.
  pub remove_inflight_lem :
      Mem m q.inflight → Returns (Drawn (set_inflight q) q.inflight) (remove_inflight q m)
  unfolding remove_inflight
  remove_inflight_lem k =
      let (i, index, inside, here) = locate (inflight_heap q) m c.inflight_valid.synced k in
      rw index (
        Returns-bind
          (remove_lem (inflight_less q) (by_lease_expiry-IsOrder q.msgs) (inflight_heap q) i
            c.inflight_valid inside)
          λ (h, x) (r, at).
            let same : x ≡ m = at ∙ here in returns (inflight-Drawn h (rw same at r)))

  -- The queue whose lease heap is mended after a write to `m`.
  abbrev pub Mended : Msg → Queue W → Type 0
  Mended msg r =
      (h : MsgHeap) × (r ≡ set_inflight (set_msg q m msg) h)
      × Core r
      × Perm h.items q.inflight
      × Perm (held r) (held q)

  all_of : (h : MsgHeap) → Perm h.items q.inflight → Perm (held (set_inflight q h)) (held q)
  all_of h same =
      Perm.append_left q.ready (Perm.append_left q.delayed (Perm.append_right q.dlq same))

  -- A write to a message outside a heap.
  unwritten :
      (msg : Msg) (xs : List ℕ) → ¬ Mem m xs → (x : ℕ) → Mem x xs → update q.msgs m msg x ≡ q.msgs x
  unwritten msg xs out x k = ground (arith, ne)
    where
      ne : m ≢ x
      ne e = out (rw e k)

  mended :
      (msg : Msg)
      → Mem m q.inflight
      → (h : MsgHeap) → IsValid (inflight_less (set_msg q m msg)) h
      → Perm h.items q.inflight
      → ((x : ℕ) → ¬ Mem x q.inflight → h.index x ≡ q.index x)
      → Core (set_inflight (set_msg q m msg) h)
  mended msg k h valid same others = record {
    ready_valid =
        IsValid-msgs (order_by q.cfg.mode) q.msgs (update q.msgs m msg)
          (record { items = q.ready; index = h.index }) (unwritten msg q.ready (λ a. sep.ac m a k))
          (IsValid-index _ (ready_heap q) h.index (λ x a. others x (sep.ac x a)) c.ready_valid);
    delayed_valid =
        IsValid-msgs by_visible_at q.msgs (update q.msgs m msg)
          (record { items = q.delayed; index = h.index })
          (unwritten msg q.delayed (λ a. sep.bc m a k))
          (IsValid-index _ (delayed_heap q) h.index (λ x a. others x (sep.bc x a)) c.delayed_valid);
    inflight_valid = valid;
    apart = Perm.nodup (Perm.symm (all_of h same)) c.apart;
  }

  pub fix_inflight_lem :
      (msg : Msg) → Mem m q.inflight → Returns (Mended msg) (fix_inflight (set_msg q m msg) m)
  unfolding fix_inflight
  fix_inflight_lem msg k =
      let (i, index, inside, here) = locate (inflight_heap q) m c.inflight_valid.synced k in
      let start =
        FixInv-change by_lease_expiry q.msgs (inflight_heap q) i msg
          (by_lease_expiry-IsOrder q.msgs) c.inflight_valid inside in
      rw index (
        Returns-bind
          (fix_lem (inflight_less (set_msg q m msg)) (by_lease_expiry-IsOrder (update q.msgs m msg))
            (inflight_heap q) i inside (rw here at start) c.inflight_valid.synced)
          λ h (valid, moved). returns (
            h,
            refl,
            mended msg k h valid moved.same moved.others,
            moved.same,
            all_of h moved.same,
          ))
