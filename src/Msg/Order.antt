-- ===== src/Msg/Order.antt =====
-- The three comparators sort, whatever the messages are.
use artie_takehome.Base.{ℕ, ◌≡◌, ◌≢◌, ◌⊎◌, Bool, true, false, arith}
use artie_takehome.Heap.Order.{IsOrder}
use artie_takehome.Msg.{Mode, Msg, order_by, by_visible_at, by_lease_expiry}

-- Comparison of two messages through pointers.
abbrev pub through : (ℕ → Msg) → (Msg → Msg → Bool) → ℕ → ℕ → Bool
through msgs less a b = less (msgs a) (msgs b)

order_by_asym : (mode : Mode) (a b : Msg) → order_by mode a b ≡ true → order_by mode b a ≡ false
unfolding order_by
order_by_asym mode a b h = ground arith

order_by_trans :
    (mode : Mode) (a b c : Msg)
    → order_by mode b a ≡ false
    → order_by mode c b ≡ false
    → order_by mode c a ≡ false
unfolding order_by
order_by_trans mode a b c h k = ground arith

pub order_by-IsOrder : (mode : Mode) (msgs : ℕ → Msg) → IsOrder (through msgs (order_by mode))
order_by-IsOrder mode msgs = record {
  asym = λ a b. order_by_asym mode (msgs a) (msgs b);
  trans = λ a b c. order_by_trans mode (msgs a) (msgs b) (msgs c);
}

pub by_visible_at-IsOrder : (msgs : ℕ → Msg) → IsOrder (through msgs by_visible_at)
unfolding by_visible_at
by_visible_at-IsOrder msgs = record {
  asym = λ a b h. ground arith;
  trans = λ a b c h k. ground arith;
}

pub by_lease_expiry-IsOrder : (msgs : ℕ → Msg) → IsOrder (through msgs by_lease_expiry)
unfolding by_lease_expiry
by_lease_expiry-IsOrder msgs = record {
  asym = λ a b h. ground arith;
  trans = λ a b c h k. ground arith;
}

-- Of two messages with different sequence numbers the comparator puts exactly one first.
pub order_by_total :
    (mode : Mode) (a b : Msg)
    → a.seq ≢ b.seq
    → ((order_by mode a b ≡ true) × (order_by mode b a ≡ false))
      ⊎ ((order_by mode a b ≡ false) × (order_by mode b a ≡ true))
unfolding order_by
order_by_total mode a b h = ground arith
