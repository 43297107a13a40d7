-- ===== src/Msg.antt =====
-- queue/msg.go and the comparators of queue/heaps.go. Times are instants in nanoseconds, 0 being
-- the zero time.Time; durations are nanoseconds. The `index` field of a Msg is kept in MsgHeap.
pub mod Order
use artie_takehome.Base.{
  ℕ, ◌≡◌, Bool, true, false, not, String, ℤ, pos, ltb, ltb_ℤ, leb_ℤ, eqb_ℤ, str_eq, if◌then◌else◌,
}

abbrev pub Time : Type 0
Time = ℤ

abbrev pub Duration : Type 0
Duration = ℤ

abbrev pub zero_time : Time
zero_time = pos 0

-- Any text is a Mode for Go; the two constants are the valid ones.
abbrev pub Mode : Type 0
Mode = String

abbrev pub fifo : Mode
fifo = "fifo"

abbrev pub lifo : Mode
lifo = "lifo"

pub record Msg : Type 0 where
  pub id : String
  pub body : String
  pub priority : ℤ
  pub seq : ℕ
  pub visible_at : Time
  pub enqueued_at : Time
  pub attempts : ℤ
  pub receipt : String
  pub lease_expiry : Time

-- Before and After of time.Time.
abbrev pub before : Time → Time → Bool
before a b = ltb_ℤ a b

abbrev pub after : Time → Time → Bool
after a b = ltb_ℤ b a

unfoldable pub ready : Msg → Time → Bool
ready m now = not (after m.visible_at now)

unfoldable pub order_by : Mode → Msg → Msg → Bool
order_by mode a b =
    if not (eqb_ℤ a.priority b.priority)
    then ltb_ℤ b.priority a.priority
    else if str_eq mode lifo
    then ltb b.seq a.seq
    else ltb a.seq b.seq

unfoldable pub by_visible_at : Msg → Msg → Bool
by_visible_at a b = before a.visible_at b.visible_at

unfoldable pub by_lease_expiry : Msg → Msg → Bool
by_lease_expiry a b = before a.lease_expiry b.lease_expiry
