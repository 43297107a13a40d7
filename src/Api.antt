-- ===== src/Api.antt =====
-- api.go: the bounds, the reading of requests and the responses that the handlers share.
pub mod Messages
pub mod Admin
pub mod Routes
pub mod Bounds
pub mod Replies
pub mod Status
pub mod Promises
pub mod Settled
pub mod Managed
pub mod Steps
use artie_takehome.Base.{
  ℕ, ◌/◌, String, ℤ, pos, Option, some, none, List, if◌then◌else◌, ltb_ℤ, mul_int64,
}
use artie_takehome.Msg.{Msg, Time, Duration}
use artie_takehome.Record.{Config, Error, no_lease, Result, ok, err}
use artie_takehome.Queue.{Queue}
use artie_takehome.Queue.Produce.{Stats}
use artie_takehome.Manager.{Manager, get}
use artie_takehome.Manager.Calls.{Bookmark}

-- time.Millisecond, and the bounds in nanoseconds.
abbrev pub millisecond : ℕ
millisecond = 1_000_000

abbrev pub max_delay : ℕ
max_delay = 31_536_000_000_000_000

abbrev pub max_visibility : ℕ
max_visibility = 43_200_000_000_000

abbrev pub max_wait : ℕ
max_wait = 60_000_000_000

abbrev pub max_batch : ℕ
max_batch = 1000

-- The errors that a response tells: the queues' own, and those that the handlers make of a field's
-- name.
pub data Fault : Type 0 where
  of_queue : Error → Fault
  malformed : String → Fault
  text : String → Fault
  negative : String → Fault
  above : String → ℕ → Fault
  outside : String → ℕ → Fault

-- The bodies of the responses, which are then written as JSON.
pub data Body : Type 0 where
  failed : Fault → Body
  configured : Config → Body
  listing : List Stats → Body
  snapshot : Stats → Body
  message : Msg → Body
  messages : List Msg → Body
  acked nacked : Body
  lease_expires_at : Time → Body
  replayed : String → ℕ → Option Error → Body
  compacted : ℤ → ℤ → ℕ → Body
  position : Bookmark → Body
  healthy : Body
  degraded : Error → Body

pub record Response : Type 0 where
  pub status : ℕ
  pub body : Body

-- `dropped` writes no response, since nobody is left to read it; `pending` is a request still
-- waiting.
pub data Reply : Type 0 where
  sent : Response → Reply
  dropped pending : Reply

-- What the JSON decoder makes of a body. It is not code of this program.
pub data Json (A : Type 0) : Type 0 where
  value : A → Json A
  end_of_file : Json A
  broken : String → Json A

pub data Checked (A : Type 0) : Type 0 where
  good : A → Checked A
  bad : Fault → Checked A

abbrev pub respond : ℕ → Body → Reply
respond status body = sent (record { status = status; body = body })

abbrev pub fail : ℕ → Fault → Reply
fail status f = respond status (failed f)

-- No body at all leaves the defaults.
unfoldable pub decode : {A : Type 0} → A → Json A → Checked A
decode defaults (value a) = good a
decode defaults end_of_file = good defaults
decode defaults (broken reason) = bad (malformed reason)

unfoldable pub bounded_ms : ℤ → ℕ → String → Checked Duration
bounded_ms n max field =
    let limit = max / millisecond in
    if ltb_ℤ n (pos 0)
    then bad (negative field)
    else if ltb_ℤ (pos limit) n
    then bad (above field limit)
    else good (mul_int64 n millisecond)

-- The status of an error of Ack, Nack and Extend.
abbrev pub lease_status : Error → ℕ
lease_status e = elim e [ no_lease ↦ 409 | _ ↦ 500 ]

abbrev pub Handled : Type 0 → Type 0
Handled W = Option (Manager W × Reply)

module _ {W : Type 0} where
  -- How a handler begins: the queue of the path, or 404.
  unfoldable pub with_queue : Manager W → String → (Queue W → Handled W) → Handled W
  with_queue m name next = elim (get m name) [
    | err e ↦ some (m, fail 404 (of_queue e))
    | ok q ↦ next q
  ]

  -- A value that passed its check, or 400.
  unfoldable pub with_good : {A : Type 0} → Manager W → Checked A → (A → Handled W) → Handled W
  with_good m c next = elim c [ bad f ↦ some (m, fail 400 f) | good a ↦ next a ]
