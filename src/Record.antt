-- ===== src/Record.antt =====
-- The configuration of a queue, the log's records and the errors: Config of queue/queue.go, Op and
-- Record of queue/wal.go, and the errors of queue/queue.go and queue/manager.go.
use artie_takehome.Base.{ℕ, Bool, String, ℤ, pos, Option, none, mul_int64, ◌≡◌, refl, ◌⊎◌, inl, inr}
use artie_takehome.Msg.{Msg, Mode, Duration}

pub record Config : Type 0 where
  pub name : String
  pub mode : Mode
  pub priority : Bool
  pub max_attempts : ℤ
  pub visibility_timeout_ms : ℤ

-- time.Duration(ms) * time.Millisecond, an int64 product.
unfoldable pub visibility : Config → Duration
visibility c = mul_int64 c.visibility_timeout_ms 1_000_000

-- The kinds of record; an unknown text is kept as it is.
pub data Op : Type 0 where
  create_queue enqueue lease ack nack dlq replay epoch : Op
  unknown : String → Op

pub record Record : Type 0 where
  pub op : Op
  pub queue : String
  pub id : String
  pub msg : Option Msg
  pub config : Option Config
  pub epoch : ℕ
  pub seq : ℕ
  pub at : ℤ

-- Record{Op: op, Queue: queue}.
abbrev pub new_record : Op → String → Record
new_record op queue = record {
  op = op;
  queue = queue;
  id = "";
  msg = none;
  config = none;
  epoch = 0;
  seq = 0;
  at = pos 0;
}

-- `storage` is an error of the log, with its text.
pub data Error : Type 0 where
  no_lease priority_disabled queue_exists queue_not_found stale_bookmark corrupt : Error
  storage : String → Error
  invalid : String → Error

-- A value or an error, as Go's two results.
pub data Result {ℓ} (A : Type ℓ) : Type ℓ where
  ok : A → Result A
  err : Error → Result A

pub Result-cases {ℓ} :
    {A : Type ℓ} (r : Result A) → ((a : A) × (r ≡ ok a)) ⊎ ((e : Error) × (r ≡ err e))
Result-cases (ok a) = inl (a, refl)
Result-cases (err e) = inr (e, refl)

-- What a queue uses of the log: the two appends, on any type of log. `none` is success.
pub record Log (W : Type 0) : Type 0 where
  pub append : W → Record → W × Option Error
  pub append_sync : W → Record → W × Option Error
