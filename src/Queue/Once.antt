-- ===== src/Queue/Once.antt =====
-- A receipt that was settled: what Ack, Nack and Extend make of it from then on.
use artie_takehome.Base.{◌≡◌, String, some}
use artie_takehome.Msg.{Time, Duration}
use artie_takehome.Record.{no_lease, Log, err}
use artie_takehome.Queue.{Queue}
use artie_takehome.Queue.Consume.{ack, nack, extend}

module _ {W : Type 0} where
  -- Every answer to the receipt is refused and leaves the queue as it is.
  pub record IsSpent (q : Queue W) (receipt : String) : Type 0 where
    pub acks : (log : Log W) → ack log q receipt ≡ some (q, some no_lease)
    pub nacks :
        (log : Log W) (delay : Duration) (now : Time)
        → nack log q receipt delay now ≡ some (q, some no_lease)
    pub extends :
        (duration : Duration) (now : Time) → extend q receipt duration now ≡ some (q, err no_lease)
