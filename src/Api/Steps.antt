-- ===== src/Api/Steps.antt =====
-- The server as a state machine: Open on some file, and then requests, ticks of the pump and
-- flushes of the log in any order.
use artie_takehome.Base.{ℕ, ◌≡◌, refl, String, ℤ, List, some, Returns, Returns-some}
use artie_takehome.Msg.{Time}
use artie_takehome.Record.{ok}
use artie_takehome.Queue.{Queue}
use artie_takehome.Wal.{Codec, Wal, Io}
use artie_takehome.Wal.Service.{flush}
use artie_takehome.Manager.{Manager}
use artie_takehome.Manager.Calls.{pump_tick}
use artie_takehome.Manager.Managed.{IsManaged, AllConsistent, pump_tick-Returns}
use artie_takehome.Manager.Recover.{open_manager}
use artie_takehome.Manager.Opened.{open_manager-Returns}
use artie_takehome.Api.{Reply}
use artie_takehome.Api.Routes.{Request, handle, log_at}
use artie_takehome.Api.Managed.{IsRunnable, handle-Returns}

module _ (codec : Codec) where
  pub data Step (m : Manager Wal) : Manager Wal → Type 0 where
    served :
        {m' : Manager Wal} {reply : Reply} (request : Request)
        → IsRunnable m request
        → handle codec m request ≡ some (m', reply)
        → Step m m'
    ticked :
        {qs : List (String × Queue Wal)} {w : Wal} (now : Time)
        → pump_tick (log_at codec now) m.queues m.wal now ≡ some (qs, w)
        → Step m (record m { queues = qs; wal = w })
    flushed : Step m (record m { wal = flush m.wal })

  pub data Reached : Manager Wal → Type 0 where
    opened :
        {m : Manager Wal} (file : List ℕ) (sync_every : ℤ) (io : List Io) (now : Time)
        → open_manager codec file sync_every io now ≡ some (ok m)
        → Reached m
    stepped : {m m' : Manager Wal} → Reached m → Step m m' → Reached m'

  -- What a running server has and can always do.
  pub record Serving (m : Manager Wal) : Type 0 where
    pub managed : IsManaged m
    pub answers :
        (request : Request)
        → IsRunnable m request
        → Returns (λ r. IsManaged r.0) (handle codec m request)
    pub ticks :
        (now : Time)
        → Returns (λ r. AllConsistent r.0) (pump_tick (log_at codec now) m.queues m.wal now)

  Step-IsManaged : {m m' : Manager Wal} → Step m m' → IsManaged m → IsManaged m'
  Step-IsManaged {m} (served request k e) v =
      Returns-some (rw e at (handle-Returns codec m v request k))
  Step-IsManaged {m} (ticked now e) v =
      Returns-some (rw e at (pump_tick-Returns (log_at codec now) m.queues m.wal now v))
  Step-IsManaged flushed v = v

  reached-IsManaged : {m : Manager Wal} → Reached m → IsManaged m
  reached-IsManaged {m} (opened file sync_every io now e) =
      Returns-some (rw e at (open_manager-Returns codec file sync_every io now)) m refl
  reached-IsManaged (stepped r s) = Step-IsManaged s (reached-IsManaged r)

  -- The manager was opened on a file of any bytes and then served requests, ticks of the pump and
  -- flushes in any order. Of each receive, the tokens of each round are unused in the queue that it
  -- finds and the other clients leave the queue consistent, which is asked of consistent queues
  -- with no more receipts than the round before found. Then each of the manager's queues is
  -- consistent, and whatever tick or such request comes next has a result that leaves every queue
  -- consistent.
  pub reached-Serving : {m : Manager Wal} → Reached m → Serving m
  reached-Serving {m} r =
      let v = reached-IsManaged r in
      record {
        managed = v;
        answers = λ request k. handle-Returns codec m v request k;
        ticks = λ now. pump_tick-Returns (log_at codec now) m.queues m.wal now v;
      }
