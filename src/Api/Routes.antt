-- ===== src/Api/Routes.antt =====
-- api.go: routes, which handler serves which method and path. A request carries what its handler
-- reads of the clock and of newID.
use artie_takehome.Base.{ℕ, Bool, String, List, Option, some}
use artie_takehome.Msg.{Time}
use artie_takehome.Record.{Config, Log}
use artie_takehome.Queue.Wait.{Round}
use artie_takehome.Wal.{Codec, Wal}
use artie_takehome.Manager.{Manager}
use artie_takehome.Manager.Calls.{wal_log, unix_nano}
use artie_takehome.Api.{Reply, Json}
use artie_takehome.Api.Messages
use artie_takehome.Api.Messages.{EnqueueReq, ReceiveReq, AckReq, NackReq, ExtendReq}
use artie_takehome.Api.Admin
use artie_takehome.Api.Admin.{ReplayReq}

pub data Request : Type 0 where
  post_queues : Json Config → Time → Request
  get_queues : Time → Request
  get_queue : String → Time → Request
  post_messages : String → Json EnqueueReq → Time → String → Request
  post_receive : String → Json ReceiveReq → Time → List (Round Wal) → Bool → Request
  post_ack : String → Json AckReq → Time → Request
  post_nack : String → Json NackReq → Time → Request
  post_extend : String → Json ExtendReq → Time → Request
  post_replay : String → Json ReplayReq → Time → (ℕ → Time) → (ℕ → String) → Request
  post_compact : Time → Request
  get_bookmark get_health : Request

-- The log as the handlers use it at a time.
abbrev pub log_at : Codec → Time → Log Wal
log_at codec now = wal_log codec (unix_nano now)

unfoldable pub handle : Codec → Manager Wal → Request → Option (Manager Wal × Reply)
handle codec m (post_queues body now) = Admin.create_queue (log_at codec now) m body
handle codec m (get_queues now) = Admin.get_queues m now
handle codec m (get_queue name now) = Admin.queue_stats m name now
handle codec m (post_messages name body now id) =
    Messages.enqueue (log_at codec now) m name body now id
handle codec m (post_receive name body start rounds gone) =
    Messages.receive (log_at codec) m name body start rounds gone
handle codec m (post_ack name body now) = Messages.ack (log_at codec now) m name body
handle codec m (post_nack name body now) = Messages.nack (log_at codec now) m name body now
handle codec m (post_extend name body now) = Messages.extend m name body now
handle codec m (post_replay name body now clock new_id) =
    Admin.replay codec (log_at codec now) m name body now clock new_id
handle codec m (post_compact now) = some (Admin.compact codec m now)
handle codec m get_bookmark = some (Admin.get_bookmark m)
handle codec m get_health = some (Admin.health m)
