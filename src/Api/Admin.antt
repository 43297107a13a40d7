-- ===== src/Api/Admin.antt =====
-- api.go: the handlers of the queues, of replay and of the administration.
use artie_takehome.Base.{
  ℕ, Bool, ◌==◌, false, ◌*◌, ◌||◌, String, ℤ, pos, ◌+ℤ◌, Option, some, none, ◌>>=◌, if◌then◌else◌,
  ltb_ℤ, str_eq,
}
use artie_takehome.Msg.{Time, fifo, zero_time}
use artie_takehome.Record.{
  Config, visibility, Error, queue_exists, stale_bookmark, corrupt, Result, ok, err, Log,
}
use artie_takehome.Queue.{Queue}
use artie_takehome.Queue.Produce.{stats, replay_dlq}
use artie_takehome.Wal.{Codec, Wal}
use artie_takehome.Manager
use artie_takehome.Manager.{Manager}
use artie_takehome.Manager.Calls
use artie_takehome.Manager.Calls.{
  Bookmark, store, list_queues, bookmark_now, compact_all, manager_err, unix_nano, unix_epoch,
}
use artie_takehome.Api.{
  millisecond, max_visibility, of_queue, text, outside, configured, listing, snapshot, replayed,
  compacted, position, healthy, degraded, Reply, Json, respond, fail, decode, Handled, with_queue,
  with_good,
}

pub record ReplayReq : Type 0 where
  pub source : String
  pub epoch : ℕ
  pub from_offset : ℤ
  pub since_unix_ms : ℤ

abbrev pub no_replay : ReplayReq
no_replay = record { source = ""; epoch = 0; from_offset = pos 0; since_unix_ms = pos 0 }

abbrev pub no_config : Config
no_config = record {
  name = "";
  mode = "";
  priority = false;
  max_attempts = pos 0;
  visibility_timeout_ms = pos 0;
}

abbrev pub create_status : Error → ℕ
create_status e = elim e [ queue_exists ↦ 409 | _ ↦ 400 ]

abbrev pub replay_status : Error → ℕ
replay_status e = elim e [ stale_bookmark ↦ 400 | corrupt ↦ 400 | _ ↦ 500 ]

-- A replay's count is told beside its error.
unfoldable pub replay_reply : String → (Error → ℕ) → ℕ → Option Error → Reply
replay_reply source status n none = respond 200 (replayed source n none)
replay_reply source status n (some e) = respond (status e) (replayed source n (some e))

-- The check of a new queue's visibility timeout compares it after its conversion to nanoseconds.
unfoldable pub is_refused : Config → Bool
is_refused cfg =
    ltb_ℤ cfg.visibility_timeout_ms (pos 0) || ltb_ℤ (pos max_visibility) (visibility cfg)

module _ {W : Type 0} where
  unfoldable pub create_reply : Manager W × Result (Queue W) → Manager W × Reply
  create_reply (m, err e) = (m, fail (create_status e) (of_queue e))
  create_reply (m, ok q) = (m, respond 201 (configured q.cfg))

  unfoldable pub create_queue : Log W → Manager W → Json Config → Handled W
  unfolding with_good decode create_reply is_refused
  create_queue log m body = with_good m (decode no_config body) λ req.
      let cfg : Config = if str_eq req.mode "" then record req { mode = fifo } else req in
      if is_refused cfg
      then some (m, fail 400 (outside "visibility_timeout_ms" 43_200_000))
      else some (create_reply (Manager.create log m cfg))

  unfoldable pub get_queues : Manager W → Time → Handled W
  get_queues m now = some (m, respond 200 (listing (list_queues m now)))

  unfoldable pub queue_stats : Manager W → String → Time → Handled W
  unfolding with_queue
  queue_stats m name now = with_queue m name λ q. some (m, respond 200 (snapshot (stats q now)))

  unfoldable pub drain_dlq : Log W → Manager W → String → Queue W → Time → Handled W
  unfolding replay_reply
  drain_dlq log m name q now = replay_dlq log q now >>= λ (q', n, e).
      some (store m name q', replay_reply "dlq" (λ _. 500) n e)

-- time.UnixMilli of a positive number, else the zero time.
abbrev pub since_of : ℤ → Time
since_of (pos n) = if n == 0 then zero_time else unix_epoch +ℤ pos (n * millisecond)
since_of z = zero_time

abbrev pub compact_reply : Bookmark → Bookmark → Option Error → Reply
compact_reply before after e = elim e [
  | some x ↦ fail 500 (of_queue x)
  | none ↦ respond 200 (compacted before.offset after.offset after.epoch)
]

module _ (codec : Codec) where
  unfoldable pub replay_log :
      Manager Wal → String → ReplayReq → (ℕ → Time) → (ℕ → String) → Option (Manager Wal × Reply)
  unfolding replay_reply
  replay_log m name req clock new_id =
      if ltb_ℤ req.from_offset (pos 0)
      then some (m, fail 400 (text "from_offset must not be negative"))
      else Calls.replay codec m name (record { epoch = req.epoch; offset = req.from_offset })
          (since_of req.since_unix_ms) clock new_id
        >>= λ (m', n, e). some (m', replay_reply "log" replay_status n e)

  unfoldable pub replay :
      Log Wal
      → Manager Wal
      → String
      → Json ReplayReq
      → Time
      → (ℕ → Time)
      → (ℕ → String)
      → Option (Manager Wal × Reply)
  unfolding with_queue with_good decode drain_dlq replay_log
  replay log m name body now clock new_id = with_queue m name λ q.
      with_good m (decode no_replay body) λ req.
        if str_eq req.source "" || str_eq req.source "dlq"
        then drain_dlq log m name q now
        else if str_eq req.source "log"
        then replay_log m name req clock new_id
        else some (m, fail 400 (text "source must be \"dlq\" or \"log\""))

  unfoldable pub compact : Manager Wal → Time → Manager Wal × Reply
  compact m now =
      let before = bookmark_now m in
      let (m', e) = compact_all codec m (unix_nano now) in
      (m', compact_reply before (bookmark_now m') e)

abbrev pub get_bookmark : Manager Wal → Manager Wal × Reply
get_bookmark m = (m, respond 200 (position (bookmark_now m)))

-- The state of the log, not of the process.
unfoldable pub health : Manager Wal → Manager Wal × Reply
health m =
    (m, elim (manager_err m) [ some e ↦ respond 503 (degraded e) | none ↦ respond 200 healthy ])
