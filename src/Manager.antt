-- ===== src/Manager.antt =====
-- queue/manager.go: the queues by their names over one shared log. A queue in the map is held with
-- the log that it was last used with; a call on it starts from the manager's log.
pub mod Named
pub mod Restored
pub mod Staged
pub mod Rebuild
pub mod Recover
pub mod Entries
pub mod Reread
pub mod Covered
pub mod Roster
pub mod Installed
pub mod Regained
pub mod Whole
pub mod Reopened
pub mod Calls
pub mod Managed
pub mod Republish
pub mod Opened
pub mod Stale
pub mod Separate
use Prim.Native.Char.{Char, code}
use Prim.Native.String
use artie_takehome.Base.{
  ℕ, zero, suc, ◌+◌, ◌==◌, ◌≡◌, Bool, true, false, not, ◌&&◌, ◌||◌, String, ℤ, pos, List, [], ◌∷◌,
  ◌++◌, Option, none, some, ◌>>=◌, if◌then◌else◌, str_eq, ltb, length, map,
}
use artie_takehome.MsgHeap.{update}
use artie_takehome.Maps.{find, erase, insert}
use artie_takehome.Msg.{Msg, Time, fifo, lifo}
use artie_takehome.Record.{
  Config, Record, new_record, Op, Error, invalid, queue_exists, queue_not_found, Result, ok, err,
  Log,
}
use artie_takehome.Queue.{Queue, new, clear_lease, set_msg, place_locked}

-- strings.ContainsAny(name, "/?#% ").
unfoldable pub contains_any : String → Bool
contains_any String.[] = false
contains_any (String.◌∷◌ c s) =
    (code c == 47 || (code c == 63 || (code c == 35 || (code c == 37 || code c == 32))))
    || contains_any s

pub record Manager (W : Type 0) : Type 0 where
  pub queues : List (String × Queue W)
  pub wal : W

-- What recovery has read about one queue: its messages by their ids, and the ids of the dead
-- letters.
pub record Staging : Type 0 where
  pub live : List (String × Msg)
  pub dlq : List (String × Bool)
  pub max_seq : ℕ

abbrev pub new_staging : Staging
new_staging = record { live = []; dlq = []; max_seq = 0 }

-- A change of a message that is staged; an unknown id changes nothing.
unfoldable pub change : String → (Msg → Msg) → List (String × Msg) → List (String × Msg)
change id f live = elim (find id live) [ none ↦ live | some m ↦ insert id (f m) live ]

abbrev pub bump : Staging → ℕ → Staging
bump s seq = if ltb s.max_seq seq then record s { max_seq = seq } else s

-- What one record does to the staging of its queue.
unfoldable pub stage : Staging → Record → Staging
unfolding change
stage s rec = elim rec.op [
  | Op.create_queue ↦ elim rec.config [ none ↦ s | some c ↦ bump s rec.seq ]
  | Op.enqueue ↦ elim rec.msg [
    | none ↦ s
    | some m ↦ bump (record s { live = insert m.id m s.live }) m.seq
  ]
  | Op.lease ↦ elim rec.msg [
    | none ↦ s
    | some m ↦ record s { live = change m.id (λ c. record c { attempts = m.attempts }) s.live }
  ]
  | Op.nack ↦ elim rec.msg [
    | none ↦ s
    | some m ↦ record s {
      live =
          change m.id (λ c. record c { attempts = m.attempts; visible_at = m.visible_at }) s.live;
    }
  ]
  | Op.ack ↦ record s { live = erase rec.id s.live; dlq = erase rec.id s.dlq }
  | Op.dlq ↦ record s { dlq = insert rec.id true s.dlq }
  | Op.replay ↦ record s {
    dlq = erase rec.id s.dlq;
    live = change rec.id (λ c. record c { attempts = pos 0 }) s.live;
  }
  | Op.epoch ↦ s
  | Op.unknown op ↦ s
]

module _ {W : Type 0} where
  unfoldable pub get : Manager W → String → Result (Queue W)
  get m name = elim (find name m.queues) [
    | none ↦ err queue_not_found
    | some q ↦ ok (record q { wal = m.wal })
  ]

  unfoldable pub create : Log W → Manager W → Config → Manager W × Result (Queue W)
  create log m cfg =
      let q = new cfg m.wal in
      let (w, e) =
        log.append_sync m.wal
          (record (new_record Op.create_queue cfg.name) { config = some q.cfg }) in
      if str_eq cfg.name ""
      then (m, err (invalid "queue name is required"))
      else if contains_any cfg.name
      then (m, err (invalid "queue name may not contain \"/\", \"?\", \"#\", \"%\" or spaces"))
      else if not (str_eq cfg.mode fifo) && not (str_eq cfg.mode lifo)
      then (m, err (invalid "mode must be \"fifo\" or \"lifo\""))
      else elim (find cfg.name m.queues) [
        | some old ↦ (m, err queue_exists)
        | none ↦ elim e [
          | some x ↦ (record m { wal = w }, err x)
          | none ↦
              (record m { queues = insert cfg.name q m.queues; wal = w }, ok (record q { wal = w }))
        ]
      ]

  -- restore: each message gets a pointer of its own, without its lease.
  unfoldable pub restore_live : Queue W → List Msg → Time → Option (Queue W)
  restore_live q [] now = some q
  restore_live q (m ∷ ms) now =
      place_locked (record q { msgs = update q.msgs q.next (clear_lease m); next = q.next + 1 })
        q.next now
      >>= λ q'. restore_live q' ms now

  unfoldable pub restore_dead : Queue W → List Msg → Queue W
  restore_dead q [] = q
  restore_dead q (m ∷ ms) =
      restore_dead
        (record q {
          msgs = update q.msgs q.next (clear_lease m);
          next = q.next + 1;
          dlq = q.dlq ++ q.next ∷ [];
        })
        ms

  unfoldable pub restore : Queue W → List Msg → List Msg → ℕ → Time → Option (Queue W)
  unfolding restore_live restore_dead
  restore q live dead max_seq now =
      restore_live (record q { seq = max_seq }) live now >>= λ q'. some (restore_dead q' dead)

  -- The record of a message, and those of a dead letter.
  abbrev emit : Queue W → ℕ → Record
  emit q p = record (new_record Op.enqueue q.cfg.name) { msg = some (clear_lease (q.msgs p)) }

  unfoldable pub dead_records : Queue W → List ℕ → List Record
  dead_records q [] = []
  dead_records q (p ∷ ps) =
      emit q p ∷ record (new_record Op.dlq q.cfg.name) { id = (q.msgs p).id } ∷ dead_records q ps

  unfoldable pub live_records : Queue W → List Record
  unfolding dead_records
  live_records q =
      record (new_record Op.create_queue q.cfg.name) { config = some q.cfg; seq = q.seq }
      ∷ (map (emit q) (q.ready ++ (q.delayed ++ q.inflight)) ++ dead_records q q.dlq)
