-- ===== src/Manager/Calls.antt =====
-- The other methods of Manager: List, Bookmark, Err, Replay, Compact, a tick of the pump, and
-- Close.
use Prim.Native.Nat.{Ordering}
use Prim.Native.String
use artie_takehome.Base.{
  ℕ, ◌+◌, ◌==◌, Bool, true, false, not, ◌&&◌, String, ℤ, pos, negsuc, List, [], ◌∷◌, ◌++◌, map,
  Option, none, some, ◌>>=◌, if◌then◌else◌, ltb_ℤ, eqb_ℤ, str_eq, sort_by, wrap_int64, ◌-ℤ◌,
}
use artie_takehome.Maps.{insert}
use artie_takehome.Msg.{Time, before, zero_time}
use artie_takehome.Record.{Record, Op, Error, invalid, stale_bookmark, ok, err, Log}
use artie_takehome.Queue.{Queue, tick}
use artie_takehome.Queue.Produce.{Stats, stats, enqueue}
use artie_takehome.Wal.{Codec, Wal, write}
use artie_takehome.Wal.Scan.{bookmark, scan, compact}
use artie_takehome.Wal.Service.{close, storage_err}
use artie_takehome.Manager.{Manager, get, live_records}

-- A position in the log.
pub record Bookmark : Type 0 where
  pub epoch : ℕ
  pub offset : ℤ

-- The Unix epoch in nanoseconds since the zero time, and UnixNano of time.Time, an int64.
abbrev pub unix_epoch : ℤ
unix_epoch = pos 62_135_596_800_000_000_000

abbrev pub unix_nano : Time → ℤ
unix_nano t = wrap_int64 (t -ℤ unix_epoch)

-- What Replay takes of a record.
pub record Item : Type 0 where
  pub body : String
  pub priority : ℤ

abbrev pub text_less : String → String → Bool
text_less a b = elim (String.compare a b) [ Ordering.lt ↦ true | _ ↦ false ]

-- The messages enqueued to a queue, not before `since` unless that is the zero time.
unfoldable pub collect : String → Time → List Item → Record → ℕ → List Item × Option Error
collect name since found rec offset = elim rec.op [
  | Op.enqueue ↦ elim rec.msg [
    | none ↦ (found, none)
    | some m ↦
        if not (str_eq rec.queue name)
        then (found, none)
        else if not (eqb_ℤ since zero_time) && before m.enqueued_at since
        then (found, none)
        else (found ++ record { body = m.body; priority = m.priority } ∷ [], none)
  ]
  | _ ↦ (found, none)
]

module _ {W : Type 0} where
  -- The state of the manager after a call on one of its queues.
  abbrev pub store : Manager W → String → Queue W → Manager W
  store m name q = record m { queues = insert name q m.queues; wal = q.wal }

  unfoldable pub list_queues : Manager W → Time → List Stats
  list_queues m now =
      sort_by (λ (a b : Stats). text_less a.name b.name) (map (λ (name, q). stats q now) m.queues)

  abbrev pub by_name : String × Queue W → String × Queue W → Bool
  by_name a b = text_less a.1.cfg.name b.1.cfg.name

  unfoldable pub all_records : List (String × Queue W) → List Record
  all_records [] = []
  all_records ((name, q) ∷ qs) = live_records q ++ all_records qs

  -- One tick of the pump: each queue, with the log that the one before it left.
  unfoldable pub pump_tick :
      Log W → List (String × Queue W) → W → Time → Option (List (String × Queue W) × W)
  pump_tick log [] w now = some ([], w)
  pump_tick log ((name, q) ∷ qs) w now = tick log (record q { wal = w }) now >>= λ q'.
      pump_tick log qs q'.wal now >>= λ (qs', w'). some ((name, q') ∷ qs', w')

abbrev pub bookmark_now : Manager Wal → Bookmark
bookmark_now m = let (epoch, size) = bookmark m.wal in record { epoch = epoch; offset = pos size }

module _ (codec : Codec) where
  -- The log of the manager as its queues use it, at one reading of the clock.
  abbrev pub wal_log : ℤ → Log Wal
  wal_log now = record {
    append = λ w rec. write codec w rec false now;
    append_sync = λ w rec. write codec w rec true now;
  }

  -- Scan: reading without repair, from an offset that a client names.
  unfoldable pub scan_from :
      {S : Type 0}
      → (S → Record → ℕ → S × Option Error)
      → Wal
      → ℤ
      → S
      → Option (Wal × S × Option Error)
  scan_from fn w (negsuc k) s = some (w, s, some (invalid "offset is negative"))
  scan_from fn w (pos from) s = scan codec fn false w from s

  -- The messages collected are enqueued one after another, the i-th at the i-th time and token.
  unfoldable pub publish :
      Queue Wal → List Item → (ℕ → Time) → (ℕ → String) → ℕ → Option (Queue Wal × ℕ × Option Error)
  publish q [] clock new_id i = some (q, i, none)
  publish q (it ∷ items) clock new_id i =
      enqueue (wal_log (unix_nano (clock i))) q it.body it.priority (pos 0) (clock i) (new_id i)
      >>= λ (q', r). elim r [
        | err x ↦ some (q', i, some x)
        | ok m ↦ publish q' items clock new_id (i + 1)
      ]

  unfoldable pub replay :
      Manager Wal
      → String
      → Bookmark
      → Time
      → (ℕ → Time)
      → (ℕ → String)
      → Option (Manager Wal × ℕ × Option Error)
  unfolding scan_from collect publish
  replay m name bm since clock new_id = elim (get m name) [
    | err x ↦ some (m, 0, some x)
    | ok q ↦
        if ltb_ℤ (pos 0) bm.offset && not (bm.epoch == m.wal.epoch)
        then some (m, 0, some stale_bookmark)
        else (scan_from (collect name since) m.wal bm.offset [] >>= λ (w, items, e). elim e [
          | some x ↦ some (record m { wal = w }, 0, some x)
          | none ↦ publish (record q { wal = w }) items clock new_id 0 >>= λ (q', n, e').
              some (store m name q', n, e')
        ])
  ]

  unfoldable pub compact_all : Manager Wal → ℤ → Manager Wal × Option Error
  unfolding all_records
  compact_all m now =
      let (w, e) = compact codec m.wal (all_records (sort_by by_name m.queues)) now in
      (record m { wal = w }, e)

-- Close, once: the pump stops first.
unfoldable pub close_manager : Bool → Manager Wal → Manager Wal × Option Error
close_manager closed m = let (w, e) = close closed m.wal in (record m { wal = w }, e)

unfoldable pub manager_err : Manager Wal → Option Error
manager_err m = storage_err m.wal
