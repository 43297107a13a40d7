-- ===== src/Wal/Service.antt =====
-- queue/wal.go: OpenWAL, the round of the flusher, Close and Err.
use artie_takehome.Base.{ℕ, Bool, true, false, ℤ, List, Option, none, some, if◌then◌else◌, length}
use artie_takehome.Record.{Error, Result, ok, err}
use artie_takehome.Wal.{Wal, Io, success, failure, head_io, tail_io}
use artie_takehome.Queue.{first_error}

-- One call of the file system while the log is being opened.
open_step {ℓ} : {A : Type ℓ} → List Io → (List Io → Result A) → Result A
open_step io next = elim (head_io io) [ success ↦ next (tail_io io) | failure k e ↦ err e ]

-- The log on a file with the contents `file`.
abbrev pub opened : List ℕ → ℤ → List Io → Wal
opened file sync_every io = record {
  file = file;
  size = length file;
  epoch = 0;
  failed = none;
  sync_every = sync_every;
  dirty = false;
  io = io;
  renamed = none;
}

-- MkdirAll, OpenFile and Stat.
unfoldable pub open_wal : List ℕ → ℤ → List Io → Result Wal
unfolding open_step
open_wal file sync_every io =
    open_step io λ io1. open_step io1 λ io2. open_step io2 λ io3. ok (opened file sync_every io3)

-- One tick of the flusher, which runs only under group commit.
unfoldable pub flush : Wal → Wal
unfolding first_error
flush w =
    if w.dirty
    then elim (head_io w.io) [
      | success ↦ record w { io = tail_io w.io; dirty = false }
      | failure k e ↦ record w {
        io = tail_io w.io;
        failed = first_error w.failed (some e);
        dirty = false;
      }
    ]
    else w

-- The last fsync and the closing of the file, whose outcome is the answer; `closed` is closeOnce.
unfoldable pub close : Bool → Wal → Wal × Option Error
close true w = (w, none)
close false w = elim (head_io w.io) [
  | failure k e ↦ (record w { io = tail_io (tail_io w.io) }, some e)
  | success ↦ elim (head_io (tail_io w.io)) [
    | success ↦ (record w { io = tail_io (tail_io w.io) }, none)
    | failure k e ↦ (record w { io = tail_io (tail_io w.io) }, some e)
  ]
]

-- Err: the latched failure.
unfoldable pub storage_err : Wal → Option Error
storage_err w = w.failed
