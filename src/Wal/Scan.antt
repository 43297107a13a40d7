-- ===== src/Wal/Scan.antt =====
-- queue/wal.go: scan, Recover, truncate, Bookmark, Err and Compact.
pub mod Rewrite
pub mod Tally
pub mod Swap
pub mod Halts
use artie_takehome.Base.{
  ℕ, zero, suc, ◌+◌, Bool, true, false, ℤ, List, [], ◌∷◌, ◌++◌, Option, none, some, if◌then◌else◌,
  ◌==◌, ltb, leb, length, take, inc_u64,
}
use artie_takehome.Record.{Record, Op, new_record, Error, corrupt, invalid, ok, err}
use artie_takehome.Wal.{
  Codec, Wal, Io, success, failure, contents, head_io, tail_io, drop, encode, stamped, rec_header,
  Found, read_record,
}

abbrev pub is_epoch : Op → Bool
is_epoch Op.epoch = true
is_epoch op = false

-- The later of the log's epoch and a record's.
abbrev pub raise_epoch : Wal → ℕ → Wal
raise_epoch w n = if ltb w.epoch n then record w { epoch = n } else w

-- f.Truncate and f.Sync; the sync's failure is returned and not latched.
unfoldable pub truncate : Wal → ℕ → Wal × Option Error
truncate w off = if leb w.size off then (w, none) else elim (head_io w.io) [
  | failure k e ↦ (record w { io = tail_io w.io }, some e)
  | success ↦
      let w' = record w { io = tail_io w.io; file = take off w.file; size = off } in
      elim (head_io w'.io) [
        | failure k e ↦ (record w' { io = tail_io w'.io }, some e)
        | success ↦ (record w' { io = tail_io w'.io }, none)
      ]
]

unfoldable pub bookmark : Wal → ℕ × ℕ
bookmark w = (w.epoch, w.size)

module _ (codec : Codec) where
  module _ {S : Type 0} (fn : S → Record → ℕ → S × Option Error) (repair : Bool) where
    -- The loop over the bytes still to read, which start at `offset`. Each record is longer than
    -- its header, so the bytes bound the rounds.
    unfoldable pub scan_loop : ℕ → Wal → List ℕ → ℕ → S → Option (Wal × S × Option Error)
    unfolding drop
    scan_loop zero w bytes offset s = none
    scan_loop (suc fuel) w bytes offset s = elim (read_record codec bytes) [
      | Found.end_of_log ↦ some (w, s, none)
      | Found.bad reason ↦
          if repair
          then (let (w', e) = truncate w offset in some (w', s, e))
          else some (w, s, some corrupt)
      | Found.good rec n rest ↦
          let skip = scan_loop fuel (raise_epoch w rec.epoch) rest (offset + (rec_header + n)) s in
          let (s', e) = fn s rec offset in
          let next = scan_loop fuel w rest (offset + (rec_header + n)) s' in
          if is_epoch rec.op then skip else elim e [ some x ↦ some (w, s', some x) | none ↦ next ]
    ]

    -- Reading from an offset, which an API client may name.
    unfoldable pub scan : Wal → ℕ → S → Option (Wal × S × Option Error)
    unfolding scan_loop
    scan w from s =
        let bytes = drop from (contents w) in
        if ltb w.size from
        then some (w, s, some (invalid "past the end of the log"))
        else if from == w.size
        then some (w, s, none)
        else scan_loop (suc (length bytes)) w bytes from s

  -- The records of a compacted log as bytes, written one after another.
  unfoldable pub write_all : List Record → ℤ → List Io → List ℕ → List ℕ × List Io × Option Error
  write_all [] now io out = (out, io, none)
  write_all (rec ∷ recs) now io out = elim (encode codec (stamped codec rec now)) [
    | err e ↦ (out, io, some e)
    | ok buf ↦ elim (head_io io) [
      | failure k e ↦ (out, tail_io io, some e)
      | success ↦ write_all recs now (tail_io io) (out ++ buf)
    ]
  ]

  -- One call of the file system that only may fail.
  unfoldable pub attempt :
      List Io
      → (List Io → Wal × Option Error)
      → (List Io → Error → Wal × Option Error)
      → Wal × Option Error
  attempt io next give_up = elim (head_io io) [
    | success ↦ next (tail_io io)
    | failure k e ↦ give_up (tail_io io) e
  ]

  -- An error before the rename leaves the log as it was.
  unfoldable pub refuse : Wal → List Io → Error → Wal × Option Error
  refuse w io e = (record w { io = io }, some e)

  -- Sync, Close and Rename of the new file, and its reopening. If that fails, the new file is at
  -- the path while the old one is open, and the failure is latched.
  unfoldable pub swap_in : Wal → List ℕ → List Io → Wal × Option Error
  unfolding attempt refuse
  swap_in w out io =
      attempt io
        (λ io1.
          attempt io1
            (λ io2.
              attempt io2
                (λ io3.
                  attempt io3
                    (λ io4. (
                      record w {
                        io = io4;
                        file = out;
                        size = length out;
                        epoch = inc_u64 w.epoch;
                        renamed = none;
                      },
                      none,
                    ))
                    (λ io4 e. (record w { io = io4; failed = some e; renamed = some out }, some e)))
                (refuse w))
            (refuse w))
        (refuse w)

  -- What follows the writing of the records.
  after_write : Wal → List ℕ × List Io × Option Error → Wal × Option Error
  unfolding swap_in refuse
  after_write w (out, io, none) = swap_in w out io
  after_write w (out, io, some e) = refuse w io e

  -- Opening the new file, writing the records after one that opens the next epoch, and the swap.
  unfoldable pub compact : Wal → List Record → ℤ → Wal × Option Error
  unfolding write_all attempt after_write refuse
  compact w live now =
      let first = record (new_record Op.epoch "") { epoch = inc_u64 w.epoch } in
      elim w.failed [
        | some e ↦ (w, some e)
        | none ↦ attempt w.io (λ io. after_write w (write_all (first ∷ live) now io [])) (refuse w)
      ]
