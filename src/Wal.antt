-- ===== src/Wal.antt =====
-- queue/wal.go: the write ahead log on a file of bytes. encoding/json is a codec that the log is
-- given; the outcome of each write and fsync is taken from a list, and an empty list means success.
pub mod Scan
pub mod Frame
pub mod Writes
pub mod Recovery
pub mod Service
pub mod History
pub mod Cut
pub mod Ledger
pub mod Effect
pub mod Power
use artie_takehome.Base.{
  ℕ, zero, suc, ◌+◌, ◌-◌, ◌≡◌, Bool, true, false, not, String, ℤ, pos, List, [], ◌∷◌, ◌++◌, Option,
  none, some, if◌then◌else◌, ◌==◌, ltb, eqb_ℤ, ltb_ℤ, length, take, inc_u64,
}
use artie_takehome.Bytes.{put_uint32, uint32, checksum_ieee, split_at}
use artie_takehome.Record.{
  Record, Op, new_record, Error, storage, corrupt, invalid, Result, ok, err, Log,
}

abbrev pub rec_header : ℕ
rec_header = 8

abbrev pub max_record : ℕ
max_record = 33554432

-- json.Marshal and json.Unmarshal of a Record.
pub record Codec : Type 0 where
  pub marshal : Record → Result (List ℕ)
  pub unmarshal : List ℕ → Option Record

-- How a call of the file system ends; a failed write has written some bytes all the same.
pub data Io : Type 0 where
  success : Io
  failure : ℕ → Error → Io

-- `file` is the contents of the file that the log has open, and `io` the outcomes of the calls to
-- come. The retired handles are left out. `renamed` is the file at the log's path if Compact put
-- it there and could not open it; otherwise that is the open one.
pub record Wal : Type 0 where
  pub file : List ℕ
  pub size : ℕ
  pub epoch : ℕ
  pub failed : Option Error
  pub sync_every : ℤ
  pub dirty : Bool
  pub io : List Io
  pub renamed : Option (List ℕ)

-- The bytes that the log stands for.
abbrev pub contents : Wal → List ℕ
contents w = take w.size w.file

drop : ℕ → List ℕ → List ℕ
drop zero bs = bs
drop (suc n) [] = []
drop (suc n) (b ∷ bs) = drop n bs

-- WriteAt within the file or at its end.
unfoldable pub write_at : List ℕ → ℕ → List ℕ → List ℕ
unfolding drop
write_at file off buf = take off file ++ (buf ++ drop (off + length buf) file)

abbrev pub head_io : List Io → Io
head_io [] = success
head_io (x ∷ xs) = x

abbrev pub tail_io : List Io → List Io
tail_io [] = []
tail_io (x ∷ xs) = xs

module _ (codec : Codec) where
  unfoldable pub frame : List ℕ → List ℕ
  frame body = put_uint32 (length body) ++ (put_uint32 (checksum_ieee body) ++ body)

  unfoldable pub encode : Record → Result (List ℕ)
  unfolding frame
  encode rec = elim (codec.marshal rec) [
    | err e ↦ err e
    | ok body ↦
        if ltb max_record (length body) then err (invalid "record too large") else ok (frame body)
  ]

  abbrev pub stamped : Record → ℤ → Record
  stamped rec now = if eqb_ℤ rec.at (pos 0) then record rec { at = now } else rec

  -- f.Sync after a durable write; its failure is latched.
  unfoldable pub sync : Wal → Wal × Option Error
  sync w = elim (head_io w.io) [
    | success ↦ (record w { io = tail_io w.io }, none)
    | failure k e ↦ (record w { io = tail_io w.io; failed = some e }, some e)
  ]

  unfoldable pub append_bytes : Wal → List ℕ → Bool → Wal × Option Error
  unfolding sync
  append_bytes w buf durable = elim (head_io w.io) [
    | failure k e ↦
        (record w { io = tail_io w.io; file = write_at w.file w.size (take k buf) }, some e)
    | success ↦
        let w' = record w {
          io = tail_io w.io;
          file = write_at w.file w.size buf;
          size = w.size + length buf;
        } in
        if not durable
        then (w', none)
        else if ltb_ℤ (pos 0) w.sync_every
        then (record w' { dirty = true }, none)
        else sync w'
  ]

  unfoldable pub write : Wal → Record → Bool → ℤ → Wal × Option Error
  unfolding append_bytes
  write w rec durable now = elim (encode (stamped rec now)) [
    | err e ↦ (w, some e)
    | ok buf ↦ elim w.failed [ some e ↦ (w, some e) | none ↦ append_bytes w buf durable ]
  ]

  -- What a reader finds at a place in the log.
  pub data Found : Type 0 where
    end_of_log : Found
    bad : String → Found
    good : Record → ℕ → List ℕ → Found

  unfoldable pub decode_body : ℕ → ℕ → List ℕ → Found
  decode_body n sum rest = elim (split_at n rest) [
    | none ↦ bad "truncated body"
    | some (body, rest') ↦
        if not (checksum_ieee body == sum)
        then bad "checksum mismatch"
        else elim (codec.unmarshal body) [
          | none ↦ bad "undecodable record"
          | some rec ↦ good rec n rest'
        ]
  ]

  unfoldable pub read_record : List ℕ → Found
  unfolding decode_body
  read_record [] = end_of_log
  read_record (a ∷ b ∷ c ∷ d ∷ e ∷ f ∷ g ∷ h ∷ rest) =
      let n = uint32 a b c d in
      if n == 0
      then bad "implausible record length"
      else if ltb max_record n
      then bad "implausible record length"
      else decode_body n (uint32 e f g h) rest
  read_record (a ∷ rest) = bad "partial header"
