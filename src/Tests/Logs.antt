-- ===== src/Tests/Logs.antt =====
-- A small codec, logs of a few bytes, and the theorems on them.
use artie_takehome.Base.{
  ◌≡◌, ℕ, refl, List, [], ◌∷◌, ◌++◌, arith, true, false, ◌&&◌, Option, some, none, pos, negsuc,
  Returns, ◌==◌, if◌then◌else◌, str_eq, str_eq_iff, take,
}
use artie_takehome.Record.{Record, new_record, Op, invalid, Result, ok, err}
use artie_takehome.Wal.{Codec, Wal, success, failure, frame, encode, write}
use artie_takehome.Wal.Scan.{scan}
use artie_takehome.Wal.Frame.{RoundTrips}
use artie_takehome.Wal.Recovery.{
  Written, nothing, record_written, IsTorn, cut, replayed, visit, Recovered, recover_repairs,
}
use artie_takehome.Wal.Writes.{Wrote, write_appends}
use artie_takehome.Bytes.{put_uint32, checksum_ieee}

-- The check value of CRC-32 on the text "123456789".
checksum_check :
    checksum_ieee (0x31 ∷ 0x32 ∷ 0x33 ∷ 0x34 ∷ 0x35 ∷ 0x36 ∷ 0x37 ∷ 0x38 ∷ 0x39 ∷ []) ≡ 0xCBF43926
unfolding checksum_ieee
checksum_check = refl

-- The acknowledgements without a name, by their sequence numbers and times.
abbrev pub plain : ℕ → ℕ → Record
plain seq now = record (new_record Op.ack "") { seq = seq; at = pos now }

abbrev body_of : Record → Result (List ℕ)
body_of rec = elim rec.op [
  | Op.ack ↦ elim rec.msg [
    | some m ↦ err (invalid "msg")
    | none ↦ elim rec.config [
      | some c ↦ err (invalid "config")
      | none ↦ elim rec.at [
        | negsuc n ↦ err (invalid "at")
        | pos n ↦
            if str_eq rec.queue "" && (str_eq rec.id "" && rec.epoch == 0)
            then ok (rec.seq ∷ n ∷ [])
            else err (invalid "name")
      ]
    ]
  ]
  | _ ↦ err (invalid "op")
]

abbrev record_of : List ℕ → Option Record
record_of (seq ∷ n ∷ []) = some (plain seq n)
record_of bytes = none

abbrev pub small_codec : Codec
small_codec = record { marshal = body_of; unmarshal = record_of }

pub small_codec-RoundTrips : RoundTrips small_codec
small_codec-RoundTrips = record {
  back = λ rec body e. ground (arith, str_eq_iff rec.queue "", str_eq_iff rec.id "");
  nonempty = λ rec body e. ground arith;
}

-- The bytes of a record in the log.
abbrev pub framed : ℕ → ℕ → List ℕ
framed seq now = frame small_codec (seq ∷ now ∷ [])

-- A log whose last record was cut off after nine bytes.
abbrev pub cut_log : Wal
cut_log = record {
  file = (framed 1 5 ++ (framed 2 6 ++ [])) ++ take 9 (framed 3 7);
  size = 29;
  epoch = 1;
  failed = none;
  sync_every = pos 0;
  dirty = false;
  io = [];
  renamed = none;
}

abbrev pub seqs : List ℕ → Record → List ℕ
seqs ns rec = rec.seq ∷ ns

pub bytes-Written :
    Written small_codec (plain 1 5 ∷ plain 2 6 ∷ []) (framed 1 5 ++ (framed 2 6 ++ []))
unfolding encode
bytes-Written = record_written refl (record_written refl nothing)

pub tail-IsTorn : IsTorn small_codec (take 9 (framed 3 7))
unfolding encode frame put_uint32
tail-IsTorn = cut (plain 3 7) (framed 3 7) 9 refl (omega arith) (omega arith) refl

recover_repairs_example :
    Returns
      (Recovered small_codec small_codec-RoundTrips seqs
        (framed 1 5 ++ (framed 2 6 ++ []))
        (replayed seqs [] (plain 1 5 ∷ plain 2 6 ∷ [])))
      (scan small_codec (visit small_codec small_codec-RoundTrips seqs) true cut_log 0 [])
unfolding frame put_uint32
recover_repairs_example =
    recover_repairs small_codec small_codec-RoundTrips seqs bytes-Written cut_log
      (take 9 (framed 3 7)) [] tail-IsTorn refl refl refl

-- A durable write whose fsync fails.
abbrev failing : Wal
failing = record {
  file = framed 1 5;
  size = 10;
  epoch = 1;
  failed = none;
  sync_every = pos 0;
  dirty = false;
  io = success ∷ failure 0 (invalid "fsync") ∷ [];
  renamed = none;
}

write_appends_example :
    Wrote small_codec failing
      (plain 2 0)
      true
      (pos 6)
      (write small_codec failing (plain 2 0) true (pos 6))
unfolding frame put_uint32
write_appends_example = write_appends small_codec failing (plain 2 0) true (pos 6) (omega arith)
