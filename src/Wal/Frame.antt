-- ===== src/Wal/Frame.antt =====
-- A framed record reads back, whatever follows it, and no proper part of one does.
use artie_takehome.Base.{
  ℕ, zero, suc, ◌<◌, ◌≤◌, ◌≡◌, refl, List, [], ◌∷◌, ◌++◌, true, false, some, arith, ◌==◌, ltb,
  length, String, take,
}
use artie_takehome.Bytes.{
  put_uint32, checksum_ieee, checksum-lt, uint32-put_uint32, split_at-append, split_at-short,
}
use artie_takehome.Record.{Record, ok}
use artie_takehome.Wal.{Codec, Found, frame, encode, read_record, decode_body, max_record}

-- What the log relies on of encoding/json: a record that marshals unmarshals to itself.
pub record RoundTrips (codec : Codec) : Type 0 where
  pub back :
      (rec : Record) (body : List ℕ) → codec.marshal rec ≡ ok body → codec.unmarshal body ≡ some rec
  pub nonempty : (rec : Record) (body : List ℕ) → codec.marshal rec ≡ ok body → 0 < length body

module _ (codec : Codec) where
  pub decode_body-frame :
      (rec : Record) (body rest : List ℕ)
      → codec.unmarshal body ≡ some rec
      → decode_body codec (length body) (checksum_ieee body) (body ++ rest)
        ≡ Found.good rec (length body) rest
  unfolding decode_body
  decode_body-frame rec body rest e = rw (split_at-append body rest, decode_body, same, e)
    where
      same : (checksum_ieee body == checksum_ieee body) ≡ true
      same = ground arith

  pub read_record-frame :
      (rec : Record) (body rest : List ℕ)
      → codec.unmarshal body ≡ some rec
      → 0 < length body
      → length body ≤ max_record
      → read_record codec (frame codec body ++ rest) ≡ Found.good rec (length body) rest
  unfolding read_record frame put_uint32
  read_record-frame rec body rest e pos small =
      rw
        (
          uint32-put_uint32 (length body) (omega arith),
          uint32-put_uint32 (checksum_ieee body) (checksum-lt body),
          nonzero,
          fits,
        )
        (decode_body-frame rec body rest e)
    where
      nonzero : (length body == 0) ≡ false
      nonzero = ground arith

      fits : ltb max_record (length body) ≡ false
      fits = ground arith

  -- What `encode` produced is a frame of the marshalled record.
  pub encode-frame :
      (rec : Record) (buf : List ℕ)
      → encode codec rec ≡ ok buf
      → (body : List ℕ) × (codec.marshal rec ≡ ok body)
        × (length body ≤ max_record)
        × (buf ≡ frame codec body)
  unfolding encode
  encode-frame rec buf e = ground arith

  decode_body-short :
      (n sum : ℕ) (rest : List ℕ)
      → length rest < n
      → decode_body codec n sum rest ≡ Found.bad "truncated body"
  unfolding decode_body
  decode_body-short n sum rest h = rw (split_at-short n rest h, decode_body)

  -- What a reader makes of the first k bytes of a frame.
  abbrev pub IsBad : Found codec → Type 0
  IsBad r = (reason : String) × (r ≡ Found.bad reason)

  length-take-lt : (k : ℕ) (xs : List ℕ) → k < length xs → length (take k xs) < length xs
  length-take-lt zero xs h = h
  length-take-lt (suc k) [] h = absurd (omega arith)
  length-take-lt (suc k) (x ∷ xs) h = omega (arith, length-take-lt k xs (omega arith))

  pub torn-frame :
      (k : ℕ) (body : List ℕ)
      → 0 < k
      → k < length (frame codec body)
      → length body ≤ max_record
      → IsBad (read_record codec (take k (frame codec body)))
  unfolding read_record frame put_uint32
  torn-frame zero body pos h small = absurd (omega arith)
  torn-frame (suc zero) body pos h small = ("partial header", refl)
  torn-frame (suc (suc zero)) body pos h small = ("partial header", refl)
  torn-frame (suc (suc (suc zero))) body pos h small = ("partial header", refl)
  torn-frame (suc (suc (suc (suc zero)))) body pos h small = ("partial header", refl)
  torn-frame (suc (suc (suc (suc (suc zero))))) body pos h small = ("partial header", refl)
  torn-frame (suc (suc (suc (suc (suc (suc zero)))))) body pos h small = ("partial header", refl)
  torn-frame (suc (suc (suc (suc (suc (suc (suc zero))))))) body pos h small =
      ("partial header", refl)
  torn-frame (suc (suc (suc (suc (suc (suc (suc (suc k)))))))) body pos h small =
      let shorter : k < length body = omega arith in
      let nonzero : (length body == 0) ≡ false = ground arith in
      let fits : ltb max_record (length body) ≡ false = ground arith in
      (
        "truncated body",
        rw (uint32-put_uint32 (length body) (omega arith), nonzero, fits)
            (decode_body-short (length body) _ (take k body) (length-take-lt k body shorter)),
      )

  pub read_record-nil : read_record codec [] ≡ Found.end_of_log
  unfolding read_record
  read_record-nil = refl
