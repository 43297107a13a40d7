-- ===== src/Wal/Scan/Halts.antt =====
-- scan ends on any bytes whatever.
use artie_takehome.Base.{
  ℕ, zero, suc, ◌+◌, ◌<◌, ◌≤◌, ◌==◌, ◌≡◌, refl, arith, Bool, true, false, List, [], ◌∷◌, Option,
  none, some, inl, inr, if◌then◌else◌, ltb, length, Returns, returns, Returns-map, Returns-if,
  Bool-cases, Option-cases,
}
use artie_takehome.Bytes.{split_at, uint32, checksum_ieee, split_at-rest}
use artie_takehome.Record.{Record, Error, invalid, corrupt}
use artie_takehome.Wal.{
  Codec, Wal, contents, Found, decode_body, read_record, rec_header, max_record, drop,
}
use artie_takehome.Wal.Scan.{is_epoch, raise_epoch, truncate, scan, scan_loop}

module _ (codec : Codec) where
  -- What a record leaves to read of `size` bytes.
  abbrev Leaves : ℕ → Found codec → Type 0
  Leaves size Found.end_of_log = Unit {0}
  Leaves size (Found.bad reason) = Unit {0}
  Leaves size (Found.good rec n rest) = length rest + (rec_header + n) ≡ size

  decode_body-rest :
      (n sum : ℕ) (bs : List ℕ) (size : ℕ)
      → rec_header + length bs ≡ size
      → Leaves size (decode_body codec n sum bs)
  unfolding decode_body
  decode_body-rest n sum bs size h = elim (Option-cases (split_at n bs)) [
    | inl e ↦ rw (e, decode_body) tt
    | inr ((body, rest), e) ↦ elim (Bool-cases (checksum_ieee body == sum)) [
      | inr f ↦ rw (e, f, decode_body) tt
      | inl f ↦ elim (Option-cases (codec.unmarshal body)) [
        | inl g ↦ rw (e, f, g, decode_body) tt
        | inr (rec, g) ↦
            rw (e, f, g, decode_body) (omega (arith, h, split_at-rest n bs body rest e))
      ]
    ]
  ]

  -- Each record is longer than its header.
  read_record-rest : (bs : List ℕ) → Leaves (length bs) (read_record codec bs)
  unfolding read_record
  read_record-rest [] = tt
  read_record-rest (a ∷ []) = tt
  read_record-rest (a ∷ b ∷ []) = tt
  read_record-rest (a ∷ b ∷ c ∷ []) = tt
  read_record-rest (a ∷ b ∷ c ∷ d ∷ []) = tt
  read_record-rest (a ∷ b ∷ c ∷ d ∷ e ∷ []) = tt
  read_record-rest (a ∷ b ∷ c ∷ d ∷ e ∷ f ∷ []) = tt
  read_record-rest (a ∷ b ∷ c ∷ d ∷ e ∷ f ∷ g ∷ []) = tt
  read_record-rest (a ∷ b ∷ c ∷ d ∷ e ∷ f ∷ g ∷ h ∷ rest) =
      let n = uint32 a b c d in
      elim (Bool-cases (n == 0)) [
        | inl z ↦ rw z tt
        | inr z ↦ elim (Bool-cases (ltb max_record n)) [
          | inl l ↦ rw (z, l) tt
          | inr l ↦ rw (z, l) (decode_body-rest n (uint32 e f g h) rest _ (omega arith))
        ]
      ]

  module _ {S : Type 0} (I : S → Type 0) where
    -- What a scan of `w` leaves: without repair the file is as it was, with it perhaps a shorter
    -- one; the epoch does not go back, no failure is latched, and what `I` says of the callback's
    -- state holds.
    pub record Scanned (repair : Bool) (w : Wal) (t : Wal × S × Option Error) : Type 0 where
      pub readonly : repair ≡ false → (t.0.file ≡ w.file) × (t.0.size ≡ w.size)
      pub shorter : t.0.size ≤ w.size
      pub epoch : w.epoch ≤ t.0.epoch
      pub failed : t.0.failed ≡ w.failed
      pub holds : I t.1

    untouched :
        (repair : Bool) (w : Wal) (s : S) (e : Option Error) → I s → Scanned repair w (w, s, e)
    untouched repair w s e i = record {
      readonly = λ r. (refl, refl);
      shorter = omega arith;
      epoch = omega arith;
      failed = refl;
      holds = i;
    }

    truncated :
        (w : Wal) (off : ℕ) (s : S)
        → I s
        → Scanned true w ((truncate w off).0, s, (truncate w off).1)
    unfolding truncate
    truncated w off s i = record {
      readonly = λ r. absurd (cc);
      shorter = ground arith;
      epoch = ground arith;
      failed = ground arith;
      holds = i;
    }

    raised :
        (repair : Bool) (w : Wal) (n : ℕ) (t : Wal × S × Option Error)
        → Scanned repair (raise_epoch w n) t
        → Scanned repair w t
    raised repair w n t p = elim (Bool-cases (ltb w.epoch n)) [
      | inr l ↦ rw l at p
      | inl l ↦
          let q : Scanned repair (record w { epoch = n }) t = rw l at p in
          record {
            readonly = q.readonly;
            shorter = q.shorter;
            epoch = ground (arith, q.epoch, l);
            failed = q.failed;
            holds = q.holds;
          }
    ]

    module _ (fn : S → Record → ℕ → S × Option Error) (repair : Bool)
        (keeps : (s : S) (rec : Record) (offset : ℕ) → I s → I (fn s rec offset).0) where
      found :
          (w : Wal) (offset : ℕ) (s : S) (fuel : ℕ) (bs : List ℕ) (f : Found codec)
          → I s
          → length bs < suc fuel
          → Leaves (length bs) f
          → ((w' : Wal) (rest : List ℕ) (offset' : ℕ) (s' : S)
              → I s'
              → length rest < fuel
              → Returns (Scanned repair w') (scan_loop codec fn repair fuel w' rest offset' s'))
          → read_record codec bs ≡ f
          → Returns (Scanned repair w) (scan_loop codec fn repair (suc fuel) w bs offset s)
      unfolding scan_loop
      found w offset s fuel bs Found.end_of_log i b l loop e =
          rw (e, scan_loop) (returns (untouched repair w s none i))
      found w offset s fuel bs (Found.bad reason) i b l loop e = rw (e, scan_loop) (stop repair)
        where
          stop :
              (r : Bool)
              → Returns (Scanned r w) (
                  if r
                  then (let (w', e) = truncate w offset in some (w', s, e))
                  else some (w, s, some corrupt))
          stop true = returns (truncated w offset s i)
          stop false = returns (untouched false w s (some corrupt) i)
      found w offset s fuel bs (Found.good rec n rest) i b l loop e =
          let (s', x) = fn s rec offset in
          let j = keeps s rec offset i in
          rw (e, scan_loop)
            (Returns-if (is_epoch rec.op)
              (λ _.
                Returns-map (loop (raise_epoch w rec.epoch) rest _ s i (omega (arith, b, l)))
                  (raised repair w rec.epoch))
              λ _. elim (Option-cases x) [
                | inl g ↦ rw g (loop w rest _ s' j (omega (arith, b, l)))
                | inr (y, g) ↦ rw g (returns (untouched repair w s' (some y) j))
              ])

      scan_loop-Returns :
          (fuel : ℕ) (w : Wal) (bs : List ℕ) (offset : ℕ) (s : S)
          → I s
          → length bs < fuel
          → Returns (Scanned repair w) (scan_loop codec fn repair fuel w bs offset s)
      scan_loop-Returns zero w bs offset s i h = absurd (omega arith)
      scan_loop-Returns (suc fuel) w bs offset s i h =
          found w offset s fuel bs (read_record codec bs) i h (read_record-rest bs)
            (λ w' rest offset' s' j k. scan_loop-Returns fuel w' rest offset' s' j k) refl

      -- A predicate `I` holds of the start state `s` and the callback keeps it. Whatever bytes the
      -- log holds, a scan from any offset ends, with a state of which `I` holds. Without repair the
      -- file and its size are as they were. With repair the size may only shrink. The epoch does
      -- not go back, and the scan latches no failure.
      pub scan-Returns :
          (w : Wal) (from : ℕ) (s : S)
          → I s
          → Returns (Scanned repair w) (scan codec fn repair w from s)
      unfolding scan
      scan-Returns w from s i =
          Returns-if (ltb w.size from)
            (λ _. returns (untouched repair w s (some (invalid "past the end of the log")) i))
            λ _.
              Returns-if (from == w.size) (λ _. returns (untouched repair w s none i))
                λ _.
                  scan_loop-Returns (suc (length (drop from (contents w)))) w
                    (drop from (contents w)) from s i (omega arith)
