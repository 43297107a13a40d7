-- ===== src/Wal/Recovery.antt =====
-- Recover reads back what was written, and cuts off a torn tail.
use mathlib.Core.List.{append_assoc, append-nil}
use artie_takehome.Base.{
  ℕ, zero, suc, ◌+◌, ◌<◌, ◌≡◌, refl, sym, ◌∙◌, ap, List, [], ◌∷◌, ◌++◌, true, false, Option, none,
  arith, length, length-append, length-take, if◌then◌else◌, take, leb, Returns, returns, Returns-if,
  inl, inr, ◌==◌, ltb, Bool-cases,
}
use artie_takehome.Record.{Record, Error, ok}
use artie_takehome.Wal.{
  Codec, Wal, tail_io, Found, contents, drop, encode, frame, read_record, rec_header,
}
use artie_takehome.Bytes.{put_uint32}
use artie_takehome.Wal.Scan.{is_epoch, raise_epoch, truncate, scan_loop, scan}
use artie_takehome.Wal.Frame.{
  RoundTrips, read_record-nil, encode-frame, read_record-frame, torn-frame,
}

-- The bytes of records written one after another.
pub data Written (codec : Codec) : List Record → List ℕ → Type 0 where
  nothing : Written codec [] []
  record_written :
      {rec : Record} {recs : List Record} {buf bytes : List ℕ}
      → encode codec rec ≡ ok buf
      → Written codec recs bytes
      → Written codec (rec ∷ recs) (buf ++ bytes)

-- A tail that an interrupted write leaves: nothing, or a proper part of one record.
pub data IsTorn (codec : Codec) (tail : List ℕ) : Type 0 where
  clean : tail ≡ [] → IsTorn codec tail
  cut :
      (rec : Record) (buf : List ℕ) (k : ℕ)
      → encode codec rec ≡ ok buf
      → 0 < k
      → k < length buf
      → tail ≡ take k buf
      → IsTorn codec tail

-- The state that the records rebuild; epoch records are the log's own.
unfoldable pub replayed {ℓ} : {S : Type ℓ} → (S → Record → S) → S → List Record → S
replayed step s [] = s
replayed step s (rec ∷ recs) = replayed step (if is_epoch rec.op then s else step s rec) recs

take-prefix : (n : ℕ) (xs ys zs : List ℕ) → take n xs ≡ ys ++ zs → take (length ys) xs ≡ ys
take-prefix n xs [] zs e = refl
take-prefix zero xs (y ∷ ys) zs e = absurd (cc)
take-prefix (suc n) [] (y ∷ ys) zs e = absurd (cc)
take-prefix (suc n) (x ∷ xs) (y ∷ ys) zs e =
    let head : x ≡ y = cc in
    let tail : take n xs ≡ ys ++ zs = cc in rw (head, take-prefix n xs ys zs tail)

pub take-all : (xs : List ℕ) → take (length xs) xs ≡ xs
take-all [] = refl
take-all (x ∷ xs) = ap (◌∷◌ x) (take-all xs)

length-frame :
    (codec : Codec) (body : List ℕ) → length (frame codec body) ≡ rec_header + length body
unfolding frame put_uint32
length-frame codec body = omega arith

truncate-cuts :
    (w : Wal) (off : ℕ)
    → w.io ≡ []
    → leb w.size off ≡ false
    → truncate w off
      ≡ (record w { io = tail_io (tail_io w.io); file = take off w.file; size = off }, none)
unfolding truncate
truncate-cuts w off io inside = ground arith

-- Truncating where `done` ends leaves `done`, on a file system that works.
truncate_lem :
    (w : Wal) (done rest : List ℕ)
    → w.io ≡ []
    → contents w ≡ done ++ rest
    → w.size ≡ length done + length rest
    → 0 < length rest
    → ((truncate w (length done)).1 ≡ none) × (contents (truncate w (length done)).0 ≡ done)
truncate_lem w done rest io e size more =
    let inside : leb w.size (length done) ≡ false = ground arith in
    let kept = take-prefix w.size w.file done rest e in
    rw (truncate-cuts w (length done) io inside) (refl, rw kept (take-all done))

module _ (codec : Codec) (trips : RoundTrips codec) {S : Type 0} (step : S → Record → S) where
  -- A callback that changes its state and never fails, as that of Manager.recover.
  abbrev pub visit : S → Record → ℕ → S × Option Error
  visit s rec offset = (step s rec, none)

  -- The log stands for `kept`, and the state is `s`.
  abbrev pub Recovered : List ℕ → S → Wal × S × Option Error → Type 0
  Recovered kept s r = (r.2 ≡ none) × (r.1 ≡ s) × (contents r.0 ≡ kept)

  tail-Recovered :
      (fuel : ℕ) (w : Wal) (done tail : List ℕ) (s : S)
      → IsTorn codec tail
      → w.io ≡ []
      → contents w ≡ done ++ tail
      → w.size ≡ length done + length tail
      → Returns (Recovered done s) (scan_loop codec visit true (suc fuel) w tail (length done) s)
  unfolding scan_loop
  tail-Recovered fuel w done tail s (clean e) io c size =
      rw (e, read_record-nil codec, scan_loop)
        (returns (refl, refl, c ∙ ap (◌++◌ done) e ∙ append-nil done))
  tail-Recovered fuel w done tail s (cut rec buf k e pos short t) io c size =
      let (body, m, small, f) = encode-frame codec rec buf e in
      let (reason, b) = torn-frame codec k body pos (rw f at short) small in
      let found : read_record codec tail ≡ Found.bad reason =
        ap (read_record codec) (t ∙ ap (take k) f) ∙ b in
      let more : 0 < length tail = omega (arith, ap length t, length-take k buf (omega arith)) in
      let (good, kept) = truncate_lem w done tail io c size more in
      rw (found, scan_loop) (returns (good, refl, kept))

  -- One whole record ahead of the rest of the bytes.
  next-record :
      (rec : Record) (buf rest : List ℕ)
      → encode codec rec ≡ ok buf
      → (n : ℕ) × (read_record codec (buf ++ rest) ≡ Found.good rec n rest)
        × (length buf ≡ rec_header + n)
  next-record rec buf rest e =
      let (body, m, small, f) = encode-frame codec rec buf e in
      (
        length body,
        ap (λ (b : List ℕ). read_record codec (b ++ rest)) f
            ∙ read_record-frame codec rec body rest (trips.back rec body m)
                (trips.nonempty rec body m) small,
        ap length f ∙ length-frame codec body,
      )

  raised :
      (w : Wal) (n : ℕ)
      → ((raise_epoch w n).io ≡ w.io)
        × (contents (raise_epoch w n) ≡ contents w)
        × ((raise_epoch w n).size ≡ w.size)
  raised w n = elim (Bool-cases (ltb w.epoch n)) [
    | inl e ↦ rw e (refl, refl, refl)
    | inr e ↦ rw e (refl, refl, refl)
  ]

  loop-Recovered :
      {recs : List Record} {bytes : List ℕ}
      → Written codec recs bytes
      → (fuel : ℕ) (w : Wal) (done tail : List ℕ) (s : S) → IsTorn codec tail
      → w.io ≡ []
      → contents w ≡ done ++ (bytes ++ tail)
      → w.size ≡ length done + length (bytes ++ tail)
      → length (bytes ++ tail) < fuel
      → Returns
          (Recovered (done ++ bytes) (replayed step s recs))
          (scan_loop codec visit true fuel w (bytes ++ tail) (length done) s)
  unfolding scan_loop replayed
  loop-Recovered nothing zero w done tail s torn io c size f = absurd (omega arith)
  loop-Recovered nothing (suc fuel) w done tail s torn io c size f =
      rw (append-nil done) (tail-Recovered fuel w done tail s torn io c size)
  loop-Recovered (record_written e ws) zero w done tail s torn io c size f = absurd (omega arith)
  loop-Recovered (record_written {rec} {recs} {buf} {bytes} e ws) (suc fuel) w done tail s torn io c
        size f =
      let (n, found, long) = next-record rec buf (bytes ++ tail) e in
      let split = append_assoc buf bytes tail in
      let sizes = length-append buf (bytes ++ tail) in
      let off : length (done ++ buf) ≡ length done + (rec_header + n) =
        omega (arith, length-append done buf, long) in
      let c' : contents w ≡ (done ++ buf) ++ (bytes ++ tail) =
        c ∙ ap (◌++◌ done) split ∙ sym (append_assoc done buf (bytes ++ tail)) in
      let size' : w.size ≡ length (done ++ buf) + length (bytes ++ tail) =
        omega (arith, size, ap length split, sizes, length-append done buf) in
      let f' : length (bytes ++ tail) < fuel = omega (arith, f, ap length split, sizes, long) in
      rw (split, found, scan_loop, ← off, ← append_assoc done buf bytes)
        (elim (Bool-cases (is_epoch rec.op)) [
          | inl skip ↦ rw skip (
              loop-Recovered ws fuel (raise_epoch w rec.epoch) (done ++ buf) tail s torn
                ((raised w rec.epoch).0 ∙ io) ((raised w rec.epoch).1 ∙ c')
                ((raised w rec.epoch).2 ∙ size') f')
          | inr real ↦
              rw real (loop-Recovered ws fuel w (done ++ buf) tail (step s rec) torn io c' size' f')
        ])

  -- A log that is empty has no records.
  empty-Recovered :
      {recs : List Record} {bytes : List ℕ}
      → Written codec recs bytes
      → (w : Wal) (tail : List ℕ) (s : S) → contents w ≡ bytes ++ tail
      → length (bytes ++ tail) ≡ 0
      → Recovered bytes (replayed step s recs) (w, s, none)
  unfolding replayed
  empty-Recovered nothing w [] s c e = (refl, refl, c)
  empty-Recovered nothing w (x ∷ tail) s c e = absurd (omega arith)
  empty-Recovered (record_written {rec} {recs} {buf} {bytes} good ws) w tail s c e =
      let (n, found, long) = next-record rec buf [] good in
      absurd (omega (arith, length-append (buf ++ bytes) tail, length-append buf bytes))

  -- With a codec that reads back what it wrote and a callback that never fails, Recover of a log
  -- that holds whole records and then a torn tail, on a file system that works, returns without an
  -- error: the state is the one that the records rebuild in their order, and the log is exactly the
  -- whole records.
  pub recover_repairs :
      {recs : List Record} {bytes : List ℕ}
      → Written codec recs bytes
      → (w : Wal) (tail : List ℕ) (s : S) → IsTorn codec tail
      → w.io ≡ []
      → contents w ≡ bytes ++ tail
      → w.size ≡ length (bytes ++ tail)
      → Returns (Recovered bytes (replayed step s recs)) (scan codec visit true w 0 s)
  unfolding scan drop
  recover_repairs {recs} {bytes} ws w tail s torn io c size =
      Returns-if (ltb w.size 0) (λ e. absurd (ground arith))
        λ _.
          Returns-if (0 == w.size) (λ e. returns (empty-Recovered ws w tail s c (ground arith)))
            λ _. rw c (
              loop-Recovered ws (suc (length (bytes ++ tail))) w [] tail s torn io c
                (omega (arith, size)) (omega arith))
