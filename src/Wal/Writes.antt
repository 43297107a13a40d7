-- ===== src/Wal/Writes.antt =====
-- Append and AppendSync.
use mathlib.Core.Path.{subst}
use mathlib.Core.List.{append_assoc}
use artie_takehome.Base.{
  ℕ, zero, suc, ◌+◌, ◌≤◌, ◌≡◌, ◌≢◌, refl, sym, ap, List, [], ◌∷◌, ◌++◌, Bool, true, false, Option,
  some, none, arith, length, length-append, length-take, take, ℤ, pos, ltb_ℤ, ◌⊎◌, inl, inr,
  Option-cases, Bool-cases,
}
use artie_takehome.Record.{Record, Error, ok, Result-cases}
use artie_takehome.Wal.{
  Codec, Wal, Io, success, failure, contents, drop, write_at, head_io, tail_io, encode, stamped,
  sync, append_bytes, write,
}

take-append : (xs ys : List ℕ) (n : ℕ) → n ≡ length xs → take n (xs ++ ys) ≡ xs
take-append [] ys zero e = refl
take-append [] ys (suc n) e = absurd (omega arith)
take-append (x ∷ xs) ys zero e = absurd (omega arith)
take-append (x ∷ xs) ys (suc n) e = ap (◌∷◌ x) (take-append xs ys n (omega arith))

-- What is written at the end of the contents is appended to them, and what stands before stays.
write_at-contents :
    (file buf : List ℕ) (n : ℕ)
    → n ≤ length file
    → (take (n + length buf) (write_at file n buf) ≡ take n file ++ buf)
      × (take n (write_at file n buf) ≡ take n file)
unfolding write_at
write_at-contents file buf n h =
    let rest = drop (n + length buf) file in
    let size = length-take n file h in
    (
      rw (← append_assoc (take n file) buf rest) (
          take-append (take n file ++ buf) rest (n + length buf)
            (omega (arith, length-append (take n file) buf, size))),
      take-append (take n file) (buf ++ rest) n (sym size),
    )

write_at-length :
    (file buf : List ℕ) (n : ℕ) → n ≤ length file → n + length buf ≤ length (write_at file n buf)
unfolding write_at
write_at-length file buf n h =
    let rest = drop (n + length buf) file in
    omega (
      arith,
      length-append (take n file) (buf ++ rest),
      length-append buf rest,
      length-take n file h,
    )

-- The file reaches as far as the log.
abbrev pub IsSized : Wal → Type 0
IsSized w = w.size ≤ length w.file

pub Io-cases : (x : Io) → (x ≡ success) ⊎ ((k : ℕ) × (e : Error) × (x ≡ failure k e))
Io-cases success = inl refl
Io-cases (failure k e) = inr (k, e, refl)

module _ (codec : Codec) (w : Wal) (rec : Record) (durable : Bool) (now : ℤ) where
  -- The log `r` stands for one more record.
  abbrev pub Extends : Wal → Type 0
  Extends r =
      (buf : List ℕ) × (encode codec (stamped codec rec now) ≡ ok buf)
      × (contents r ≡ contents w ++ buf)

  -- What a write leaves.
  pub record Wrote (r : Wal × Option Error) : Type 0 where
    pub sized : IsSized r.0
    pub appended : r.1 ≡ none → Extends r.0
    pub refused :
        (e : Error)
        → r.1 ≡ some e
        → (contents r.0 ≡ contents w) ⊎ ((r.0.failed ≡ some e) × Extends r.0)
    pub latched : (e : Error) → w.failed ≡ some e → (r.0 ≡ w) × (r.1 ≢ none)
    pub forced :
        r.1 ≡ none
        → durable ≡ true
        → ltb_ℤ (pos 0) w.sync_every ≡ false
        → (head_io w.io ≡ success) × (head_io (tail_io w.io) ≡ success)

  unchanged : (e : Error) → IsSized w → Wrote (w, some e)
  unchanged e s = record {
    sized = s;
    appended = λ bad. absurd (cc);
    refused = λ x same. inl refl;
    latched = λ x same. (refl, λ bad. absurd (cc));
    forced = λ bad. absurd (cc);
  }

  module _ (buf : List ℕ) (s : IsSized w) (usable : w.failed ≡ none)
      (good : encode codec (stamped codec rec now) ≡ ok buf) where
    -- A failed write may have changed bytes past the end, and the log stands for what it did.
    half_written :
        (k : ℕ) (e : Error)
        → Wrote (record w { io = tail_io w.io; file = write_at w.file w.size (take k buf) }, some e)
    half_written k e = record {
      sized = omega (arith, write_at-length w.file (take k buf) w.size s, s);
      appended = λ bad. absurd (cc);
      refused = λ x same. inl (write_at-contents w.file (take k buf) w.size s).1;
      latched = λ x same. absurd (cc);
      forced = λ bad. absurd (cc);
    }

    -- The file and size once the bytes are written.
    whole :
        (io : List Io) (dirty : Bool)
        → (head_io w.io ≡ success)
        → (durable ≡ true → ltb_ℤ (pos 0) w.sync_every ≡ false → head_io (tail_io w.io) ≡ success)
        → Wrote (
          record w {
            io = io;
            file = write_at w.file w.size buf;
            size = w.size + length buf;
            dirty = dirty;
          },
          none,
        )
    whole io dirty first second = record {
      sized = write_at-length w.file buf w.size s;
      appended = λ _. (buf, good, (write_at-contents w.file buf w.size s).0);
      refused = λ x bad. absurd (cc);
      latched = λ x same. absurd (cc);
      forced = λ _ d n. (first, second d n);
    }

    -- A failed fsync: the record is in the file, and the log is latched.
    unforced :
        (io : List Io) (e : Error)
        → Wrote (
          record w {
            io = io;
            file = write_at w.file w.size buf;
            size = w.size + length buf;
            failed = some e;
          },
          some e,
        )
    unforced io e = record {
      sized = write_at-length w.file buf w.size s;
      appended = λ bad. absurd (cc);
      refused = λ x same. inr (same, (buf, good, (write_at-contents w.file buf w.size s).0));
      latched = λ x same. absurd (cc);
      forced = λ bad. absurd (cc);
    }

    append_bytes_lem : Wrote (append_bytes codec w buf durable)
    unfolding append_bytes sync
    append_bytes_lem = elim (Io-cases (head_io w.io)) [
      | inr (k, e, bad) ↦ subst Wrote (rw (bad, append_bytes) refl) (half_written k e)
      | inl first ↦ elim (Bool-cases durable) [
        | inr volatile ↦
            subst Wrote (rw (first, volatile, append_bytes) refl)
              (whole (tail_io w.io) w.dirty first (λ d. absurd (cc)))
        | inl forced ↦ elim (Bool-cases (ltb_ℤ (pos 0) w.sync_every)) [
          | inl grouped ↦
              subst Wrote (rw (first, forced, grouped, append_bytes) refl)
                (whole (tail_io w.io) true first (λ d n. absurd (cc)))
          | inr alone ↦ elim (Io-cases (head_io (tail_io w.io))) [
            | inl second ↦
                subst Wrote (rw (first, forced, alone, append_bytes, second, sync) refl)
                  (whole (tail_io (tail_io w.io)) w.dirty first (λ d n. second))
            | inr (k, e, bad) ↦
                subst Wrote (rw (first, forced, alone, append_bytes, bad, sync) refl)
                  (unforced (tail_io (tail_io w.io)) e)
          ]
        ]
      ]
    ]

  -- A write to a log whose file reaches its end keeps it so. Without an error the log stands for
  -- exactly one more record, which two calls of the file system had to accept if the write is
  -- durable and not grouped. On an error it stands for what it did, or for the one more record and
  -- has latched the error. A latched log refuses every write and stays the same.
  pub write_appends : IsSized w → Wrote (write codec w rec durable now)
  unfolding write
  write_appends s = elim (Result-cases (encode codec (stamped codec rec now))) [
    | inr (e, bad) ↦ subst Wrote (rw (bad, write) refl) (unchanged e s)
    | inl (buf, good) ↦ elim (Option-cases w.failed) [
      | inl usable ↦ subst Wrote (simp (good, usable, write)) (append_bytes_lem buf s usable good)
      | inr (e, latched) ↦ subst Wrote (simp (good, latched, write)) (unchanged e s)
    ]
  ]
