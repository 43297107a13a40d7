-- ===== src/Wal/Scan/Tally.antt =====
-- Compact: how many calls of the file system it makes.
use artie_takehome.Base.{
  ℕ, zero, suc, ◌+◌, ◌≤◌, ◌≡◌, refl, ap, ◌∙◌, List, [], ◌∷◌, ◌++◌, Option, none, ℤ, length, arith,
  inl, inr,
}
use artie_takehome.Record.{Record, Error, Result-cases}
use artie_takehome.Wal.{Codec, Io, head_io, tail_io, encode, stamped}
use artie_takehome.Wal.Scan.{write_all}
use artie_takehome.Wal.Writes.{Io-cases}

-- The outcomes to come after some calls of the file system.
unfoldable pub after_calls : ℕ → List Io → List Io
after_calls zero io = io
after_calls (suc n) io = after_calls n (tail_io io)

pub after_calls-add :
    (n m : ℕ) (io : List Io) → after_calls m (after_calls n io) ≡ after_calls (n + m) io
unfolding after_calls
after_calls-add zero m io = let count : m ≡ 0 + m = omega arith in ap (λ k. after_calls k io) count
after_calls-add (suc n) m io =
    let count : suc (n + m) ≡ suc n + m = omega arith in
    after_calls-add n m (tail_io io) ∙ ap (λ k. after_calls k io) count

-- What the writes have used up: one call for each record, or at most that on an error.
unfoldable pub Counted : List Record → List Io → List ℕ × List Io × Option Error → Type 0
Counted recs io r =
    (k : ℕ) × (k ≤ length recs) × (r.1 ≡ after_calls k io) × (r.2 ≡ none → k ≡ length recs)

module _ (codec : Codec) (now : ℤ) where
  pub write_all-Counted :
      (recs : List Record) (io : List Io) (out : List ℕ)
      → Counted recs io (write_all codec recs now io out)
  unfolding Counted write_all after_calls
  write_all-Counted [] io out = (0, omega arith, refl, λ e. refl)
  write_all-Counted (rec ∷ recs) io out =
      elim (Result-cases (encode codec (stamped codec rec now))) [
        | inr (x, bad) ↦ rw (bad, write_all) (0, omega arith, refl, λ e. absurd (cc))
        | inl (buf, good) ↦ elim (Io-cases (head_io io)) [
          | inr (k, x, bad) ↦ rw (good, bad, write_all) (1, omega arith, refl, λ e. absurd (cc))
          | inl written ↦
              let (k, l, used, all) = write_all-Counted recs (tail_io io) (out ++ buf) in
              rw (good, written, write_all)
                (suc k, omega (arith, l), used, λ e. omega (arith, all e))
        ]
      ]
