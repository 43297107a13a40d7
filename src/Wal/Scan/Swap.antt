-- ===== src/Wal/Scan/Swap.antt =====
-- Compact: the swap of the new file for the old one.
use artie_takehome.Base.{
  ℕ, ◌≤◌, ◌≡◌, refl, List, Option, none, some, length, inc_u64, arith, inl, inr, ◌⊎◌,
}
use artie_takehome.Record.{Error}
use artie_takehome.Wal.{Codec, Wal, Io, head_io, tail_io, contents}
use artie_takehome.Wal.Scan.Tally.{after_calls}
use artie_takehome.Wal.Scan.{attempt, refuse, swap_in}
use artie_takehome.Wal.Recovery.{take-all}
use artie_takehome.Wal.Writes.{IsSized, Io-cases}

some-injective {ℓ} : {A : Type ℓ} {x y : A} → some x ≡ some y → x ≡ y
some-injective e = cc

module _ (codec : Codec) where
  pub attempt_lem :
      (P : Wal × Option Error → Type 0) (io : List Io) (next : List Io → Wal × Option Error)
      (give_up : List Io → Error → Wal × Option Error)
      → P (next (tail_io io))
      → ((e : Error) → P (give_up (tail_io io) e))
      → P (attempt codec io next give_up)
  unfolding attempt
  attempt_lem P io next give_up good bad = elim (Io-cases (head_io io)) [
    | inl e ↦ rw (e, attempt) good
    | inr (k, x, e) ↦ rw (e, attempt) (bad x)
  ]

  module _ (w : Wal) where
    -- What a swap to the contents `out` leaves: it gives up before the rename, or after it.
    pub record Swapped (out : List ℕ) (io : List Io) (r : Wal × Option Error) : Type 0 where
      pub sized : IsSized w → IsSized r.0
      pub done :
          r.1 ≡ none
          → (contents r.0 ≡ out) × (r.0.size ≡ length out) × (r.0.epoch ≡ inc_u64 w.epoch)
      pub opened : r.1 ≡ none → r.0.renamed ≡ none
      pub undone :
          (e : Error)
          → r.1 ≡ some e
          → ((k : ℕ) × (k ≤ 3) × (r.0 ≡ record w { io = after_calls k io }))
            ⊎ (r.0 ≡ record w { io = after_calls 4 io; failed = some e; renamed = some out })

    refuse-Swapped :
        (out : List ℕ) (io : List Io) (k : ℕ)
        → k ≤ 3
        → (e : Error) → Swapped out io (refuse codec w (after_calls k io) e)
    unfolding refuse
    refuse-Swapped out io k l e = record {
      sized = λ s. s;
      done = λ bad. absurd (cc);
      opened = λ bad. absurd (cc);
      undone = λ x same. inl (k, l, refl);
    }

    new-Swapped :
        (out : List ℕ) (io : List Io)
        → Swapped out io (
          record w {
            io = after_calls 4 io;
            file = out;
            size = length out;
            epoch = inc_u64 w.epoch;
            renamed = none;
          },
          none,
        )
    new-Swapped out io = record {
      sized = λ s. omega arith;
      done = λ good. (take-all out, refl, refl);
      opened = λ good. refl;
      undone = λ e bad. absurd (cc);
    }

    orphan-Swapped :
        (out : List ℕ) (io : List Io) (e : Error)
        → Swapped out io
            (record w { io = after_calls 4 io; failed = some e; renamed = some out }, some e)
    orphan-Swapped out io e = record {
      sized = λ s. s;
      done = λ bad. absurd (cc);
      opened = λ bad. absurd (cc);
      undone = λ x same. rw (some-injective same) (inr refl);
    }

    pub swap_in-Swapped : (out : List ℕ) (io : List Io) → Swapped out io (swap_in codec w out io)
    unfolding swap_in after_calls
    swap_in-Swapped out io =
        let P = Swapped out io in
        let done : List Io → Wal × Option Error = λ io4. (
          record w {
            io = io4;
            file = out;
            size = length out;
            epoch = inc_u64 w.epoch;
            renamed = none;
          },
          none,
        ) in
        let orphan : List Io → Error → Wal × Option Error =
          λ io4 e. (record w { io = io4; failed = some e; renamed = some out }, some e) in
        let reopen : List Io → Wal × Option Error = λ io3. attempt codec io3 done orphan in
        let rename : List Io → Wal × Option Error =
          λ io2. attempt codec io2 reopen (refuse codec w) in
        let close : List Io → Wal × Option Error =
          λ io1. attempt codec io1 rename (refuse codec w) in
        attempt_lem P io close (refuse codec w)
          (attempt_lem P (after_calls 1 io) rename (refuse codec w)
            (attempt_lem P (after_calls 2 io) reopen (refuse codec w)
              (attempt_lem P (after_calls 3 io) done orphan (new-Swapped out io)
                (orphan-Swapped out io))
              (refuse-Swapped out io 3 (omega arith)))
            (refuse-Swapped out io 2 (omega arith)))
          (refuse-Swapped out io 1 (omega arith))
