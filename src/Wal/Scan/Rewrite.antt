-- ===== src/Wal/Scan/Rewrite.antt =====
-- Compact: the log that it leaves, whatever fails.
use mathlib.Core.Path.{subst}
use mathlib.Core.List.{append_assoc, append-nil}
use artie_takehome.Base.{
  ℕ, ◌+◌, ◌≤◌, ◌≡◌, refl, sym, ap, ◌∙◌, List, [], ◌∷◌, ◌++◌, Option, none, some, ℤ, length, inc_u64,
  arith, Option-cases, inl, inr, ◌⊎◌,
}
use artie_takehome.Record.{Record, new_record, Op, Error, Result-cases}
use artie_takehome.Wal.{Codec, Wal, Io, head_io, tail_io, contents, encode, stamped}
use artie_takehome.Wal.Scan.Swap.{attempt_lem, swap_in-Swapped}
use artie_takehome.Wal.Scan.Tally.{after_calls, after_calls-add, Counted, write_all-Counted}
use artie_takehome.Wal.Scan.{write_all, refuse, after_write, compact}
use artie_takehome.Wal.Recovery.{Written, nothing, record_written}
use artie_takehome.Wal.Writes.{IsSized, Io-cases}

-- The records with their times.
unfoldable pub all_stamped : Codec → List Record → ℤ → List Record
all_stamped codec [] now = []
all_stamped codec (rec ∷ recs) now = stamped codec rec now ∷ all_stamped codec recs now

module _ (codec : Codec) (now : ℤ) where
  -- Without an error all the records were written after `out`.
  WroteAll : List Record → List ℕ → List ℕ × List Io × Option Error → Type 0
  WroteAll recs out r =
      r.2 ≡ none
      → (bytes : List ℕ) × Written codec (all_stamped codec recs now) bytes × (r.0 ≡ out ++ bytes)

  write_all_lem :
      (recs : List Record) (io : List Io) (out : List ℕ)
      → WroteAll recs out (write_all codec recs now io out)
  unfolding WroteAll write_all all_stamped
  write_all_lem [] io out = λ e. ([], nothing, sym (append-nil out))
  write_all_lem (rec ∷ recs) io out = elim (Result-cases (encode codec (stamped codec rec now))) [
    | inr (x, bad) ↦ rw (bad, write_all) (λ e. absurd (cc))
    | inl (buf, good) ↦ elim (Io-cases (head_io io)) [
      | inr (k, x, bad) ↦ rw (good, bad, write_all) (λ e. absurd (cc))
      | inl written ↦
          rw (good, written, write_all)
            (λ e.
              let (bytes, ws, same) = write_all_lem recs (tail_io io) (out ++ buf) e in
              (buf ++ bytes, record_written good ws, same ∙ append_assoc out buf bytes))
    ]
  ]

  module _ (w : Wal) where
    -- The bytes of a compacted log: a record that opens the next epoch, and then the others.
    abbrev pub IsCompacted : List Record → List ℕ → Type 0
    IsCompacted live bytes =
        Written codec
          (all_stamped codec (record (new_record Op.epoch "") { epoch = inc_u64 w.epoch } ∷ live)
            now)
          bytes

    -- What Compact leaves.
    pub record Compacted (live : List Record) (r : Wal × Option Error) : Type 0 where
      pub sized : IsSized w → IsSized r.0
      pub swapped :
          r.1 ≡ none
          → (bytes : List ℕ) × IsCompacted live bytes
            × (contents r.0 ≡ bytes)
            × (r.0.size ≡ length bytes)
            × (r.0.epoch ≡ inc_u64 w.epoch)
      pub opened : r.1 ≡ none → r.0.renamed ≡ none
      pub undone :
          (e : Error)
          → r.1 ≡ some e
          → ((k : ℕ) × (k ≤ length live + 5) × (r.0 ≡ record w { io = after_calls k w.io }))
            ⊎ ((bytes : List ℕ) × IsCompacted live bytes
                × (r.0 ≡ record w {
                  io = after_calls (length live + 6) w.io;
                  failed = some e;
                  renamed = some bytes;
                }))

    refused :
        (live : List Record) (k : ℕ)
        → k ≤ length live + 5
        → (e : Error) → Compacted live (refuse codec w (after_calls k w.io) e)
    unfolding refuse
    refused live k l e = record {
      sized = λ s. s;
      swapped = λ bad. absurd (cc);
      opened = λ bad. absurd (cc);
      undone = λ x same. inl (k, l, refl);
    }

    after_write-Compacted :
        (live : List Record) (r : List ℕ × List Io × Option Error)
        → WroteAll (record (new_record Op.epoch "") { epoch = inc_u64 w.epoch } ∷ live) [] r
        → Counted
            (record (new_record Op.epoch "") { epoch = inc_u64 w.epoch } ∷ live)
            (after_calls 1 w.io)
            r
        → Compacted live (after_write codec w r)
    unfolding after_write WroteAll Counted
    after_write-Compacted live (out, io, some e) f (k, l, used, all) =
        subst (λ (t : List Io). Compacted live (refuse codec w t e))
          (sym (used ∙ after_calls-add 1 k w.io)) (refused live (1 + k) (omega (arith, l)) e)
    after_write-Compacted live (out, io, none) f (k, l, used, all) =
        let t = swap_in-Swapped codec w out io in
        let count : 1 + k ≡ length live + 2 = omega (arith, all refl) in
        let here : io ≡ after_calls (length live + 2) w.io =
          used ∙ after_calls-add 1 k w.io ∙ ap (λ n. after_calls n w.io) count in
        let on : (n : ℕ) → after_calls n io ≡ after_calls (length live + 2 + n) w.io =
          λ n. ap (after_calls n) here ∙ after_calls-add (length live + 2) n w.io in
        record {
          sized = t.sized;
          swapped = λ good.
              let (bytes, ws, same) = f refl in
              let (a, b, c) = t.done good in (bytes, ws, a ∙ same, b ∙ ap length same, c);
          opened = t.opened;
          undone = λ e bad.
              let (bytes, ws, same) = f refl in
              let six : length live + 2 + 4 ≡ length live + 6 = omega arith in
              let last : after_calls 4 io ≡ after_calls (length live + 6) w.io =
                on 4 ∙ ap (λ n. after_calls n w.io) six in
              elim (t.undone e bad) [
                | inl (n, m, as_before) ↦ inl (
                  length live + 2 + n,
                  omega (arith, m),
                  as_before ∙ ap (λ (u : List Io). record w { io = u }) (on n),
                )
                | inr orphaned ↦ inr (
                  bytes,
                  ws,
                  orphaned
                      ∙ ap
                          (λ (u : List Io). record w {
                            io = u;
                            failed = some e;
                            renamed = some out;
                          })
                          last
                      ∙ ap
                          (λ (b : List ℕ). record w {
                            io = after_calls (length live + 6) w.io;
                            failed = some e;
                            renamed = some b;
                          })
                          same,
                )
              ];
        }

    latched-Compacted : (live : List Record) (e : Error) → Compacted live (w, some e)
    unfolding after_calls
    latched-Compacted live e = record {
      sized = λ s. s;
      swapped = λ bad. absurd (cc);
      opened = λ bad. absurd (cc);
      undone = λ x same. inl (0, omega arith, refl);
    }

    -- Compact, whatever calls of the file system fail: without an error the log is exactly a record
    -- that opens the next epoch and then the records given, each with a time, and the file that it
    -- has open is the one at its path. On an error there are two cases. Either at most the calls up
    -- to the rename were made, one for each record given and five others, and nothing else has
    -- changed. Or exactly one more was made, such a compacted file is at the path, the log still
    -- has the old one open with its old epoch, and the error is latched.
    pub compact_lem : (live : List Record) → Compacted live (compact codec w live now)
    unfolding compact after_calls refuse
    compact_lem live = elim (Option-cases w.failed) [
      | inr (e, latched) ↦
          subst (Compacted live) (simp (latched, compact)) (latched-Compacted live e)
      | inl usable ↦
          let first = record (new_record Op.epoch "") { epoch = inc_u64 w.epoch } in
          subst (Compacted live) (simp (usable, compact)) (
            attempt_lem codec (Compacted live) w.io
              (λ io. after_write codec w (write_all codec (first ∷ live) now io []))
              (refuse codec w)
              (after_write-Compacted live _ (write_all_lem (first ∷ live) (tail_io w.io) [])
                (write_all-Counted codec now (first ∷ live) (tail_io w.io) []))
              (refused live 1 (omega arith)))
    ]
