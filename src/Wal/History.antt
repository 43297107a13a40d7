-- ===== src/Wal/History.antt =====
-- The log through any number of writes and flushes, and what a restart reads of it.
use mathlib.Core.List.{append_assoc, append-nil, Sublist, nil-sublist}
use mathlib.Core.List.Sublist
use artie_takehome.Base.{
  ℕ, ◌≡◌, refl, List, [], ◌∷◌, ◌++◌, Bool, true, Option, none, some, ℤ, Bool-cases, Option-cases,
  inl, inr, Returns, Returns-map,
}
use artie_takehome.Record.{Record, Error, ok}
use artie_takehome.Wal.{Codec, Wal, head_io, contents, stamped, write}
use artie_takehome.Wal.Frame.{RoundTrips}
use artie_takehome.Wal.Recovery.{
  Written, nothing, record_written, IsTorn, replayed, visit, recover_repairs, take-all,
}
use artie_takehome.Wal.Scan.{scan}
use artie_takehome.Wal.Service.{flush, opened, open_wal}
use artie_takehome.Wal.Writes.{IsSized, write_appends, Io-cases, Extends}

-- Records written after others.
pub Written-append :
    {codec : Codec} {recs more : List Record} {bytes rest : List ℕ}
    → Written codec recs bytes
    → Written codec more rest
    → Written codec (recs ++ more) (bytes ++ rest)
Written-append nothing v = v
Written-append {rest = rest} (record_written {buf = buf} {bytes = bytes} e w) v =
    rw (append_assoc buf bytes rest) (record_written e (Written-append w v))

-- The calls on a log between two restarts.
pub data Call : Type 0 where
  submit : Record → Bool → ℤ → Call
  flush_tick : Call

-- The record itself if the answer is no error.
abbrev pub if_ok : Option Error → Record → List Record
if_ok none rec = rec ∷ []
if_ok (some e) rec = []

if_ok-sublist : (e : Option Error) (rec : Record) → Sublist (if_ok e rec) (rec ∷ [])
if_ok-sublist none rec = Sublist.refl _
if_ok-sublist (some x) rec = nil-sublist _

module _ (codec : Codec) where
  -- The log after the calls, and the records that were acknowledged.
  unfoldable pub serve : Wal → List Call → Wal × List Record
  serve w [] = (w, [])
  serve w (submit rec durable now ∷ calls) =
      let (w', e) = write codec w rec durable now in
      let (end, acked) = serve w' calls in (end, if_ok e (stamped codec rec now) ++ acked)
  serve w (flush_tick ∷ calls) = serve (flush w) calls

  -- The records that were submitted.
  unfoldable pub submitted : List Call → List Record
  submitted [] = []
  submitted (submit rec durable now ∷ calls) = stamped codec rec now ∷ submitted calls
  submitted (flush_tick ∷ calls) = submitted calls

  -- The log stands for `old` and then records among which are the acknowledged ones, in their
  -- order.
  pub record Holds (old : List Record) (sent acked : List Record) (r : Wal) : Type 0 where
    pub sized : IsSized r
    pub recs : List Record
    pub written : Written codec (old ++ recs) (contents r)
    pub in_order : Sublist acked recs
    pub sent_ones : Sublist recs sent

  pub flush-keeps : (w : Wal) → (contents (flush w) ≡ contents w) × (IsSized w → IsSized (flush w))
  unfolding flush
  flush-keeps w = elim (Bool-cases w.dirty) [
    | inr e ↦ rw (e, flush) (refl, λ s. s)
    | inl e ↦ elim (Io-cases (head_io w.io)) [
      | inl f ↦ rw (e, f, flush) (refl, λ s. s)
      | inr (k, x, f) ↦ rw (e, f, flush) (refl, λ s. s)
    ]
  ]

  -- One record more or none, and then the rest.
  after_call :
      (old new sent acked more : List Record) (r : Wal) (rec : Record)
      → Sublist more new
      → Sublist new (rec ∷ [])
      → Holds (old ++ new) sent acked r
      → Holds old (rec ∷ sent) (more ++ acked) r
  after_call old new sent acked more r rec p q h = record {
    sized = h.sized;
    recs = new ++ h.recs;
    written = rw (← append_assoc old new h.recs) h.written;
    in_order = Sublist.append p h.in_order;
    sent_ones = Sublist.append q h.sent_ones;
  }

  -- What a write puts into the log, and what of it was acknowledged.
  pub record Put (old : List Record) (w : Wal) (rec : Record) (e : Option Error) (r : Wal)
      : Type 0 where
    pub sized : IsSized r
    pub new : List Record
    pub written : Written codec (old ++ new) (contents r)
    pub acknowledged : Sublist (if_ok e rec) new
    pub at_most : Sublist new (rec ∷ [])

  extended :
      (old : List Record) (w r : Wal) (rec : Record) (durable : Bool) (now : ℤ) (e : Option Error)
      → Written codec old (contents w)
      → IsSized r
      → Extends codec w rec durable now r
      → Put old w (stamped codec rec now) e r
  extended old w r rec durable now e v s (buf, good, same) = record {
    sized = s;
    new = stamped codec rec now ∷ [];
    written = rw (same, ← append-nil buf) (Written-append v (record_written good nothing));
    acknowledged = if_ok-sublist e (stamped codec rec now);
    at_most = Sublist.refl _;
  }

  unchanged :
      (old : List Record) (w r : Wal) (rec : Record) (x : Error)
      → Written codec old (contents w)
      → IsSized r
      → contents r ≡ contents w
      → Put old w rec (some x) r
  unchanged old w r rec x v s same = record {
    sized = s;
    new = [];
    written = rw (append-nil old, same) v;
    acknowledged = nil-sublist _;
    at_most = nil-sublist _;
  }

  pub write-Put :
      (old : List Record) (w : Wal) (rec : Record) (durable : Bool) (now : ℤ)
      → Written codec old (contents w)
      → IsSized w
      → Put old w
          (stamped codec rec now)
          (write codec w rec durable now).1
          (write codec w rec durable now).0
  write-Put old w rec durable now v s =
      let t = write_appends codec w rec durable now s in
      elim (Option-cases (write codec w rec durable now).1) [
        | inl good ↦ rw good (extended old w _ rec durable now none v t.sized (t.appended good))
        | inr (x, bad) ↦ rw bad (elim (t.refused x bad) [
          | inl same ↦ unchanged old w _ (stamped codec rec now) x v t.sized same
          | inr (latched, more) ↦ extended old w _ rec durable now (some x) v t.sized more
        ])
      ]

  -- The log stands for old records, and its file reaches its size. Then whatever is written and
  -- flushed, with whatever failures of the file system, it stands for the old records and then for
  -- records that were submitted, among which, in order, are all that were acknowledged.
  pub serve-Holds :
      (old : List Record) (w : Wal) (calls : List Call)
      → Written codec old (contents w)
      → IsSized w
      → Holds old (submitted calls) (serve w calls).1 (serve w calls).0
  unfolding serve submitted
  serve-Holds old w [] v s = record {
    sized = s;
    recs = [];
    written = rw (append-nil old) v;
    in_order = nil-sublist _;
    sent_ones = nil-sublist _;
  }
  serve-Holds old w (submit rec durable now ∷ calls) v s =
      let t = write-Put old w rec durable now v s in
      after_call old t.new (submitted calls) _ _ _ (stamped codec rec now) t.acknowledged t.at_most
        (serve-Holds (old ++ t.new) (write codec w rec durable now).0 calls t.written t.sized)
  serve-Holds old w (flush_tick ∷ calls) v s =
      let (same, sized) = flush-keeps w in serve-Holds old (flush w) calls (rw same v) (sized s)

  -- What a restart finds: the records that the log stood for, read in their order, and the log
  -- whole.
  pub record Restarted {S : Type 0} (step : S → Record → S) (s : S) (sent acked : List Record)
      (r : Wal × S × Option Error) : Type 0 where
    pub recs : List Record
    pub state : r.1 ≡ replayed step s recs
    pub error : r.2 ≡ none
    pub whole : Written codec recs (contents r.0)
    pub in_order : Sublist acked recs
    pub sent_ones : Sublist recs sent

module _ (codec : Codec) (trips : RoundTrips codec) {S : Type 0} (step : S → Record → S) where
  -- A file of whole records and a torn tail, on a file system that works.
  pub restart-Restarted :
      {sent acked recs : List Record} {kept : List ℕ} (tail : List ℕ) (sync_every : ℤ) (s : S)
      → Written codec recs kept
      → IsTorn codec tail
      → Sublist acked recs
      → Sublist recs sent
      → (open_wal (kept ++ tail) sync_every [] ≡ ok (opened (kept ++ tail) sync_every []))
        × Returns
            (Restarted codec step s sent acked)
            (scan codec (visit codec trips step) true (opened (kept ++ tail) sync_every []) 0 s)
  unfolding open_wal
  restart-Restarted {recs = recs} {kept = kept} tail sync_every s written torn in_order sent_ones =
      (
        refl,
        Returns-map
            (recover_repairs codec trips step written (opened (kept ++ tail) sync_every []) tail s
              torn refl (take-all (kept ++ tail)) refl)
            λ r (error, state, whole). record {
              recs = recs;
              state = state;
              error = error;
              whole = rw whole written;
              in_order = in_order;
              sent_ones = sent_ones;
            },
      )

  -- A codec reads back what it wrote, and a log that stands for nothing has a file that reaches its
  -- size. Whatever is written and flushed, with whatever failures of the file system: if the
  -- process then dies and leaves the log's bytes with a torn tail, and the file system works again,
  -- then opening and recovering returns without an error. It reads only records that were
  -- submitted, in their order, and among them every record that was acknowledged.
  pub restart_recovers :
      (calls : List Call) (w : Wal) (tail : List ℕ) (sync_every : ℤ) (s : S)
      → contents w ≡ []
      → IsSized w
      → IsTorn codec tail
      → let file = contents (serve codec w calls).0 ++ tail in
        (open_wal file sync_every [] ≡ ok (opened file sync_every []))
        × Returns
            (Restarted codec step s (submitted codec calls) (serve codec w calls).1)
            (scan codec (visit codec trips step) true (opened file sync_every []) 0 s)
  restart_recovers calls w tail sync_every s empty sized torn =
      let h = serve-Holds codec [] w calls (rw empty nothing) sized in
      restart-Restarted tail sync_every s h.written torn h.in_order h.sent_ones
