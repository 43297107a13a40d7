-- ===== src/Wal/Power.antt =====
-- What an fsync promises: the log through any number of writes and flushes, and then a loss of
-- power.
use mathlib.Core.List.{append_assoc, append-nil, Sublist, nil-sublist}
use mathlib.Core.List.Sublist
use artie_takehome.Base.{
  ℕ, ◌-◌, ◌≤◌, ◌≡◌, refl, sym, ◌∙◌, ap, List, [], ◌∷◌, ◌++◌, Bool, true, false, none, ℤ, pos, ltb_ℤ,
  Returns, arith, length, take, length-take,
}
use artie_takehome.Record.{Record, ok}
use artie_takehome.Wal.{Codec, Wal, contents}
use artie_takehome.Wal.Ledger.{Ledger, forces, called, promise, account, serve_ledger, start_ledger}
use artie_takehome.Wal.Cut.{take-past, Written-split, Written-same, take-Cut}
use artie_takehome.Wal.Effect.{Effect, call-Effect}
use artie_takehome.Wal.Frame.{RoundTrips}
use artie_takehome.Wal.Recovery.{Written, nothing, IsTorn, visit}
use artie_takehome.Wal.History.{
  Call, submit, flush_tick, submitted, Written-append, Restarted, restart-Restarted,
}
use artie_takehome.Wal.Scan.{scan}
use artie_takehome.Wal.Service.{opened, open_wal}
use artie_takehome.Wal.Writes.{IsSized}

module _ (codec : Codec) where
  -- What the log stands for, and which of it the disk has.
  record Safe (sent : List Record) (l : Ledger) : Type 0 where
    sized : IsSized l.wal
    forced : List Record
    pending : List Record
    bytes : List ℕ
    on_disk : Written codec forced bytes
    disk : length bytes ≡ l.disk
    written : Written codec (forced ++ pending) (contents l.wal)
    safe : Sublist l.safe forced
    since : Sublist l.since pending
    sent_ones : Sublist (forced ++ pending) sent
    promised : Sublist l.promised (l.safe ++ l.since)
    inline : ltb_ℤ (pos 0) l.wal.sync_every ≡ false → Sublist l.promised l.safe
    flushed : l.wal.dirty ≡ false → l.wal.failed ≡ none → Sublist l.promised l.safe

  kept_promises :
      {sent old : List Record} (l : Ledger) (call : Call)
      → Safe sent l
      → Effect codec old l.wal call
      → Sublist
          (l.promised ++ promise call (called codec l.wal call).1)
          (l.safe ++ (l.since ++ (called codec l.wal call).1))
  kept_promises l call h t =
      rw (← append_assoc l.safe l.since (called codec l.wal call).1)
        (Sublist.append h.promised t.promised)

  no_more :
      (l : Ledger) (call : Call)
      → promise call (called codec l.wal call).1 ≡ []
      → Sublist l.promised l.safe
      → Sublist (l.promised ++ promise call (called codec l.wal call).1) l.safe
  no_more l call e p = rw (e, append-nil l.promised) p

  account-Safe :
      (sent : List Record) (l : Ledger) (call : Call) (h : Safe sent l)
      → Effect codec (h.forced ++ h.pending) l.wal call
      → (forced : Bool) → forces codec l.wal call ≡ forced
      → Safe (sent ++ submitted codec (call ∷ [])) (
          account forced
            (called codec l.wal call).0
            l
            (called codec l.wal call).1
            (promise call (called codec l.wal call).1))
  unfolding account
  account-Safe sent l call h t true f = record {
    sized = t.sized;
    forced = (h.forced ++ h.pending) ++ t.new;
    pending = [];
    bytes = contents (called codec l.wal call).0;
    on_disk = t.written;
    disk = length-take (called codec l.wal call).0.size (called codec l.wal call).0.file t.sized;
    written = rw (append-nil ((h.forced ++ h.pending) ++ t.new)) t.written;
    safe =
        rw (← append_assoc l.safe l.since (called codec l.wal call).1)
          (Sublist.append (Sublist.append h.safe h.since) t.acked);
    since = nil-sublist _;
    sent_ones =
        rw (append-nil ((h.forced ++ h.pending) ++ t.new)) (Sublist.append h.sent_ones t.sent);
    promised =
        rw (append-nil (l.safe ++ (l.since ++ (called codec l.wal call).1)))
          (kept_promises l call h t);
    inline = λ _. kept_promises l call h t;
    flushed = λ _ _. kept_promises l call h t;
  }
  account-Safe sent l call h t false f = record {
    sized = t.sized;
    forced = h.forced;
    pending = h.pending ++ t.new;
    bytes = h.bytes;
    on_disk = h.on_disk;
    disk = h.disk;
    written = rw (← append_assoc h.forced h.pending t.new) t.written;
    safe = h.safe;
    since = Sublist.append h.since t.acked;
    sent_ones = rw (← append_assoc h.forced h.pending t.new) (Sublist.append h.sent_ones t.sent);
    promised = kept_promises l call h t;
    inline = λ i. let i' = rw t.mode at i in no_more l call (t.inline f i') (h.inline i');
    flushed =
        λ d n. let (clean, good, e) = t.flushed f d n in no_more l call e (h.flushed clean good);
  }

  submitted-split :
      (call : Call) (calls : List Call)
      → submitted codec (call ∷ calls) ≡ submitted codec (call ∷ []) ++ submitted codec calls
  unfolding submitted
  submitted-split (submit rec durable now) calls = refl
  submitted-split flush_tick calls = refl

  serve_ledger-Safe :
      (sent : List Record) (l : Ledger) (calls : List Call)
      → Safe sent l
      → Safe (sent ++ submitted codec calls) (serve_ledger codec l calls)
  unfolding serve_ledger submitted
  serve_ledger-Safe sent l [] h = rw (append-nil sent) h
  serve_ledger-Safe sent l (call ∷ calls) h =
      let t = call-Effect codec (h.forced ++ h.pending) l.wal call h.written h.sized in
      let rest = submitted-split call calls in
      rw (rest, ← append_assoc sent (submitted codec (call ∷ [])) (submitted codec calls))
        (serve_ledger-Safe (sent ++ submitted codec (call ∷ [])) _ calls
          (account-Safe sent l call h t _ refl))

  -- A disk whose file has `n` bytes, and at least those of the last fsync.
  surviving-Cut :
      {sent : List Record} (l : Ledger) (n : ℕ) (h : Safe sent l)
      → l.disk ≤ n
      → (recs : List Record) × (front : List ℕ) × (tail : List ℕ) × (take n (contents l.wal)
          ≡ front ++ tail)
        × Written codec recs front
        × IsTorn codec tail
        × Sublist l.safe recs
        × Sublist recs sent
  surviving-Cut l n h d =
      let (front, back, e, a, b) =
        Written-split codec h.forced h.pending (contents l.wal) h.written in
      let same = Written-same codec a h.on_disk in
      let c = take-Cut codec (n - length front) b in
      let past : length front ≤ n = omega (arith, d, h.disk, ap length same) in
      (
        h.forced ++ c.kept,
        front ++ c.front,
        c.tail,
        ap (take n) e
            ∙ take-past n front back past
            ∙ ap (◌++◌ front) c.split
            ∙ sym (append_assoc front c.front c.tail),
        Written-append a c.whole,
        c.torn,
        rw (← append-nil l.safe) (Sublist.append h.safe (nil-sublist c.kept)),
        Sublist.trans (Sublist.append (Sublist.refl h.forced) c.among) h.sent_ones,
      )

  start-Safe : (w : Wal) → contents w ≡ [] → IsSized w → Safe [] (start_ledger w)
  start-Safe w empty sized = record {
    sized = sized;
    forced = [];
    pending = [];
    bytes = [];
    on_disk = nothing;
    disk = refl;
    written = rw empty nothing;
    safe = nil-sublist _;
    since = nil-sublist _;
    sent_ones = nil-sublist _;
    promised = nil-sublist _;
    inline = λ _. nil-sublist _;
    flushed = λ _ _. nil-sublist _;
  }

module _ (codec : Codec) (trips : RoundTrips codec) {S : Type 0} (step : S → Record → S) where
  -- What the ledger says of a restart on the first `n` bytes of the log, with the state `s`.
  pub record Survived (sent : List Record) (l : Ledger) (n : ℕ) (sync_every : ℤ) (s : S)
      : Type 0 where
    pub opens :
        open_wal (take n (contents l.wal)) sync_every []
        ≡ ok (opened (take n (contents l.wal)) sync_every [])
    pub recovers : Returns (Restarted codec step s sent l.safe) (
        scan codec
          (visit codec trips step)
          true
          (opened (take n (contents l.wal)) sync_every [])
          0
          s)
    pub inline : ltb_ℤ (pos 0) l.wal.sync_every ≡ false → Sublist l.promised l.safe
    pub flushed : l.wal.dirty ≡ false → l.wal.failed ≡ none → Sublist l.promised l.safe

  -- A codec reads back what it wrote, and a log that stands for nothing has a file that reaches its
  -- size. Whatever is written and flushed, with whatever failures of the file system: if the power
  -- fails and the disk has any first part of the log that is not shorter than at the last fsync
  -- that succeeded, then on a file system that works opening and recovering returns without an
  -- error. It reads only records that were submitted, in their order, and among them every record
  -- acknowledged up to that fsync. These are all that were acknowledged as durable if there is no
  -- group commit, and under group commit if nothing is dirty and no failure is latched.
  pub power_loss_recovers :
      (calls : List Call) (w : Wal) (n : ℕ) (sync_every : ℤ) (s : S)
      → contents w ≡ []
      → IsSized w
      → (serve_ledger codec (start_ledger w) calls).disk ≤ n
      → Survived (submitted codec calls) (serve_ledger codec (start_ledger w) calls) n sync_every s
  power_loss_recovers calls w n sync_every s empty sized d =
      let l = serve_ledger codec (start_ledger w) calls in
      let h = serve_ledger-Safe codec [] (start_ledger w) calls (start-Safe codec w empty sized) in
      let (recs, front, tail, e, written, torn, acked, sent) = surviving-Cut codec l n h d in
      let (opens, recovers) =
        restart-Restarted codec trips step tail sync_every s written torn acked sent in
      record {
        opens = rw e opens;
        recovers = rw e recovers;
        inline = h.inline;
        flushed = h.flushed;
      }
