-- ===== src/Wal/Effect.antt =====
-- What one call does to the log, and what its fsync says.
use mathlib.Core.List.{append-nil, Sublist, nil-sublist}
use mathlib.Core.List.Sublist
use artie_takehome.Base.{
  ◌≡◌, refl, List, [], ◌∷◌, ◌++◌, Bool, true, false, Option, none, some, ℤ, pos, ltb_ℤ,
  if◌then◌else◌, Bool-cases, Option-cases, inl, inr, arith,
}
use artie_takehome.Record.{Record, Error}
use artie_takehome.Wal.{Codec, Wal, head_io, contents, write, append_bytes, sync}
use artie_takehome.Wal.Ledger.{is_success, is_ok, forces, called, promise}
use artie_takehome.Wal.Recovery.{Written}
use artie_takehome.Wal.History.{Call, submit, flush_tick, submitted, write-Put, flush-keeps}
use artie_takehome.Queue.{first_error}
use artie_takehome.Wal.Service.{flush}
use artie_takehome.Wal.Writes.{IsSized, Io-cases, write_appends}

module _ (codec : Codec) where
  module _ (w : Wal) (rec : Record) (durable : Bool) (now : ℤ) where
    write-sync_every : (write codec w rec durable now).0.sync_every ≡ w.sync_every
    unfolding write append_bytes sync
    write-sync_every = ground arith

    write-dirty : (write codec w rec durable now).0.dirty ≡ false → w.dirty ≡ false
    unfolding write append_bytes sync
    write-dirty e = ground (arith, e)

    write-failed : (write codec w rec durable now).0.failed ≡ none → w.failed ≡ none
    unfolding write append_bytes sync
    write-failed e = ground (arith, e)

    write-grouped :
        (write codec w rec durable now).1 ≡ none
        → durable ≡ true
        → ltb_ℤ (pos 0) w.sync_every ≡ true
        → (write codec w rec durable now).0.dirty ≡ true
    unfolding write append_bytes sync
    write-grouped e d g = ground (arith, e, d, g)

    write-forces :
        IsSized w
        → (write codec w rec durable now).1 ≡ none
        → durable ≡ true
        → ltb_ℤ (pos 0) w.sync_every ≡ false
        → forces codec w (submit rec durable now) ≡ true
    unfolding forces is_ok is_success
    write-forces s e d g =
        let (first, second) = (write_appends codec w rec durable now s).forced e d g in
        rw (e, d, g, first, second) refl

  flush-sync_every : (w : Wal) → (flush w).sync_every ≡ w.sync_every
  unfolding flush
  flush-sync_every w = ground arith

  -- A flush without an fsync that succeeds latches a failure, or there was nothing to do.
  flush-idle :
      (w : Wal)
      → forces codec w flush_tick ≡ false
      → (flush w).failed ≡ none
      → (w.dirty ≡ false) × (w.failed ≡ none)
  unfolding flush forces is_success first_error
  flush-idle w f l = elim (Bool-cases w.dirty) [
    | inr d ↦ (d, cc (rw (d, flush) at l))
    | inl d ↦ elim (Io-cases (head_io w.io)) [
      | inl e ↦ absurd (cc (rw (d, e) at f))
      | inr (k, x, e) ↦ absurd (latches w.failed x (rw (d, e, flush) at l))
    ]
  ]
    where
      latches : (old : Option Error) (x : Error) → first_error old (some x) ≡ none → ⊥
      latches none x e = cc
      latches (some y) x e = cc

  -- What one call does to a log that stands for `old`.
  pub record Effect (old : List Record) (w : Wal) (call : Call) : Type 0 where
    pub new : List Record
    pub sized : IsSized (called codec w call).0
    pub written : Written codec (old ++ new) (contents (called codec w call).0)
    pub acked : Sublist (called codec w call).1 new
    pub sent : Sublist new (submitted codec (call ∷ []))
    pub promised : Sublist (promise call (called codec w call).1) (called codec w call).1
    pub mode : (called codec w call).0.sync_every ≡ w.sync_every
    pub inline :
        forces codec w call ≡ false
        → ltb_ℤ (pos 0) w.sync_every ≡ false
        → promise call (called codec w call).1 ≡ []
    pub flushed :
        forces codec w call ≡ false
        → (called codec w call).0.dirty ≡ false
        → (called codec w call).0.failed ≡ none
        → (w.dirty ≡ false) × (w.failed ≡ none) × (promise call (called codec w call).1 ≡ [])

  promised-none :
      (w : Wal) (rec : Record) (durable : Bool) (now : ℤ)
      → IsSized w
      → forces codec w (submit rec durable now) ≡ false
      → ((write codec w rec durable now).1 ≡ none
          → durable ≡ true
          → ltb_ℤ (pos 0) w.sync_every ≡ false)
      → promise (submit rec durable now) (called codec w (submit rec durable now)).1 ≡ []
  unfolding promise called
  promised-none w rec durable now s f i = elim (Bool-cases durable) [
    | inr v ↦ rw v refl
    | inl d ↦ elim (Option-cases (write codec w rec durable now).1) [
      | inr (x, bad) ↦ rw bad (when durable)
      | inl good ↦ absurd (cc (write-forces w rec durable now s good d (i good d), f))
    ]
  ]
    where
      when : (b : Bool) → Path (List Record) (if b then [] else []) []
      when true = refl
      when false = refl

  submit-Effect :
      (old : List Record) (w : Wal) (rec : Record) (durable : Bool) (now : ℤ)
      → Written codec old (contents w)
      → IsSized w
      → Effect old w (submit rec durable now)
  unfolding called promise submitted
  submit-Effect old w rec durable now v s =
      let t = write-Put codec old w rec durable now v s in
      record {
        new = t.new;
        sized = t.sized;
        written = t.written;
        acked = t.acknowledged;
        sent = t.at_most;
        promised = kept_promise durable _;
        mode = write-sync_every w rec durable now;
        inline = λ f i. promised-none w rec durable now s f λ e d. i;
        flushed = λ f d l. (
          write-dirty w rec durable now d,
          write-failed w rec durable now l,
          promised-none w rec durable now s f λ e u.
              elim (Bool-cases (ltb_ℤ (pos 0) w.sync_every)) [
                | inr i ↦ i
                | inl g ↦ absurd (cc (write-grouped w rec durable now e u g, d))
              ],
        );
      }
    where
      kept_promise : (b : Bool) (acked : List Record) → Sublist (if b then acked else []) acked
      kept_promise true acked = Sublist.refl _
      kept_promise false acked = nil-sublist _

  flush-Effect :
      (old : List Record) (w : Wal)
      → Written codec old (contents w)
      → IsSized w
      → Effect old w flush_tick
  unfolding called promise submitted
  flush-Effect old w v s =
      let (same, sized) = flush-keeps codec w in
      record {
        new = [];
        sized = sized s;
        written = rw (append-nil old, same) v;
        acked = nil-sublist _;
        sent = nil-sublist _;
        promised = nil-sublist _;
        mode = flush-sync_every w;
        inline = λ f i. refl;
        flushed = λ f d l. let (a, b) = flush-idle w f l in (a, b, refl);
      }

  pub call-Effect :
      (old : List Record) (w : Wal) (call : Call)
      → Written codec old (contents w)
      → IsSized w
      → Effect old w call
  call-Effect old w (submit rec durable now) v s = submit-Effect old w rec durable now v s
  call-Effect old w flush_tick v s = flush-Effect old w v s
