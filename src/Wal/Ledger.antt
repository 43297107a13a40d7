-- ===== src/Wal/Ledger.antt =====
-- queue/wal.go with an account of its fsyncs: which records an fsync has put on the disk.
use artie_takehome.Base.{
  ℕ, List, [], ◌∷◌, ◌++◌, Bool, true, false, not, ◌&&◌, Option, none, some, pos, ltb_ℤ,
  if◌then◌else◌,
}
use artie_takehome.Record.{Record, Error}
use artie_takehome.Wal.{Codec, Wal, Io, success, failure, head_io, tail_io, stamped, write}
use artie_takehome.Wal.History.{Call, submit, flush_tick, if_ok}
use artie_takehome.Wal.Service.{flush}

unfoldable pub is_success : Io → Bool
is_success success = true
is_success (failure k e) = false

unfoldable pub is_ok : Option Error → Bool
is_ok none = true
is_ok (some e) = false

-- The log with what is known of the disk: the records acknowledged before the last fsync that
-- succeeded, those after it, those that were acknowledged as durable, and the size then.
pub record Ledger : Type 0 where
  pub wal : Wal
  pub safe : List Record
  pub since : List Record
  pub promised : List Record
  pub disk : ℕ

-- The record if it is durable.
unfoldable pub promise : Call → List Record → List Record
promise (submit rec durable now) acked = if durable then acked else []
promise flush_tick acked = acked

unfoldable pub account : Bool → Wal → Ledger → List Record → List Record → Ledger
account forced w l acked promised =
    if forced
    then record {
      wal = w;
      safe = l.safe ++ (l.since ++ acked);
      since = [];
      promised = l.promised ++ promised;
      disk = w.size;
    }
    else record {
      wal = w;
      safe = l.safe;
      since = l.since ++ acked;
      promised = l.promised ++ promised;
      disk = l.disk;
    }

-- A log on which nothing is known yet.
abbrev pub start_ledger : Wal → Ledger
start_ledger w = record { wal = w; safe = []; since = []; promised = []; disk = 0 }

module _ (codec : Codec) where
  -- The calls of the file system succeed, and the last is an fsync of the whole log.
  unfoldable pub forces : Wal → Call → Bool
  forces w (submit rec durable now) =
      is_ok (write codec w rec durable now).1
      && durable
      && not (ltb_ℤ (pos 0) w.sync_every)
      && is_success (head_io w.io)
      && is_success (head_io (tail_io w.io))
  forces w flush_tick = w.dirty && is_success (head_io w.io)

  -- The log after a call, and the record that it acknowledges.
  unfoldable pub called : Wal → Call → Wal × List Record
  called w (submit rec durable now) =
      let (w', e) = write codec w rec durable now in (w', if_ok e (stamped codec rec now))
  called w flush_tick = (flush w, [])

  unfoldable pub serve_ledger : Ledger → List Call → Ledger
  serve_ledger l [] = l
  serve_ledger l (call ∷ calls) =
      let (w, acked) = called l.wal call in
      serve_ledger (account (forces l.wal call) w l acked (promise call acked)) calls
