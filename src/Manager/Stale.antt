-- ===== src/Manager/Stale.antt =====
-- Bookmarks and compaction.
use artie_takehome.Base.{
  ℕ, ◌==◌, ◌≡◌, refl, arith, true, false, sort_by, String, ℤ, pos, some, none, inc_u64, ltb_ℤ,
}
use artie_takehome.Msg.{Time}
use artie_takehome.Record.{stale_bookmark, ok}
use artie_takehome.Queue.{Queue}
use artie_takehome.Wal.{Codec, Wal}
use artie_takehome.Manager.{Manager, get}
use artie_takehome.Manager.Calls.{Bookmark, bookmark_now, compact_all, replay, all_records, by_name}
use artie_takehome.Wal.Scan.{bookmark}
use artie_takehome.Wal.Scan.Rewrite.{compact_lem}

-- The next epoch is another one, also when the counter wraps.
inc_u64-other : (n : ℕ) → (n == inc_u64 n) ≡ false
unfolding inc_u64
inc_u64-other n = ground arith

module _ (codec : Codec) where
  -- A bookmark with an epoch that is not the log's, not of the log's beginning, is refused.
  stale-replay :
      (m : Manager Wal) (name : String) (q : Queue Wal) (bm : Bookmark) (since : Time)
      (clock : ℕ → Time) (new_id : ℕ → String)
      → get m name ≡ ok q
      → ltb_ℤ (pos 0) bm.offset ≡ true
      → (bm.epoch == m.wal.epoch) ≡ false
      → replay codec m name bm since clock new_id ≡ some (m, 0, some stale_bookmark)
  unfolding replay
  stale-replay m name q bm since clock new_id e f g = rw (e, f, g, replay) refl

  -- The manager has just been compacted without an error, and a bookmark past the log's beginning
  -- bears the epoch from before. Then a replay from it on a known queue is refused as stale, and it
  -- changes nothing.
  pub compaction_stales :
      (m : Manager Wal) (now : ℤ) (name : String) (q : Queue Wal) (bm : Bookmark) (since : Time)
      (clock : ℕ → Time) (new_id : ℕ → String)
      → (compact_all codec m now).1 ≡ none
      → get (compact_all codec m now).0 name ≡ ok q
      → bm.epoch ≡ (bookmark_now m).epoch
      → ltb_ℤ (pos 0) bm.offset ≡ true
      → replay codec (compact_all codec m now).0 name bm since clock new_id
        ≡ some ((compact_all codec m now).0, 0, some stale_bookmark)
  unfolding compact_all bookmark
  compaction_stales m now name q bm since clock new_id good e f g =
      let t = compact_lem codec now m.wal (all_records (sort_by by_name m.queues)) in
      let (bytes, written, same, sized, raised) = t.swapped good in
      stale-replay (compact_all codec m now).0 name q bm since clock new_id e g
        (rw (f, raised) (inc_u64-other m.wal.epoch))
