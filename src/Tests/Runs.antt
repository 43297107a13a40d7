-- ===== src/Tests/Runs.antt =====
-- A run of a queue, and what the managers' recovery makes of queues.
use artie_takehome.Base.{
  ◌≡◌, refl, List, [], ◌∷◌, ◌++◌, arith, true, some, none, pos, ◌+ℤ◌, ℕ, take, sort_by, Returns,
}
use artie_takehome.Maps.{find}
use artie_takehome.Heap
use artie_takehome.MsgHeap
use artie_takehome.Msg.{ready, order_by}
use artie_takehome.Record.{stale_bookmark, ok}
use artie_takehome.Queue.{new}
use artie_takehome.Queue.Produce.{enqueue}
use artie_takehome.Queue.Runs.{Run, idle, added, extended}
use artie_takehome.Queue.Consume.{extend, try_receive}
use artie_takehome.Queue.Commit.{IsFresh}
use artie_takehome.Queue.Runs.Timely
use artie_takehome.Queue.Runs.Timely.{IsTimely, never_early}
use artie_takehome.Queue.Leases.{lookup}
use artie_takehome.Queue.Runs.Conserved.{Balanced, run-Balanced}
use artie_takehome.Wal.{Wal, Codec, contents, encode, frame}
use artie_takehome.Wal.Service.{opened}
use artie_takehome.Wal.Scan.{scan, compact, bookmark}
use artie_takehome.Wal.Scan.Halts.{Scanned, scan-Returns}
use artie_takehome.Wal.Scan.Rewrite.{Compacted, compact_lem}
use artie_takehome.Wal.Recovery.{nothing, visit}
use artie_takehome.Wal.History.{
  Call, submit, flush_tick, serve, submitted, Holds, serve-Holds, Restarted, restart_recovers,
}
use artie_takehome.Wal.Service.{open_wal}
use artie_takehome.Manager.{Manager, get, live_records}
use artie_takehome.Manager.Calls.{compact_all, replay, all_records}
use artie_takehome.Manager.Recover.{Recovery, staging_of}
use artie_takehome.Manager.Separate.{of_name, recovered, recovered_separates, compaction_rebuilds}
use artie_takehome.Manager.Staged.{staged}
use artie_takehome.Manager.Rebuild.{Rebuilt}
use artie_takehome.Manager.Stale.{compaction_stales}
use artie_takehome.Tests.Data.{
  list_log, jobs, token, token-injective, empty_queue, empty-IsConsistent,
}
use artie_takehome.Tests.Queues.{Log, one_ready, one_ready-IsConsistent}
use artie_takehome.Tests.Managers.{one_ready-IsNamed}
use artie_takehome.Tests.Logs.{
  small_codec, small_codec-RoundTrips, plain, framed, cut_log, seqs, tail-IsTorn,
}

-- One message is enqueued, and an extend of a receipt that nobody has is refused.
short_run : Run list_log empty_queue (1 ∷ []) [] one_ready
unfolding enqueue extend new lookup ready ◌+ℤ◌ Heap.push Heap.up MsgHeap.swap MsgHeap.less_at
    order_by
short_run = extended "r" (pos 5) (pos 20) (added "a" "m1" (pos 0) (pos 0) (pos 10) idle refl) refl

run-Balanced_example : Balanced empty_queue (1 ∷ []) [] one_ready
run-Balanced_example = run-Balanced list_log empty_queue empty-IsConsistent short_run

-- The clock stands still or goes on.
timely_run : Timely.Reached list_log (pos 10) one_ready
unfolding enqueue new ready ◌+ℤ◌ Heap.push Heap.up MsgHeap.swap MsgHeap.less_at order_by
timely_run =
    Timely.called (pos 10) (Timely.created (pos 5) jobs []) (omega arith)
      (Timely.enqueued "a" "m1" (pos 0) (pos 0) refl)

one_ready-IsFresh : IsFresh token 0 one_ready.leases
unfolding lookup enqueue ready new ◌+ℤ◌ Heap.push Heap.up
one_ready-IsFresh = record { distinct = token-injective; unused = λ j h. refl }

never_early_example :
    Returns
      (λ r. IsTimely (pos 20) r.1)
      (try_receive list_log one_ready (pos 2) (pos 100) (pos 20) token)
never_early_example =
    never_early list_log (pos 10) one_ready timely_run (pos 20) (omega arith) (pos 2) (pos 100)
      token one_ready-IsFresh

scan-Returns_example :
    Returns
      (Scanned small_codec (λ ns. Unit {0}) true cut_log)
      (scan small_codec (λ ns rec off. (seqs ns rec, none)) true cut_log 0 [])
scan-Returns_example =
    scan-Returns small_codec (λ ns. Unit {0}) (λ ns rec off. (seqs ns rec, none)) true
      (λ s rec off i. tt) cut_log 0 [] tt

-- Records of one byte, which no reader takes.
abbrev mark_codec : Codec
mark_codec = record { marshal = λ rec. ok (1 ∷ []); unmarshal = λ bytes. none }

compact_lem_example :
    Compacted mark_codec
      (pos 6)
      cut_log
      (plain 1 5 ∷ [])
      (compact mark_codec cut_log (plain 1 5 ∷ []) (pos 6))
compact_lem_example = compact_lem mark_codec (pos 6) cut_log (plain 1 5 ∷ [])

abbrev new_log : Wal
new_log = opened [] (pos 0) []

abbrev two_calls : List Call
two_calls = submit (plain 1 5) true (pos 6) ∷ flush_tick ∷ []

serve-Holds_example :
    Holds small_codec []
      (submitted small_codec two_calls)
      (serve small_codec new_log two_calls).1
      (serve small_codec new_log two_calls).0
serve-Holds_example = serve-Holds small_codec [] new_log two_calls nothing (omega arith)

abbrev stopped_file : List ℕ
stopped_file = contents (serve small_codec new_log two_calls).0 ++ take 9 (framed 3 7)

restart_recovers_example :
    (open_wal stopped_file (pos 0) [] ≡ ok (opened stopped_file (pos 0) []))
    × Returns
        (Restarted small_codec seqs []
          (submitted small_codec two_calls)
          (serve small_codec new_log two_calls).1)
        (scan small_codec
          (visit small_codec small_codec-RoundTrips seqs)
          true
          (opened stopped_file (pos 0) [])
          0
          [])
restart_recovers_example =
    restart_recovers small_codec small_codec-RoundTrips seqs two_calls new_log (take 9 (framed 3 7))
      (pos 0) [] refl (omega arith) tail-IsTorn

abbrev stall : Manager Wal
stall = record { queues = ("jobs", new jobs new_log) ∷ []; wal = new_log }

compaction_stales_example :
    replay mark_codec
      (compact_all mark_codec stall (pos 6)).0
      "jobs"
      (record { epoch = 0; offset = pos 9 })
      (pos 0)
      (λ i. pos 7)
      (λ i. "m")
    ≡ some ((compact_all mark_codec stall (pos 6)).0, 0, some stale_bookmark)
unfolding compact_all all_records live_records compact encode frame get find bookmark new sort_by
compaction_stales_example =
    compaction_stales mark_codec stall (pos 6) "jobs"
      (new jobs (compact_all mark_codec stall (pos 6)).0.wal) (record { epoch = 0; offset = pos 9 })
      (pos 0) (λ i. pos 7) (λ i. "m") refl refl refl refl

abbrev unread : Recovery Log
unread = record { queues = []; pending = [] }

recovered_separates_example :
    staging_of "" (recovered [] unread (plain 1 5 ∷ [])).pending
    ≡ staged (staging_of "" []) (of_name "" (plain 1 5 ∷ []))
recovered_separates_example = recovered_separates [] "" unread (plain 1 5 ∷ [])

compaction_rebuilds_example : Rebuilt one_ready (
    staging_of one_ready.cfg.name
      (recovered [] unread (all_records ([] ++ ("jobs", one_ready) ∷ []))).pending)
compaction_rebuilds_example =
    compaction_rebuilds [] [] [] "jobs" one_ready tt tt one_ready-IsConsistent one_ready-IsNamed
