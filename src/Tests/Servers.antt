-- ===== src/Tests/Servers.antt =====
-- A run of the process, and a log whose power fails.
use artie_takehome.Base.{
  ℕ, ◌≡◌, refl, sym, ap, ◌∙◌, String, List, [], ◌∷◌, ◌++◌, arith, true, Option, some, none, pos,
  Returns,
}
use artie_takehome.Base.{mul_int64}
use artie_takehome.Maps.{find}
use artie_takehome.Record.{storage, Result, ok, visibility}
use artie_takehome.Manager.{Manager, get, create, contains_any}
use artie_takehome.Manager.Recover.{open_manager}
use artie_takehome.Wal.{Wal, write, encode}
use artie_takehome.Wal.Service.{opened, open_wal}
use artie_takehome.Wal.Scan.{scan}
use artie_takehome.Wal.History.{Call, submit, flush_tick, submitted}
use artie_takehome.Wal.Ledger.{Ledger, start_ledger, serve_ledger}
use artie_takehome.Wal.Power.{Survived, power_loss_recovers}
use artie_takehome.Api.{value}
use artie_takehome.Api.Admin
use artie_takehome.Api.Routes.{handle, post_queues, post_compact}
use artie_takehome.Server.{
  Life, main, serve_event, default_flags, request, pumped, flushed, signalled,
}
use artie_takehome.Server.Exits.{IsExit, ArePossible, stopping, main-Returns}
use artie_takehome.Tests.Data.{jobs, two_rounds-IsServed}
use artie_takehome.Tests.Apis.{poll, leases_in}
use artie_takehome.Tests.Logs.{small_codec, small_codec-RoundTrips, plain, seqs}

-- A queue is created and polled and the log compacted, and the drain times out.
abbrev one_life : Life
one_life = record {
  served =
      request (post_queues (value jobs) (pos 10)) ∷ request poll ∷ pumped (pos 20) ∷ flushed ∷ [];
  stop = signalled;
  draining = request (post_compact (pos 30)) ∷ [];
  timed_out = some (storage "deadline exceeded");
  closing = flushed ∷ [];
}

-- The leases of the new queue, from what its creation and the opening before it returned.
created_leases : Option (Manager Wal) → List (String × ℕ)
created_leases none = []
created_leases (some m) = leases_in (get m "jobs")

opened_leases : Option (Result (Manager Wal)) → List (String × ℕ)
opened_leases (some (ok m)) =
    created_leases (serve_event small_codec m (request (post_queues (value jobs) (pos 10))))
opened_leases r = []

none_leased : opened_leases (open_manager small_codec [] default_flags.fsync_every [] (pos 5)) ≡ []
unfolding opened_leases created_leases leases_in open_manager open_wal scan serve_event handle
    Admin.create_queue visibility mul_int64 get find create contains_any write encode
none_leased = refl

life-ArePossible :
    (m : Manager Wal)
    → open_manager small_codec [] default_flags.fsync_every [] (pos 5) ≡ some (ok m)
    → ArePossible small_codec m (one_life.served ++ stopping small_codec one_life)
unfolding opened_leases created_leases leases_in
life-ArePossible m e = (
  tt,
  λ m1 e1. (
    (λ q f.
        two_rounds-IsServed q
          (sym (ap opened_leases e ∙ ap created_leases e1 ∙ ap leases_in f) ∙ none_leased)),
    λ m2 e2. (tt, λ m3 e3. (tt, λ m4 e4. (tt, λ m5 e5. (tt, λ m6 e6. tt)))),
  ),
)

main-Returns_example :
    Returns
      (IsExit small_codec default_flags [] [] (pos 5) one_life)
      (main small_codec default_flags [] [] (pos 5) one_life)
main-Returns_example =
    main-Returns small_codec default_flags [] [] (pos 5) one_life life-ArePossible

-- A log under group commit, with a flush between two durable writes.
abbrev grouped_log : Wal
grouped_log = opened [] (pos 10) []

abbrev three_calls : List Call
three_calls = submit (plain 1 5) true (pos 6) ∷ flush_tick ∷ submit (plain 2 7) true (pos 8) ∷ []

abbrev grouped_ledger : Ledger
grouped_ledger = serve_ledger small_codec (start_ledger grouped_log) three_calls

power_loss_recovers_example :
    Survived small_codec small_codec-RoundTrips seqs
      (submitted small_codec three_calls)
      grouped_ledger
      grouped_ledger.disk
      (pos 10)
      []
power_loss_recovers_example =
    power_loss_recovers small_codec small_codec-RoundTrips seqs three_calls grouped_log
      grouped_ledger.disk (pos 10) [] refl (omega arith) (omega arith)
