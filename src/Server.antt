-- ===== src/Server.antt =====
-- main.go: the process from its flags to its exit status. The HTTP server decides when it stops
-- serving and how its Shutdown ends, which are arguments.
pub mod Exits
use artie_takehome.Base.{ℕ, Bool, false, String, ℤ, pos, List, [], ◌∷◌, Option, none, some, ◌>>=◌}
use artie_takehome.Msg.{Time}
use artie_takehome.Record.{Error, ok, err}
use artie_takehome.Wal.{Codec, Wal, Io}
use artie_takehome.Wal.Service.{flush}
use artie_takehome.Manager.{Manager}
use artie_takehome.Manager.Calls.{pump_tick, close_manager}
use artie_takehome.Manager.Recover.{open_manager}
use artie_takehome.Api.Routes.{Request, handle, log_at}

-- The command line; durations are in nanoseconds.
pub record Flags : Type 0 where
  pub addr : String
  pub wal : String
  pub fsync_every : ℤ
  pub tick : ℤ
  pub verbose : Bool

abbrev pub default_flags : Flags
default_flags = record {
  addr = ":8080";
  wal = "data/queue.wal";
  fsync_every = pos 0;
  tick = pos 50_000_000;
  verbose = false;
}

-- What the goroutines of the process do: a handler, a tick of the pump, a round of the flusher.
pub data Event : Type 0 where
  request : Request → Event
  pumped : Time → Event
  flushed : Event

-- Why the server stops: ListenAndServe fails, or a signal comes.
pub data Stop : Type 0 where
  listen_failed : Error → Stop
  signalled : Stop

-- What happens between Open and the end: the events while serving, the stop, the events while
-- Shutdown waits for the handlers, and the error of Shutdown, after which connections are closed.
pub record Life : Type 0 where
  pub served : List Event
  pub stop : Stop
  pub draining : List Event
  pub timed_out : Option Error
  pub closing : List Event

-- The exit status, and the manager as the process leaves it.
pub record Exit : Type 0 where
  pub status : ℕ
  pub left : Option (Manager Wal)

-- The end of the process once the log is closed.
abbrev pub exit_of : Manager Wal → Option Error → Exit
exit_of m (some e) = record { status = 1; left = some m }
exit_of m none = record { status = 0; left = some m }

module _ (codec : Codec) where
  unfoldable pub serve_event : Manager Wal → Event → Option (Manager Wal)
  serve_event m (request r) = handle codec m r >>= λ (m', reply). some m'
  serve_event m (pumped now) = pump_tick (log_at codec now) m.queues m.wal now >>= λ (qs, w).
      some (record m { queues = qs; wal = w })
  serve_event m flushed = some (record m { wal = flush m.wal })

  unfoldable pub serve_events : Manager Wal → List Event → Option (Manager Wal)
  unfolding serve_event
  serve_events m [] = some m
  serve_events m (e ∷ es) = serve_event m e >>= λ m'. serve_events m' es

  -- srv.Shutdown, and srv.Close if it has timed out.
  unfoldable pub shut_down : Manager Wal → Life → Option (Manager Wal)
  unfolding serve_events
  shut_down m life = serve_events m life.draining >>= λ m'. elim life.timed_out [
    | none ↦ some m'
    | some e ↦ serve_events m' life.closing
  ]

  -- mgr.Close, and the exit.
  unfoldable pub close_exit : Manager Wal → Exit
  close_exit m = let (m', e) = close_manager false m in exit_of m' e

  -- The signal: the server is shut down, and then the manager is closed.
  unfoldable pub stop_server : Manager Wal → Life → Option Exit
  unfolding shut_down close_exit
  stop_server m life = shut_down m life >>= λ m'. some (close_exit m')

  -- What follows a successful Open.
  unfoldable pub run_server : Manager Wal → Life → Option Exit
  unfolding stop_server
  run_server m life = serve_events m life.served >>= λ m'. elim life.stop [
    | listen_failed e ↦ some (record { status = 1; left = some m' })
    | signalled ↦ stop_server m' life
  ]

  unfoldable pub main : Flags → List ℕ → List Io → Time → Life → Option Exit
  unfolding run_server
  main flags file io now life = open_manager codec file flags.fsync_every io now >>= λ r. elim r [
    | err e ↦ some (record { status = 1; left = none })
    | ok m ↦ run_server m life
  ]
