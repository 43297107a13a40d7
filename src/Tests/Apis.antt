-- ===== src/Tests/Apis.antt =====
-- Managers with a queue or none, and the theorems on their handlers.
use artie_takehome.Base.{
  ℕ, ◌≡◌, refl, sym, ap, ◌∙◌, String, List, [], ◌∷◌, arith, false, some, none, pos, Returns, ◌+ℤ◌,
  leb_ℤ, if◌then◌else◌,
}
use artie_takehome.Base.{mul_int64}
use artie_takehome.Maps.{find, insert}
use artie_takehome.Record.{Config, Record, Result, visibility, no_lease, ok, err}
use artie_takehome.Queue.{Queue, new}
use artie_takehome.Queue.Leases.{lookup}
use artie_takehome.Queue.Wait.{Polled, receive, receive-Returns}
use artie_takehome.Wal.{Wal, write, encode}
use artie_takehome.Wal.Service.{opened, open_wal}
use artie_takehome.Wal.Scan.{scan}
use artie_takehome.Manager.{Manager, get, create, contains_any}
use artie_takehome.Manager.Calls.{store, manager_err}
use artie_takehome.Manager.Managed.{IsManaged}
use artie_takehome.Manager.Recover.{open_manager, recover, install}
use artie_takehome.Manager.Opened.{IsOpened, open_manager-Returns}
use artie_takehome.Api.{
  Reply, respond, healthy, value, of_queue, fail, bounded_ms, max_delay, Handled,
}
use artie_takehome.Api.Bounds.{Bounded, bounded_ms_lem}
use artie_takehome.Api.Messages
use artie_takehome.Api.Admin
use artie_takehome.Api.Promises.{Durable, enqueue-Durable, Batched, receive-Batched}
use artie_takehome.Api.Status.{settle_conflict, Guarded, create_guard}
use artie_takehome.Api.Routes.{Request, handle, post_queues, post_receive, get_health}
use artie_takehome.Api.Managed.{IsRunnable, handle-Returns}
use artie_takehome.Api.Steps.{Serving, Reached, served, reached-Serving}
use artie_takehome.Tests.Data
use artie_takehome.Tests.Data.{
  two_rounds, two_rounds-IsServed, value-some, Returns-value, list_log, jobs, token,
  token-injective, empty_queue, empty-IsConsistent,
}
use artie_takehome.Tests.Logs.{small_codec}
use artie_takehome.Tests.Managers.{nobody}
use artie_takehome.Tests.Queues.{one_leased, one_leased-IsConsistent}
use artie_takehome.Api.Settled.{Told, ack-Told}

bounded_ms_lem_example :
    Bounded (pos 5000) max_delay "delay_ms" (bounded_ms (pos 5000) max_delay "delay_ms")
bounded_ms_lem_example = bounded_ms_lem max_delay "delay_ms" (omega arith) (pos 5000)

-- A timeout whose nanoseconds are negative as an int64.
abbrev lasting : Config
lasting = record jobs { visibility_timeout_ms = pos 9_223_372_036_855 }

create_guard_example : Guarded list_log nobody lasting 9_223_372_036_855
create_guard_example = create_guard list_log nobody lasting 9_223_372_036_855 refl refl

abbrev shop : Manager (List Record)
shop = record { queues = ("jobs", empty_queue) ∷ []; wal = [] }

get-shop : get shop "jobs" ≡ ok empty_queue
unfolding get find new
get-shop = refl

nothing_leased : lookup "r" empty_queue.leases ≡ none
unfolding lookup new
nothing_leased = refl

settle_conflict_example :
    let conflict : Handled (List Record) =
      some (store shop "jobs" empty_queue, fail 409 (of_queue no_lease)) in
    (Messages.ack list_log shop "jobs" (value (record { receipt = "r" })) ≡ conflict)
    × (Messages.nack list_log shop "jobs"
          (value (record { receipt = "r"; delay_ms = pos 5 }))
          (pos 1)
        ≡ conflict)
    × (Messages.extend shop "jobs" (value (record { receipt = "r"; visibility_ms = pos 5 })) (pos 1)
        ≡ conflict)
settle_conflict_example =
    settle_conflict shop "jobs" list_log empty_queue "r" 5 (pos 1) get-shop nothing_leased
      (omega arith)

abbrev job : Messages.EnqueueReq
job = record { body = "a"; priority = pos 3; delay_ms = pos 5000 }

enqueue-Durable_example :
    Returns
      (Durable shop "jobs" empty_queue list_log job (pos 10) "m1")
      (Messages.enqueue list_log shop "jobs" (value job) (pos 10) "m1")
enqueue-Durable_example =
    enqueue-Durable shop "jobs" empty_queue list_log job (pos 10) "m1" get-shop empty-IsConsistent

-- A manager whose queue has leased a message.
abbrev lending : Manager (List Record)
lending = record { queues = ("jobs", one_leased) ∷ []; wal = one_leased.wal }

get-lending : get lending "jobs" ≡ ok one_leased
unfolding get find
get-lending = refl

ack-Told_example :
    Returns
      (Told lending "jobs" one_leased (token 0))
      (Messages.ack list_log lending "jobs" (value (record { receipt = token 0 })))
ack-Told_example =
    ack-Told lending "jobs" one_leased (token 0) list_log get-lending one_leased-IsConsistent

unleased : empty_queue.leases ≡ []
unfolding new
unleased = refl

receive-Returns_example :
    Returns
      (Polled (if leb_ℤ (pos 0) (pos 0) then pos 1 else pos 0) (pos 20 +ℤ pos 60) two_rounds)
      (receive (λ t. list_log) empty_queue (pos 0) (pos 0) (pos 60) (pos 20) two_rounds)
receive-Returns_example =
    receive-Returns (λ t. list_log) empty_queue (pos 0) (pos 0) (pos 60) (pos 20) two_rounds
      empty-IsConsistent (two_rounds-IsServed empty_queue unleased)

abbrev batch : Messages.ReceiveReq
batch = record { max = pos 10; visibility_ms = pos 0; wait_ms = pos 50 }

receive-Batched_example :
    Returns
      (Batched shop "jobs" empty_queue batch)
      (Messages.receive (λ t. list_log) shop "jobs" (value batch) (pos 20) two_rounds false)
receive-Batched_example =
    receive-Batched shop "jobs" empty_queue (λ t. list_log) batch (pos 20) two_rounds false get-shop
      empty-IsConsistent (two_rounds-IsServed empty_queue unleased)

-- A manager on an empty log.
abbrev empty_manager : Manager Wal
empty_manager = record { queues = []; wal = opened [] (pos 0) [] }

abbrev made : Manager Wal × Reply
made =
    Data.value (empty_manager, respond 500 healthy)
      (handle small_codec empty_manager (post_queues (value jobs) (pos 10)))

made-Managed :
    Returns
      (λ r. IsManaged r.0)
      (handle small_codec empty_manager (post_queues (value jobs) (pos 10)))
made-Managed = handle-Returns small_codec empty_manager tt (post_queues (value jobs) (pos 10)) tt

-- The leases of a queue that a manager was asked for.
unfoldable pub leases_in : Result (Queue Wal) → List (String × ℕ)
leases_in (ok q) = q.leases
leases_in (err e) = []

made-none_leased : leases_in (get made.0 "jobs") ≡ []
unfolding leases_in handle Admin.create_queue Admin.create_reply create get find insert new
    visibility mul_int64 contains_any write encode
made-none_leased = refl

made-unleased : (q : Queue Wal) → get made.0 "jobs" ≡ ok q → q.leases ≡ []
unfolding leases_in
made-unleased q e = sym (ap leases_in e) ∙ made-none_leased

abbrev pub poll : Request
poll = post_receive "jobs" (value batch) (pos 20) two_rounds false

made-IsRunnable : IsRunnable made.0 poll
made-IsRunnable q e = two_rounds-IsServed q (made-unleased q e)

handle-Returns_example : Returns (λ r. IsManaged r.0) (handle small_codec made.0 poll)
handle-Returns_example =
    handle-Returns small_codec made.0
      (Returns-value (empty_manager, respond 500 healthy) made-Managed) poll made-IsRunnable

-- A file that holds no record.
open_manager-Returns_example :
    Returns (IsOpened small_codec) (open_manager small_codec (7 ∷ 7 ∷ []) (pos 0) [] (pos 10))
open_manager-Returns_example = open_manager-Returns small_codec (7 ∷ 7 ∷ []) (pos 0) [] (pos 10)

empty_manager-Reached : Reached small_codec empty_manager
unfolding open_manager open_wal recover scan install handle Admin.health manager_err
empty_manager-Reached =
    Reached.stepped (Reached.opened [] (pos 0) [] (pos 10) refl) (served get_health tt refl)

abbrev polled : Manager Wal × Reply
polled = Data.value made (handle small_codec made.0 poll)

-- A queue is created and then polled.
polled-Reached : Reached small_codec polled.0
polled-Reached =
    Reached.stepped
      (Reached.stepped empty_manager-Reached (
        served (post_queues (value jobs) (pos 10)) tt
          (value-some (empty_manager, respond 500 healthy) made-Managed)))
      (served poll made-IsRunnable (value-some made handle-Returns_example))

reached-Serving_example : Serving small_codec polled.0
reached-Serving_example = reached-Serving small_codec polled-Reached
