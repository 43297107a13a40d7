-- ===== src/Api/Managed.antt =====
-- Every handler has a result and leaves consistent queues.
use artie_takehome.Base.{
  ℕ, ◌≡◌, String, pos, Bool, ◌||◌, List, Option, Returns, returns, Returns-bind, Returns-map,
  Returns-if, inl, inr, str_eq, ltb_ℤ, if◌then◌else◌,
}
use artie_takehome.Msg.{Time, fifo}
use artie_takehome.Record.{Config, Log, Result, ok, err, Result-cases}
use artie_takehome.Queue.{Queue}
use artie_takehome.Queue.Core.{IsConsistent}
use artie_takehome.Queue.Total.{Consistently, enqueue_total, ack_total, nack_total, extend_total}
use artie_takehome.Queue.Wait.{Round, IsServed, receive-Returns}
use artie_takehome.Queue.Replay.{replay_dlq-Returns}
use artie_takehome.Wal.{Codec, Wal}
use artie_takehome.Manager
use artie_takehome.Manager.{Manager, get}
use artie_takehome.Manager.Calls.{compact_all}
use artie_takehome.Manager.Managed.{
  IsManaged, insert-AllConsistent, get-IsConsistent, create-IsManaged,
}
use artie_takehome.Manager.Republish.{replay_total}
use artie_takehome.Api.{
  Reply, Json, Checked, good, bad, decode, bounded_ms, Handled, with_queue, with_good, max_batch,
  max_visibility, max_delay, max_wait, acked, nacked,
}
use artie_takehome.Api.Messages
use artie_takehome.Api.Messages.{EnqueueReq, ReceiveReq, AckReq, NackReq, ExtendReq, finish}
use artie_takehome.Api.Admin
use artie_takehome.Api.Admin.{ReplayReq, no_config, create_reply, is_refused}
use artie_takehome.Api.Routes.{
  Request, post_queues, get_queues, get_queue, post_messages, post_receive, post_ack, post_nack,
  post_extend, post_replay, post_compact, get_bookmark, get_health, log_at, handle,
}

module _ {W : Type 0} (m : Manager W) (v : IsManaged m) where
  -- A handler that returns and leaves consistent queues.
  abbrev Keeps : Handled W → Type 0
  Keeps h = Returns (λ r. IsManaged r.0) h

  with_queue-Keeps :
      (name : String) (next : Queue W → Handled W)
      → ((q : Queue W) → IsConsistent q → get m name ≡ ok q → Keeps (next q))
      → Keeps (with_queue m name next)
  unfolding with_queue
  with_queue-Keeps name next k = elim (Result-cases (get m name)) [
    | inl (q, e) ↦ rw (e, with_queue) (k q (get-IsConsistent m name q v e) e)
    | inr (x, e) ↦ rw (e, with_queue) (returns v)
  ]

  with_good-Keeps :
      {A : Type 0} (c : Checked A) (next : A → Handled W)
      → ((a : A) → Keeps (next a))
      → Keeps (with_good m c next)
  unfolding with_good
  with_good-Keeps (good a) next k = k a
  with_good-Keeps (bad f) next k = returns v

  finish-Keeps :
      {A : Type 0} (name : String) (reply : A → Reply) (call : Option (Queue W × A))
      → Returns Consistently call
      → Keeps (finish m name reply call)
  unfolding finish
  finish-Keeps name reply call r =
      Returns-bind r λ (q, a) u. returns (insert-AllConsistent name q m.queues u v)

  module _ (log : Log W) (name : String) where
    enqueue-Keeps :
        (body : Json EnqueueReq) (now : Time) (id : String)
        → Keeps (Messages.enqueue log m name body now id)
    unfolding Messages.enqueue
    enqueue-Keeps body now id = with_queue-Keeps name _ λ q u _.
        with_good-Keeps (decode Messages.no_enqueue body) _ λ (req : EnqueueReq).
          Returns-if (str_eq req.body "") (λ _. returns v)
            λ _. with_good-Keeps (bounded_ms req.delay_ms max_delay "delay_ms") _ λ delay.
              finish-Keeps name Messages.enqueue_reply _
                (enqueue_total q u log req.body id req.priority delay now)

    ack-Keeps : (body : Json AckReq) → Keeps (Messages.ack log m name body)
    unfolding Messages.ack
    ack-Keeps body = with_queue-Keeps name _ λ q u _.
        with_good-Keeps (decode Messages.no_ack body) _ λ (req : AckReq).
          finish-Keeps name (Messages.settle_reply acked) _ (ack_total q u log req.receipt)

    nack-Keeps : (body : Json NackReq) (now : Time) → Keeps (Messages.nack log m name body now)
    unfolding Messages.nack
    nack-Keeps body now = with_queue-Keeps name _ λ q u _.
        with_good-Keeps (decode Messages.no_nack body) _ λ (req : NackReq).
          with_good-Keeps (bounded_ms req.delay_ms max_delay "delay_ms") _ λ delay.
            finish-Keeps name (Messages.settle_reply nacked) _
              (nack_total q u log req.receipt delay now)

    extend-Keeps : (body : Json ExtendReq) (now : Time) → Keeps (Messages.extend m name body now)
    unfolding Messages.extend
    extend-Keeps body now = with_queue-Keeps name _ λ q u _.
        with_good-Keeps (decode Messages.no_extend body) _ λ (req : ExtendReq).
          with_good-Keeps (bounded_ms req.visibility_ms max_visibility "visibility_ms") _
            λ visibility.
              finish-Keeps name Messages.extend_reply _
                (extend_total q u req.receipt visibility now)

    drain-Keeps :
        (q : Queue W) (now : Time) → IsConsistent q → Keeps (Admin.drain_dlq log m name q now)
    unfolding Admin.drain_dlq
    drain-Keeps q now u =
        Returns-bind (replay_dlq-Returns log now q u)
          λ (q', n, e) r. returns (insert-AllConsistent name q' m.queues r.consistent v)

  receive-Keeps :
      (log : Time → Log W) (name : String) (body : Json ReceiveReq) (start : Time)
      (rounds : List (Round W)) (gone : Bool)
      → ((q : Queue W) → get m name ≡ ok q → IsServed q rounds)
      → Keeps (Messages.receive log m name body start rounds gone)
  unfolding Messages.receive
  receive-Keeps log name body start rounds gone served = with_queue-Keeps name _ λ q u e.
      with_good-Keeps (decode Messages.no_receive body) _ λ (req : ReceiveReq).
        Returns-if (ltb_ℤ req.max (pos 0) || ltb_ℤ (pos max_batch) req.max) (λ _. returns v)
          λ _.
            with_good-Keeps (bounded_ms req.visibility_ms max_visibility "visibility_ms") _
              λ visibility. with_good-Keeps (bounded_ms req.wait_ms max_wait "wait_ms") _ λ wait.
                finish-Keeps name (Messages.receive_reply gone) _ (
                  Returns-map
                    (receive-Returns log q req.max visibility wait start rounds u (served q e))
                    λ t p. p.consistent)

  create-Keeps : (log : Log W) (body : Json Config) → Keeps (Admin.create_queue log m body)
  unfolding Admin.create_queue create_reply
  create-Keeps log body = with_good-Keeps (decode no_config body) _ λ (req : Config).
      let cfg : Config = if str_eq req.mode "" then record req { mode = fifo } else req in
      Returns-if (is_refused cfg) (λ _. returns v)
        λ _. returns (replied (Manager.create log m cfg) (create-IsManaged log m cfg v))
    where
      replied : (r : Manager W × Result (Queue W)) → IsManaged r.0 → IsManaged (create_reply r).0
      replied (m', ok q) u = u
      replied (m', err x) u = u

-- What a request assumes of its environment: for a receive of a queue that there is, IsServed: the
-- tokens of each round are fresh in what the round before and the other clients leave, and the
-- other clients keep the queue consistent.
abbrev pub IsRunnable : Manager Wal → Request → Type 0
IsRunnable m (post_receive name body start rounds gone) =
    (q : Queue Wal) → get m name ≡ ok q → IsServed q rounds
IsRunnable m request = Unit {0}

module _ (codec : Codec) (m : Manager Wal) (v : IsManaged m) where
  replay-Keeps :
      (log : Log Wal) (name : String) (body : Json ReplayReq) (now : Time) (clock : ℕ → Time)
      (new_id : ℕ → String)
      → Keeps m v (Admin.replay codec log m name body now clock new_id)
  unfolding Admin.replay Admin.replay_log
  replay-Keeps log name body now clock new_id = with_queue-Keeps m v name _ λ q u _.
      with_good-Keeps m v (decode Admin.no_replay body) _ λ (req : ReplayReq).
        Returns-if (str_eq req.source "" || str_eq req.source "dlq")
          (λ _. drain-Keeps m v log name q now u)
          λ _.
            Returns-if (str_eq req.source "log")
              (λ _.
                Returns-if (ltb_ℤ req.from_offset (pos 0)) (λ _. returns v)
                  λ _.
                    Returns-bind (replay_total codec m v name _ _ clock new_id)
                      λ (m', n, e) u'. returns u')
              λ _. returns v

  -- The queues of the manager are all consistent, and for a receive the tokens of each round are
  -- unused in the queue that it finds and the other clients leave the queue consistent, which is
  -- asked of consistent queues with no more receipts than the round before found. Then any request,
  -- malformed ones and failures of the log included, has a result, and every queue is consistent
  -- after it.
  pub handle-Returns :
      (request : Request)
      → IsRunnable m request
      → Returns (λ r. IsManaged r.0) (handle codec m request)
  unfolding handle Admin.get_queues Admin.queue_stats Admin.compact compact_all Admin.health
  handle-Returns (post_queues body now) k = create-Keeps m v (log_at codec now) body
  handle-Returns (get_queues now) k = returns v
  handle-Returns (get_queue name now) k = with_queue-Keeps m v name _ λ q u _. returns v
  handle-Returns (post_messages name body now id) k =
      enqueue-Keeps m v (log_at codec now) name body now id
  handle-Returns (post_receive name body start rounds gone) k =
      receive-Keeps m v (log_at codec) name body start rounds gone k
  handle-Returns (post_ack name body now) k = ack-Keeps m v (log_at codec now) name body
  handle-Returns (post_nack name body now) k = nack-Keeps m v (log_at codec now) name body now
  handle-Returns (post_extend name body now) k = extend-Keeps m v (log_at codec now) name body now
  handle-Returns (post_replay name body now clock new_id) k =
      replay-Keeps (log_at codec now) name body now clock new_id
  handle-Returns (post_compact now) k = returns v
  handle-Returns get_bookmark k = returns v
  handle-Returns get_health k = returns v
