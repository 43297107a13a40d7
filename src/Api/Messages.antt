-- ===== src/Api/Messages.antt =====
-- api.go: the handlers of the messages: enqueue, receive, ack, nack and extend.
use artie_takehome.Base.{
  ℕ, Bool, ◌||◌, String, ℤ, pos, List, Option, some, none, ◌>>=◌, if◌then◌else◌, ltb_ℤ, str_eq,
}
use artie_takehome.Msg.{Msg, Time}
use artie_takehome.Record.{Error, priority_disabled, Result, ok, err, Log}
use artie_takehome.Queue.{Queue}
use artie_takehome.Queue.Produce
use artie_takehome.Queue.Consume
use artie_takehome.Queue.Wait
use artie_takehome.Queue.Wait.{Round, Answer, returned, hung_up, waiting}
use artie_takehome.Manager.{Manager}
use artie_takehome.Manager.Calls.{store}
use artie_takehome.Api.{
  max_delay, max_visibility, max_wait, max_batch, of_queue, text, outside, Body, message, messages,
  acked, nacked, lease_expires_at, Reply, dropped, pending, Json, respond, fail, decode, bounded_ms,
  lease_status, Handled, with_queue, with_good,
}

pub record EnqueueReq : Type 0 where
  pub body : String
  pub priority : ℤ
  pub delay_ms : ℤ

pub record ReceiveReq : Type 0 where
  pub max : ℤ
  pub visibility_ms : ℤ
  pub wait_ms : ℤ

pub record AckReq : Type 0 where
  pub receipt : String

pub record NackReq : Type 0 where
  pub receipt : String
  pub delay_ms : ℤ

pub record ExtendReq : Type 0 where
  pub receipt : String
  pub visibility_ms : ℤ

-- The requests with no body.
abbrev pub no_enqueue : EnqueueReq
no_enqueue = record { body = ""; priority = pos 0; delay_ms = pos 0 }

abbrev pub no_receive : ReceiveReq
no_receive = record { max = pos 0; visibility_ms = pos 0; wait_ms = pos 0 }

abbrev pub no_ack : AckReq
no_ack = record { receipt = "" }

abbrev pub no_nack : NackReq
no_nack = record { receipt = ""; delay_ms = pos 0 }

abbrev pub no_extend : ExtendReq
no_extend = record { receipt = ""; visibility_ms = pos 0 }

abbrev pub enqueue_status : Error → ℕ
enqueue_status e = elim e [ priority_disabled ↦ 400 | _ ↦ 500 ]

-- The answers to the queue's results.
unfoldable pub enqueue_reply : Result Msg → Reply
enqueue_reply (err e) = fail (enqueue_status e) (of_queue e)
enqueue_reply (ok m) = respond 201 (message m)

-- `gone` tells whether the request's context is done by then.
unfoldable pub receive_reply : Bool → Answer → Reply
receive_reply gone (returned (ok out)) = respond 200 (messages out)
receive_reply gone (returned (err e)) = if gone then dropped else fail 500 (of_queue e)
receive_reply gone hung_up = dropped
receive_reply gone waiting = pending

unfoldable pub settle_reply : Body → Option Error → Reply
settle_reply done none = respond 200 done
settle_reply done (some e) = fail (lease_status e) (of_queue e)

unfoldable pub extend_reply : Result Time → Reply
extend_reply (ok expiry) = respond 200 (lease_expires_at expiry)
extend_reply (err e) = fail (lease_status e) (of_queue e)

module _ {W : Type 0} where
  -- The queue after its call, back in the manager.
  unfoldable pub finish :
      {A : Type 0} → Manager W → String → (A → Reply) → Option (Queue W × A) → Handled W
  finish m name reply call = call >>= λ (q, a). some (store m name q, reply a)

  unfoldable pub enqueue : Log W → Manager W → String → Json EnqueueReq → Time → String → Handled W
  unfolding with_queue with_good decode bounded_ms finish enqueue_reply
  enqueue log m name body now id = with_queue m name λ q.
      with_good m (decode no_enqueue body) λ req.
        if str_eq req.body ""
        then some (m, fail 400 (text "body is required"))
        else with_good m (bounded_ms req.delay_ms max_delay "delay_ms") λ delay.
          finish m name enqueue_reply (Produce.enqueue log q req.body req.priority delay now id)

  unfoldable pub receive :
      (Time → Log W)
      → Manager W
      → String
      → Json ReceiveReq
      → Time
      → List (Round W)
      → Bool
      → Handled W
  unfolding with_queue with_good decode bounded_ms finish receive_reply
  receive log m name body start rounds gone = with_queue m name λ q.
      with_good m (decode no_receive body) λ req.
        if ltb_ℤ req.max (pos 0) || ltb_ℤ (pos max_batch) req.max
        then some (m, fail 400 (outside "max" max_batch))
        else with_good m (bounded_ms req.visibility_ms max_visibility "visibility_ms") λ visibility.
          with_good m (bounded_ms req.wait_ms max_wait "wait_ms") λ wait.
            finish m name (receive_reply gone)
              (Wait.receive log q req.max visibility wait start rounds)

  unfoldable pub ack : Log W → Manager W → String → Json AckReq → Handled W
  unfolding with_queue with_good decode finish settle_reply
  ack log m name body = with_queue m name λ q.
      with_good m (decode no_ack body)
        λ req. finish m name (settle_reply acked) (Consume.ack log q req.receipt)

  unfoldable pub nack : Log W → Manager W → String → Json NackReq → Time → Handled W
  unfolding with_queue with_good decode bounded_ms finish settle_reply
  nack log m name body now = with_queue m name λ q. with_good m (decode no_nack body) λ req.
      with_good m (bounded_ms req.delay_ms max_delay "delay_ms")
        λ delay. finish m name (settle_reply nacked) (Consume.nack log q req.receipt delay now)

  unfoldable pub extend : Manager W → String → Json ExtendReq → Time → Handled W
  unfolding with_queue with_good decode bounded_ms finish extend_reply
  extend m name body now = with_queue m name λ q. with_good m (decode no_extend body) λ req.
      with_good m (bounded_ms req.visibility_ms max_visibility "visibility_ms")
        λ visibility. finish m name extend_reply (Consume.extend q req.receipt visibility now)
