-- ===== src/Api/Promises.antt =====
-- What the responses of enqueue and receive promise.
use mathlib.Core.Path.{subst}
use artie_takehome.Base.{
  ℕ, Bool, true, false, ◌||◌, ◌≤◌, ◌≡◌, refl, ap, arith, String, ℤ, pos, ◌≤ℤ◌, ◌<ℤ◌, ◌+ℤ◌, List,
  ◌∷◌, Perm, length, some, none, Returns, returns, Returns-bind, Returns-if, if◌then◌else◌, ltb,
  ◌≢◌, ltb_ℤ, leb_ℤ, str_eq, inc_u64, Bool-cases, inl, inr, eqb_ℤ, not, ◌&&◌,
}
use artie_takehome.Msg.{Msg, Time, Duration}
use artie_takehome.Record.{
  Error, no_lease, priority_disabled, queue_exists, queue_not_found, stale_bookmark, corrupt,
  storage, invalid, Log, new_record, Op, Result, ok, err,
}
use artie_takehome.Queue.{Queue}
use artie_takehome.Queue.Core.{IsConsistent, held}
use artie_takehome.Queue.Produce
use artie_takehome.Queue.Produce.{new_msg}
use artie_takehome.Queue.Deliver.{Enqueued, enqueue-Returns, enqueue-disabled}
use artie_takehome.Queue.Wait.{
  Round, Answer, returned, hung_up, waiting, IsServed, Polled, receive-Returns,
}
use artie_takehome.Manager.{Manager, get}
use artie_takehome.Manager.Calls.{store}
use artie_takehome.Api.{
  Fault, Body, Reply, sent, fail, of_queue, text, value, message, messages, failed, respond, good,
  bounded_ms, max_delay, max_batch, max_visibility, max_wait, outside,
}
use artie_takehome.Api.Replies.{with_queue-found, with_good-Returns}
use artie_takehome.Api.Messages
use artie_takehome.Api.Messages.{EnqueueReq, ReceiveReq, enqueue_status}

module _ {W : Type 0} (m : Manager W) (name : String) (q : Queue W) where
  -- A response 201 to an enqueue tells a message that the log took, and that the queue then holds
  -- beside all that it held before.
  pub record Durable (log : Log W) (req : EnqueueReq) (now : Time) (id : String)
      (r : Manager W × Reply) : Type 0 where
    pub stored :
        (b : Body)
        → r.1 ≡ respond 201 b
        → (d : Duration) × (q' : Queue W) × (let msg =
              new_msg id req.body req.priority (inc_u64 q.seq) now d in
            (str_eq req.body "" ≡ false)
            × (bounded_ms req.delay_ms max_delay "delay_ms" ≡ good d)
            × (b ≡ message msg)
            × (r.0 ≡ store m name q')
            × Perm (held q') (q.next ∷ held q)
            × (q'.msgs q.next ≡ msg)
            × ((log.append_sync q.wal
                  (record (new_record Op.enqueue q.cfg.name) { msg = some msg })).1
                ≡ none))

  -- No error has the status 201.
  enqueue_status-other : (e : Error) → ltb 201 (enqueue_status e) ≡ true
  enqueue_status-other no_lease = refl
  enqueue_status-other priority_disabled = refl
  enqueue_status-other queue_exists = refl
  enqueue_status-other queue_not_found = refl
  enqueue_status-other stale_bookmark = refl
  enqueue_status-other corrupt = refl
  enqueue_status-other (storage t) = refl
  enqueue_status-other (invalid t) = refl

  status_of : Reply → ℕ
  status_of (sent r) = r.status
  status_of r = 0

  -- The status of a response is not the other one's.
  other_status :
      (status : ℕ) (a b : Body) → ltb 201 status ≡ true → respond status a ≢ respond 201 b
  unfolding status_of
  other_status status a b l e = ground (arith, ap status_of e, l)

  module _ (log : Log W) (v : IsConsistent q) (now : Time) (id : String) (req : EnqueueReq) where
    refused-Durable :
        (m' : Manager W) (status : ℕ) (f : Fault)
        → ltb 201 status ≡ true
        → Durable log req now id (m', fail status f)
    refused-Durable m' status f l = record {
      stored = λ b e. absurd (other_status status (failed f) b l e);
    }

    enqueued-Durable :
        (d : Duration)
        → str_eq req.body "" ≡ false
        → bounded_ms req.delay_ms max_delay "delay_ms" ≡ good d
        → Returns (Durable log req now id) (
            Messages.finish m name Messages.enqueue_reply
              (Produce.enqueue log q req.body req.priority d now id))
    unfolding Messages.finish Messages.enqueue_reply
    enqueued-Durable d full same =
        elim (Bool-cases (not (eqb_ℤ req.priority (pos 0)) && not q.cfg.priority)) [
          | inl off ↦
              let (some_priority, plain) = and_parts off in
              rw (enqueue-disabled log q req.body id req.priority d now some_priority plain)
                (returns (refused-Durable (store m name q) 400 (of_queue priority_disabled) refl))
          | inr on ↦ Returns-bind (enqueue-Returns log q req.body id req.priority d now v on) answer
        ]
      where
        and_parts :
            not (eqb_ℤ req.priority (pos 0)) && not q.cfg.priority ≡ true
            → (eqb_ℤ req.priority (pos 0) ≡ false) × (q.cfg.priority ≡ false)
        and_parts h = (ground (arith, h), ground (arith, h))

        answer :
            (r : Queue W × Result Msg)
            → Enqueued log q (new_msg id req.body req.priority (inc_u64 q.seq) now d) now r
            → Returns (Durable log req now id) (some (store m name r.0, Messages.enqueue_reply r.1))
        answer (q', err x) t = returns (
            refused-Durable (store m name q') (enqueue_status x) (of_queue x)
              (enqueue_status-other x))
        answer (q', ok msg) t =
            let (e, at, all, _, _, logged) = t.stored msg refl in
            returns (record {
              stored = λ b f. (d, q', (full, same, told e (bodies f), refl, all, at, logged));
            })
          where
            bodies : {b : Body} → respond 201 (message msg) ≡ respond 201 b → message msg ≡ b
            bodies f = cc

            told : {b : Body} {msg' : Msg} → msg ≡ msg' → message msg ≡ b → b ≡ message msg'
            told e f = cc

  -- The queue of the name is `q`, and it is consistent. Then an enqueue with a body that decodes
  -- returns, and a response 201 means that the log took the record of the message, that its delay
  -- is the one that was asked for, and that the queue in the manager holds just this message more
  -- than before.
  pub enqueue-Durable :
      (log : Log W) (req : EnqueueReq) (now : Time) (id : String)
      → get m name ≡ ok q
      → IsConsistent q
      → Returns (Durable log req now id) (Messages.enqueue log m name (value req) now id)
  unfolding Messages.enqueue
  enqueue-Durable log req now id e v = rw (with_queue-found m name q _ e) (
      Returns-if (str_eq req.body "")
        (λ _. returns (refused-Durable log v now id req m 400 (text "body is required") refl))
        λ full.
          with_good-Returns m (bounded_ms req.delay_ms max_delay "delay_ms") _
            (λ f. refused-Durable log v now id req m 400 f refl)
            λ d same. enqueued-Durable log v now id req d full same)

  -- What a receive's response tells.
  pub record Batched (req : ReceiveReq) (r : Manager W × Reply) : Type 0 where
    pub few :
        (out : List Msg)
        → r.1 ≡ respond 200 (messages out)
        → (length out ≤ max_batch) × (pos 0 <ℤ req.max → pos (length out) ≤ℤ req.max)

  -- The bound of the poll, from the one of the request.
  capped :
      (max : ℤ) (n : ℕ)
      → ltb_ℤ max (pos 0) || ltb_ℤ (pos max_batch) max ≡ false
      → pos n ≤ℤ (if leb_ℤ max (pos 0) then pos 1 else max)
      → (n ≤ max_batch) × (pos 0 <ℤ max → pos n ≤ℤ max)
  capped max n h l = (ground (arith, h, l), λ k. ground (arith, h, l, k))

  Polled-Batched :
      (req : ReceiveReq) (gone : Bool) (deadline : Time) (rounds : List (Round W))
      (t : Queue W × Answer)
      → ltb_ℤ req.max (pos 0) || ltb_ℤ (pos max_batch) req.max ≡ false
      → Polled (if leb_ℤ req.max (pos 0) then pos 1 else req.max) deadline rounds t
      → Batched req (store m name t.0, Messages.receive_reply gone t.1)
  unfolding Messages.receive_reply
  Polled-Batched req gone deadline rounds (q', returned (ok out)) h p = record {
    few = λ out' e.
        subst
          (λ (ms : List Msg).
            (length ms ≤ max_batch) × (pos 0 <ℤ req.max → pos (length ms) ≤ℤ req.max))
          {x = out} {y = out'} (cc) (capped req.max (length out) h (p.bounded out refl));
  }
  Polled-Batched req true deadline rounds (q', returned (err x)) h p = record {
    few = λ out' e. absurd (cc);
  }
  Polled-Batched req false deadline rounds (q', returned (err x)) h p = record {
    few = λ out' e. absurd (cc);
  }
  Polled-Batched req gone deadline rounds (q', hung_up) h p = record { few = λ out' e. absurd (cc) }
  Polled-Batched req gone deadline rounds (q', waiting) h p = record { few = λ out' e. absurd (cc) }

  refused-Batched : (req : ReceiveReq) (f : Fault) → Batched req (m, fail 400 f)
  refused-Batched req f = record { few = λ out' e. absurd (cc) }

  -- The queue of the name is `q` and it is consistent. The tokens of each round of the poll are
  -- unused in the queue that it finds and the other clients leave the queue consistent, which is
  -- asked of consistent queues with no more receipts than the round before found. Then a receive
  -- with a body that decodes returns, and a response 200 tells at most a thousand messages, and at
  -- most `max` if the request gives a positive one.
  pub receive-Batched :
      (log : Time → Log W) (req : ReceiveReq) (start : Time) (rounds : List (Round W)) (gone : Bool)
      → get m name ≡ ok q
      → IsConsistent q
      → IsServed q rounds
      → Returns (Batched req) (Messages.receive log m name (value req) start rounds gone)
  unfolding Messages.receive Messages.finish
  receive-Batched log req start rounds gone e v s = rw (with_queue-found m name q _ e) (
      Returns-if (ltb_ℤ req.max (pos 0) || ltb_ℤ (pos max_batch) req.max)
        (λ _. returns (refused-Batched req (outside "max" max_batch)))
        λ h.
          with_good-Returns m (bounded_ms req.visibility_ms max_visibility "visibility_ms") _
            (refused-Batched req)
            λ visibility _.
              with_good-Returns m (bounded_ms req.wait_ms max_wait "wait_ms") _
                (refused-Batched req)
                λ wait _.
                  Returns-bind (receive-Returns log q req.max visibility wait start rounds v s)
                    λ t p. returns (Polled-Batched req gone (start +ℤ wait) rounds t h p))
