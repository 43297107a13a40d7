-- ===== src/Queue/Runs.antt =====
-- Runs of a queue: any sequence of its operations, and what becomes of the messages.
pub mod Conserved
pub mod Timely
use mathlib.Core.List.{perm_middle}
use mathlib.Core.List.Perm
use artie_takehome.Base.{
  ℕ, ◌≡◌, refl, String, ℤ, pos, List, [], ◌∷◌, ◌++◌, Perm, Option, some, none, Returns,
  Returns-some, inl, inr, Bool-cases, eqb_ℤ, not, ◌&&◌, length,
}
use artie_takehome.Msg.{Msg, Time, Duration}
use artie_takehome.Record.{Error, Log, Result, ok, err, no_lease}
use artie_takehome.Queue.{Queue, tick}
use artie_takehome.Queue.Leases.{lookup}
use artie_takehome.Queue.Produce.{enqueue, replay_dlq}
use artie_takehome.Queue.Consume.{try_receive, ack, nack, extend}
use artie_takehome.Queue.Core.{IsConsistent, held}
use artie_takehome.Queue.Commit.{IsFresh}
use artie_takehome.Queue.Total.{enqueue_total, ack_total, nack_total, extend_total}
use artie_takehome.Queue.Deliver.{Enqueued, enqueue-Returns}
use artie_takehome.Queue.Settle.{
  Acked, ack-Returns, Nacked, nack-Returns, Extended, extend-Returns, settle-no_lease,
}
use artie_takehome.Queue.Replay.{Replayed, replay_dlq-Returns}
use artie_takehome.Queue.Receive.{Received, try_receive-Returns}
use artie_takehome.Queue.Advance.{Advanced, tick_advances}

module _ {W : Type 0} (log : Log W) where
  -- A run from `q`: the messages that its enqueues were answered for, those that its acks were, and
  -- the queue that it ends in. A nack is here if it was answered without an error, and a reading of
  -- the clocks if all its retries were logged.
  pub data Run (q : Queue W) : List ℕ → List ℕ → Queue W → Type 0 where
    idle : Run q [] [] q
    added :
        {a d : List ℕ} {s r : Queue W} {msg : Msg} (body id : String) (priority : ℤ)
        (delay : Duration) (now : Time)
        → Run q a d s
        → enqueue log s body priority delay now id ≡ some (r, ok msg)
        → Run q (s.next ∷ a) d r
    rejected :
        {a d : List ℕ} {s r : Queue W} {x : Error} (body id : String) (priority : ℤ)
        (delay : Duration) (now : Time)
        → Run q a d s
        → enqueue log s body priority delay now id ≡ some (r, err x)
        → Run q a d r
    received :
        {a d : List ℕ} {s r : Queue W} {res : Result (List Msg)} (max : ℤ) (visibility : Duration)
        (now : Time) (new_id : ℕ → String)
        → Run q a d s
        → IsFresh new_id 0 s.leases
        → try_receive log s max visibility now new_id ≡ some (r, res)
        → r.wal_err ≡ none
        → Run q a d r
    acked :
        {a d : List ℕ} {s r : Queue W} (receipt : String) (m : ℕ)
        → Run q a d s
        → lookup receipt s.leases ≡ some m
        → ack log s receipt ≡ some (r, none)
        → Run q a (m ∷ d) r
    not_acked :
        {a d : List ℕ} {s r : Queue W} {x : Error} (receipt : String)
        → Run q a d s
        → ack log s receipt ≡ some (r, some x)
        → Run q a d r
    nacked :
        {a d : List ℕ} {s r : Queue W} (receipt : String) (delay : Duration) (now : Time)
        → Run q a d s
        → nack log s receipt delay now ≡ some (r, none)
        → Run q a d r
    extended :
        {a d : List ℕ} {s r : Queue W} {res : Result Time} (receipt : String) (duration : Duration)
        (now : Time)
        → Run q a d s
        → extend s receipt duration now ≡ some (r, res)
        → Run q a d r
    replayed :
        {a d : List ℕ} {s r : Queue W} {n : ℕ} {e : Option Error} (now : Time)
        → Run q a d s
        → replay_dlq log s now ≡ some (r, n, e)
        → Run q a d r
    ticked :
        {a d : List ℕ} {s r : Queue W} (now : Time)
        → Run q a d s
        → tick log s now ≡ some r
        → r.wal_err ≡ none
        → Run q a d r
