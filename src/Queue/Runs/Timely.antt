-- ===== src/Queue/Runs/Timely.antt =====
-- Time over runs: the calls of a queue while its clock does not go back, and what is handed out.
use mathlib.Core.List.{mem-cons, mem-cons_self, mem-cons_of_mem, not-mem-nil, mem-append_left}
use mathlib.Core.Path.{subst}
use mathlib.Core.List.Perm
use mathlib.Core.Logic.Or
use native.Mathlib.Bridge.{le_prop}
use artie_takehome.Base.{
  ℕ, ◌≡◌, refl, sym, String, ℤ, pos, ◌≤ℤ◌, ◌+ℤ◌, List, [], ◌∷◌, Mem, true, Option, some, Returns,
  returns, Returns-some, Returns-map, inl, inr, Bool-cases, Option-cases, eqb_ℤ, not, ◌&&◌, arith,
}
use artie_takehome.Msg.{Msg, Time, Duration, ready}
use artie_takehome.Record.{Error, Log, Config, Result, ok, err}
use artie_takehome.Queue.{Queue, new, tick}
use artie_takehome.Queue.Leases.{lookup}
use artie_takehome.Queue.Produce.{enqueue, replay_dlq}
use artie_takehome.Queue.Consume.{Lease, try_receive, ack, nack, extend}
use artie_takehome.Queue.Core.{IsConsistent, AreDue}
use artie_takehome.Queue.Create.{new-IsConsistent}
use artie_takehome.Queue.Commit.{IsFresh}
use artie_takehome.Queue.Lend.{deliveries, granted}
use artie_takehome.Queue.Deliver.{enqueue-Returns}
use artie_takehome.Queue.Settle.{ack-Returns, nack-Returns, extend-Returns, settle-no_lease}
use artie_takehome.Queue.Replay.{replay_dlq-Returns}
use artie_takehome.Queue.Receive.{try_receive-Returns}
use artie_takehome.Queue.Advance.{tick_advances}

-- A message that is visible stays so as time passes.
ready-later : (m : Msg) (t now : Time) → t ≤ℤ now → ready m t ≡ true → ready m now ≡ true
unfolding ready
ready-later m t now le e = ground arith

ready-visible : (m : Msg) (now : Time) → ready m now ≡ true → m.visible_at ≤ℤ now
unfolding ready
ready-visible m now e = ground arith

-- The copies that the consumer gets are visible when the messages are.
deliveries-ready :
    (msgs : ℕ → Msg) (now : Time) (ms : List ℕ) (ls : List Lease)
    → AreDue now msgs ms
    → (m : Msg) → Mem m (deliveries msgs ms ls)
    → m.visible_at ≤ℤ now
unfolding deliveries
deliveries-ready msgs now [] ls d m k = absurd (not-mem-nil k)
deliveries-ready msgs now (x ∷ ms) [] d m k = absurd (not-mem-nil k)
deliveries-ready msgs now (x ∷ ms) (l ∷ ls) d m k =
    Or.elim le_prop (mem-cons.0 k)
      (λ same.
        subst (λ (n : Msg). n.visible_at ≤ℤ now) (sym same)
          (ready-visible (msgs x) now (d x mem-cons_self)))
      (deliveries-ready msgs now ms ls (λ y j. d y (mem-cons_of_mem x j)) m)

-- No message of an answer lies in the future.
unfoldable pub IsTimely : Time → Result (List Msg) → Type 0
IsTimely now (ok out) = (m : Msg) → Mem m out → m.visible_at ≤ℤ now
IsTimely now (err e) = Unit

answer-IsTimely :
    (msgs : ℕ → Msg) (now : Time) (ms : List ℕ) (ls : List Lease) (res : Result (List Msg))
    → AreDue now msgs ms
    → ((out : List Msg) → res ≡ ok out → out ≡ deliveries msgs ms ls)
    → IsTimely now res
unfolding IsTimely
answer-IsTimely msgs now ms ls (ok out) d e =
    λ m k. deliveries-ready msgs now ms ls d m (rw (e out refl) at k)
answer-IsTimely msgs now ms ls (err x) d e = tt

module _ {W : Type 0} (log : Log W) where
  -- A call that is answered at the time `now`, whatever its answer.
  pub data Call (now : Time) (q : Queue W) : Queue W → Type 0 where
    enqueued :
        {r : Queue W} {res : Result Msg} (body id : String) (priority : ℤ) (delay : Duration)
        → enqueue log q body priority delay now id ≡ some (r, res)
        → Call now q r
    received :
        {r : Queue W} {res : Result (List Msg)} (max : ℤ) (visibility : Duration)
        (new_id : ℕ → String)
        → IsFresh new_id 0 q.leases
        → try_receive log q max visibility now new_id ≡ some (r, res)
        → Call now q r
    acked :
        {r : Queue W} {e : Option Error} (receipt : String)
        → ack log q receipt ≡ some (r, e)
        → Call now q r
    nacked :
        {r : Queue W} {e : Option Error} (receipt : String) (delay : Duration)
        → nack log q receipt delay now ≡ some (r, e)
        → Call now q r
    extended :
        {r : Queue W} {res : Result Time} (receipt : String) (duration : Duration)
        → extend q receipt duration now ≡ some (r, res)
        → Call now q r
    replayed :
        {r : Queue W} {n : ℕ} {e : Option Error}
        → replay_dlq log q now ≡ some (r, n, e)
        → Call now q r
    ticked : {r : Queue W} → tick log q now ≡ some r → Call now q r
    -- Another queue of the manager has written to the log that they share.
    relogged : (w : W) → Call now q (record q { wal = w })

  -- The queues that calls reach from a new one, with the time of the last call.
  pub data Reached : Time → Queue W → Type 0 where
    created : (now : Time) (cfg : Config) (w : W) → Reached now (new cfg w)
    called :
        {t : Time} {q r : Queue W} (now : Time)
        → Reached t q
        → t ≤ℤ now
        → Call now q r
        → Reached now r

  record Sound (now : Time) (q : Queue W) : Type 0 where
    consistent : IsConsistent q
    due : AreDue now q.msgs q.ready

  module _ (now : Time) (q : Queue W) (v : Sound now q) where
    enqueue-Sound :
        (body id : String) (priority : ℤ) (delay : Duration)
        → Returns (λ r. Sound now r.0) (enqueue log q body priority delay now id)
    unfolding enqueue
    enqueue-Sound body id priority delay =
        elim (Bool-cases (not (eqb_ℤ priority (pos 0)) && not q.cfg.priority)) [
          | inl bad ↦ rw (bad, enqueue) (returns v)
          | inr allowed ↦
              Returns-map (enqueue-Returns log q body id priority delay now v.consistent allowed)
                λ r e. record { consistent = e.consistent; due = e.due v.due }
        ]

    ack-Sound : (receipt : String) → Returns (λ r. Sound now r.0) (ack log q receipt)
    ack-Sound receipt = elim (Option-cases (lookup receipt q.leases)) [
      | inl e ↦ rw (settle-no_lease log q receipt (pos 0) (pos 0) e).0 (returns v)
      | inr (m, e) ↦
          Returns-map (ack-Returns log q receipt m v.consistent e)
            λ r a. record { consistent = a.consistent; due = a.due now v.due }
    ]

    nack-Sound :
        (receipt : String) (delay : Duration)
        → Returns (λ r. Sound now r.0) (nack log q receipt delay now)
    nack-Sound receipt delay = elim (Option-cases (lookup receipt q.leases)) [
      | inl e ↦ rw (settle-no_lease log q receipt delay now e).1 (returns v)
      | inr (m, e) ↦
          Returns-map (nack-Returns log q receipt delay now m v.consistent e)
            λ r n. record { consistent = n.consistent; due = n.due v.due }
    ]

    extend-Sound :
        (receipt : String) (d : Duration) → Returns (λ r. Sound now r.0) (extend q receipt d now)
    unfolding extend
    extend-Sound receipt d = elim (Option-cases (lookup receipt q.leases)) [
      | inl e ↦ rw (e, extend) (returns v)
      | inr (m, e) ↦
          Returns-map (extend-Returns q receipt d now m v.consistent e)
            λ r x. record { consistent = x.consistent; due = x.due now v.due }
    ]

    Call-Sound : {r : Queue W} → Call now q r → Sound now r
    Call-Sound (enqueued body id priority delay e) =
        Returns-some (rw e at (enqueue-Sound body id priority delay))
    Call-Sound (received max visibility new_id fresh e) =
        let t =
          Returns-some
            (rw e at (try_receive-Returns log q max visibility now new_id v.consistent fresh)) in
        record { consistent = t.consistent; due = t.due (t.advanced.due v.due) }
    Call-Sound (acked receipt e) = Returns-some (rw e at (ack-Sound receipt))
    Call-Sound (nacked receipt delay e) = Returns-some (rw e at (nack-Sound receipt delay))
    Call-Sound (extended receipt duration e) =
        Returns-some (rw e at (extend-Sound receipt duration))
    Call-Sound (replayed e) =
        let t = Returns-some (rw e at (replay_dlq-Returns log now q v.consistent)) in
        record { consistent = t.consistent; due = t.due v.due }
    Call-Sound (ticked e) =
        let t = Returns-some (rw e at (tick_advances log now q v.consistent)) in
        record { consistent = t.consistent; due = t.due v.due }
    Call-Sound (relogged w) = record {
      consistent = record {
        core = v.consistent.core;
        leases = v.consistent.leases;
        allocated = v.consistent.allocated;
      };
      due = v.due;
    }

  Sound-later : (t now : Time) (q : Queue W) → t ≤ℤ now → Sound t q → Sound now q
  Sound-later t now q le s = record {
    consistent = s.consistent;
    due = λ x k. ready-later (q.msgs x) t now le (s.due x k);
  }

  Reached-Sound : {t : Time} {q : Queue W} → Reached t q → Sound t q
  unfolding new
  Reached-Sound (created now cfg w) = record {
    consistent = (new-IsConsistent cfg w).0;
    due = λ x k. absurd (not-mem-nil k);
  }
  Reached-Sound (called {t = t} {q = q} now run le call) =
      Call-Sound now q (Sound-later t now q le (Reached-Sound run)) call

  -- A queue is reached from a new one by any calls, with any answers, while the clock does not go
  -- back, its receives with unused tokens. A receive with unused tokens that is not earlier than
  -- the last call then returns, and no message that it hands out has a visible time in the future.
  pub never_early :
      (t : Time) (q : Queue W)
      → Reached t q
      → (now : Time) → t ≤ℤ now
      → (max : ℤ) (visibility : Duration) (new_id : ℕ → String) → IsFresh new_id 0 q.leases
      → Returns (λ r. IsTimely now r.1) (try_receive log q max visibility now new_id)
  never_early t q run now le max visibility new_id fresh =
      let v = Sound-later t now q le (Reached-Sound run) in
      Returns-map (try_receive-Returns log q max visibility now new_id v.consistent fresh)
        λ (r, res) c.
          answer-IsTimely c.s.msgs now c.taken (granted new_id (now +ℤ visibility) 0 c.taken) res
            (λ x k. c.advanced.due v.due x ((Perm.mem_iff c.drawn).0 (mem-append_left c.rest k)))
            (λ out e. (c.delivered out e).0)
