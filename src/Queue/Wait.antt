-- ===== src/Queue/Wait.antt =====
-- queue/queue.go: Receive, the long poll over tryReceive.
use mathlib.Core.List.{mem-cons_self, mem-cons_of_mem}
use artie_takehome.Base.{
  ℕ, ◌+◌, ◌≡◌, ◌≢◌, refl, ap, Bool, true, false, not, ◌||◌, String, ℤ, pos, ◌+ℤ◌, ◌≤ℤ◌, List, [],
  ◌∷◌, Option, some, none, Mem, ◌>>=◌, if◌then◌else◌, leb_ℤ, length, arith, Returns, returns,
  Returns-bind, Returns-map, Returns-if, ◌⊎◌, inl, inr,
}
use artie_takehome.Msg.{Msg, Time, Duration}
use artie_takehome.Record
use artie_takehome.Record.{Error, Result, ok, err, Log}
use artie_takehome.Queue.{Queue}
use artie_takehome.Queue.Leases.{lookup}
use artie_takehome.Queue.Consume.{try_receive}
use artie_takehome.Queue.Core.{IsConsistent}
use artie_takehome.Queue.Commit.{IsFresh}
use artie_takehome.Queue.Lend.{granted, deliveries}
use artie_takehome.Queue.Receive.{Received, try_receive-Returns}

-- What ends a wait: the wake channel, the timer of at most 50 ms, or the context.
pub data Wake : Type 0 where
  woken timer cancelled : Wake

-- One round: its readings of the clock and tokens, what ends its wait, and what the other clients
-- do to the queue in the meantime.
pub record Round (W : Type 0) : Type 0 where
  pub now : Time
  pub new_id : ℕ → String
  pub until : Time
  pub wake : Wake
  pub others : Queue W → Queue W

-- How Receive ends; `waiting` is a schedule that stops before it does.
pub data Answer : Type 0 where
  returned : Result (List Msg) → Answer
  hung_up waiting : Answer

abbrev is_nil : List Msg → Bool
is_nil [] = true
is_nil (m ∷ ms) = false

module _ {W : Type 0} (log : Time → Log W) where
  unfoldable pub receive_loop :
      Queue W → ℤ → Duration → Duration → Time → List (Round W) → Option (Queue W × Answer)
  receive_loop q max visibility wait deadline [] = some (q, waiting)
  receive_loop q max visibility wait deadline (r ∷ rs) =
      try_receive (log r.now) q max visibility r.now r.new_id >>= λ (q', res). elim res [
        | err x ↦ some (q', returned (err x))
        | ok out ↦
            let next = receive_loop (r.others q') max visibility wait deadline rs in
            if not (is_nil out) || leb_ℤ wait (pos 0)
            then some (q', returned (ok out))
            else if leb_ℤ deadline r.until
            then some (q', returned (ok []))
            else elim r.wake [ woken ↦ next | timer ↦ next | cancelled ↦ some (q', hung_up) ]
      ]

  -- `start` is the reading of the clock that the deadline counts from.
  unfoldable pub receive :
      Queue W → ℤ → Duration → Duration → Time → List (Round W) → Option (Queue W × Answer)
  unfolding receive_loop
  receive q max visibility wait start rounds =
      receive_loop q (if leb_ℤ max (pos 0) then pos 1 else max)
        (if leb_ℤ visibility (pos 0) then Record.visibility q.cfg else visibility) wait
        (start +ℤ wait) rounds

length-deliveries :
    (msgs : ℕ → Msg) (new_id : ℕ → String) (expiry : Time) (i : ℕ) (ms : List ℕ)
    → length (deliveries msgs ms (granted new_id expiry i ms)) ≡ length ms
unfolding deliveries granted
length-deliveries msgs new_id expiry i [] = refl
length-deliveries msgs new_id expiry i (m ∷ ms) =
    omega (arith, length-deliveries msgs new_id expiry (i + 1) ms)

module _ {W : Type 0} where
  -- A round that finds no message leaves the leases that it found, or fewer.
  abbrev pub HasFewer : Queue W → Queue W → Type 0
  HasFewer q' q = (k : String) → lookup k q.leases ≡ none → lookup k q'.leases ≡ none

  -- The tokens of each round are fresh in the queue that it finds, and the other clients leave a
  -- consistent queue: of any consistent one that a round without a message may leave them.
  abbrev pub IsServed : Queue W → List (Round W) → Type 0
  IsServed q [] = Unit {0}
  IsServed q (r ∷ rs) =
      IsFresh r.new_id 0 q.leases
      × ((q' : Queue W)
          → IsConsistent q'
          → HasFewer q' q
          → IsConsistent (r.others q') × IsServed (r.others q') rs)

  -- Tokens that are fresh at the start are fresh in each round if the other clients are idle.
  pub idle-IsServed :
      (q : Queue W) (rounds : List (Round W))
      → ((r : Round W) → Mem r rounds → IsFresh r.new_id 0 q.leases × (r.others ≡ λ q'. q'))
      → IsServed q rounds
  idle-IsServed q [] f = tt
  idle-IsServed q (r ∷ rs) f = (
    (f r mem-cons_self).0,
    λ q' v less. rw (f r mem-cons_self).1 (
      v,
      idle-IsServed q' rs λ u k.
          let (fresh, idle) = f u (mem-cons_of_mem r k) in
          (
            record {
              distinct = fresh.distinct;
              unused = λ j h. less (u.new_id j) (fresh.unused j h);
            },
            idle,
          ),
    ),
  )

module _ {W : Type 0} (max : ℤ) (deadline : Time) where
  -- The deadline passes in one of the rounds.
  abbrev pub IsLate : List (Round W) → Type 0
  IsLate [] = ⊥
  IsLate (r ∷ rs) = (leb_ℤ deadline r.until ≡ true) ⊎ IsLate rs

  -- How the poll ends.
  pub record Polled (rounds : List (Round W)) (t : Queue W × Answer) : Type 0 where
    pub consistent : IsConsistent t.0
    pub bounded : (out : List Msg) → t.1 ≡ returned (ok out) → pos (length out) ≤ℤ max
    pub ended : IsLate rounds → t.1 ≢ waiting

  answered :
      (r : Round W) (rs : List (Round W)) (q : Queue W) (out : List Msg)
      → IsConsistent q
      → pos (length out) ≤ℤ max
      → Polled (r ∷ rs) (q, returned (ok out))
  answered r rs q out v b = record {
    consistent = v;
    bounded = λ out' e. ground (arith, e, b);
    ended = λ late e. absurd (cc);
  }

  stopped :
      (r : Round W) (rs : List (Round W)) (q : Queue W) (a : Answer)
      → IsConsistent q
      → a ≢ waiting
      → ((out : List Msg) → a ≢ returned (ok out))
      → Polled (r ∷ rs) (q, a)
  stopped r rs q a v live none_out = record {
    consistent = v;
    bounded = λ out e. absurd (none_out out e);
    ended = λ late e. live e;
  }

  later :
      (r : Round W) (rs : List (Round W)) (t : Queue W × Answer)
      → leb_ℤ deadline r.until ≡ false
      → Polled rs t
      → Polled (r ∷ rs) t
  later r rs t early p = record {
    consistent = p.consistent;
    bounded = p.bounded;
    ended = λ late e. elim late [ inl now ↦ absurd (cc) | inr l ↦ p.ended l e ];
  }

  module _ (wait : Duration) where
    after_attempt :
        (r : Round W) (rs : List (Round W)) (q' : Queue W) (res : Result (List Msg))
        (next : Option (Queue W × Answer))
        → pos 0 ≤ℤ max
        → IsConsistent q'
        → ((out : List Msg) → res ≡ ok out → pos (length out) ≤ℤ max)
        → (res ≡ ok [] → Returns (Polled rs) next)
        → Returns (Polled (r ∷ rs)) (elim res [
          | err x ↦ some (q', returned (err x))
          | ok out ↦
              if not (is_nil out) || leb_ℤ wait (pos 0)
              then some (q', returned (ok out))
              else if leb_ℤ deadline r.until
              then some (q', returned (ok []))
              else elim r.wake [ woken ↦ next | timer ↦ next | cancelled ↦ some (q', hung_up) ]
        ])
    after_attempt r rs q' (err x) next positive v b p =
        returns (stopped r rs q' (returned (err x)) v (λ e. cc) (λ out e. cc))
    after_attempt r rs q' (ok out) next positive v b p =
        Returns-if (not (is_nil out) || leb_ℤ wait (pos 0))
          (λ _. returns (answered r rs q' out v (b out refl)))
          λ short.
            Returns-if (leb_ℤ deadline r.until) (λ _. returns (answered r rs q' [] v positive))
              λ early. waits early (ap (λ ms. ok ms) (nothing out short)) r.wake
      where
        nothing : (ms : List Msg) → not (is_nil ms) || leb_ℤ wait (pos 0) ≡ false → ms ≡ []
        nothing [] e = refl
        nothing (m ∷ ms) e = absurd (cc)

        waits :
            leb_ℤ deadline r.until ≡ false
            → ok out ≡ ok []
            → (w : Wake)
            → Returns
                (Polled (r ∷ rs))
                (elim w [ woken ↦ next | timer ↦ next | cancelled ↦ some (q', hung_up) ])
        waits early e woken = Returns-map (p e) λ t h. later r rs t early h
        waits early e timer = Returns-map (p e) λ t h. later r rs t early h
        waits early e cancelled = returns (stopped r rs q' hung_up v (λ e. cc) (λ out e. cc))

    module _ (log : Time → Log W) (visibility : Duration) where
      few :
          (q : Queue W) (r : Round W) (q' : Queue W) (res : Result (List Msg))
          → pos 0 ≤ℤ max
          → Received (log r.now) q max r.now (r.now +ℤ visibility) r.new_id (q', res)
          → (out : List Msg) → res ≡ ok out
          → pos (length out) ≤ℤ max
      few q r q' res positive t out e = omega (
        arith,
        ap length (t.delivered out e).0,
        length-deliveries t.s.msgs r.new_id (r.now +ℤ visibility) 0 t.taken,
        t.bounded positive,
      )

      poll-Returns :
          (q : Queue W) (rounds : List (Round W))
          → pos 0 ≤ℤ max
          → IsConsistent q
          → IsServed q rounds
          → Returns (Polled rounds) (receive_loop log q max visibility wait deadline rounds)
      unfolding receive_loop
      poll-Returns q [] positive v s =
          returns
            (record { consistent = v; bounded = λ out e. absurd (cc); ended = λ late e. late })
      poll-Returns q (r ∷ rs) positive v (fresh, others) =
          Returns-bind (try_receive-Returns (log r.now) q max visibility r.now r.new_id v fresh)
            λ (q', res) t.
              after_attempt r rs q' res
                (receive_loop log (r.others q') max visibility wait deadline rs) positive
                t.consistent (few q r q' res positive t)
                (λ e.
                  let (w, s) =
                    others q' t.consistent (λ k f. rw (t.unlent e) (t.advanced.fewer k f)) in
                  poll-Returns (r.others q') rs positive w s)

-- Receive is called on a consistent queue. The tokens of each round are unused in the queue that it
-- finds, and the other clients leave the queue consistent; both are asked only of consistent queues
-- with no more receipts than the round before found. Then it has a result, for any number of
-- rounds. It leaves a consistent queue, and a list that it answers with has no more messages than
-- asked for, one if max was not positive. If its deadline passes after some round, it has ended by
-- then.
pub receive-Returns :
    {W : Type 0} (log : Time → Log W) (q : Queue W) (max : ℤ) (visibility wait : Duration)
    (start : Time) (rounds : List (Round W))
    → IsConsistent q
    → IsServed q rounds
    → Returns
        (Polled (if leb_ℤ max (pos 0) then pos 1 else max) (start +ℤ wait) rounds)
        (receive log q max visibility wait start rounds)
unfolding receive
receive-Returns log q max visibility wait start rounds v s =
    poll-Returns (if leb_ℤ max (pos 0) then pos 1 else max) (start +ℤ wait) wait log
      (if leb_ℤ visibility (pos 0) then Record.visibility q.cfg else visibility) q rounds
      (ground arith) v s
