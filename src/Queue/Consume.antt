-- ===== src/Queue/Consume.antt =====
-- queue/queue.go: tryReceive, Ack, Extend and Nack.
use artie_takehome.Base.{
  ℕ, zero, suc, ◌+◌, String, ℤ, pos, ◌+ℤ◌, List, [], ◌∷◌, ◌++◌, Option, none, some, ◌>>=◌,
  if◌then◌else◌, ltb_ℤ, leb_ℤ, length, inc_u64, inc_int,
}
use artie_takehome.MsgHeap
use artie_takehome.MsgHeap.{update}
use artie_takehome.Msg.{Msg, Time, Duration}
use artie_takehome.Record.{new_record, Op, Error, no_lease, Result, ok, err, Log, visibility}
use artie_takehome.Queue.{
  Queue, clear_lease, set_msg, push_ready, pop_ready, push_inflight, remove_inflight, fix_inflight,
  signal_locked, retry_locked, advance_locked, log_sync, log_append,
}
use artie_takehome.Queue.Leases.{lookup, put, delete}

-- The token and deadline of a lease that is handed out.
pub record Lease : Type 0 where
  pub receipt : String
  pub expiry : Time

-- A message as it is once leased.
abbrev pub leased : Msg → Lease → Msg
leased m l = record m {
  attempts = inc_int m.attempts;
  receipt = l.receipt;
  lease_expiry = l.expiry;
}

module _ {W : Type 0} where
  -- Up to `max` messages off the ready heap; each round takes one off.
  unfoldable pub pick : ℕ → Queue W → ℤ → List ℕ → Option (Queue W × List ℕ)
  pick zero q max picked = none
  pick (suc fuel) q max picked = elim (MsgHeap.peek q.ready) [
    | none ↦ some (q, picked)
    | some m ↦
        let next = pop_ready q >>= λ q'. pick fuel q' max (picked ++ m ∷ []) in
        if ltb_ℤ (pos (length picked)) max then next else some (q, picked)
  ]

  unfoldable pub put_back : Queue W → List ℕ → Option (Queue W)
  put_back q [] = some q
  put_back q (m ∷ ms) = push_ready q m >>= λ q'. put_back q' ms

  -- The commit of the leases: the copies that the consumer gets are the second result.
  unfoldable pub commit : Queue W → List ℕ → List Lease → Option (Queue W × List Msg)
  commit q (m ∷ ms) (l ∷ ls) = push_inflight (set_msg q m (leased (q.msgs m) l)) m >>= λ q'.
      let q'' = record q' {
        leases = put l.receipt m q'.leases;
        delivered = inc_u64 q'.delivered;
      } in
      commit q'' ms ls >>= λ (end, out). some (end, q''.msgs m ∷ out)
  commit q ms ls = some (q, [])

  module _ (log : Log W) where
    -- The lease records, from the i-th call of newID on, up to the first that fails.
    unfoldable pub log_leases :
        Queue W → List ℕ → (ℕ → String) → ℕ → Time → Queue W × List Lease × Option Error
    log_leases q [] new_id i expiry = (q, [], none)
    log_leases q (m ∷ ms) new_id i expiry =
        let l : Lease = record { receipt = new_id i; expiry = expiry } in
        let (q', e) =
          log_append log q
            (record (new_record Op.lease q.cfg.name) { msg = some (leased (q.msgs m) l) }) in
        elim e [
          | some x ↦ (q', [], some x)
          | none ↦ let (end, ls, f) = log_leases q' ms new_id (i + 1) expiry in (end, l ∷ ls, f)
        ]

    -- What follows the picking of at least one message.
    unfoldable pub hand_out :
        Queue W → List ℕ → (ℕ → String) → Time → Option (Queue W × Result (List Msg))
    unfolding log_leases put_back commit
    hand_out q picked new_id expiry =
        let (q', ls, e) = log_leases q picked new_id 0 expiry in
        elim e [
          | some x ↦ put_back q' picked >>= λ q''. some (q'', err x)
          | none ↦ commit q' picked ls >>= λ (q'', out). some (q'', ok out)
        ]

    -- One attempt, without waiting. The wake channel seen is the state's `wake` before the call.
    unfoldable pub try_receive :
        Queue W → ℤ → Duration → Time → (ℕ → String) → Option (Queue W × Result (List Msg))
    unfolding pick hand_out advance_locked
    try_receive q max visibility now new_id = advance_locked log q now >>= λ q1.
        pick (suc (length q1.ready)) q1 max [] >>= λ (q2, picked). elim picked [
          | [] ↦ some (q2, ok [])
          | m ∷ ms ↦ hand_out q2 (m ∷ ms) new_id (now +ℤ visibility)
        ]

    unfoldable pub ack : Queue W → String → Option (Queue W × Option Error)
    unfolding remove_inflight
    ack q receipt = elim (lookup receipt q.leases) [
      | none ↦ some (q, some no_lease)
      | some m ↦
          let (q1, e) =
            log_sync log q (record (new_record Op.ack q.cfg.name) { id = (q.msgs m).id }) in
          elim e [
            | some x ↦ some (q1, some x)
            | none ↦ remove_inflight q1 m >>= λ q2.
                some
                  (record q2 { leases = delete receipt q2.leases; acked = inc_u64 q2.acked }, none)
          ]
    ]

    unfoldable pub nack : Queue W → String → Duration → Time → Option (Queue W × Option Error)
    unfolding remove_inflight retry_locked signal_locked
    nack q receipt delay now = elim (lookup receipt q.leases) [
      | none ↦ some (q, some no_lease)
      | some m ↦ remove_inflight q m >>= λ q1.
          let q2 = record q1 {
            leases = delete receipt q1.leases;
            msgs = update q1.msgs m (clear_lease (q1.msgs m));
            nacked = inc_u64 q1.nacked;
          } in
          retry_locked log q2 m now delay >>= λ (q3, e). elim e [
            | some x ↦ some (q3, some x)
            | none ↦ some (signal_locked q3, none)
          ]
    ]

  -- Nothing is logged.
  unfoldable pub extend : Queue W → String → Duration → Time → Option (Queue W × Result Time)
  unfolding fix_inflight
  extend q receipt duration now = elim (lookup receipt q.leases) [
    | none ↦ some (q, err no_lease)
    | some m ↦
        let d = if leb_ℤ duration (pos 0) then visibility q.cfg else duration in
        let q1 = set_msg q m (record (q.msgs m) { lease_expiry = now +ℤ d }) in
        fix_inflight q1 m >>= λ q2. some (q2, ok (q2.msgs m).lease_expiry)
  ]
