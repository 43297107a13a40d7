-- ===== src/Queue/Replay.antt =====
-- ReplayDLQ: the dead letters go back to work.
use mathlib.Core.List.{Nodup-cons, mem-append_left, mem-append_right}
use mathlib.Core.List.Perm
use artie_takehome.Base.{
  ℕ, zero, suc, ◌+◌, ◌≡◌, ◌≢◌, refl, ap, List, [], ◌∷◌, ◌++◌, Mem, Perm, Nodup, arith, Option, some,
  none, ◌>>=◌, Returns, returns, Returns-bind, Returns-map, Returns-some, Returns-none,
  Option-cases, Bool-cases, inl, inr, ℤ, pos, length,
}
use artie_takehome.MsgHeap.{MsgHeap, update}
use artie_takehome.Msg.{Msg, Time, ready}
use artie_takehome.Record.{Error, Log, new_record, Op}
use artie_takehome.Queue.{Queue, place_locked, signal_locked, set_ready, set_delayed}
use artie_takehome.Queue.Produce.{replay_loop, replay_dlq}
use artie_takehome.Queue.Core.{Core, Core-msgs, AreDue, LeasesOf, IsConsistent, held, held-parked}
use artie_takehome.Queue.Push.{Placed, Placed-AreDue, place_locked_lem}
use artie_takehome.Queue.Matching.{LeasesOf-msgs}

module _ {W : Type 0} where
  -- The queue with another list of dead letters.
  abbrev with_dlq : Queue W → List ℕ → Queue W
  with_dlq q ms = record q { dlq = ms }

  push-dlq :
      (P : Queue W → Type 0) (ms : List ℕ) (place : Queue W → MsgHeap → Queue W) (q : Queue W)
      → ((h : MsgHeap) → place (with_dlq q ms) h ≡ with_dlq (place q h) ms)
      → (o : Option MsgHeap) → Returns P (o >>= λ h. some (place (with_dlq q ms) h))
      → Returns (λ r. P (with_dlq r ms)) (o >>= λ h. some (place q h))
  push-dlq P ms place q e none r = absurd (Returns-none r)
  push-dlq P ms place q e (some h) r = returns (rw (e h) at (Returns-some r))

  -- Filing a message does not look at the dead letters.
  place-dlq :
      (P : Queue W → Type 0) (q : Queue W) (m : ℕ) (now : Time) (ms : List ℕ)
      → Returns P (place_locked (with_dlq q ms) m now)
      → Returns (λ r. P (with_dlq r ms)) (place_locked q m now)
  unfolding place_locked
  place-dlq P q m now ms r = elim (Bool-cases (ready (q.msgs m) now)) [
    | inl e ↦
        rw (e, place_locked) (push-dlq P ms set_ready q (λ h. refl) _ (rw (e, place_locked) at r))
    | inr e ↦
        rw (e, place_locked) (push-dlq P ms set_delayed q (λ h. refl) _ (rw (e, place_locked) at r))
  ]

  -- What the loop leaves when `ms` are still to be replayed and `done` have been.
  pub record Replayed (now : Time) (q : Queue W) (ms : List ℕ) (done : ℕ)
      (r : Queue W × ℕ × Option Error) : Type 0 where
    pub consistent : IsConsistent r.0
    pub same : Perm (held r.0) (held (with_dlq q ms))
    pub counted : r.1 + length r.0.dlq ≡ done + length ms
    pub emptied : r.2 ≡ none → r.0.dlq ≡ []
    pub due : AreDue now q.msgs q.ready → AreDue now r.0.msgs r.0.ready

  module _ (q : Queue W) (m : ℕ) (ms : List ℕ) (v : IsConsistent (with_dlq q (m ∷ ms))) (msg : Msg)
      (w : W) where
    -- The queue in which the record is written and the message reset, the rest still to do.
    abbrev reset : Queue W
    reset = record q { wal = w; msgs = update q.msgs m msg }

    alone : Nodup (m ∷ held (with_dlq q ms))
    alone = Perm.nodup (held-parked q m ms) v.core.apart

    other : (x : ℕ) → Mem x (held (with_dlq q ms)) → update q.msgs m msg x ≡ q.msgs x
    other x k = ground (arith, ne)
      where
        ne : m ≢ x
        ne e = (Nodup-cons.0 alone).0 (rw e k)

    reset-Core : Core (with_dlq reset ms)
    reset-Core = Core-msgs (with_dlq q ms) (update q.msgs m msg) other (record {
      ready_valid = v.core.ready_valid;
      delayed_valid = v.core.delayed_valid;
      inflight_valid = v.core.inflight_valid;
      apart = (Nodup-cons.0 alone).1;
    })

    Placed-IsConsistent :
        (now : Time) (r : Queue W)
        → Placed (with_dlq reset ms) m reset-Core alone now (with_dlq r ms)
        → IsConsistent (with_dlq r ms) × Perm (held (with_dlq r ms)) (held (with_dlq q (m ∷ ms)))
    Placed-IsConsistent now r p =
        let (a, b, i, e) = p.keeps in
        let all = Perm.trans p.same (Perm.symm (held-parked q m ms)) in
        let inner =
          LeasesOf-msgs q.msgs (update q.msgs m msg) q.inflight q.leases
            (λ x k.
              other x
                (mem-append_right q.ready (mem-append_right q.delayed (mem-append_left ms k))))
            v.leases in
        (
          record {
            core = p.core;
            leases = leases e inner;
            allocated =
                λ x k. rw (ap (λ (t : Queue W). t.next) e) (v.allocated x ((Perm.mem_iff all).0 k));
          },
          all,
        )
      where
        leases :
            {ready delayed : List ℕ} {index : ℕ → ℤ}
            → with_dlq r ms
              ≡ record (with_dlq reset ms) { ready = ready; delayed = delayed; index = index }
            → LeasesOf (update q.msgs m msg) q.inflight q.leases
            → LeasesOf r.msgs r.inflight r.leases
        leases e l =
            rw
              (
                ap (λ (t : Queue W). t.msgs) e,
                ap (λ (t : Queue W). t.inflight) e,
                ap (λ (t : Queue W). t.leases) e,
              )
              l

    -- The message that was reset is filed, and the others were not written to.
    reset-AreDue :
        (now : Time) (r : Queue W)
        → Placed (with_dlq reset ms) m reset-Core alone now (with_dlq r ms)
        → AreDue now q.msgs q.ready
        → AreDue now r.msgs r.ready
    reset-AreDue now r p d =
        let (a, b, i, e) = p.keeps in
        rw (ap (λ (t : Queue W). t.msgs) e) (
          Placed-AreDue (with_dlq reset ms) m reset-Core alone now (with_dlq r ms) p λ x k.
            let there : Mem x (held (with_dlq q ms)) =
              mem-append_left (q.delayed ++ (q.inflight ++ ms)) k in
            rw (other x there) (d x k))

  module _ (log : Log W) (now : Time) where
    replay_loop_lem :
        (q : Queue W) (ms : List ℕ) (done : ℕ)
        → IsConsistent (with_dlq q ms)
        → Returns (Replayed now q ms done) (replay_loop log q ms now done)
    unfolding replay_loop
    replay_loop_lem q [] done v = returns (record {
      consistent = v;
      same = Perm.rfl;
      counted = refl;
      emptied = λ _. refl;
      due = λ d. d;
    })
    replay_loop_lem q (m ∷ ms) done v =
        let rec = record (new_record Op.replay q.cfg.name) { id = (q.msgs m).id } in
        let w = (log.append_sync q.wal rec).0 in
        let msg = record (q.msgs m) { attempts = pos 0; visible_at = now } in
        elim (Option-cases (log.append_sync q.wal rec).1) [
          | inl good ↦
              rw (good, replay_loop)
                (Returns-bind
                  (place-dlq _ (reset q m ms v msg w) m now ms (
                    place_locked_lem (with_dlq (reset q m ms v msg w) ms) m
                      (reset-Core q m ms v msg w) (alone q m ms v msg w) now))
                  λ r p.
                    let (u, all) = Placed-IsConsistent q m ms v msg w now r p in
                    Returns-map (replay_loop_lem r ms (done + 1) u) λ t o. record {
                      consistent = o.consistent;
                      same = Perm.trans o.same all;
                      counted = omega (arith, o.counted);
                      emptied = o.emptied;
                      due = λ d. o.due (reset-AreDue q m ms v msg w now r p d);
                    })
          | inr (x, bad) ↦
              rw (bad, replay_loop)
                (returns (record {
                  consistent = record { core = v.core; leases = v.leases; allocated = v.allocated };
                  same = Perm.rfl;
                  counted = refl;
                  emptied = λ e. absurd (cc);
                  due = λ d. d;
                }))
        ]

    -- On a consistent queue ReplayDLQ returns: the queue holds the same messages, the count is
    -- exactly how many dead letters went back to work, also when the log stops the loop, and
    -- without an error none is left. If all ready messages were visible at the time, all still are.
    pub replay_dlq-Returns :
        (q : Queue W) → IsConsistent q → Returns (Replayed now q q.dlq 0) (replay_dlq log q now)
    unfolding replay_dlq signal_locked
    replay_dlq-Returns q v =
        Returns-bind
          (replay_loop_lem q q.dlq 0
            (record { core = v.core; leases = v.leases; allocated = v.allocated }))
          finish
      where
        finish :
            (r : Queue W × ℕ × Option Error)
            → Replayed now q q.dlq 0 r
            → Returns
                (Replayed now q q.dlq 0)
                (some (elim r.1 [ zero ↦ r.0 | suc n ↦ signal_locked r.0 ], r.1, r.2))
        finish (r, zero, e) o = returns o
        finish (r, suc n, e) o = returns (record {
          consistent = record {
            core = o.consistent.core;
            leases = o.consistent.leases;
            allocated = o.consistent.allocated;
          };
          same = o.same;
          counted = o.counted;
          emptied = o.emptied;
          due = o.due;
        })
