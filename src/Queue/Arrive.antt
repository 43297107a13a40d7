-- ===== src/Queue/Arrive.antt =====
-- A message that is new to a queue: its allocation, and its filing by placeLocked.
use mathlib.Core.List.{mem-cons, Nodup-cons, mem-append_right, mem-append_left}
use mathlib.Core.List.Perm
use mathlib.Core.Logic.Or
use native.Mathlib.Bridge.{le_prop}
use artie_takehome.Base.{ℕ, ◌+◌, ◌<◌, ◌≡◌, ◌∷◌, Mem, Nodup, arith}
use artie_takehome.MsgHeap.{update}
use artie_takehome.Msg.{Msg, Time}
use artie_takehome.Queue.{Queue}
use artie_takehome.Queue.Core.{Core, Core-msgs, LeasesOf, IsConsistent, held}
use artie_takehome.Queue.Push.{Placed}
use artie_takehome.Queue.Matching.{LeasesOf-msgs}

module _ {W : Type 0} (q : Queue W) (v : IsConsistent q) (msg : Msg) where
  -- The state once the message is allocated, under the next pointer.
  abbrev pub logged : ℕ → W → Queue W
  logged seq w = record q { seq = seq; msgs = update q.msgs q.next msg; next = q.next + 1; wal = w }

  pub written : (x : ℕ) → Mem x (held q) → update q.msgs q.next msg x ≡ q.msgs x
  written x k = ground (arith, v.allocated x k)

  pub fresh : Nodup (q.next ∷ held q)
  fresh = Nodup-cons.1 ((λ k. absurd (omega (arith, v.allocated q.next k))), v.core.apart)

  pub logged-Core : (seq : ℕ) (w : W) → Core (logged seq w)
  logged-Core seq w = Core-msgs q (update q.msgs q.next msg) written v.core

  pub logged-leases : LeasesOf (update q.msgs q.next msg) q.inflight q.leases
  logged-leases =
      LeasesOf-msgs q.msgs (update q.msgs q.next msg) q.inflight q.leases
        (λ x k.
          written x
            (mem-append_right q.ready (mem-append_right q.delayed (mem-append_left q.dlq k))))
        v.leases

  pub bounded : (x : ℕ) → Mem x (q.next ∷ held q) → x < q.next + 1
  bounded x k =
      Or.elim le_prop (mem-cons.0 k) (λ e. omega (arith, e)) (λ a. omega (arith, v.allocated x a))

  -- Once it is filed, the queue is consistent and holds it at its pointer, with all others as they
  -- were.
  pub filed-IsConsistent :
      (now : Time) (seq : ℕ) (w : W) (r : Queue W)
      → Placed (logged seq w) q.next (logged-Core seq w) fresh now r
      → IsConsistent r
  filed-IsConsistent now seq w r p =
      let (a, b, i, e) = p.keeps in
      record {
        core = p.core;
        leases = rw e logged-leases;
        allocated = λ x k. rw e (bounded x ((Perm.mem_iff p.same).0 k));
      }
