-- ===== src/Manager/Managed.antt =====
-- The queues of a manager taken together: consistent, and kept so by its own operations.
use mathlib.Core.Path.{subst}
use artie_takehome.Base.{
  ◌≡◌, String, Bool, true, false, not, ◌&&◌, List, [], ◌∷◌, some, if◌then◌else◌, Returns, returns,
  Returns-bind, Option-cases, Bool-cases, inl, inr, str_eq,
}
use artie_takehome.Msg.{Time, fifo, lifo}
use artie_takehome.Record.{Config, new_record, Op, Log, Result, ok}
use artie_takehome.Maps.{find, erase, insert}
use artie_takehome.Queue.{Queue, new}
use artie_takehome.Queue.Core.{IsConsistent}
use artie_takehome.Queue.Create.{new-IsConsistent}
use artie_takehome.Queue.Advance.{tick_advances}
use artie_takehome.Manager.{Manager, get, create, contains_any}
use artie_takehome.Manager.Calls.{pump_tick}

module _ {W : Type 0} where
  -- Each queue of the list is consistent.
  abbrev pub AllConsistent : List (String × Queue W) → Type 0
  AllConsistent [] = Unit {0}
  AllConsistent ((name, q) ∷ qs) = IsConsistent q × AllConsistent qs

  abbrev pub IsManaged : Manager W → Type 0
  IsManaged m = AllConsistent m.queues

  -- The log is not part of a queue's consistency.
  pub with_wal : (q : Queue W) (w : W) → IsConsistent q → IsConsistent (record q { wal = w })
  with_wal q w v = record { core = v.core; leases = v.leases; allocated = v.allocated }

  pub find-IsConsistent :
      (name : String) (qs : List (String × Queue W)) (q : Queue W)
      → AllConsistent qs
      → find name qs ≡ some q
      → IsConsistent q
  unfolding find
  find-IsConsistent name [] q v e = absurd (cc)
  find-IsConsistent name ((j, p) ∷ qs) q (here, rest) e = elim (Bool-cases (str_eq j name)) [
    | inl same ↦ subst IsConsistent (cc (rw same at e)) here
    | inr other ↦ find-IsConsistent name qs q rest (rw other at e)
  ]

  erased :
      (name : String) (qs : List (String × Queue W))
      → AllConsistent qs
      → AllConsistent (erase name qs)
  unfolding erase
  erased name [] v = tt
  erased name ((j, p) ∷ qs) (here, rest) = elim (Bool-cases (str_eq j name)) [
    | inl same ↦ rw same (erased name qs rest)
    | inr other ↦ rw other (here, erased name qs rest)
  ]

  pub insert-AllConsistent :
      (name : String) (q : Queue W) (qs : List (String × Queue W))
      → IsConsistent q
      → AllConsistent qs
      → AllConsistent (insert name q qs)
  unfolding insert
  insert-AllConsistent name q qs v rest = (v, erased name qs rest)

  pub get-IsConsistent :
      (m : Manager W) (name : String) (q : Queue W)
      → IsManaged m
      → get m name ≡ ok q
      → IsConsistent q
  unfolding get
  get-IsConsistent m name q v e = elim (Option-cases (find name m.queues)) [
    | inl f ↦ absurd (cc (rw (f, get) at e))
    | inr (p, f) ↦
        subst IsConsistent (cc (rw (f, get) at e))
          (with_wal p m.wal (find-IsConsistent name m.queues p v f))
  ]

  -- The branches of Create.
  kept_if :
      (b : Bool) (x y : Manager W × Result (Queue W))
      → IsManaged x.0
      → IsManaged y.0
      → IsManaged (if b then x else y).0
  kept_if true x y v u = v
  kept_if false x y v u = u

  pub create-IsManaged :
      (log : Log W) (m : Manager W) (cfg : Config) → IsManaged m → IsManaged (create log m cfg).0
  unfolding create
  create-IsManaged log m cfg v =
      let q = new cfg m.wal in
      let rec = record (new_record Op.create_queue cfg.name) { config = some q.cfg } in
      kept_if (str_eq cfg.name "") _ _ v (
        kept_if (contains_any cfg.name) _ _ v (
          kept_if (not (str_eq cfg.mode fifo) && not (str_eq cfg.mode lifo)) _ _ v
            (elim (Option-cases (find cfg.name m.queues)) [
              | inr (old, e) ↦ rw e v
              | inl e ↦ elim (Option-cases (log.append_sync m.wal rec).1) [
                | inr (x, f) ↦ rw (e, f) v
                | inl f ↦
                    rw (e, f)
                      (insert-AllConsistent cfg.name q m.queues (new-IsConsistent cfg m.wal).0 v)
              ]
            ])))

  -- A tick of the pump over the queues `qs` returns and leaves them all consistent.
  pub pump_tick-Returns :
      (log : Log W) (qs : List (String × Queue W)) (w : W) (now : Time)
      → AllConsistent qs
      → Returns (λ r. AllConsistent r.0) (pump_tick log qs w now)
  unfolding pump_tick
  pump_tick-Returns log [] w now v = returns tt
  pump_tick-Returns log ((name, q) ∷ qs) w now (here, rest) =
      Returns-bind (tick_advances log now (record q { wal = w }) (with_wal q w here)) λ q' a.
        Returns-bind (pump_tick-Returns log qs q'.wal now rest) λ r v. returns (a.consistent, v)
