-- ===== src/Manager/Opened.antt =====
-- Open on any file: it ends, and what it opens is consistent.
use mathlib.Core.Path.{subst}
use artie_takehome.Base.{
  ℕ, ◌≡◌, refl, String, ℤ, List, [], ◌∷◌, Option, some, none, Returns, returns, Returns-bind,
  Returns-if, Option-cases, inl, inr, sort_by, true, false, ◌>>=◌,
}
use artie_takehome.Msg.{Time}
use artie_takehome.Record.{Config, Record, Op, Error, Result, ok, err, Result-cases}
use artie_takehome.Maps.{find, insert}
use artie_takehome.Queue.{Queue, new}
use artie_takehome.Queue.Create.{new-IsConsistent}
use artie_takehome.Wal.{Codec, Wal, Io}
use artie_takehome.Wal.Scan.Halts.{scan-Returns}
use artie_takehome.Wal.Service.{open_wal}
use artie_takehome.Manager.{Manager, Staging}
use artie_takehome.Manager.Recover.{
  Recovery, created, recover_record, install, on_record, recover, open_manager, seq_less,
  staged_part, is_empty,
}
use artie_takehome.Manager.Restored.{restore-Returns}
use artie_takehome.Manager.Managed.{
  AllConsistent, IsManaged, insert-AllConsistent, find-IsConsistent,
}

module _ {W : Type 0} where
  -- A record of a new queue adds a consistent one.
  pub created-AllConsistent :
      (w : W) (qs : List (String × Queue W)) (rec : Record)
      → AllConsistent qs
      → AllConsistent (created w qs rec)
  created-AllConsistent w qs rec v = go rec.op rec.config
    where
      go :
          (op : Op) (c : Option Config)
          → AllConsistent (elim op [
            | Op.create_queue ↦ elim c [
              | none ↦ qs
              | some c ↦ elim (find rec.queue qs) [
                | none ↦ insert rec.queue (new c w) qs
                | some q ↦ qs
              ]
            ]
            | _ ↦ qs
          ])
      go Op.create_queue none = v
      go Op.create_queue (some c) = elim (Option-cases (find rec.queue qs)) [
        | inl e ↦ rw e (insert-AllConsistent rec.queue (new c w) qs (new-IsConsistent c w).0 v)
        | inr (q, e) ↦ rw e v
      ]
      go Op.enqueue c = v
      go Op.lease c = v
      go Op.ack c = v
      go Op.nack c = v
      go Op.dlq c = v
      go Op.replay c = v
      go Op.epoch c = v
      go (Op.unknown t) c = v

  -- What recovery answers with.
  abbrev Installed : Result (List (String × Queue W)) → Type 0
  Installed r = (qs : List (String × Queue W)) → r ≡ ok qs → AllConsistent qs

  install-Returns :
      (qs : List (String × Queue W)) (pending : List (String × Staging)) (now : Time)
      → AllConsistent qs
      → Returns Installed (install qs pending now)
  unfolding install
  install-Returns qs [] now v = returns λ ps e. subst AllConsistent (cc) v
  install-Returns qs ((name, s) ∷ pending) now v = elim (Option-cases (find name qs)) [
    | inl e ↦
        rw (e, install)
          (Returns-if (is_empty s) (λ _. install-Returns qs pending now v)
            λ _. returns λ ps f. absurd (cc))
    | inr (q, e) ↦
        rw (e, install)
          (Returns-bind
            (restore-Returns q (sort_by seq_less (staged_part false s s.live))
              (sort_by seq_less (staged_part true s s.live)) s.max_seq now
              (find-IsConsistent name qs q v e))
            λ q' r.
              install-Returns (insert name q' qs) pending now
                (insert-AllConsistent name q' qs r.consistent v))
  ]

module _ (codec : Codec) where
  -- What opening answers with.
  abbrev pub IsOpened : Result (Manager Wal) → Type 0
  IsOpened r = (m : Manager Wal) → r ≡ ok m → IsManaged m

  abbrev IsRecovered : Manager Wal × Option Error → Type 0
  IsRecovered r = r.1 ≡ none → IsManaged r.0

  recover-Returns :
      (m : Manager Wal) (now : Time) → IsManaged m → Returns IsRecovered (recover codec m now)
  unfolding recover recover_record
  recover-Returns m now v =
      Returns-bind
        (scan-Returns codec (λ (st : Recovery Wal). AllConsistent st.queues) (on_record codec m.wal)
          true (λ st rec off i. created-AllConsistent m.wal st.queues rec i) m.wal 0
          (record { queues = m.queues; pending = [] }) v)
        λ (w, st, e) t. after w st e t.holds
    where
      placed :
          (w : Wal) (st : Recovery Wal) (r : Result (List (String × Queue Wal)))
          → Installed r
          → Returns IsRecovered (elim r [
            | err x ↦ some (record m { wal = w; queues = st.queues }, some x)
            | ok queues ↦ some (record m { wal = w; queues = queues }, none)
          ])
      placed w st (err x) h = returns λ f. absurd (cc)
      placed w st (ok qs) h = returns λ f. h qs refl

      after :
          (w : Wal) (st : Recovery Wal) (e : Option Error)
          → AllConsistent st.queues
          → Returns IsRecovered (elim e [
            | some x ↦ some (record m { wal = w; queues = st.queues }, some x)
            | none ↦ install st.queues st.pending now >>= λ r. elim r [
              | err x ↦ some (record m { wal = w; queues = st.queues }, some x)
              | ok queues ↦ some (record m { wal = w; queues = queues }, none)
            ]
          ])
      after w st (some x) i = returns λ f. absurd (cc)
      after w st none i =
          Returns-bind (install-Returns st.queues st.pending now i) λ r h. placed w st r h

  -- Open on a file of any bytes that can be read, whatever calls to make the directory, to open, to
  -- stat, to truncate, to write or to sync the file fail, has a result, and if it is a manager then
  -- each of its queues is consistent.
  pub open_manager-Returns :
      (file : List ℕ) (sync_every : ℤ) (io : List Io) (now : Time)
      → Returns IsOpened (open_manager codec file sync_every io now)
  unfolding open_manager
  open_manager-Returns file sync_every io now = elim (Result-cases (open_wal file sync_every io)) [
    | inr (x, e) ↦ rw (e, open_manager) (returns λ m f. absurd (cc))
    | inl (w, e) ↦
        rw (e, open_manager)
          (Returns-bind (recover-Returns (record { queues = []; wal = w }) now tt)
            λ (m, x) h. answer m x h)
  ]
    where
      answer :
          (m : Manager Wal) (x : Option Error)
          → IsRecovered (m, x)
          → Returns IsOpened (elim x [ some y ↦ some (err y) | none ↦ some (ok m) ])
      answer m (some y) h = returns λ m' f. absurd (cc)
      answer m none h =
          returns λ m' f. subst (λ (n : Manager Wal). IsManaged n) {x = m} {y = m'} (cc) (h refl)
