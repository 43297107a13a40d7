-- ===== src/Manager/Recover.antt =====
-- Open and recover of queue/manager.go: every queue is rebuilt from the log.
use artie_takehome.Base.{
  ℕ, Bool, true, false, String, ℤ, List, [], ◌∷◌, Option, none, some, ◌>>=◌, if◌then◌else◌, ltb,
  sort_by,
}
use artie_takehome.Maps.{find, insert}
use artie_takehome.Msg.{Msg, Time}
use artie_takehome.Record.{Record, Op, Error, invalid, Result, ok, err}
use artie_takehome.Queue.{Queue, new}
use artie_takehome.Wal.{Codec, Wal, Io}
use artie_takehome.Wal.Scan.{scan}
use artie_takehome.Wal.Service.{open_wal}
use artie_takehome.Manager.{Manager, Staging, new_staging, stage, restore}

-- What recovery has read: the queues created and the stagings, both by names.
pub record Recovery (W : Type 0) : Type 0 where
  pub queues : List (String × Queue W)
  pub pending : List (String × Staging)

-- Whether a record is about a staging at all.
abbrev pub touches : Record → Bool
touches rec = elim rec.op [
  | Op.create_queue ↦ elim rec.config [ none ↦ false | some c ↦ true ]
  | Op.enqueue ↦ elim rec.msg [ none ↦ false | some m ↦ true ]
  | Op.lease ↦ elim rec.msg [ none ↦ false | some m ↦ true ]
  | Op.nack ↦ elim rec.msg [ none ↦ false | some m ↦ true ]
  | Op.ack ↦ true
  | Op.dlq ↦ true
  | Op.replay ↦ true
  | Op.epoch ↦ false
  | Op.unknown op ↦ false
]

-- The staging of a queue, an empty one if there is none.
abbrev pub staging_of : String → List (String × Staging) → Staging
staging_of name pending = elim (find name pending) [ none ↦ new_staging | some s ↦ s ]

-- The message is one of the dead letters.
abbrev pub is_dead : Staging → String → Bool
is_dead s id = elim (find id s.dlq) [ none ↦ false | some b ↦ b ]

abbrev pub seq_less : Msg → Msg → Bool
seq_less a b = ltb a.seq b.seq

-- The staged messages that are dead letters, or those that are not.
unfoldable pub staged_part : Bool → Staging → List (String × Msg) → List Msg
staged_part dead s [] = []
staged_part dead s ((id, m) ∷ live) =
    let rest = staged_part dead s live in
    elim (is_dead s id) [
      | true ↦ if dead then m ∷ rest else rest
      | false ↦ if dead then rest else m ∷ rest
    ]

abbrev pub is_empty : Staging → Bool
is_empty s = elim s.live [ [] ↦ (elim s.dlq [ [] ↦ true | d ∷ ds ↦ false ]) | m ∷ ms ↦ false ]

module _ {W : Type 0} where
  -- CreateQueue of a name that is not there yet.
  abbrev pub created : W → List (String × Queue W) → Record → List (String × Queue W)
  created w queues rec = elim rec.op [
    | Op.create_queue ↦ elim rec.config [
      | none ↦ queues
      | some c ↦ elim (find rec.queue queues) [
        | none ↦ insert rec.queue (new c w) queues
        | some q ↦ queues
      ]
    ]
    | _ ↦ queues
  ]

  -- The callback of recovery.
  unfoldable pub recover_record : W → Recovery W → Record → Recovery W
  recover_record w st rec = record {
    queues = created w st.queues rec;
    pending =
        if touches rec
        then insert rec.queue (stage (staging_of rec.queue st.pending) rec) st.pending
        else st.pending;
  }

  -- The staged messages go into their queues, each part in the order of the sequence numbers.
  unfoldable pub install :
      List (String × Queue W)
      → List (String × Staging)
      → Time
      → Option (Result (List (String × Queue W)))
  unfolding staged_part
  install queues [] now = some (ok queues)
  install queues ((name, s) ∷ pending) now = elim (find name queues) [
    | none ↦
        if is_empty s
        then install queues pending now
        else some (err (invalid "log holds messages for an unknown queue"))
    | some q ↦
        restore q (sort_by seq_less (staged_part false s s.live))
          (sort_by seq_less (staged_part true s s.live)) s.max_seq now
        >>= λ q'. install (insert name q' queues) pending now
  ]

module _ (codec : Codec) where
  abbrev pub on_record : Wal → Recovery Wal → Record → ℕ → Recovery Wal × Option Error
  on_record w st rec offset = (recover_record w st rec, none)

  unfoldable pub recover : Manager Wal → Time → Option (Manager Wal × Option Error)
  unfolding recover_record install
  recover m now =
      scan codec (on_record m.wal) true m.wal 0 (record { queues = m.queues; pending = [] })
      >>= λ (w, st, e). elim e [
        | some x ↦ some (record m { wal = w; queues = st.queues }, some x)
        | none ↦ install st.queues st.pending now >>= λ r. elim r [
          | err x ↦ some (record m { wal = w; queues = st.queues }, some x)
          | ok queues ↦ some (record m { wal = w; queues = queues }, none)
        ]
      ]

  -- Open, on a file with the contents `file`; the pump is started by the caller.
  unfoldable pub open_manager : List ℕ → ℤ → List Io → Time → Option (Result (Manager Wal))
  unfolding recover
  open_manager file sync_every io now = elim (open_wal file sync_every io) [
    | err e ↦ some (err e)
    | ok w ↦ recover (record { queues = []; wal = w }) now >>= λ (m, e). elim e [
      | some x ↦ some (err x)
      | none ↦ some (ok m)
    ]
  ]
