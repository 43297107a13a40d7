-- ===== src/Manager/Covered.antt =====
-- Recovery of the records of a compaction, queue after queue: what it has read of a name, and the
-- queue that the name gets.
use mathlib.Core.Path.{subst}
use artie_takehome.Base.{
  ◌≡◌, ◌≢◌, refl, sym, ◌∙◌, Bool, true, false, String, List, [], ◌∷◌, some, none, arith,
  if◌then◌else◌, str_eq, str_eq_iff, str_eq_refl, Bool-cases, Option-cases, inl, inr,
}
use artie_takehome.Maps.{find, insert, find-insert}
use artie_takehome.Record.{Record, Op, new_record}
use artie_takehome.Queue.{Queue, new}
use artie_takehome.Manager.{Staging, stage, live_records}
use artie_takehome.Manager.Recover.{Recovery, created, touches, staging_of, recover_record}
use artie_takehome.Manager.Separate.{recovered, Bears, live_records-Bears}
use artie_takehome.Manager.Reread.{created-found, recovered-found}

-- A name for which recovery has read something has a queue.
abbrev pub IsCovered : {W : Type 0} → List (String × Queue W) → List (String × Staging) → Type 0
IsCovered queues pending = (name : String) → find name pending ≢ none → find name queues ≢ none

module _ {W : Type 0} (w : W) where
  pending-other :
      (name : String) (st : Recovery W) (rec : Record)
      → str_eq rec.queue name ≡ false
      → find name (recover_record w st rec).pending ≡ find name st.pending
  unfolding recover_record
  pending-other name st rec e = go (touches rec)
    where
      staging : Staging
      staging = stage (staging_of rec.queue st.pending) rec

      go :
          (b : Bool)
          → find name (if b then insert rec.queue staging st.pending else st.pending)
            ≡ find name st.pending
      go true = find-insert name rec.queue staging st.pending ∙ rw e refl
      go false = refl

  record-IsCovered :
      (st : Recovery W) (rec : Record)
      → IsCovered st.queues st.pending
      → find rec.queue (recover_record w st rec).queues ≢ none
      → IsCovered (recover_record w st rec).queues (recover_record w st rec).pending
  unfolding recover_record
  record-IsCovered st rec v own name more = elim (Bool-cases (str_eq rec.queue name)) [
    | inl e ↦
        subst (λ (n : String). find n (created w st.queues rec) ≢ none)
          ((str_eq_iff rec.queue name).0 e) own
    | inr e ↦ elim (Option-cases (find name st.queues)) [
      | inl gone ↦ absurd (v name (λ f. more (pending-other name st rec e ∙ f)) gone)
      | inr (q, f) ↦ λ bad. cc (created-found w name st.queues rec q f, bad)
    ]
  ]

  Bears-IsCovered :
      (key : String) (st : Recovery W) (recs : List Record) (q : Queue W)
      → Bears key recs
      → find key st.queues ≡ some q
      → IsCovered st.queues st.pending
      → IsCovered (recovered w st recs).queues (recovered w st recs).pending
  unfolding recovered recover_record
  Bears-IsCovered key st [] q b e v = v
  Bears-IsCovered key st (rec ∷ recs) q (same, b) e v =
      let kept = created-found w key st.queues rec q e in
      Bears-IsCovered key (recover_record w st rec) recs q b kept (
        record-IsCovered st rec v (
          subst (λ (n : String). find n (created w st.queues rec) ≢ none) (sym same)
            λ bad. cc (kept, bad)))

  -- The first record of a queue, and the others.
  abbrev birth : Queue W → Record
  birth q = record (new_record Op.create_queue q.cfg.name) { config = some q.cfg; seq = q.seq }

  birth-first :
      (q : Queue W)
      → (rest : List Record) × (live_records q ≡ birth q ∷ rest) × Bears q.cfg.name rest
  unfolding live_records
  birth-first q = (_, refl, (live_records-Bears q).1)

  birth-found :
      (q : Queue W) (st : Recovery W)
      → find q.cfg.name st.queues ≡ none
      → find q.cfg.name (recover_record w st (birth q)).queues ≡ some (new q.cfg w)
  unfolding recover_record
  birth-found q st free =
      rw (free, created)
        (find-insert q.cfg.name q.cfg.name (new q.cfg w) st.queues
          ∙ rw (str_eq_refl q.cfg.name) refl)

  -- The records of one queue create it, if its name is free.
  pub own-found :
      (q : Queue W) (st : Recovery W)
      → find q.cfg.name st.queues ≡ none
      → find q.cfg.name (recovered w st (live_records q)).queues ≡ some (new q.cfg w)
  unfolding recovered
  own-found q st free =
      let (rest, e, b) = birth-first q in
      rw e (
        recovered-found w q.cfg.name (recover_record w st (birth q)) rest (new q.cfg w)
          (birth-found q st free))

  pub own-IsCovered :
      (q : Queue W) (st : Recovery W)
      → find q.cfg.name st.queues ≡ none
      → IsCovered st.queues st.pending
      → IsCovered (recovered w st (live_records q)).queues (recovered w st (live_records q)).pending
  unfolding recovered
  own-IsCovered q st free v =
      let (rest, e, b) = birth-first q in
      let f = birth-found q st free in
      rw e (
        Bears-IsCovered q.cfg.name (recover_record w st (birth q)) rest (new q.cfg w) b f
          (record-IsCovered st (birth q) v λ bad. cc (f, bad)))

  -- What recovery has read of a name stays.
  pending-kept :
      (name : String) (st : Recovery W) (rec : Record)
      → find name st.pending ≢ none
      → find name (recover_record w st rec).pending ≢ none
  unfolding recover_record
  pending-kept name st rec there = go (touches rec)
    where
      staging : Staging
      staging = stage (staging_of rec.queue st.pending) rec

      go :
          (b : Bool)
          → find name (if b then insert rec.queue staging st.pending else st.pending) ≢ none
      go false = there
      go true = λ bad. there (ground (arith, bad, find-insert name rec.queue staging st.pending))

  pub recovered-kept :
      (name : String) (st : Recovery W) (recs : List Record)
      → find name st.pending ≢ none
      → find name (recovered w st recs).pending ≢ none
  unfolding recovered
  recovered-kept name st [] there = there
  recovered-kept name st (rec ∷ recs) there =
      recovered-kept name (recover_record w st rec) recs (pending-kept name st rec there)

  birth-read :
      (q : Queue W) (st : Recovery W)
      → find q.cfg.name (recover_record w st (birth q)).pending ≢ none
  unfolding recover_record
  birth-read q st bad =
      let s = stage (staging_of q.cfg.name st.pending) (birth q) in
      let there : find q.cfg.name (insert q.cfg.name s st.pending) ≡ some s =
        rw (find-insert q.cfg.name q.cfg.name s st.pending, str_eq_refl q.cfg.name) refl in
      cc (there, bad)

  pub own-read :
      (q : Queue W) (st : Recovery W)
      → find q.cfg.name (recovered w st (live_records q)).pending ≢ none
  unfolding recovered
  own-read q st =
      let (rest, e, b) = birth-first q in
      rw e (recovered-kept q.cfg.name (recover_record w st (birth q)) rest (birth-read q st))
