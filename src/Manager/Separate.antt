-- ===== src/Manager/Separate.antt =====
-- Recovery of several queues: the records of each stage it alone.
use mathlib.Core.List.{append-nil}
use mathlib.Core.Path.{subst}
use artie_takehome.Base.{
  sym, ℕ, ◌≡◌, refl, ◌∙◌, ap, arith, String, Bool, true, false, List, [], ◌∷◌, ◌++◌, map, Option,
  some, none, if◌then◌else◌, str_eq, str_eq_iff, Bool-cases, inl, inr, ◌⊎◌,
}
use artie_takehome.Maps.{find, insert, find-insert}
use artie_takehome.Record.{Record}
use artie_takehome.Queue.{Queue}
use artie_takehome.Queue.Core.{IsConsistent}
use artie_takehome.Manager.{Staging, new_staging, stage, emit, dead_records, live_records}
use artie_takehome.Manager.Staged.{staged, IsNamed}
use artie_takehome.Manager.Rebuild.{Rebuilt, live_records-Rebuilt}
use artie_takehome.Manager.Recover.{Recovery, touches, staging_of, recover_record}
use artie_takehome.Manager.Calls.{all_records}

-- The records of one queue.
abbrev pub of_name : String → List Record → List Record
of_name name [] = []
of_name name (rec ∷ recs) =
    if str_eq rec.queue name then rec ∷ of_name name recs else of_name name recs

untouched-stage : (s : Staging) (rec : Record) → touches rec ≡ false → stage s rec ≡ s
unfolding stage
untouched-stage s rec e = ground (arith, e)

staging_of-insert :
    (name k : String) (s : Staging) (pending : List (String × Staging))
    → staging_of name (insert k s pending) ≡ (if str_eq k name then s else staging_of name pending)
staging_of-insert name k s pending =
    ap (λ (o : Option Staging). elim o [ none ↦ new_staging | some t ↦ t ])
      (find-insert name k s pending)
    ∙ pull (str_eq k name)
  where
    pull :
        (b : Bool)
        → (elim (if b then some s else find name pending) [ none ↦ new_staging | some t ↦ t ])
          ≡ (if b then s else staging_of name pending)
    pull true = refl
    pull false = refl

module _ {W : Type 0} (w : W) where
  -- Recovery over a list of records.
  unfoldable pub recovered : Recovery W → List Record → Recovery W
  recovered st [] = st
  recovered st (rec ∷ recs) = recovered (recover_record w st rec) recs

  record_stages :
      (name : String) (st : Recovery W) (rec : Record)
      → staging_of name (recover_record w st rec).pending ≡ (
          if str_eq rec.queue name
          then stage (staging_of name st.pending) rec
          else staging_of name st.pending)
  unfolding recover_record
  record_stages name st rec = elim (Bool-cases (touches rec)) [
    | inl t ↦ rw t (
        staging_of-insert name rec.queue (stage (staging_of rec.queue st.pending) rec) st.pending
        ∙ own (Bool-cases (str_eq rec.queue name)))
    | inr t ↦
        rw (t, untouched-stage (staging_of name st.pending) rec t) (both (str_eq rec.queue name))
  ]
    where
      both : (b : Bool) {x : Staging} → x ≡ (if b then x else x)
      both true = refl
      both false = refl

      own :
          (str_eq rec.queue name ≡ true) ⊎ (str_eq rec.queue name ≡ false)
          → (if str_eq rec.queue name
              then stage (staging_of rec.queue st.pending) rec
              else staging_of name st.pending)
            ≡ (if str_eq rec.queue name
                then stage (staging_of name st.pending) rec
                else staging_of name st.pending)
      own (inr e) = rw e refl
      own (inl e) = rw e (
          ap (λ (n : String). stage (staging_of n st.pending) rec)
            ((str_eq_iff rec.queue name).0 e))

  -- After recovery over any records, the staging of each queue is what the records of its name
  -- alone make of it, in their order.
  pub recovered_separates :
      (name : String) (st : Recovery W) (recs : List Record)
      → staging_of name (recovered st recs).pending
        ≡ staged (staging_of name st.pending) (of_name name recs)
  unfolding recovered staged
  recovered_separates name st [] = refl
  recovered_separates name st (rec ∷ recs) =
      recovered_separates name (recover_record w st rec) recs
      ∙ (ap (λ (s : Staging). staged s (of_name name recs)) (record_stages name st rec)
          ∙ next (str_eq rec.queue name))
    where
      next :
          (b : Bool)
          → staged
              (if b then stage (staging_of name st.pending) rec else staging_of name st.pending)
              (of_name name recs)
            ≡ staged
                (staging_of name st.pending)
                (if b then rec ∷ of_name name recs else of_name name recs)
      next true = refl
      next false = refl

-- Records that all bear one name.
abbrev pub Bears : String → List Record → Type 0
Bears name [] = Unit {0}
Bears name (rec ∷ recs) = (rec.queue ≡ name) × Bears name recs

Bears-append :
    (name : String) (a b : List Record) → Bears name a → Bears name b → Bears name (a ++ b)
Bears-append name [] b v u = u
Bears-append name (rec ∷ a) b (e, v) u = (e, Bears-append name a b v u)

pub of_name-own : (name : String) (recs : List Record) → Bears name recs → of_name name recs ≡ recs
of_name-own name [] v = refl
of_name-own name (rec ∷ recs) (e, v) =
    let same : str_eq rec.queue name ≡ true = (str_eq_iff rec.queue name).1 e in
    rw (same, of_name-own name recs v) refl

pub of_name-other :
    (key name : String) (recs : List Record)
    → Bears key recs
    → str_eq key name ≡ false
    → of_name name recs ≡ []
of_name-other key name [] v f = refl
of_name-other key name (rec ∷ recs) (e, v) f =
    let other : str_eq rec.queue name ≡ false = ap (λ (k : String). str_eq k name) e ∙ f in
    rw other (of_name-other key name recs v f)

pub of_name-append :
    (name : String) (a b : List Record) → of_name name (a ++ b) ≡ of_name name a ++ of_name name b
of_name-append name [] b = refl
of_name-append name (rec ∷ a) b = elim (Bool-cases (str_eq rec.queue name)) [
  | inl e ↦ rw (e, of_name-append name a b) refl
  | inr e ↦ rw (e, of_name-append name a b) refl
]

module _ {W : Type 0} where
  emits-Bears : (q : Queue W) (ps : List ℕ) → Bears q.cfg.name (map (emit q) ps)
  emits-Bears q [] = tt
  emits-Bears q (p ∷ ps) = (refl, emits-Bears q ps)

  dead_records-Bears : (q : Queue W) (ps : List ℕ) → Bears q.cfg.name (dead_records q ps)
  unfolding dead_records
  dead_records-Bears q [] = tt
  dead_records-Bears q (p ∷ ps) = (refl, (refl, dead_records-Bears q ps))

  pub live_records-Bears : (q : Queue W) → Bears q.cfg.name (live_records q)
  unfolding live_records
  live_records-Bears q = (
    refl,
    Bears-append q.cfg.name _ _ (emits-Bears q (q.ready ++ (q.delayed ++ q.inflight)))
        (dead_records-Bears q q.dlq),
  )

  -- None of the queues has the name.
  abbrev pub Without : String → List (String × Queue W) → Type 0
  Without name [] = Unit {0}
  Without name ((key, q) ∷ qs) = (str_eq q.cfg.name name ≡ false) × Without name qs

  pub of_name-Without :
      (name : String) (qs : List (String × Queue W))
      → Without name qs
      → of_name name (all_records qs) ≡ []
  unfolding all_records
  of_name-Without name [] v = refl
  of_name-Without name ((key, q) ∷ qs) (e, v) =
      of_name-append name (live_records q) (all_records qs)
      ∙ rw
          (
            of_name-other q.cfg.name name (live_records q) (live_records-Bears q) e,
            of_name-Without name qs v,
          )
          refl

  of_name-one :
      (before after : List (String × Queue W)) (key : String) (q : Queue W)
      → Without q.cfg.name before
      → Without q.cfg.name after
      → of_name q.cfg.name (all_records (before ++ (key, q) ∷ after)) ≡ live_records q
  unfolding all_records
  of_name-one [] after key q u v =
      of_name-append q.cfg.name (live_records q) (all_records after)
      ∙ rw
          (
            of_name-own q.cfg.name (live_records q) (live_records-Bears q),
            of_name-Without q.cfg.name after v,
          )
          (append-nil (live_records q))
  of_name-one ((k, p) ∷ before) after key q (e, u) v =
      of_name-append q.cfg.name (live_records p) (all_records (before ++ (key, q) ∷ after))
      ∙ rw (of_name-other p.cfg.name q.cfg.name (live_records p) (live_records-Bears p) e)
          (of_name-one before after key q u v)

  -- The records that a compaction keeps of several queues are recovered from nothing. A consistent
  -- queue whose messages have different ids, and whose name no other of the queues has, is staged
  -- as it was: each message but for its lease, exactly the dead letters marked, and no sequence
  -- number behind.
  pub compaction_rebuilds :
      (w : W) (before after : List (String × Queue W)) (key : String) (q : Queue W)
      → Without q.cfg.name before
      → Without q.cfg.name after
      → IsConsistent q
      → IsNamed q
      → Rebuilt q (
          staging_of q.cfg.name
            (recovered w
              (record { queues = []; pending = [] })
              (all_records (before ++ (key, q) ∷ after))).pending)
  unfolding find
  compaction_rebuilds w before after key q u v c named =
      subst (λ (s : Staging). Rebuilt q s)
        (sym (
          recovered_separates w q.cfg.name (record { queues = []; pending = [] })
            (all_records (before ++ (key, q) ∷ after))
          ∙ ap (λ (recs : List Record). staged new_staging recs)
              (of_name-one before after key q u v)))
        (live_records-Rebuilt q c named)
