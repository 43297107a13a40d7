-- ===== src/Manager/Whole.antt =====
-- Recovery of all the records of a compaction gives every queue again, and no other.
use mathlib.Core.List.{Memᴰ}
use mathlib.Core.Path.{subst}
use artie_takehome.Base.{
  ◌≡◌, refl, sym, ap, ◌∙◌, String, List, [], ◌∷◌, some, none, Returns, Option-cases, inl, inr,
  sort_by,
}
use artie_takehome.Maps.{find}
use artie_takehome.Msg.{Time}
use artie_takehome.Record.{Record, Result}
use artie_takehome.Queue.{Queue, new}
use artie_takehome.Queue.Core.{IsConsistent}
use artie_takehome.Wal.{Wal}
use artie_takehome.Manager.{Manager, new_staging, live_records}
use artie_takehome.Manager.Staged.{staged, IsNamed}
use artie_takehome.Manager.Recover.{Recovery, staging_of, install, recover_record}
use artie_takehome.Manager.Separate.{Without, recovered, recovered_separates}
use artie_takehome.Manager.Reread.{recovered-IsUnique}
use artie_takehome.Manager.Roster.{
  AreNamed, AreFree, AreNamed-sort_by, Memᴰ-sort_by, of_name-Memᴰ, all-found, all-read,
  all-IsCovered, all-absent, Without-sort_by,
}
use artie_takehome.Manager.Installed.{Installed, install-Installed}
use artie_takehome.Manager.Opened.{created-AllConsistent}
use artie_takehome.Manager.Managed.{IsManaged, AllConsistent}
use artie_takehome.Manager.Calls.{all_records, by_name}
use artie_takehome.Manager.Covered.{IsCovered}
use artie_takehome.Manager.Regained.{Regained, filled-Regained}

-- A manager whose queues can be told apart by their names and their messages by their ids.
pub record IsWhole (m : Manager Wal) : Type 0 where
  pub managed : IsManaged m
  pub named : AreNamed m.queues
  pub own :
      (key : String) (q : Queue Wal)
      → Memᴰ (key, q) m.queues
      → IsNamed q × ((w : Wal) → (new q.cfg w).cfg ≡ q.cfg)

-- Every queue of `m` is in `r` again, under its name, and no other queue.
pub record AreRegained (m r : Manager Wal) : Type 0 where
  pub back :
      (key : String) (q : Queue Wal)
      → Memᴰ (key, q) m.queues
      → (p : Queue Wal) × (find q.cfg.name r.queues ≡ some p) × Regained q p
  pub no_more : (name : String) → Without name m.queues → find name r.queues ≡ none

module _ (w : Wal) where
  abbrev pub nothing_read : Recovery Wal
  nothing_read = record { queues = []; pending = [] }

  recovered-AllConsistent :
      (st : Recovery Wal) (recs : List Record)
      → AllConsistent st.queues
      → AllConsistent (recovered w st recs).queues
  unfolding recovered recover_record
  recovered-AllConsistent st [] v = v
  recovered-AllConsistent st (rec ∷ recs) v =
      recovered-AllConsistent (recover_record w st rec) recs
        (created-AllConsistent w st.queues rec v)

  nothing-AreFree : (qs : List (String × Queue Wal)) → AreFree nothing_read qs
  unfolding find
  nothing-AreFree [] = tt
  nothing-AreFree ((key, q) ∷ qs) = (refl, nothing-AreFree qs)

  Memᴰ-IsConsistent :
      (key : String) (q : Queue Wal) (qs : List (String × Queue Wal))
      → AllConsistent qs
      → Memᴰ (key, q) qs
      → IsConsistent q
  Memᴰ-IsConsistent key q [] v k = elim k [ ]
  Memᴰ-IsConsistent key q ((j, p) ∷ qs) (here, v) (Memᴰ.head same) =
      let e : q ≡ p = ap (λ (x : String × Queue Wal). x.1) same in
      subst (λ (r : Queue Wal). IsConsistent r) (sym e) here
  Memᴰ-IsConsistent key q ((j, p) ∷ qs) (here, v) (Memᴰ.tail k) = Memᴰ-IsConsistent key q qs v k

  module _ (m : Manager Wal) (h : IsWhole m) where
    abbrev pub kept_records : List Record
    kept_records = all_records (sort_by by_name m.queues)

    kept_records-IsCovered :
        IsCovered
          (recovered w nothing_read kept_records).queues
          (recovered w nothing_read kept_records).pending
    unfolding find
    kept_records-IsCovered =
        all-IsCovered w nothing_read (sort_by by_name m.queues) (AreNamed-sort_by m.queues h.named)
          (nothing-AreFree (sort_by by_name m.queues)) λ name there bad. there refl

    -- The staging of one of the queues, and the queue that it fills.
    pub one-Regained :
        (key : String) (q : Queue Wal) (r : Result (List (String × Queue Wal)))
        → Memᴰ (key, q) m.queues
        → (t : Installed
            (recovered w nothing_read kept_records).queues
            (recovered w nothing_read kept_records).pending
            r)
        → (p : Queue Wal) × (find q.cfg.name t.end ≡ some p) × Regained q p
    unfolding find
    one-Regained key q r k t =
        let st = recovered w nothing_read kept_records in
        let sorted = Memᴰ-sort_by (key, q) m.queues k in
        let named = AreNamed-sort_by m.queues h.named in
        let (apart, settled) = h.own key q k in
        elim (Option-cases (find q.cfg.name st.pending)) [
          | inl none_read ↦
              absurd (all-read w nothing_read (sort_by by_name m.queues) key q sorted none_read)
          | inr (s, e) ↦
              let own : s ≡ staged new_staging (live_records q) =
                rw (e, staging_of) at (recovered_separates w q.cfg.name nothing_read kept_records)
                ∙ ap (staged new_staging)
                    (of_name-Memᴰ (sort_by by_name m.queues) key q named sorted) in
              let (p, f, filled) = t.own q.cfg.name s (new q.cfg w) e (
                all-found w nothing_read (sort_by by_name m.queues) key q named (nothing-AreFree _)
                  sorted) in
              (
                p,
                f,
                filled-Regained q w s p (Memᴰ-IsConsistent key q m.queues h.managed k) apart
                    (settled w) own filled,
              )
        ]

    pub none-Regained :
        (name : String) (r : Result (List (String × Queue Wal)))
        → Without name m.queues
        → (t : Installed
            (recovered w nothing_read kept_records).queues
            (recovered w nothing_read kept_records).pending
            r)
        → find name t.end ≡ none
    unfolding find
    none-Regained name r out t =
        let st = recovered w nothing_read kept_records in
        let absent : find name st.queues ≡ none =
          all-absent w name nothing_read (sort_by by_name m.queues)
            (Without-sort_by name m.queues out) in
        elim (Option-cases (find name st.pending)) [
          | inl e ↦ t.other name e ∙ absent
          | inr (s, e) ↦ absurd (kept_records-IsCovered name (λ bad. cc (bad, e)) absent)
        ]

    pub install-Regained :
        (now : Time)
        → Returns
            (Installed
              (recovered w nothing_read kept_records).queues
              (recovered w nothing_read kept_records).pending)
            (install
              (recovered w nothing_read kept_records).queues
              (recovered w nothing_read kept_records).pending
              now)
    unfolding find
    install-Regained now =
        install-Installed _ _ now (recovered-AllConsistent nothing_read kept_records tt)
          (recovered-IsUnique w nothing_read kept_records tt) kept_records-IsCovered
