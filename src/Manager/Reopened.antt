-- ===== src/Manager/Reopened.antt =====
-- From the bytes of a compacted log, through Open, to the messages of each queue.
use artie_takehome.Base.{
  ℕ, ◌≡◌, refl, ◌∙◌, String, ℤ, List, [], ◌∷◌, ◌++◌, Option, some, none, Returns, returns,
  Returns-bind, Returns-inv, Returns-some, sort_by, length, ◌>>=◌, inc_u64,
}
use artie_takehome.Msg.{Time}
use artie_takehome.Record.{new_record, Op, ok, err, Result, Error}
use artie_takehome.Queue.{Queue}
use artie_takehome.Wal.{Codec, Wal, contents}
use artie_takehome.Wal.Frame.{RoundTrips}
use artie_takehome.Wal.Recovery.{Written, IsTorn, take-all, recover_repairs}
use artie_takehome.Wal.Scan.Rewrite.{all_stamped, compact_lem}
use artie_takehome.Wal.Service.{opened, open_wal}
use artie_takehome.Manager.{Manager}
use artie_takehome.Manager.Recover.{Recovery, install, recover, open_manager, recover_record}
use artie_takehome.Manager.Separate.{recovered}
use artie_takehome.Manager.Reread.{replayed-recovered}
use artie_takehome.Manager.Installed.{Installed}
use artie_takehome.Manager.Opened.{open_manager-Returns}
use artie_takehome.Manager.Managed.{IsManaged}
use artie_takehome.Manager.Calls.{all_records, by_name, compact_all}
use artie_takehome.Manager.Whole.{
  IsWhole, AreRegained, nothing_read, one-Regained, none-Regained, install-Regained,
}

-- A consistent manager that has every queue of `m` again.
pub record Reopened (m : Manager Wal) (r : Result (Manager Wal)) : Type 0 where
  pub end : Manager Wal
  pub good : r ≡ ok end
  pub managed : IsManaged end
  pub regained : AreRegained m end

module _ (codec : Codec) (trips : RoundTrips codec) (m : Manager Wal) (h : IsWhole m) where
  -- What recovery answers with.
  abbrev HasAll : Manager Wal × Option Error → Type 0
  HasAll r = (r.1 ≡ none) × AreRegained m r.0

  recover-HasAll :
      (w : Wal) (tail bytes : List ℕ) (then now : ℤ) (epoch : ℕ)
      → Written codec
          (all_stamped codec
            (record (new_record Op.epoch "") { epoch = epoch }
              ∷ all_records (sort_by by_name m.queues))
            then)
          bytes
      → IsTorn codec tail
      → w.io ≡ []
      → contents w ≡ bytes ++ tail
      → w.size ≡ length (bytes ++ tail)
      → Returns HasAll (recover codec (record { queues = []; wal = w }) now)
  unfolding recover recovered recover_record
  recover-HasAll w tail bytes then now epoch written torn io c size =
      Returns-bind
        (recover_repairs codec trips (recover_record w) written w tail (nothing_read w) torn io c
          size)
        λ (w1, st, x) (good, state, whole).
          let first = record (new_record Op.epoch "") { epoch = epoch } in
          rest w1 st x good (
            state
            ∙ replayed-recovered w codec (nothing_read w)
                (first ∷ all_records (sort_by by_name m.queues)) then)
    where
      placed :
          (w1 : Wal) (st : Recovery Wal) (r : Result (List (String × Queue Wal)))
          → Installed
              (recovered w (nothing_read w) (all_records (sort_by by_name m.queues))).queues
              (recovered w (nothing_read w) (all_records (sort_by by_name m.queues))).pending
              r
          → Returns HasAll (elim r [
            | err x ↦ some (record { queues = st.queues; wal = w1 }, some x)
            | ok queues ↦ some (record { queues = queues; wal = w1 }, none)
          ])
      placed w1 st r t = rw t.good (
          returns (
            refl,
            record {
              back = λ key q k. one-Regained w m h key q r k t;
              no_more = λ name out. none-Regained w m h name r out t;
            },
          ))

      rest :
          (w1 : Wal) (st : Recovery Wal) (x : Option Error)
          → x ≡ none
          → st ≡ recovered w (nothing_read w) (all_records (sort_by by_name m.queues))
          → Returns HasAll (elim x [
            | some y ↦ some (record { queues = st.queues; wal = w1 }, some y)
            | none ↦ install st.queues st.pending now >>= λ r. elim r [
              | err y ↦ some (record { queues = st.queues; wal = w1 }, some y)
              | ok queues ↦ some (record { queues = queues; wal = w1 }, none)
            ]
          ])
      rest w1 st x good state =
          rw (good, state) (Returns-bind (install-Regained w m h now) λ r t. placed w1 st r t)

  open-AreRegained :
      (then : ℤ) (tail : List ℕ) (sync_every : ℤ) (now : Time)
      → (compact_all codec m then).1 ≡ none
      → IsTorn codec tail
      → Returns
          (λ r. (m' : Manager Wal) × (r ≡ ok m') × AreRegained m m')
          (open_manager codec (contents (compact_all codec m then).0.wal ++ tail) sync_every [] now)
  unfolding compact_all open_manager open_wal
  open-AreRegained then tail sync_every now good torn =
      let (bytes, written, same, size, epoch) =
        (compact_lem codec then m.wal (all_records (sort_by by_name m.queues))).swapped good in
      let w = opened (bytes ++ tail) sync_every [] in
      rw same (
        Returns-bind
          (recover-HasAll w tail bytes then now (inc_u64 m.wal.epoch) written torn refl
            (take-all (bytes ++ tail)) refl)
          λ (m', e) (fine, all). answer m' e fine all)
    where
      answer :
          (m' : Manager Wal) (e : Option Error)
          → e ≡ none
          → AreRegained m m'
          → Returns
              (λ r. (m' : Manager Wal) × (r ≡ ok m') × AreRegained m m')
              (elim e [ some x ↦ some (err x) | none ↦ some (ok m') ])
      answer m' (some x) fine all = absurd (cc)
      answer m' none fine all = returns (m', refl, all)

  -- A codec reads back what it wrote. The queues of a manager are consistent, no two have the same
  -- name, and each has a configuration that New leaves as it is and messages with different ids.
  -- The manager is compacted without an error, and the process dies and leaves the log with a torn
  -- tail. Then Open on a file system that works returns a manager, all queues are consistent, and
  -- under its name each queue of before is there with its configuration, exactly its messages
  -- without their leases, exactly its dead letters, nothing inflight, and a sequence number that is
  -- not behind; and no other queue is there.
  pub compaction_reopens :
      (then : ℤ) (tail : List ℕ) (sync_every : ℤ) (now : Time)
      → (compact_all codec m then).1 ≡ none
      → IsTorn codec tail
      → Returns
          (Reopened m)
          (open_manager codec (contents (compact_all codec m then).0.wal ++ tail) sync_every [] now)
  compaction_reopens then tail sync_every now good torn =
      let file = contents (compact_all codec m then).0.wal ++ tail in
      let (r, e, opened_again) =
        Returns-inv (open-AreRegained then tail sync_every now good torn) in
      let (m', fine, all) = opened_again in
      let managed =
        Returns-some (rw e at (open_manager-Returns codec file sync_every [] now)) m' fine in
      rw e (returns record { end = m'; good = fine; managed = managed; regained = all })
