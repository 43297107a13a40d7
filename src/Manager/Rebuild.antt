-- ===== src/Manager/Rebuild.antt =====
-- The records of a compaction, read back by recovery.
use mathlib.Core.List.{
  Mem-prop, append_assoc, Nodup-append, mem-append, mem-append_left, mem-append_right,
}
use mathlib.Core.Logic.Or
use artie_takehome.Base.{
  ℕ, ◌≡◌, refl, sym, ap, ◌∙◌, true, List, [], ◌∷◌, ◌++◌, map, Mem, arith, none, some, inl, inr, ◌≤◌,
}
use artie_takehome.Maps.{find}
use artie_takehome.Record.{Record, new_record, Op}
use artie_takehome.Queue.{Queue}
use artie_takehome.Queue.Core.{held, IsConsistent}
use artie_takehome.Manager.{Staging, new_staging, stage, emit, dead_records, live_records}
use artie_takehome.Manager.Staged.{
  staged, id_of, IsNamed, IsStaged, Mem-cases, emits-IsStaged, dead-Marked, spared, emits-dlq,
  dead-IsStaged, staged-append,
}

module _ {W : Type 0} (q : Queue W) where
  -- A staging that has all that the queue holds.
  pub record Rebuilt (s : Staging) : Type 0 where
    pub live : (p : ℕ) → Mem p (held q) → IsStaged q s p
    pub dead : (p : ℕ) → Mem p q.dlq → find (id_of q p) s.dlq ≡ some true
    pub spared_ids :
        (p : ℕ) → Mem p (q.ready ++ (q.delayed ++ q.inflight)) → find (id_of q p) s.dlq ≡ none
    pub numbered : q.seq ≤ s.max_seq

  unfoldable pub front : List ℕ
  front = q.ready ++ (q.delayed ++ q.inflight)

  pub held-front : held q ≡ front ++ q.dlq
  unfolding front
  held-front =
      ap (◌++◌ q.ready) (sym (append_assoc q.delayed q.inflight q.dlq))
      ∙ sym (append_assoc q.ready (q.delayed ++ q.inflight) q.dlq)

  unfoldable pub opening : Staging
  opening =
      stage new_staging
        (record (new_record Op.create_queue q.cfg.name) { config = some q.cfg; seq = q.seq })

  pub opening-fields : (opening.live ≡ []) × (opening.dlq ≡ []) × (q.seq ≤ opening.max_seq)
  unfolding opening stage
  opening-fields = (ground arith, ground arith, ground arith)

  stage-max : (s : Staging) (rec : Record) → s.max_seq ≤ (stage s rec).max_seq
  unfolding stage
  stage-max s rec = ground arith

  staged-max : (s : Staging) (recs : List Record) → s.max_seq ≤ (staged s recs).max_seq
  unfolding staged
  staged-max s [] = omega arith
  staged-max s (rec ∷ recs) = omega (arith, stage-max s rec, staged-max (stage s rec) recs)

  -- The records that a compaction keeps of a consistent queue whose messages have different ids
  -- rebuild it: each message is staged as it was but for its lease, exactly the dead letters are
  -- marked, and the sequence number does not fall behind.
  pub live_records-Rebuilt :
      IsConsistent q → IsNamed q → Rebuilt (staged new_staging (live_records q))
  unfolding live_records staged opening front find
  live_records-Rebuilt v named =
      let (empty, unmarked, high) = opening-fields in
      let s = staged opening (map (emit q) front) in
      let plain : s.dlq ≡ [] = emits-dlq q opening front ∙ unmarked in
      let (a, b, away) = Nodup-append.0 (rw held-front at v.core.apart) in
      let inside : (x : ℕ) → Mem x front → Mem x (held q) =
        λ x k. rw held-front (mem-append_left q.dlq k) in
      let parked : (x : ℕ) → Mem x q.dlq → Mem x (held q) =
        λ x k. rw held-front (mem-append_right front k) in
      rw (staged-append q opening (map (emit q) front) (dead_records q q.dlq)) (record {
        live = λ p k. dead-IsStaged q named s q.dlq p parked k (elim (Mem-cases p q.dlq) [
          | inl there ↦ inl there
          | inr gone ↦
              let m : Mem p front =
                Or.elim Mem-prop (mem-append.0 (rw held-front at k)) (λ a. a)
                  (λ a. absurd (gone a)) in
              inr (emits-IsStaged q named opening front p inside k (inl m))
        ]);
        dead = λ p k. dead-Marked q s q.dlq p (inl k);
        spared_ids = λ p k.
            spared q s q.dlq p (λ x m e. away p k (rw (named x p (parked x m) (inside p k) e) at m))
              (rw plain refl);
        numbered = omega (
          arith,
          high,
          staged-max opening (map (emit q) front),
          staged-max s (dead_records q q.dlq),
        );
      })
