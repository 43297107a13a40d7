-- ===== src/Manager/Regained.antt =====
-- A new queue that is filled from the staging of the records of another.
use mathlib.Core.List.{append-nil, map-append, perm_append_comm}
use mathlib.Core.List.Perm
use artie_takehome.Base.{
  ℕ, ◌≤◌, ◌≡◌, refl, sym, ap, ◌∙◌, true, false, List, [], ◌∷◌, ◌++◌, arith, map, Perm, sort_by,
  sort_by-perm,
}
use artie_takehome.Msg.{Msg}
use artie_takehome.Queue.{Queue, new, clear_lease}
use artie_takehome.Queue.Core.{IsConsistent, held}
use artie_takehome.Manager.{Staging, new_staging, live_records}
use artie_takehome.Manager.Staged.{staged, IsNamed}
use artie_takehome.Manager.Rebuild.{front, held-front, Rebuilt, live_records-Rebuilt}
use artie_takehome.Manager.Entries.{Parted, live_records-Parted, cleared}
use artie_takehome.Manager.Restored.{messages}
use artie_takehome.Manager.Recover.{staged_part, seq_less}
use artie_takehome.Manager.Installed.{IsFilled}

cleared-again : (ms : List Msg) → map clear_lease (map clear_lease ms) ≡ map clear_lease ms
cleared-again [] = refl
cleared-again (m ∷ ms) = ap (λ (l : List Msg). clear_lease m ∷ l) (cleared-again ms)

module _ {W : Type 0} where
  -- The queue `r` is `q` without its leases.
  pub record Regained (q r : Queue W) : Type 0 where
    pub consistent : IsConsistent r
    pub config : r.cfg ≡ q.cfg
    pub same : Perm (messages r) (map clear_lease (messages q))
    pub parked : Perm (map r.msgs r.dlq) (map clear_lease (map q.msgs q.dlq))
    pub numbered : q.seq ≤ r.seq
    pub idle : r.inflight ≡ []

  map-twice : (q : Queue W) (ps : List ℕ) → map (cleared q) ps ≡ map clear_lease (map q.msgs ps)
  map-twice q [] = refl
  map-twice q (p ∷ ps) = ap (λ (ms : List Msg). cleared q p ∷ ms) (map-twice q ps)

  -- A new queue that is filled from the staging of its records.
  pub filled-Regained :
      (q : Queue W) (w : W) (s : Staging) (r : Queue W)
      → IsConsistent q
      → IsNamed q
      → (new q.cfg w).cfg ≡ q.cfg
      → s ≡ staged new_staging (live_records q)
      → IsFilled (new q.cfg w) s r
      → Regained q r
  unfolding new
  filled-Regained q w s r v named settled e t =
      let built : Rebuilt q s = rw e (live_records-Rebuilt q v named) in
      let parts : Parted q named s = rw e (live_records-Parted q named v) in
      let dead : Perm (sort_by seq_less (staged_part true s s.live)) (map (cleared q) q.dlq) =
        Perm.trans (sort_by-perm seq_less _) parts.dead in
      let live : Perm (sort_by seq_less (staged_part false s s.live)) (map (cleared q) (front q)) =
        Perm.trans (sort_by-perm seq_less _) parts.live in
      let all =
        Perm.trans (Perm.append_right _ dead) (Perm.append_left (map (cleared q) q.dlq) live) in
      let twice : map clear_lease (map (cleared q) q.dlq) ≡ map clear_lease (map q.msgs q.dlq) =
        ap (map clear_lease) (map-twice q q.dlq) ∙ cleared-again (map q.msgs q.dlq) in
      record {
        consistent = t.consistent;
        config = t.config ∙ settled;
        same = Perm.trans (rw (append-nil _) at t.same) (all_cleared _ all);
        parked = rw t.parked (rw twice at (Perm.map clear_lease dead));
        numbered = omega (arith, built.numbered, t.kept.0);
        idle = t.kept.1;
      }
    where
      all_cleared :
          (ms : List Msg)
          → Perm ms (map (cleared q) q.dlq ++ map (cleared q) (front q))
          → Perm (map clear_lease ms) (map clear_lease (messages q))
      all_cleared ms p =
          let joined : map (cleared q) q.dlq ++ map (cleared q) (front q)
              ≡ map (cleared q) (q.dlq ++ front q) =
            sym (map-append (cleared q) q.dlq (front q)) in
          let turned : Perm (map (cleared q) (q.dlq ++ front q)) (map clear_lease (messages q)) =
            rw (← map-twice q (held q), held-front q)
              (Perm.map (cleared q) (perm_append_comm q.dlq (front q))) in
          rw (cleared-again (messages q)) at
            (Perm.map clear_lease (Perm.trans (rw joined at p) turned))
