-- ===== src/Manager/Republish.antt =====
-- Replay of the log: it ends on any log, and its queues stay consistent.
use artie_takehome.Base.{
  ℕ, ◌+◌, ◌==◌, String, ℤ, pos, negsuc, false, not, ◌>>=◌, ◌&&◌, List, [], ◌∷◌, Option, some, none,
  Returns, returns, Returns-bind, Returns-map, Returns-if, inl, inr, ltb_ℤ,
}
use artie_takehome.Msg.{Msg, Time}
use artie_takehome.Record.{Record, Error, Result, ok, err, Result-cases}
use artie_takehome.Queue.{Queue}
use artie_takehome.Queue.Core.{IsConsistent}
use artie_takehome.Queue.Total.{enqueue_total}
use artie_takehome.Wal.{Codec, Wal}
use artie_takehome.Wal.Scan.Halts.{scan-Returns}
use artie_takehome.Manager.{Manager, get}
use artie_takehome.Manager.Calls.{
  Item, Bookmark, collect, store, scan_from, publish, replay, wal_log, unix_nano,
}
use artie_takehome.Manager.Managed.{IsManaged, insert-AllConsistent, get-IsConsistent, with_wal}

module _ (codec : Codec) where
  scan_from-Returns :
      {S : Type 0} (fn : S → Record → ℕ → S × Option Error) (w : Wal) (from : ℤ) (s : S)
      → Returns (λ t. Unit {0}) (scan_from codec fn w from s)
  unfolding scan_from
  scan_from-Returns fn w (negsuc k) s = returns tt
  scan_from-Returns fn w (pos from) s =
      Returns-map (scan-Returns codec (λ s. Unit {0}) fn false (λ s rec off i. tt) w from s tt)
        λ t h. tt

  publish-Returns :
      (q : Queue Wal) (items : List Item) (clock : ℕ → Time) (new_id : ℕ → String) (i : ℕ)
      → IsConsistent q
      → Returns (λ r. IsConsistent r.0) (publish codec q items clock new_id i)
  unfolding publish
  publish-Returns q [] clock new_id i v = returns v
  publish-Returns q (it ∷ items) clock new_id i v =
      Returns-bind
        (enqueue_total q v (wal_log codec (unix_nano (clock i))) it.body (new_id i) it.priority
          (pos 0) (clock i))
        (λ r u. next r u λ q' w. publish-Returns q' items clock new_id (i + 1) w)
    where
      next :
          (r : Queue Wal × Result Msg)
          → IsConsistent r.0
          → ((q' : Queue Wal)
              → IsConsistent q'
              → Returns (λ t. IsConsistent t.0) (publish codec q' items clock new_id (i + 1)))
          → Returns
              (λ (t : Queue Wal × ℕ × Option Error). IsConsistent t.0)
              (elim r.1 [
                | err x ↦ some (r.0, i, some x)
                | ok m ↦ publish codec r.0 items clock new_id (i + 1)
              ])
      next (q', err x) u loop = returns u
      next (q', ok m) u loop = loop q' u

  module _ (m : Manager Wal) (v : IsManaged m) (name : String) (bm : Bookmark) (since : Time)
      (clock : ℕ → Time) (new_id : ℕ → String) where
    pub replay_total : Returns (λ r. IsManaged r.0) (replay codec m name bm since clock new_id)
    unfolding replay
    replay_total = elim (Result-cases (get m name)) [
      | inr (x, e) ↦ rw (e, replay) (returns v)
      | inl (q, e) ↦
          rw (e, replay)
            (Returns-if (ltb_ℤ (pos 0) bm.offset && not (bm.epoch == m.wal.epoch)) (λ _. returns v)
              λ _.
                Returns-bind (scan_from-Returns (collect name since) m.wal bm.offset [])
                  λ (w, items, f) _. after w items f q (get-IsConsistent m name q v e))
    ]
      where
        after :
            (w : Wal) (items : List Item) (f : Option Error) (q : Queue Wal)
            → IsConsistent q
            → Returns
                (λ (t : Manager Wal × ℕ × Option Error). IsManaged t.0)
                (elim f [
                  | some x ↦ some (record m { wal = w }, 0, some x)
                  | none ↦
                      publish codec (record q { wal = w }) items clock new_id 0 >>= λ (q', n, e').
                      some (store m name q', n, e')
                ])
        after w items (some x) q u = returns v
        after w items none q u =
            Returns-bind
              (publish-Returns (record q { wal = w }) items clock new_id 0 (with_wal q w u))
              λ (q', n, e') h. returns (insert-AllConsistent name q' m.queues h v)
