-- ===== src/Tests/Managers.antt =====
-- A manager with one queue, and the theorems at its states.
use mathlib.Core.List.{mem-cons, not-mem-nil}
use mathlib.Core.Logic.Or
use native.Mathlib.Nat.{ℕ_set}
use artie_takehome.Base.{ℕ, List, [], ◌∷◌, Mem, pos, Returns, ◌≡◌, refl, sym, ◌∙◌, ◌+ℤ◌}
use artie_takehome.Heap
use artie_takehome.MsgHeap
use artie_takehome.Msg.{Msg, ready, order_by}
use artie_takehome.Record.{Record}
use artie_takehome.Queue.{no_msg, new}
use artie_takehome.Queue.Core.{held}
use artie_takehome.Queue.Produce.{enqueue}
use artie_takehome.Manager.{Manager, create, restore, new_staging, live_records}
use artie_takehome.Manager.Rebuild.{Rebuilt, live_records-Rebuilt}
use artie_takehome.Manager.Staged.{IsNamed, staged}
use artie_takehome.Tests.Queues.{one_ready, one_ready-IsConsistent}
use artie_takehome.Manager.Named.{Created, create_lem}
use artie_takehome.Manager.Restored.{Restored, restore-Returns}
use artie_takehome.Tests.Data.{list_log, jobs, empty_queue, empty-IsConsistent}

abbrev pub nobody : Manager (List Record)
nobody = record { queues = []; wal = [] }

create_lem_example : Created list_log nobody jobs (create list_log nobody jobs)
create_lem_example = create_lem list_log nobody jobs

abbrev late : Msg
late = record no_msg { id = "m1"; body = "a"; seq = 1; visible_at = pos 90; receipt = "gone" }

restore-Returns_example :
    Returns
      (λ r.
        Restored (record empty_queue { seq = 2 }) (record no_msg { id = "m2" } ∷ []) (late ∷ []) r)
      (restore empty_queue (late ∷ []) (record no_msg { id = "m2" } ∷ []) 2 (pos 50))
restore-Returns_example =
    restore-Returns empty_queue (late ∷ []) (record no_msg { id = "m2" } ∷ []) 2 (pos 50)
      empty-IsConsistent

one_ready-held : held one_ready ≡ 1 ∷ []
unfolding enqueue new ready ◌+ℤ◌ Heap.push Heap.up MsgHeap.swap MsgHeap.less_at order_by
one_ready-held = refl

pub only : (p : ℕ) → Mem p (1 ∷ []) → p ≡ 1
only p k = Or.elim (ℕ_set _ _) (mem-cons.0 k) (λ e. e) (λ m. absurd (not-mem-nil m))

pub one_ready-IsNamed : IsNamed one_ready
one_ready-IsNamed p r k l e =
    only p (rw one_ready-held at k) ∙ sym (only r (rw one_ready-held at l))

live_records-Rebuilt_example : Rebuilt one_ready (staged new_staging (live_records one_ready))
live_records-Rebuilt_example =
    live_records-Rebuilt one_ready one_ready-IsConsistent one_ready-IsNamed
