-- ===== src/Tests/Reopens.antt =====
-- A manager that is compacted, and the process opened again.
use native.Mathlib.Decide.{ℕ_discrete}
use mathlib.Core.Path.{subst}
use mathlib.Core.List.{Memᴰ}
use artie_takehome.Base.{
  ℕ, suc, ◌+◌, ◌≡◌, refl, sym, List, [], ◌∷◌, ◌++◌, arith, Option, some, none, pos, Returns, String,
  Bool, true, false, str_eq, str_eq_iff, get_elem?, length, ◌<◌, ap, inc_u64, sort_by, insert_by,
  ◌∙◌, ◌+ℤ◌,
}
use artie_takehome.Record.{Record, new_record, Op, Result, ok, err, invalid, no_lease, Log}
use artie_takehome.Heap
use artie_takehome.MsgHeap
use artie_takehome.Msg.{ready, order_by}
use artie_takehome.Queue.{Queue, new}
use artie_takehome.Queue.Core.{held, IsConsistent}
use artie_takehome.Queue.Create.{new-IsConsistent}
use artie_takehome.Queue.Produce.{enqueue}
use artie_takehome.Queue.Deliver.{enqueue-Returns}
use artie_takehome.Manager.{Manager, live_records, dead_records}
use artie_takehome.Manager.Calls.{compact_all, all_records}
use artie_takehome.Manager.Recover.{open_manager}
use artie_takehome.Manager.Whole.{IsWhole}
use artie_takehome.Manager.Reopened.{Reopened, compaction_reopens}
use artie_takehome.Wal.Scan.{compact}
use artie_takehome.Wal.Recovery.{IsTorn}
use artie_takehome.Manager.Staged.{IsNamed}
use artie_takehome.Wal.Service.{opened}
use artie_takehome.Tests.Data.{jobs, value, Returns-value}
use artie_takehome.Tests.Managers.{only}
use artie_takehome.Wal.{Codec, Wal, encode, contents}
use artie_takehome.Wal.Frame.{RoundTrips}

String-discrete : Discrete String
String-discrete a b = go (str_eq a b) refl
  where
    go : (t : Bool) → str_eq a b ≡ t → Dec (a ≡ b)
    go true e = yes ((str_eq_iff a b).0 e)
    go false e = no (λ same. cc ((str_eq_iff a b).1 same, e))

abbrev Record-discrete : Discrete Record
Record-discrete = hlevel (ℕ_discrete, String-discrete)

-- The place of a record in a table.
unfoldable position : ℕ → Record → List Record → Option ℕ
position i rec [] = none
position i rec (r ∷ table) = elim (Record-discrete rec r) [
  | yes e ↦ some i
  | no e ↦ position (i + 1) rec table
]

-- The codec that writes a record of a table as its place, and refuses all others.
abbrev marshal_by : Option ℕ → Result (List ℕ)
marshal_by none = err (invalid "unknown record")
marshal_by (some i) = ok (i ∷ [])

abbrev unmarshal_by : List Record → List ℕ → Option Record
unmarshal_by table (i ∷ []) = get_elem? table i
unmarshal_by table bytes = none

abbrev table_codec : List Record → Codec
table_codec table = record {
  marshal = λ rec. marshal_by (position 0 rec table);
  unmarshal = unmarshal_by table;
}

position-get_elem? :
    (table : List Record) (i k : ℕ) (rec : Record)
    → position i rec table ≡ some k
    → (j : ℕ) × (k ≡ i + j) × (get_elem? table j ≡ some rec)
unfolding position
position-get_elem? [] i k rec e = absurd (cc)
position-get_elem? (r ∷ table) i k rec e =
    step (Record-discrete rec r) e (position-get_elem? table (i + 1) k rec)
  where
    step :
        (d : Dec (rec ≡ r))
        → (elim d [ yes same ↦ some i | no other ↦ position (i + 1) rec table ]) ≡ some k
        → (position (i + 1) rec table ≡ some k
            → (j : ℕ) × (k ≡ i + 1 + j) × (get_elem? table j ≡ some rec))
        → (j : ℕ) × (k ≡ i + j) × (get_elem? (r ∷ table) j ≡ some rec)
    step (yes same) e rest = let here : i ≡ k = cc in (0, omega (arith, here), rw same refl)
    step (no other) e rest = let (j, f, g) = rest e in (suc j, omega (arith, f), g)

table_codec-RoundTrips : (table : List Record) → RoundTrips (table_codec table)
table_codec-RoundTrips table = record {
  back = λ rec body e.
      reads rec body (position 0 rec table) e λ k f. position-get_elem? table 0 k rec f;
  nonempty = λ rec body e. wrote body (position 0 rec table) e;
}
  where
    reads :
        (rec : Record) (body : List ℕ) (o : Option ℕ)
        → marshal_by o ≡ ok body
        → ((k : ℕ) → o ≡ some k → (j : ℕ) × (k ≡ 0 + j) × (get_elem? table j ≡ some rec))
        → unmarshal_by table body ≡ some rec
    reads rec body none e there = absurd (cc)
    reads rec body (some k) e there =
        let (j, f, g) = there k refl in
        let place : k ≡ j = omega (arith, f) in
        let here : k ∷ [] ≡ body = cc in rw (← here, place) g

    wrote : (body : List ℕ) (o : Option ℕ) → marshal_by o ≡ ok body → 0 < length body
    wrote body none e = absurd (cc)
    wrote body (some k) e = let here : k ∷ [] ≡ body = cc in rw (← here) (omega arith)

-- A log that takes every record and keeps none, and a queue with a message that is ready.
abbrev deaf_log : Log Wal
deaf_log = record { append = λ w r. (w, none); append_sync = λ w r. (w, none) }

abbrev blank_log : Wal
blank_log = opened [] (pos 0) []

abbrev filled_queue : Queue Wal
filled_queue =
    (value (new jobs blank_log, err no_lease)
      (enqueue deaf_log (new jobs blank_log) "a" (pos 0) (pos 0) (pos 10) "m1")).0

filled_queue-IsConsistent : IsConsistent filled_queue
filled_queue-IsConsistent =
    (Returns-value (new jobs blank_log, err no_lease)
      (enqueue-Returns deaf_log (new jobs blank_log) "a" "m1" (pos 0) (pos 0) (pos 10)
        (new-IsConsistent jobs blank_log).0 refl)).consistent

filled_queue-held : held filled_queue ≡ 1 ∷ []
unfolding enqueue new ready ◌+ℤ◌ Heap.push Heap.up MsgHeap.swap MsgHeap.less_at order_by
filled_queue-held = refl

filled_queue-IsNamed : IsNamed filled_queue
filled_queue-IsNamed p r k l e =
    only p (rw filled_queue-held at k) ∙ sym (only r (rw filled_queue-held at l))

abbrev filled_manager : Manager Wal
filled_manager = record { queues = ("jobs", filled_queue) ∷ []; wal = blank_log }

-- The records that its compaction writes.
abbrev table : List Record
table =
    record (new_record Op.epoch "") { epoch = 1; at = pos 60 }
    ∷ record (new_record Op.create_queue "jobs") { config = some jobs; seq = 1; at = pos 60 }
    ∷ record (new_record Op.enqueue "jobs") { msg = some (filled_queue.msgs 1); at = pos 60 }
    ∷ []

filled_manager-compacts : (compact_all (table_codec table) filled_manager (pos 60)).1 ≡ none
unfolding compact_all all_records live_records dead_records compact encode position sort_by
    insert_by enqueue new ready ◌+ℤ◌ Heap.push Heap.up MsgHeap.swap MsgHeap.less_at order_by
    String-discrete ℕ_discrete inc_u64
filled_manager-compacts = refl

filled_queue-settled : (w : Wal) → (new filled_queue.cfg w).cfg ≡ filled_queue.cfg
unfolding enqueue new ready ◌+ℤ◌ Heap.push Heap.up MsgHeap.swap MsgHeap.less_at order_by
filled_queue-settled w = refl

filled_manager-IsWhole : IsWhole filled_manager
filled_manager-IsWhole = record {
  managed = (filled_queue-IsConsistent, tt);
  named = (tt, tt);
  own = λ key q k. one_entry key q k;
}
  where
    one_entry :
        (key : String) (q : Queue Wal)
        → Memᴰ (key, q) filled_manager.queues
        → IsNamed q × ((w : Wal) → (new q.cfg w).cfg ≡ q.cfg)
    one_entry key q (Memᴰ.head e) =
        let same : q ≡ filled_queue = ap (λ (x : String × Queue Wal). x.1) e in
        subst (λ (p : Queue Wal). IsNamed p × ((w : Wal) → (new p.cfg w).cfg ≡ p.cfg)) (sym same)
          (filled_queue-IsNamed, filled_queue-settled)
    one_entry key q (Memᴰ.tail k) = elim k [ ]

compaction_reopens_example : Returns (Reopened filled_manager) (
    open_manager
      (table_codec table)
      (contents (compact_all (table_codec table) filled_manager (pos 60)).0.wal ++ [])
      (pos 0)
      []
      (pos 70))
compaction_reopens_example =
    compaction_reopens (table_codec table) (table_codec-RoundTrips table) filled_manager
      filled_manager-IsWhole (pos 60) [] (pos 0) (pos 70) filled_manager-compacts
      (IsTorn.clean refl)
