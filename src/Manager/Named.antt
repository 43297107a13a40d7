-- ===== src/Manager/Named.antt =====
-- Create and Get: the queues by their names.
use artie_takehome.Base.{◌≡◌, ◌≢◌, false, String, none, some, arith, str_eq_iff}
use artie_takehome.Maps.{find, find-insert}
use artie_takehome.Record.{Config, new_record, Op, Error, Log, Result, ok, err}
use artie_takehome.Queue.{Queue, new}
use artie_takehome.Manager.{Manager, get, create, contains_any}

module _ {W : Type 0} (log : Log W) (m : Manager W) (cfg : Config) where
  -- What Create leaves.
  pub record Created (r : Manager W × Result (Queue W)) : Type 0 where
    pub stored :
        (q : Queue W)
        → r.1 ≡ ok q
        → (get r.0 cfg.name ≡ ok q)
          × (find cfg.name m.queues ≡ none)
          × (contains_any cfg.name ≡ false)
          × ((log.append_sync m.wal (record (new_record Op.create_queue cfg.name) {
            config = some (new cfg m.wal).cfg;
          })).1
              ≡ none)
    pub others : (name : String) → name ≢ cfg.name → find name r.0.queues ≡ find name m.queues
    pub refused : (e : Error) → r.1 ≡ err e → r.0.queues ≡ m.queues

  -- Create answers with a queue only if the name is free and has no forbidden character, and the
  -- log took the record, and then Get finds that queue under the name. It changes no other name,
  -- and an error leaves every queue as it was.
  pub create_lem : Created (create log m cfg)
  unfolding create get
  create_lem = record {
    stored = λ q e. ground (
      arith,
      find-insert cfg.name cfg.name (new cfg m.wal) m.queues,
      str_eq_iff cfg.name cfg.name,
    );
    others = λ name ne.
        ground
          (arith, find-insert name cfg.name (new cfg m.wal) m.queues, str_eq_iff cfg.name name);
    refused = λ x e. ground arith;
  }
