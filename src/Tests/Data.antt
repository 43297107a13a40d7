-- ===== src/Tests/Data.antt =====
-- The queues and logs that the tests run on.
use Prim.Native.Char.{nul}
use artie_takehome.Base.{
  ℕ, zero, suc, ◌≡◌, refl, ap, List, [], ◌∷◌, ◌++◌, true, Option, some, none, String, pos, Returns,
  returns,
}
use artie_takehome.Msg.{fifo}
use artie_takehome.Record.{Config, Record, storage, Log}
use artie_takehome.Queue.{Queue, new}
use artie_takehome.Queue.Leases.{lookup}
use artie_takehome.Queue.Core.{IsConsistent}
use artie_takehome.Queue.Wait.{Round, timer, woken, IsServed}
use artie_takehome.Queue.Create.{new-IsConsistent}

-- What a call returned, or the default.
abbrev pub value {ℓ} : {A : Type ℓ} → A → Option A → A
value d none = d
value d (some a) = a

pub Returns-value {ℓ κ} :
    {A : Type ℓ} {P : A → Type κ} {r : Option A} (d : A) → Returns P r → P (value d r)
Returns-value d (returns p) = p

-- A log that keeps every record.
abbrev pub list_log : Log (List Record)
list_log = record { append = λ w r. (w ++ r ∷ [], none); append_sync = λ w r. (w ++ r ∷ [], none) }

-- A log whose disk is full.
abbrev pub full_log : Log (List Record)
full_log = record {
  append = λ w r. (w, some (storage "no space left on device"));
  append_sync = λ w r. (w, some (storage "no space left on device"));
}

abbrev pub jobs : Config
jobs = record {
  name = "jobs";
  mode = fifo;
  priority = true;
  max_attempts = pos 1;
  visibility_timeout_ms = pos 1000;
}

-- The i-th token that newID returns.
unfoldable pub token : ℕ → String
token zero = "t"
token (suc n) = String.◌∷◌ nul (token n)

pub token-injective : (j k : ℕ) → token j ≡ token k → j ≡ k
unfolding token
token-injective zero zero e = refl
token-injective zero (suc k) e = absurd (cc)
token-injective (suc j) zero e = absurd (cc)
token-injective (suc j) (suc k) e = ap suc (token-injective j k cc)

abbrev pub empty_queue : Queue (List Record)
empty_queue = new jobs []

pub empty-IsConsistent : IsConsistent empty_queue
empty-IsConsistent = (new-IsConsistent jobs []).0

-- A value that was returned is the result.
pub value-some {ℓ κ} :
    {A : Type ℓ} {P : A → Type κ} {r : Option A} (d : A) → Returns P r → r ≡ some (value d r)
value-some d (returns p) = refl

-- The first round of a poll finds nothing before its timer ends, the second is its last.
abbrev pub two_rounds : {W : Type 0} → List (Round W)
two_rounds =
    record { now = pos 20; new_id = token; until = pos 40; wake = timer; others = λ q. q }
    ∷ record { now = pos 40; new_id = token; until = pos 60_000_000; wake = woken; others = λ q. q }
    ∷ []

pub two_rounds-IsServed : {W : Type 0} (q : Queue W) → q.leases ≡ [] → IsServed q two_rounds
unfolding lookup
two_rounds-IsServed q e =
    let free : (j : ℕ) → lookup (token j) q.leases ≡ none = λ j. rw e refl in
    (
      record { distinct = token-injective; unused = λ j h. free j },
      λ q' v less. (
        v,
        (
          record { distinct = token-injective; unused = λ j h. less (token j) (free j) },
          λ q'' w fewer. (w, tt),
        ),
      ),
    )
