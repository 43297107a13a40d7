-- ===== src/Api/Replies.antt =====
-- How the shared beginnings of the handlers go, branch by branch.
use artie_takehome.Base.{ℕ, ◌*◌, ◌^◌, ◌<◌, ◌≤◌, ◌≡◌, refl, String, pos, Returns, returns}
use artie_takehome.Record.{ok}
use artie_takehome.Queue.{Queue}
use artie_takehome.Manager.{Manager, get}
use artie_takehome.Api.{
  Fault, Reply, fail, bounded_ms, millisecond, Checked, good, bad, Handled, with_queue, with_good,
}
use artie_takehome.Api.Bounds.{bounded_ms_lem}
use artie_takehome.Msg.{Duration}

module _ {W : Type 0} (m : Manager W) where
  pub with_queue-found :
      (name : String) (q : Queue W) (next : Queue W → Handled W)
      → get m name ≡ ok q
      → with_queue m name next ≡ next q
  unfolding with_queue
  with_queue-found name q next e = rw (e, with_queue) refl

  -- A number of milliseconds within its ceiling goes on as its nanoseconds.
  pub with_good-bounded :
      (k max : ℕ) (field : String) (next : Duration → Handled W)
      → max < 2 ^ 63
      → k * millisecond ≤ max
      → with_good m (bounded_ms (pos k) max field) next ≡ next (pos (k * millisecond))
  unfolding with_good
  with_good-bounded k max field next h l =
      rw ((bounded_ms_lem max field h (pos k)).passed k refl l, with_good) refl

  -- A check that may fail, branch by branch.
  pub with_good-Returns :
      {A : Type 0} {P : Manager W × Reply → Type 0} (c : Checked A) (next : A → Handled W)
      → ((f : Fault) → P (m, fail 400 f))
      → ((a : A) → c ≡ good a → Returns P (next a))
      → Returns P (with_good m c next)
  unfolding with_good
  with_good-Returns (good a) next h k = k a refl
  with_good-Returns (bad f) next h k = returns (h f)
