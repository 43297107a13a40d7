-- ===== src/Queue/Create.antt =====
-- New: the queue to begin with.
use mathlib.Core.List.{not-mem-nil, Nodup-nil}
use artie_takehome.Base.{
  true, false, ℕ, zero, suc, negsuc, ◌≤◌, ◌*◌, ◌<◌, ◌≡◌, ◌≢◌, refl, [], arith, Bool, ℤ, pos, ◌≤ℤ◌,
  ◌<ℤ◌, leb_ℤ, if◌then◌else◌, mul_int64, mul_int64_small, str_eq_iff,
}
use artie_takehome.Msg.{Duration, fifo}
use artie_takehome.Heap.Calls.{IsValid}
use artie_takehome.Queue.Leases.{lookup}
use artie_takehome.Record.{Config, visibility}
use artie_takehome.Queue.{Queue, new}
use artie_takehome.Queue.Core.{IsConsistent, held}

-- The nanoseconds of up to twelve hours do not overflow.
Lasts : ℤ → Duration → Type 0
Lasts ms v =
    (pos 0 <ℤ v)
    × (v ≤ℤ pos (43_200_000 * 1_000_000))
    × ((k : ℕ) → ms ≡ pos k → 0 < k → v ≡ pos (k * 1_000_000))

product-Lasts : (n : ℕ) → 0 < n → n ≤ 43_200_000 → Lasts (pos n) (mul_int64 (pos n) 1_000_000)
unfolding Lasts
product-Lasts n positive l =
    rw (mul_int64_small n (omega (arith, l)))
      (omega (arith, positive), omega (arith, l), λ k e p. cc)

default-Lasts :
    (ms : ℤ)
    → ms ≤ℤ pos 43_200_000
    → Lasts ms (mul_int64 (if leb_ℤ ms (pos 0) then pos 30000 else ms) 1_000_000)
unfolding Lasts
default-Lasts (pos zero) h =
    let (long, short, exact) = product-Lasts 30000 (omega arith) (omega arith) in
    (long, short, λ k e p. absurd (ground (arith, e, p)))
default-Lasts (pos (suc n)) h =
    let given : leb_ℤ (pos (suc n)) (pos 0) ≡ false = ground arith in
    rw given (product-Lasts (suc n) (omega arith) (omega (arith, h)))
default-Lasts (negsuc n) h =
    let (long, short, exact) = product-Lasts 30000 (omega arith) (omega arith) in
    let unset : leb_ℤ (negsuc n) (pos 0) ≡ true = ground arith in
    rw unset (long, short, λ k e p. absurd (cc))

module _ {W : Type 0} where
  -- There are no messages, and no heap to go wrong.
  pub new-IsConsistent : (c : Config) (w : W) → IsConsistent (new c w) × (held (new c w) ≡ [])
  unfolding new lookup
  new-IsConsistent c w = (
    record {
      core = record {
        ready_valid = nothing;
        delayed_valid = nothing;
        inflight_valid = nothing;
        apart = Nodup-nil;
      };
      leases = record { listed = λ r p e. absurd (cc); found = λ p k. absurd (not-mem-nil k) };
      allocated = λ p k. absurd (not-mem-nil k);
    },
    refl,
  )
    where
      nothing : {less : ℕ → ℕ → Bool} → IsValid less (record { items = []; index = λ p. pos 0 })
      nothing = record {
        heap = λ i p h. absurd (omega arith);
        synced = λ i h. absurd (omega arith);
      }

  -- What New makes of a configuration.
  pub record IsUsable (c : Config) (q : Queue W) : Type 0 where
    pub consistent : IsConsistent q
    pub empty : held q ≡ []
    pub lasting : (pos 0 <ℤ visibility q.cfg) × (visibility q.cfg ≤ℤ pos (43_200_000 * 1_000_000))
    pub asked :
        (ms : ℕ)
        → c.visibility_timeout_ms ≡ pos ms
        → 0 < ms
        → visibility q.cfg ≡ pos (ms * 1_000_000)
    pub ordered : (c.mode ≡ "" → q.cfg.mode ≡ fifo) × (c.mode ≢ "" → q.cfg.mode ≡ c.mode)
    pub kept :
        (q.cfg.name ≡ c.name)
        × (q.cfg.priority ≡ c.priority)
        × (q.cfg.max_attempts ≡ c.max_attempts)

  -- New with a visibility timeout of at most twelve hours, or none, makes a consistent queue
  -- without messages. Its leases last longer than no time, at most twelve hours, and exactly the
  -- timeout if one is given, so that no product overflows. Its mode is the one given or else fifo,
  -- and its other settings are those given.
  pub new-IsUsable :
      (c : Config) (w : W) → c.visibility_timeout_ms ≤ℤ pos 43_200_000 → IsUsable c (new c w)
  unfolding new visibility Lasts
  new-IsUsable c w h =
      let (long, bounded, exact) = default-Lasts c.visibility_timeout_ms h in
      record {
        consistent = (new-IsConsistent c w).0;
        empty = (new-IsConsistent c w).1;
        lasting = (long, bounded);
        asked = exact;
        ordered = ((λ e. rw e), (λ ne. ground (arith, ne, str_eq_iff c.mode "")));
        kept = (refl, refl, refl);
      }
