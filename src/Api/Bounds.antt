-- ===== src/Api/Bounds.antt =====
-- boundedMS: exactly the milliseconds within the ceiling pass, and none of them overflows.
use artie_takehome.Base.{
  ℕ, ◌*◌, ◌/◌, ◌^◌, ◌<◌, ◌≤◌, ◌≡◌, arith, ℤ, pos, negsuc, ◌≤ℤ◌, ◌<ℤ◌, String, Bool-cases, leb, inl,
  inr, mul_int64_small,
}
use artie_takehome.Msg.{Duration}
use artie_takehome.Api.{bounded_ms, millisecond, Checked, good, bad, negative, above}

-- What boundedMS answers with a field's value and its ceiling.
pub record Bounded (n : ℤ) (max : ℕ) (field : String) (r : Checked Duration) : Type 0 where
  pub exact :
      (d : Duration)
      → r ≡ good d
      → (pos 0 ≤ℤ n)
        × (n ≤ℤ pos (max / millisecond))
        × (pos 0 ≤ℤ d)
        × (d ≤ℤ pos max)
        × ((k : ℕ) → n ≡ pos k → d ≡ pos (k * millisecond))
  pub passed : (k : ℕ) → n ≡ pos k → k * millisecond ≤ max → r ≡ good (pos (k * millisecond))
  pub below : n <ℤ pos 0 → r ≡ bad (negative field)
  pub beyond :
      (k : ℕ) → n ≡ pos k → max < k * millisecond → r ≡ bad (above field (max / millisecond))

module _ (max : ℕ) (field : String) (h : max < 2 ^ 63) where
  passes :
      (n : ℕ) → n * millisecond ≤ max → bounded_ms (pos n) max field ≡ good (pos (n * millisecond))
  unfolding bounded_ms
  passes n l = ground (arith, mul_int64_small n)

  beyond_it :
      (n : ℕ)
      → max < n * millisecond
      → bounded_ms (pos n) max field ≡ bad (above field (max / millisecond))
  unfolding bounded_ms
  beyond_it n l = ground arith

  below_it : (n : ℕ) → bounded_ms (negsuc n) max field ≡ bad (negative field)
  unfolding bounded_ms
  below_it n = ground arith

  -- The bounds of a number that passes.
  within :
      (n : ℕ) (d : Duration)
      → n * millisecond ≤ max
      → d ≡ pos (n * millisecond)
      → (pos 0 ≤ℤ pos n)
        × (pos n ≤ℤ pos (max / millisecond))
        × (pos 0 ≤ℤ d)
        × (d ≤ℤ pos max)
        × ((k : ℕ) → pos n ≡ pos k → d ≡ pos (k * millisecond))
  within n d l e = (omega arith, omega arith, rw e (omega arith), rw e (omega arith), λ k same. cc)

  accepted :
      (n : ℕ) (d : Duration)
      → bounded_ms (pos n) max field ≡ good d
      → (pos 0 ≤ℤ pos n)
        × (pos n ≤ℤ pos (max / millisecond))
        × (pos 0 ≤ℤ d)
        × (d ≤ℤ pos max)
        × ((k : ℕ) → pos n ≡ pos k → d ≡ pos (k * millisecond))
  accepted n d e = elim (Bool-cases (leb (n * millisecond) max)) [
    | inl l ↦ within n d (ground (arith, l)) (cc (e, passes n (ground (arith, l))))
    | inr l ↦ absurd (cc (e, beyond_it n (ground (arith, l))))
  ]

  -- A ceiling below 2 ^ 63 is given. boundedMS passes exactly the numbers of milliseconds from 0 up
  -- to the ceiling, each as its exact number of nanoseconds, which has not wrapped and is within
  -- the ceiling. A negative number and one past the ceiling are refused, each with its own error.
  pub bounded_ms_lem : (n : ℤ) → Bounded n max field (bounded_ms n max field)
  bounded_ms_lem (negsuc n) = record {
    exact = λ d e. absurd (cc (e, below_it n));
    passed = λ k e l. absurd (cc);
    below = λ l. below_it n;
    beyond = λ k e l. absurd (cc);
  }
  bounded_ms_lem (pos n) = record {
    exact = accepted n;
    passed = λ k e l. rw e (passes k l);
    below = λ l. absurd (omega arith);
    beyond = λ k e l. rw e (beyond_it k l);
  }
