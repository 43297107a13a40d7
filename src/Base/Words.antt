-- ===== src/Base/Words.antt =====
-- Machine integers: the wrap-around of Go's uint64 and of int and int64.
use Prim.Native.Nat.{ℕ, suc, ◌+◌, ◌-◌, ◌*◌, ◌%◌, ◌^◌, ◌<◌, ◌≤◌}
use mathlib.Core.Path.{◌≡◌}
use native.Mathlib.Nat.{mod-eq_of_lt}
use native.Mathlib.Omega.{arith}
use artie_takehome.Base.Tests.{ltb, if◌then◌else◌}
use artie_takehome.Base.Int.{ℤ, pos, negsuc, ◌+ℤ◌, ◌<ℤ◌}

abbrev pub u64_mod : ℕ
u64_mod = 2 ^ 64

-- `x++` on a uint64.
unfoldable pub inc_u64 : ℕ → ℕ
inc_u64 n = (n + 1) % u64_mod

residue : ℤ → ℕ
residue (pos n) = n % u64_mod
residue (negsuc n) = u64_mod - 1 - n % u64_mod

-- The int64 with the low 64 bits of an integer.
unfoldable pub wrap_int64 : ℤ → ℤ
unfolding residue
wrap_int64 z = let u = residue z in if ltb u (2 ^ 63) then pos u else negsuc (u64_mod - 1 - u)

-- `x++` on an int.
unfoldable pub inc_int : ℤ → ℤ
unfolding wrap_int64
inc_int z = wrap_int64 (z +ℤ pos 1)

-- The product of two int64s.
times : ℕ → ℤ → ℤ
times k (pos n) = pos (n * k)
times k (negsuc n) = negsuc (suc n * k - 1)

unfoldable pub mul_int64 : ℤ → ℕ → ℤ
unfolding wrap_int64 times
mul_int64 z k = wrap_int64 (times k z)

pub inc_u64_small : (n : ℕ) → n + 1 < u64_mod → inc_u64 n ≡ n + 1
unfolding inc_u64
inc_u64_small n h = mod-eq_of_lt h

pub inc_int_small : (n : ℕ) → n + 1 < 2 ^ 63 → inc_int (pos n) ≡ pos (n + 1)
unfolding inc_int ◌+ℤ◌
inc_int_small n h = ground arith

-- A product of an int64 and a million that stays below 2 ^ 63 does not wrap.
pub mul_int64_small :
    (n : ℕ) → n * 1_000_000 < 2 ^ 63 → mul_int64 (pos n) 1_000_000 ≡ pos (n * 1_000_000)
unfolding mul_int64 times wrap_int64 residue
mul_int64_small n h = ground arith

-- From 2 ^ 63 up to 2 ^ 64 it is negative.
pub mul_int64_negative :
    (n : ℕ) → 2 ^ 63 ≤ n * 1_000_000 → n * 1_000_000 < 2 ^ 64 → mul_int64 (pos n) 1_000_000 <ℤ pos 0
unfolding mul_int64 times wrap_int64 residue
mul_int64_negative n l h = ground arith
