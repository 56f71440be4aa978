-- ===== src/Prelude/Words.antt =====
-- u32 and u64 counters that stop at their largest value.
use Prim.Native.Nat.{ℕ, ◌+◌, ◌≤◌, min}
use native.Mathlib.Omega.{arith}

abbrev pub u32_max : ℕ
u32_max = 4294967295

-- `x.saturating_add(1)` on u32.
abbrev pub saturating_suc : ℕ → ℕ
saturating_suc x = min (x + 1) u32_max

pub saturating_suc-le : (x : ℕ) → saturating_suc x ≤ u32_max
saturating_suc-le x = omega arith

abbrev pub u64_max : ℕ
u64_max = 18446744073709551615

-- `x.saturating_add(1)` on u64.
abbrev pub saturating_suc64 : ℕ → ℕ
saturating_suc64 x = min (x + 1) u64_max
