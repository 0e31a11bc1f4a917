-- ===== src/Common/Words.antt =====
-- Machine words: the saturating operations of `u32` and `u64`. No code of the program is modelled
-- here.
use Prim.Native.Nat.{ℕ, ◌+◌, ◌≤◌, min}
use native.Mathlib.Omega.{arith}

abbrev pub u32_max : ℕ
u32_max = 4294967295

abbrev pub u64_max : ℕ
u64_max = 18446744073709551615

-- `a.saturating_add(b)` on `u32` and on `u64`. `saturating_sub` is `-`, which stops at 0.
abbrev pub sat32 : ℕ → ℕ → ℕ
sat32 a b = min (a + b) u32_max

abbrev pub sat64 : ℕ → ℕ → ℕ
sat64 a b = min (a + b) u64_max

pub sat32_bounds : (a b : ℕ) → (sat32 a b ≤ u32_max) × (sat32 a b ≤ a + b)
sat32_bounds a b = omega arith
