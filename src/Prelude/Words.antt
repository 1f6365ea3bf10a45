-- ===== src/Prelude/Words.antt =====
-- The machine's unsigned 64-bit integers, as natural numbers with their wrap-around written out.
use Prim.Native.Nat.{ℕ, ◌+◌, ◌-◌, ◌%◌, ◌≤◌, ◌<◌}
use mathlib.Core.Path.{◌≡◌}
use native.Mathlib.Omega.{arith}

-- 2 ^ 64.
abbrev pub u64_mod : ℕ
u64_mod = 18_446_744_073_709_551_616

-- math.MaxUint64.
abbrev pub max_u64 : ℕ
max_u64 = 18_446_744_073_709_551_615

-- `a + b` and `a - b` on uint64.
unfoldable pub add64 : ℕ → ℕ → ℕ
add64 a b = (a + b) % 18_446_744_073_709_551_616

unfoldable pub sub64 : ℕ → ℕ → ℕ
sub64 a b = (a + 18_446_744_073_709_551_616 - b) % 18_446_744_073_709_551_616

pub add64-eq : (a b : ℕ) → a + b < u64_mod → add64 a b ≡ a + b
unfolding add64
add64-eq a b h = omega arith

pub sub64-eq : (a b : ℕ) → b ≤ a → a < u64_mod → sub64 a b ≡ a - b
unfolding sub64
sub64-eq a b h k = omega arith

pub add64-lt : (a b : ℕ) → add64 a b < u64_mod
unfolding add64
add64-lt a b = omega arith
