-- ===== src/Base/Word.antt =====
-- `uint64` sums and differences, which wrap around.
use Prim.Native.Nat.{ℕ, ◌+◌, ◌-◌, ◌%◌, ◌≤◌, ◌<◌}
use mathlib.Core.Path.{◌≡◌}
use native.Mathlib.Omega.{arith}

abbrev pub u64_mod : ℕ
u64_mod = 18446744073709551616

unfoldable pub add_u64 : ℕ → ℕ → ℕ
add_u64 a b = (a + b) % u64_mod

unfoldable pub sub_u64 : ℕ → ℕ → ℕ
sub_u64 a b = (a + u64_mod - b) % u64_mod

pub sub_u64_of_le : (a b : ℕ) → b ≤ a → a < u64_mod → sub_u64 a b ≡ a - b
unfolding sub_u64
sub_u64_of_le a b h k = omega arith

pub sub_u64_of_lt : (a b : ℕ) → a < b → b < u64_mod → sub_u64 a b ≡ a + u64_mod - b
unfolding sub_u64
sub_u64_of_lt a b h k = omega arith

pub add_u64_of_lt : (a b : ℕ) → a + b < u64_mod → add_u64 a b ≡ a + b
unfolding add_u64
add_u64_of_lt a b h = omega arith
