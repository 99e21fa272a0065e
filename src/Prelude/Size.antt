-- ===== src/Prelude/Size.antt =====
-- `size_t` arithmetic on a 64-bit machine, wrap-around included.
use Prim.Native.Nat.{ℕ, ◌+◌, ◌-◌, ◌%◌, ◌^◌, ◌≤◌}
use mathlib.Core.Path.{◌≡◌}
use native.Mathlib.Omega.{arith}

abbrev pub size_mod : ℕ
size_mod = 2 ^ 64

-- The largest size of a `std::vector<char>`, and of any object in memory.
abbrev pub max_size : ℕ
max_size = 2 ^ 63 - 1

unfoldable pub add_size : ℕ → ℕ → ℕ
add_size a b = (a + b) % size_mod

unfoldable pub sub_size : ℕ → ℕ → ℕ
sub_size a b = (a + size_mod - b) % size_mod

pub add_size-eq : (a b : ℕ) → a ≤ max_size → b ≤ max_size → add_size a b ≡ a + b
unfolding add_size
add_size-eq a b ha hb = omega arith

pub sub_size-eq : (a b : ℕ) → b ≤ a → a ≤ max_size → sub_size a b ≡ a - b
unfolding sub_size
sub_size-eq a b h ha = omega arith
