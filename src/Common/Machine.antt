-- ===== src/Common/Machine.antt =====
-- `usize` and `u64` arithmetic of a 64-bit target without overflow checks.
use Prim.Native.Nat.{ℕ, ◌+◌, ◌-◌, ◌%◌, ◌^◌, ◌≤◌, ◌<◌}
use mathlib.Core.Path.{◌≡◌}
use native.Mathlib.Omega.{arith}

abbrev pub word_mod : ℕ
word_mod = 2 ^ 64

-- `usize::MAX` and `u64::MAX`.
abbrev pub word_max : ℕ
word_max = 2 ^ 64 - 1

abbrev pub add_word : ℕ → ℕ → ℕ
add_word a b = (a + b) % 2 ^ 64

-- `-` on ℕ stops at 0, so the modulus is added first.
abbrev pub sub_word : ℕ → ℕ → ℕ
sub_word a b = (a + 2 ^ 64 - b) % 2 ^ 64

pub add_word-eq-add : (a b : ℕ) → a + b < 2 ^ 64 → add_word a b ≡ a + b
add_word-eq-add a b h = omega arith

pub sub_word-eq-sub : (a b : ℕ) → b ≤ a → a < 2 ^ 64 → sub_word a b ≡ a - b
sub_word-eq-sub a b h k = omega arith
