-- ===== src/Prelude/Words.antt =====
-- Unsigned machine integers: `u8`, `u32` and a 64-bit `usize`, with the wrap-around written out.
use Prim.Native.Nat.{ℕ, ◌+◌, ◌-◌, ◌%◌, ◌≤◌, ◌<◌}
use mathlib.Core.Path.{◌≡◌}
use native.Mathlib.Omega.{arith}

abbrev pub u8_mod : ℕ
u8_mod = 256

abbrev pub u32_mod : ℕ
u32_mod = 4294967296

abbrev pub usize_mod : ℕ
usize_mod = 18446744073709551616

unfoldable pub add32 : ℕ → ℕ → ℕ
add32 a b = (a + b) % u32_mod

unfoldable pub add64 : ℕ → ℕ → ℕ
add64 a b = (a + b) % usize_mod

-- `-` on ℕ stops at 0, so the modulus is added first.
unfoldable pub sub64 : ℕ → ℕ → ℕ
sub64 a b = (a + usize_mod - b) % usize_mod

pub add32_lem : (a b : ℕ) → a + b < u32_mod → add32 a b ≡ a + b
unfolding add32
add32_lem a b h = omega arith

pub add64_lem : (a b : ℕ) → a + b < usize_mod → add64 a b ≡ a + b
unfolding add64
add64_lem a b h = omega arith

pub sub64_lem : (a b : ℕ) → b ≤ a → a < usize_mod → sub64 a b ≡ a - b
unfolding sub64
sub64_lem a b h k = omega arith

pub add32-lt : (a b : ℕ) → add32 a b < u32_mod
unfolding add32
add32-lt a b = omega arith

pub add64-lt : (a b : ℕ) → add64 a b < usize_mod
unfolding add64
add64-lt a b = omega arith

pub sub64-lt : (a b : ℕ) → sub64 a b < usize_mod
unfolding sub64
sub64-lt a b = omega arith
