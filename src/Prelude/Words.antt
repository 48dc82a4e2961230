-- ===== src/Prelude/Words.antt =====
-- Machine words: the arithmetic of `u64` and `u128` in a release build, where `+` and `*` wrap.
use Prim.Native.Nat.{ℕ, ◌+◌, ◌*◌, ◌%◌, ◌<◌}
use mathlib.Core.Path.{◌≡◌}
use native.Mathlib.Omega.{arith}

abbrev pub u64_mod : ℕ
u64_mod = 18446744073709551616

abbrev pub u128_mod : ℕ
u128_mod = 340282366920938463463374607431768211456

abbrev pub add64 : ℕ → ℕ → ℕ
add64 a b = (a + b) % u64_mod

abbrev pub mul64 : ℕ → ℕ → ℕ
mul64 a b = (a * b) % u64_mod

abbrev pub add128 : ℕ → ℕ → ℕ
add128 a b = (a + b) % u128_mod

abbrev pub mul128 : ℕ → ℕ → ℕ
mul128 a b = (a * b) % u128_mod

-- `x as u64` of a `u128`.
abbrev pub as_u64 : ℕ → ℕ
as_u64 x = x % u64_mod

-- A product of two `u64` values fits a `u128`.
pub mul128-eq-* : (a b : ℕ) → a < u64_mod → b < u64_mod → mul128 a b ≡ a * b
mul128-eq-* a b ha hb = grind arith
