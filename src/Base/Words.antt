-- ===== src/Base/Words.antt =====
-- `u64` arithmetic of a release build, which wraps, and the checked operations of the standard library.
use Prim.Native.Nat.{ℕ, ◌+◌, ◌-◌, ◌*◌, ◌%◌, ◌^◌, ◌<◌, ◌≤◌}
use native.Mathlib.Omega.{arith}
use mathlib.Core.Option.{Option, none, some}
use next_boot.Base.Tests.{ltb, if◌then◌else◌}

-- The number of values of a `u64`.
abbrev pub u64_size : ℕ
u64_size = 2 ^ 64

abbrev pub IsU64 : ℕ → Type 0
IsU64 n = n < u64_size

-- `a + b`, `a - b`, `a * b`
abbrev pub add_u64 : ℕ → ℕ → ℕ
add_u64 a b = (a + b) % u64_size

abbrev pub sub_u64 : ℕ → ℕ → ℕ
sub_u64 a b = (a + u64_size - b) % u64_size

abbrev pub mul_u64 : ℕ → ℕ → ℕ
mul_u64 a b = a * b % u64_size

-- `a.checked_add(b)`, `a.checked_mul(b)`
abbrev pub checked_add : ℕ → ℕ → Option ℕ
checked_add a b = if ltb (a + b) u64_size then some (a + b) else none

abbrev pub checked_mul : ℕ → ℕ → Option ℕ
checked_mul a b = if ltb (a * b) u64_size then some (a * b) else none

pub product_le : (a b c : ℕ) → a ≤ b → a * c ≤ b * c
product_le a b c h = grind arith

pub le_product : (a c : ℕ) → 0 < c → a ≤ a * c
le_product a c h = grind arith
