-- ===== src/Base/Words.antt =====
-- Machine integers as bit patterns: Go's int32 and int (64 bits), with their wrap-around.
use Prim.Native.Nat.{ℕ, ◌+◌, ◌-◌, ◌^◌, ◌%◌, ◌≤◌, ◌<◌}
use mathlib.Core.Path.{◌≡◌}
use mathlib.Core.Logic.{◌⊎◌}
use native.Mathlib.Omega.{arith}
use boundflow.Base.Bools.{ltb, if◌then◌else◌}

-- `a + b` at int32 and at int.
abbrev pub add_32 : ℕ → ℕ → ℕ
add_32 a b = (a + b) % 2 ^ 32

abbrev pub add_64 : ℕ → ℕ → ℕ
add_64 a b = (a + b) % 2 ^ 64

-- `int(x)` for an int32 `x`: the sign bit is copied upwards.
abbrev pub int_of_32 : ℕ → ℕ
int_of_32 x = if ltb x (2 ^ 31) then x else x + (2 ^ 64 - 2 ^ 32)

-- The patterns of the ints that an int32 holds.
abbrev pub Fits : ℕ → Type 0
Fits n = (n < 2 ^ 31) ⊎ ((2 ^ 64 ≤ n + 2 ^ 31) × (n < 2 ^ 64))

-- `int(int32(n))` is `n` where it fits.
pub int_of_32-mod : (n : ℕ) → Fits n → int_of_32 (n % 2 ^ 32) ≡ n
int_of_32-mod n h = ground arith

pub int_of_32-Fits : (n : ℕ) → n < 2 ^ 32 → Fits (int_of_32 n)
int_of_32-Fits n h = ground arith
