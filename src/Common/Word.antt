-- ===== src/Common/Word.antt =====
-- A C `int` or `unsigned` of 32 bits is its bit pattern, a number below 2 ^ 32: addition and
-- subtraction wrap, and the order on `int` reads the top bit as the sign.
use Prim.Native.Nat.{ℕ, ◌+◌, ◌-◌, ◌*◌, ◌/◌, ◌%◌, ◌^◌}
use mathlib.Core.Bool.{Bool}
use co_d4x_client_pub.Common.Tests.{ltb, leb, if◌then◌else◌}

abbrev pub u32_mod : ℕ
u32_mod = 2 ^ 32

abbrev pub minus_one : ℕ
minus_one = 2 ^ 32 - 1

abbrev pub add32 : ℕ → ℕ → ℕ
add32 a b = (a + b) % 2 ^ 32

abbrev pub sub32 : ℕ → ℕ → ℕ
sub32 a b = (a + 2 ^ 32 - b) % 2 ^ 32

abbrev pub mul32 : ℕ → ℕ → ℕ
mul32 a b = a * b % 2 ^ 32

-- `a < b` and `a <= b` on `int`.
abbrev pub slt : ℕ → ℕ → Bool
slt a b = ltb ((a + 2 ^ 31) % 2 ^ 32) ((b + 2 ^ 31) % 2 ^ 32)

abbrev pub sle : ℕ → ℕ → Bool
sle a b = leb ((a + 2 ^ 31) % 2 ^ 32) ((b + 2 ^ 31) % 2 ^ 32)

-- A `short` that is read as an `int`.
abbrev pub sext16 : ℕ → ℕ
sext16 v = if ltb v (2 ^ 15) then v else v + (2 ^ 32 - 2 ^ 16)

-- `x >> 1` on `int` keeps the sign.
abbrev pub asr1 : ℕ → ℕ
asr1 w = if ltb w (2 ^ 31) then w / 2 else w / 2 + 2 ^ 31
