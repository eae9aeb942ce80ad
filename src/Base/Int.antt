-- ===== src/Base/Int.antt =====
-- Signed integers over the native numbers, and the conversions of C between words and integers.
use Prim.Native.Nat.{ℕ, ◌-◌, ◌%◌, ◌^◌, ◌<◌}
use mathlib.Core.Path.{◌≡◌}
use native.Mathlib.Omega.{arith}
use mysql_replication_c.Base.Tests.{ltb, if◌then◌else◌}

-- `negsuc n` is -(n + 1).
pub data ℤ : Type 0 where
  pos : ℕ → ℤ
  negsuc : ℕ → ℤ

-- The integer that a two's complement word of `w` bits stands for.
abbrev pub signed : ℕ → ℕ → ℤ
signed w n = if ltb n (2 ^ (w - 1)) then pos n else negsuc (2 ^ w - n - 1)

-- A conversion to uint32_t.
abbrev pub u32 : ℕ → ℕ
u32 n = n % 2 ^ 32

-- A conversion to int32_t.
abbrev pub i32 : ℕ → ℤ
i32 n = signed 32 (u32 n)

pub i32-pos : (n : ℕ) → n < 2 ^ 31 → i32 n ≡ pos n
i32-pos n h = ground arith
