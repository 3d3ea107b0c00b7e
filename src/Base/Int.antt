-- ===== src/Base/Int.antt =====
-- Signed integers over the native numbers, for the `int` values that the code compares with -1.
use native.Mathlib.Decide.{ℕ_discrete}
use Prim.Native.Nat.{ℕ, ◌+◌, ◌-◌, ◌*◌, ◌%◌, ◌^◌}
use mathlib.Core.Bool.{Bool, true, false}
use rubcase_lab.Base.Tests.{ltb, if◌then◌else◌}

-- `negsuc n` is -(n + 1).
pub data ℤ : Type 0 where
  pos : ℕ → ℤ
  negsuc : ℕ → ℤ

unfoldable pub ℤ-discrete : Discrete ℤ
ℤ-discrete = hlevel ℕ_discrete

-- The bit pattern of an `int32_t`, and the integer that a bit pattern stands for.
unfoldable pub bits32 : ℤ → ℕ
bits32 (pos n) = n % 2 ^ 32
bits32 (negsuc n) = 2 ^ 32 - 1 - n % 2 ^ 32

unfoldable pub int32 : ℕ → ℤ
int32 x = if ltb x (2 ^ 31) then pos x else negsuc (2 ^ 32 - 1 - x)

-- `x * k` and `x + 1` on `int32_t`, with wrap-around.
unfoldable pub mul32 : ℤ → ℕ → ℤ
unfolding bits32 int32
mul32 z k = int32 (bits32 z * k % 2 ^ 32)

unfoldable pub inc32 : ℤ → ℤ
unfolding bits32 int32
inc32 z = int32 ((bits32 z + 1) % 2 ^ 32)

-- `x - 1` on `int32_t`.
unfoldable pub dec32 : ℤ → ℤ
unfolding bits32 int32
dec32 z = int32 ((bits32 z + (2 ^ 32 - 1)) % 2 ^ 32)

-- `<` on signed integers.
unfoldable pub lt_int : ℤ → ℤ → Bool
lt_int (pos a) (pos b) = ltb a b
lt_int (pos a) (negsuc b) = false
lt_int (negsuc a) (pos b) = true
lt_int (negsuc a) (negsuc b) = ltb b a
