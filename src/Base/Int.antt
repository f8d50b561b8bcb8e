-- ===== src/Base/Int.antt =====
-- C++ `int` and `short` values as integers; `negsuc n` is -(n + 1).
use Prim.Native.Nat.{ℕ, zero, suc, ◌-◌, ◌%◌, ◌^◌}
use engi_cs.Base.Tests.{ltb, if◌then◌else◌}

pub data ℤ : Type 0 where
  pos : ℕ → ℤ
  negsuc : ℕ → ℤ

-- minus a natural number
abbrev pub neg : ℕ → ℤ
neg zero = pos 0
neg (suc n) = negsuc n

-- The number that a 32-bit pattern stands for, and the remainder by a positive number: C++
-- rounds towards zero.
abbrev pub rem32 : ℕ → ℕ → ℤ
rem32 w m = if ltb w (2 ^ 31) then pos (w % m) else neg ((2 ^ 32 - w) % m)

-- The `short` of a 16-bit pattern, widened to `int`, and the 16-bit pattern of an `int`.
abbrev pub short_of_word : ℕ → ℤ
short_of_word w = if ltb w (2 ^ 15) then pos w else neg (2 ^ 16 - w)

abbrev pub word_of_int : ℤ → ℕ
word_of_int (pos n) = n % 2 ^ 16
word_of_int (negsuc n) = 2 ^ 16 - 1 - n % 2 ^ 16
