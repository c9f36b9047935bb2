-- ===== src/Base256.antt =====
-- The functions of EN_Functions.h between numbers and strings in base 256. A number type is the number of
-- its values: the arithmetic on it is modulo `size`.
pub mod RoundTrip
mod Tests
use easy_network.Base.{
  ℕ, zero, suc, ◌+◌, ◌*◌, ◌/◌, ◌%◌, ◌<◌, [], ◌∷◌, ◌++◌, Bytes, ◌==◌, if◌then◌else◌, arith, Run,
  done, fault, lt_wf,
}
use mathlib.Core.WellFounded.{Acc}

pub quotient-lt : (m : ℕ) → suc m / 256 < suc m
quotient-lt m = omega arith

-- `while(n > 0)`: the last eight bits, and the shift.
unfoldable pub b256_loop : (n : ℕ) → Acc ◌<◌ n → Bytes
b256_loop zero a = []
b256_loop (suc m) (Acc.intro _ smaller) =
    (suc m % 256) ∷ b256_loop (suc m / 256) (smaller _ (quotient-lt m))

-- `IntToB256String`, and `CIntToB256String` with `%` and `/` in place of `&` and `>>`.
unfoldable pub int_to_b256_string : ℕ → Bytes
int_to_b256_string n = if n == 0 then 0 ∷ [] else b256_loop n (lt_wf.apply n)

-- The loop from the last character to the second one.
unfoldable pub b256_value : ℕ → Bytes → ℕ
b256_value size [] = 0
b256_value size (c ∷ cs) = ((b256_value size cs + c) % size) * 256 % size

-- `B256StringToInt`, and `CB256StringToInt` with `<<` in place of `*`. For an empty string `--str.rend()`
-- stands before the end, and the loop runs out of the string.
unfoldable pub b256_string_to_int : ℕ → Bytes → Run ℕ
b256_string_to_int size [] = fault
b256_string_to_int size (c ∷ cs) = done ((b256_value size cs + c) % size)
