-- ===== src/Number.antt =====
-- `IsCanBeDigit` and the overloads of `StringToInt` of EN_Functions.cpp, and std::to_string.
pub mod Parse
pub mod RoundTrip
mod Tests
use mathlib.Core.Logic.{dite}
use mathlib.Core.WellFounded.{Acc}
use mathlib.Core.List.{foldl}
use native.Mathlib.Decide.{dec_lt}
use easy_network.Base.{
  ℕ, zero, suc, ◌+◌, ◌-◌, ◌*◌, ◌/◌, ◌%◌, ◌^◌, ◌<◌, Bool, true, false, not, ◌&&◌, ◌||◌, [], ◌∷◌,
  arith, Bytes, ltb, leb, ◌==◌, if◌then◌else◌, lt_wf,
}

-- `for (char it : str)`; a byte of 128 or more is a negative char, which is no digit either.
pub all_digits : Bytes → Bool
all_digits [] = true
all_digits (c ∷ str) = let rest = all_digits str in if ltb c b'0' || ltb b'9' c then false else rest

pub is_can_be_digit : Bytes → Bool
is_can_be_digit [] = false
is_can_be_digit (c ∷ str) =
    if (ltb c b'0' && not (c == b'-')) || ltb b'9' c then false else all_digits (c ∷ str)

-- The number that a text of digits stands for.
abbrev pub decimal : ℕ → Bytes → ℕ
decimal = foldl (λ n c. n * 10 + (c - b'0'))

-- `converted`: the function returned true and stored the number; `refused`: it returned false and
-- stored nothing; `out_of_range`: std::stoi and its like threw that exception.
pub data Conversion : Type 0 where
  converted : ℕ → Conversion
  refused : Conversion
  out_of_range : Conversion

-- std::stoi, std::stol, …: of a text of digits, into a type whose greatest value is `greatest`.
pub standard_conversion : ℕ → Bytes → Conversion
standard_conversion greatest str =
    if leb (decimal 0 str) greatest then converted (decimal 0 str) else out_of_range

pub string_to_int : ℕ → Bytes → Conversion
string_to_int greatest str =
    if is_can_be_digit str then standard_conversion greatest str else refused

-- The greatest values of the types of the overloads, where long has 64 bits.
abbrev pub greatest_int : ℕ
greatest_int = 2 ^ 31 - 1

abbrev pub greatest_long : ℕ
greatest_long = 2 ^ 63 - 1

abbrev pub greatest_unsigned_long : ℕ
greatest_unsigned_long = 2 ^ 64 - 1

pub tenth-lt : (n : ℕ) → 0 < n → n / 10 < n
tenth-lt n h = omega arith

unfoldable pub digits_before : Bytes → (n : ℕ) → Acc ◌<◌ n → Bytes
digits_before out n (Acc.intro _ smaller) =
    dite (dec_lt 0 n)
      (λ more. digits_before ((b'0' + n % 10) ∷ out) (n / 10) (smaller _ (tenth-lt n more)))
      (λ _. out)

-- std::to_string of an unsigned number: decimal, with no leading zero.
unfoldable pub to_string : ℕ → Bytes
to_string n = if n == 0 then b'0' ∷ [] else digits_before [] n (lt_wf.apply n)
