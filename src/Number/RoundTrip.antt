-- ===== src/Number/RoundTrip.antt =====
-- Reading back what std::to_string wrote.
use mathlib.Core.WellFounded.{Acc}
use easy_network.Base.{ℕ, ◌+◌, ◌/◌, ◌%◌, ◌≤◌, ◌<◌, ◌≡◌, ◌≢◌, [], ◌∷◌, arith, Bytes, All, lt_wf}
use easy_network.Number.{
  decimal, converted, string_to_int, standard_conversion, digits_before, to_string,
}
use easy_network.Number.Parse.{IsDigit, is_can_be_digit_iff}

digits_before-decimal :
    (out : Bytes) (n : ℕ) (w : Acc ◌<◌ n) → decimal 0 (digits_before out n w) ≡ decimal n out
unfolding digits_before
digits_before-decimal out n (Acc.intro _ smaller) = grind (
  arith,
  λ (p : n / 10 < n). digits_before-decimal ((b'0' + n % 10) ∷ out) (n / 10) (smaller (n / 10) p),
)

digits_before-IsDigit :
    (out : Bytes) (n : ℕ) (w : Acc ◌<◌ n) → All IsDigit out → All IsDigit (digits_before out n w)
unfolding digits_before
digits_before-IsDigit out n (Acc.intro _ smaller) h = grind (
  arith,
  λ (p : n / 10 < n).
      digits_before-IsDigit ((b'0' + n % 10) ∷ out) (n / 10) (smaller (n / 10) p)
        ((omega arith, omega arith), h),
)

digits_before-ne-nil :
    (out : Bytes) (n : ℕ) (w : Acc ◌<◌ n) → (out ≢ []) → digits_before out n w ≢ []
unfolding digits_before
digits_before-ne-nil out n (Acc.intro _ smaller) h = grind (
  arith,
  λ (p : n / 10 < n).
      digits_before-ne-nil ((b'0' + n % 10) ∷ out) (n / 10) (smaller (n / 10) p) (λ e. cc),
)

pub to_string-decimal : (n : ℕ) → decimal 0 (to_string n) ≡ n
unfolding to_string
to_string-decimal n = ground (arith, digits_before-decimal [] n (lt_wf.apply n))

pub to_string-IsDigit : (n : ℕ) → All IsDigit (to_string n)
unfolding to_string
to_string-IsDigit n = ground (arith, digits_before-IsDigit [] n (lt_wf.apply n) tt)

-- A positive number has a first digit.
digits_before_positive : (n : ℕ) (w : Acc ◌<◌ n) → 0 < n → digits_before [] n w ≢ []
unfolding digits_before
digits_before_positive n (Acc.intro _ smaller) h = grind (
  arith,
  λ (p : n / 10 < n).
      digits_before-ne-nil ((b'0' + n % 10) ∷ []) (n / 10) (smaller (n / 10) p) (λ e. cc),
)

pub to_string-ne-nil : (n : ℕ) → to_string n ≢ []
unfolding to_string
to_string-ne-nil n = ground (arith, digits_before_positive n (lt_wf.apply n))

-- `StringToInt` reads back every number that std::to_string wrote and the type can hold.
pub string_to_int-to_string :
    (greatest n : ℕ) → n ≤ greatest → string_to_int greatest (to_string n) ≡ converted n
unfolding string_to_int standard_conversion
string_to_int-to_string greatest n h = ground (
  arith,
  (is_can_be_digit_iff (to_string n)).1 (to_string-ne-nil n, to_string-IsDigit n),
  to_string-decimal n,
)
