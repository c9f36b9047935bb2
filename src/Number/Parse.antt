-- ===== src/Number/Parse.antt =====
-- What the conversions accept, and what they return.
use easy_network.Base.{
  ℕ, ◌≤◌, ◌<◌, ◌≡◌, ◌≢◌, ◌↔◌, refl, true, [], ◌∷◌, arith, Bytes, All, Bool-cases, inl, inr,
}
use easy_network.Number.{
  all_digits, is_can_be_digit, decimal, converted, refused, out_of_range, standard_conversion,
  string_to_int,
}

abbrev pub IsDigit : ℕ → Type 0
IsDigit c = (b'0' ≤ c) × (c ≤ b'9')

all_digits_sound : (s : Bytes) → all_digits s ≡ true → All IsDigit s
unfolding all_digits
all_digits_sound [] h = tt
all_digits_sound (c ∷ s) h = ground (arith, all_digits_sound s)

all_digits_complete : (s : Bytes) → All IsDigit s → all_digits s ≡ true
unfolding all_digits
all_digits_complete [] h = refl
all_digits_complete (c ∷ s) (hc, hs) = ground (arith, all_digits_complete s hs)

-- `IsCanBeDigit` holds of the texts that are not empty and consist of digits, and of no other.
pub is_can_be_digit_iff : (s : Bytes) → (is_can_be_digit s ≡ true) ↔ ((s ≢ []) × All IsDigit s)
unfolding is_can_be_digit
is_can_be_digit_iff [] = (λ h. cc, λ h. absurd (h.0 refl))
is_can_be_digit_iff (c ∷ s) = (
  λ h. (λ e. cc, all_digits_sound (c ∷ s) (ground arith)),
  λ h. ground (arith, all_digits_complete (c ∷ s) h.1, h.1.0),
)

-- `StringToInt` stores a number only for a text of digits, and then the number that the digits spell,
-- which the type can hold.
pub string_to_int_sound :
    (greatest : ℕ) (s : Bytes) (n : ℕ)
    → string_to_int greatest s ≡ converted n
    → (s ≢ []) × All IsDigit s × (n ≡ decimal 0 s) × (n ≤ greatest)
unfolding string_to_int standard_conversion
string_to_int_sound greatest s n h = elim (Bool-cases (is_can_be_digit s)) [
  | inl e ↦
      let (nonempty, digits) = (is_can_be_digit_iff s).0 e in
      (nonempty, digits, ground arith, ground arith)
  | inr e ↦ absurd (ground arith)
]

-- It throws exactly on the texts of digits whose number is too great for the type.
pub string_to_int-out_of_range :
    (greatest : ℕ) (s : Bytes)
    → s ≢ []
    → All IsDigit s
    → (string_to_int greatest s ≡ out_of_range) ↔ (greatest < decimal 0 s)
unfolding string_to_int standard_conversion
string_to_int-out_of_range greatest s nonempty digits =
    let e = (is_can_be_digit_iff s).1 (nonempty, digits) in
    (λ h. ground (arith, e), λ h. ground (arith, e))

-- A text that starts with a minus sign is refused, also by the overloads for signed types.
pub string_to_int_minus : (greatest : ℕ) (s : Bytes) → string_to_int greatest (b'-' ∷ s) ≡ refused
unfolding string_to_int is_can_be_digit all_digits
string_to_int_minus greatest s = refl
