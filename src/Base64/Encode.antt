-- ===== src/Base64/Encode.antt =====
-- The encoding, by recursion on the text.
use easy_network.Base.{
  ℕ, suc, ◌+◌, ◌-◌, ◌*◌, ◌/◌, ◌%◌, ◌≡◌, refl, sym, ap, ◌∙◌, [], ◌∷◌, ◌++◌, arith, Bytes, length,
  get_or,
}
use easy_network.Base64.{
  symbol, first_symbol, second_symbol, third_symbol, fourth_symbol, encode_groups, encode_tail,
  regular_string_to_base64_string,
}

unfoldable pub encoding : Bytes → Bytes
encoding [] = []
encoding (a ∷ []) = first_symbol a ∷ symbol (a % 4 * 16) ∷ b'=' ∷ b'=' ∷ []
encoding (a ∷ b ∷ []) = first_symbol a ∷ second_symbol a b ∷ symbol (b % 16 * 4) ∷ b'=' ∷ []
encoding (a ∷ b ∷ c ∷ s) =
    first_symbol a ∷ second_symbol a b ∷ third_symbol b c ∷ fourth_symbol c ∷ encoding s

-- The tail does not depend on the groups before it.
tail_step : (a b c : ℕ) (s : Bytes) → encode_tail (a ∷ b ∷ c ∷ s) ≡ encode_tail s
unfolding encode_tail
tail_step a b c [] = refl
tail_step a b c (x ∷ []) = refl
tail_step a b c (x ∷ y ∷ s) = ground (arith, last, before)
  where
    last :
        get_or (a ∷ b ∷ c ∷ x ∷ y ∷ s) (length (a ∷ b ∷ c ∷ x ∷ y ∷ s) - 1) 0
        ≡ get_or (x ∷ y ∷ s) (length (x ∷ y ∷ s) - 1) 0
    last =
        let e : length (a ∷ b ∷ c ∷ x ∷ y ∷ s) - 1 ≡ suc (suc (suc (suc (length s)))) =
          omega arith in
        let e' : length (x ∷ y ∷ s) - 1 ≡ suc (length s) = omega arith in
        ap (λ (i : ℕ). get_or (a ∷ b ∷ c ∷ x ∷ y ∷ s) i 0) e
        ∙ sym (ap (λ (i : ℕ). get_or (x ∷ y ∷ s) i 0) e')

    before :
        get_or (a ∷ b ∷ c ∷ x ∷ y ∷ s) (length (a ∷ b ∷ c ∷ x ∷ y ∷ s) - 2) 0
        ≡ get_or (x ∷ y ∷ s) (length (x ∷ y ∷ s) - 2) 0
    before =
        let e : length (a ∷ b ∷ c ∷ x ∷ y ∷ s) - 2 ≡ suc (suc (suc (length s))) = omega arith in
        let e' : length (x ∷ y ∷ s) - 2 ≡ length s = omega arith in
        ap (λ (i : ℕ). get_or (a ∷ b ∷ c ∷ x ∷ y ∷ s) i 0) e
        ∙ sym (ap (λ (i : ℕ). get_or (x ∷ y ∷ s) i 0) e')

groups-tail : (s : Bytes) → encode_groups s ++ encode_tail s ≡ encoding s
unfolding encode_groups encoding
groups-tail [] = unfold encode_tail in refl
groups-tail (a ∷ []) = unfold encode_tail in refl
groups-tail (a ∷ b ∷ []) = unfold encode_tail in refl
groups-tail (a ∷ b ∷ c ∷ s) =
    ap (λ (t : Bytes). first_symbol a ∷ second_symbol a b ∷ third_symbol b c ∷ fourth_symbol c ∷ t)
      (ap (λ (t : Bytes). encode_groups s ++ t) (tail_step a b c s) ∙ groups-tail s)

pub regular_string_to_base64_string-encoding :
    (s : Bytes) → regular_string_to_base64_string s ≡ encoding s
unfolding regular_string_to_base64_string
regular_string_to_base64_string-encoding s = groups-tail s

pub length-encoding : (s : Bytes) → length (encoding s) ≡ (length s + 2) / 3 * 4
unfolding encoding
length-encoding [] = refl
length-encoding (a ∷ []) = refl
length-encoding (a ∷ b ∷ []) = refl
length-encoding (a ∷ b ∷ c ∷ s) = omega (arith, length-encoding s)

-- The encoding has four symbols for every three bytes begun.
pub length-regular_string_to_base64_string :
    (s : Bytes) → length (regular_string_to_base64_string s) ≡ (length s + 2) / 3 * 4
length-regular_string_to_base64_string s =
    rw regular_string_to_base64_string-encoding (length-encoding s)
