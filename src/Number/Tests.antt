-- ===== src/Number/Tests.antt =====
-- Runs of the conversions, and the theorems at concrete inputs.
use easy_network.Base.{◌≡◌, refl, codes, lt_wf}
use native.Mathlib.Decide.{dec_lt}
use easy_network.Number.{
  all_digits, is_can_be_digit, converted, out_of_range, standard_conversion, string_to_int,
  greatest_int, greatest_long, digits_before, to_string,
}

parse_run : string_to_int greatest_int (codes "0042") ≡ converted 42
unfolding string_to_int is_can_be_digit all_digits standard_conversion
parse_run = refl

parse_too_great : string_to_int greatest_int (codes "2147483648") ≡ out_of_range
unfolding string_to_int is_can_be_digit all_digits standard_conversion
parse_too_great = refl

parse_long : string_to_int greatest_long (codes "2147483648") ≡ converted 2_147_483_648
unfolding string_to_int is_can_be_digit all_digits standard_conversion
parse_long = refl

print_run : to_string 1050 ≡ codes "1050"
unfolding to_string digits_before lt_wf dec_lt
print_run = refl
