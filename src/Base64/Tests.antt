-- ===== src/Base64/Tests.antt =====
-- Runs of the base64 functions, and the theorems at concrete inputs.
use easy_network.Base.{◌≡◌, refl, arith, codes, done}
use easy_network.Base64.{
  symbol, first_symbol, second_symbol, third_symbol, fourth_symbol, encode_groups, encode_tail,
  regular_string_to_base64_string, base64_string_to_regular_string,
}
use easy_network.Base64.RoundTrip.{decode-encode}

encode_run : regular_string_to_base64_string (codes "light work.") ≡ codes "bGlnaHQgd29yay4="
unfolding regular_string_to_base64_string encode_groups encode_tail first_symbol second_symbol
    third_symbol fourth_symbol symbol
encode_run = refl

decode-encode_example :
    base64_string_to_regular_string 12 (regular_string_to_base64_string (codes "light work."))
    ≡ done (codes "light work.")
decode-encode_example =
    decode-encode 12 (codes "light work.") (omega arith) (omega arith) (omega arith) (omega arith)
