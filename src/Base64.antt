-- ===== src/Base64.antt =====
-- `B64ConvertSymbol`, `RegularStringToBase64String` and `Base64StringToRegularString` of
-- EN_Functions.cpp. Shifts and masks of bytes are written as `/`, `*` and `%` by powers of two.
pub mod Symbols
pub mod Encode
pub mod RoundTrip
mod Tests
use easy_network.Base.{
  ℕ, zero, suc, ◌+◌, ◌-◌, ◌*◌, ◌/◌, ◌%◌, ◌^◌, Bool, true, false, ◌&&◌, [], ◌∷◌, ◌++◌, Bytes, codes,
  length, get_or, leb, ◌==◌, if◌then◌else◌, Run, done, stuck, ◌>>=◌,
}
use easy_network.Text.{char_at}

-- `B64Symbols`
abbrev pub b64_symbols : Bytes
b64_symbols = codes "ABCDEFGHIJKLMNOPQRSTUVWXYZabcdefghijklmnopqrstuvwxyz0123456789+/"

pub symbol : ℕ → ℕ
symbol i = get_or b64_symbols i 0

pub b64_convert_symbol : ℕ → ℕ
b64_convert_symbol c =
    if leb 48 c && leb c 57
    then (c + 4) % 256
    else if leb 65 c && leb c 90
    then c - 65
    else if leb 97 c && leb c 122
    then c - 71
    else if c == b'+'
    then 62
    else if c == b'/'
    then 63
    else 0

-- The four symbols of a group of three bytes; a missing byte counts as zero.
pub first_symbol : ℕ → ℕ
first_symbol a = symbol (a / 4)

pub second_symbol : ℕ → ℕ → ℕ
second_symbol a b = symbol (a % 4 * 16 + b / 16)

pub third_symbol : ℕ → ℕ → ℕ
third_symbol b c = symbol (b % 16 * 4 + c / 64)

pub fourth_symbol : ℕ → ℕ
fourth_symbol c = symbol (c % 64)

-- The loop `for (i = 0; i <= str.length() - 3; i += 3)`, over what `i` has not passed.
pub encode_groups : Bytes → Bytes
encode_groups (a ∷ b ∷ c ∷ rest) =
    first_symbol a ∷ second_symbol a b ∷ third_symbol b c ∷ fourth_symbol c ∷ encode_groups rest
encode_groups _ = []

-- The one or two bytes behind the last group, and the padding.
pub encode_tail : Bytes → Bytes
encode_tail str =
    let last = get_or str (length str - 1) 0 in
    let before = get_or str (length str - 2) 0 in
    if length str % 3 == 1
    then first_symbol last ∷ symbol (last % 4 * 16) ∷ b'=' ∷ b'=' ∷ []
    else if length str % 3 == 2
    then first_symbol before ∷ second_symbol before last ∷ symbol (last % 16 * 4) ∷ b'=' ∷ []
    else []

pub regular_string_to_base64_string : Bytes → Bytes
regular_string_to_base64_string str = encode_groups str ++ encode_tail str

-- The bytes of a group of four symbols; the results are converted to char.
pub first_byte : ℕ → ℕ → ℕ
first_byte p q = (b64_convert_symbol p * 4 + b64_convert_symbol q / 16) % 256

pub second_byte : ℕ → ℕ → ℕ
second_byte q r = (b64_convert_symbol q % 16 * 16 + b64_convert_symbol r / 4) % 256

pub third_byte : ℕ → ℕ → ℕ
third_byte r s = (b64_convert_symbol r % 4 * 64 + b64_convert_symbol s) % 256

-- `i <= str.length() - 4` in size_t, where a shorter text wraps around.
pub decode_loop : ℕ → Bytes → ℕ → Bytes → Run Bytes
decode_loop zero str i res = stuck
decode_loop (suc fuel) str i res =
    let round = (do
      p ← char_at str i
      q ← char_at str (i + 1)
      r ← char_at str (i + 2)
      let two = (do
        s ← char_at str (i + 3)
        let res₂ = (res ++ (first_byte p q ∷ [])) ++ (second_byte q r ∷ []) in
            let rest = decode_loop fuel str (i + 4) (res₂ ++ (third_byte r s ∷ [])) in
            if s == b'=' then done res₂ else rest) in
          if r == b'=' then done (res ++ (first_byte p q ∷ [])) else two) in
    if leb i ((length str + 2 ^ 64 - 4) % 2 ^ 64) then round else done res

pub base64_string_to_regular_string : ℕ → Bytes → Run Bytes
base64_string_to_regular_string fuel str = decode_loop fuel str 0 []
