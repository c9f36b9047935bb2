-- ===== src/Base64/Symbols.antt =====
-- The two tables are inverse to one another.
use easy_network.Base.{
  ℕ, ◌<◌, ◌≡◌, ◌≢◌, refl, Bool, true, not, ◌&&◌, arith, ◌==◌, all_below, all_below_sound,
}
use easy_network.Base64.{symbol, b64_convert_symbol}

abbrev good : ℕ → Bool
good n = (b64_convert_symbol (symbol n) == n) && not (symbol n == b'=')

table : all_below 64 good ≡ true
unfolding symbol b64_convert_symbol
table = refl

-- Decoding the symbol of a six-bit number gives the number back, and no such symbol is the padding.
pub b64_convert_symbol-symbol :
    (n : ℕ) → n < 64 → (b64_convert_symbol (symbol n) ≡ n) × (symbol n ≢ b'=')
b64_convert_symbol-symbol n h =
    let e : good n ≡ true = all_below_sound 64 good n table h in ground (arith, e)
