-- ===== src/Base64/RoundTrip.antt =====
-- Decoding an encoding.
use easy_network.Base.{
  ℕ, zero, suc, ◌+◌, ◌*◌, ◌/◌, ◌%◌, ◌^◌, ◌≤◌, ◌<◌, ◌≡◌, ◌≢◌, refl, sym, ap, ◌∙◌, [], ◌∷◌, ◌++◌,
  arith, append_assoc, append-nil, Bytes, length, length-append, All, IsByte, done, fault,
}
use easy_network.Text.{char_at}
use easy_network.Text.Match.{char_at-append}
use easy_network.Base64.{
  symbol, first_symbol, second_symbol, third_symbol, fourth_symbol, first_byte, second_byte,
  third_byte, decode_loop, base64_string_to_regular_string, regular_string_to_base64_string,
}
use easy_network.Base64.Symbols.{b64_convert_symbol-symbol}
use easy_network.Base64.Encode.{encoding, regular_string_to_base64_string-encoding, length-encoding}

bytes_back :
    (a b c : ℕ)
    → a < 256
    → b < 256
    → c < 256
    → (first_byte (first_symbol a) (second_symbol a b) ≡ a)
      × (second_byte (second_symbol a b) (third_symbol b c) ≡ b)
      × (third_byte (third_symbol b c) (fourth_symbol c) ≡ c)
unfolding first_byte second_byte third_byte first_symbol second_symbol third_symbol fourth_symbol
bytes_back a b c ha hb hc =
    let (p, p') = b64_convert_symbol-symbol (a / 4) (omega arith) in
    let (q, q') = b64_convert_symbol-symbol (a % 4 * 16 + b / 16) (omega arith) in
    let (r, r') = b64_convert_symbol-symbol (b % 16 * 4 + c / 64) (omega arith) in
    let (s, s') = b64_convert_symbol-symbol (c % 64) (omega arith) in
    (omega arith, omega arith, omega arith)

not_padding : (b c : ℕ) → b < 256 → c < 256 → (third_symbol b c ≢ b'=') × (fourth_symbol c ≢ b'=')
unfolding third_symbol fourth_symbol
not_padding b c hb hc = (
  (b64_convert_symbol-symbol (b % 16 * 4 + c / 64) (omega arith)).1,
  (b64_convert_symbol-symbol (c % 64) (omega arith)).1,
)

module _ (pre u : Bytes) (p q r s i : ℕ) (at : i ≡ length pre) where
  four_reads :
      (char_at (pre ++ (p ∷ q ∷ r ∷ s ∷ u)) i ≡ done p)
      × (char_at (pre ++ (p ∷ q ∷ r ∷ s ∷ u)) (i + 1) ≡ done q)
      × (char_at (pre ++ (p ∷ q ∷ r ∷ s ∷ u)) (i + 2) ≡ done r)
      × (char_at (pre ++ (p ∷ q ∷ r ∷ s ∷ u)) (i + 3) ≡ done s)
  four_reads = (
    char_at-append pre (q ∷ r ∷ s ∷ u) p i at,
    rw (append_assoc pre (p ∷ []) (q ∷ r ∷ s ∷ u)) at (
        char_at-append (pre ++ (p ∷ [])) (r ∷ s ∷ u) q (i + 1)
          (omega (arith, length-append pre (p ∷ [])))),
    rw (append_assoc pre (p ∷ q ∷ []) (r ∷ s ∷ u)) at (
        char_at-append (pre ++ (p ∷ q ∷ [])) (s ∷ u) r (i + 2)
          (omega (arith, length-append pre (p ∷ q ∷ [])))),
    rw (append_assoc pre (p ∷ q ∷ r ∷ []) (s ∷ u)) at (
        char_at-append (pre ++ (p ∷ q ∷ r ∷ [])) u s (i + 3)
          (omega (arith, length-append pre (p ∷ q ∷ r ∷ [])))),
  )

  -- A round on a group with no padding, with one byte of it and with two.
  round_full :
      (fuel : ℕ) (res : Bytes)
      → length (pre ++ (p ∷ q ∷ r ∷ s ∷ u)) < 2 ^ 64
      → r ≢ b'='
      → s ≢ b'='
      → decode_loop (suc fuel) (pre ++ (p ∷ q ∷ r ∷ s ∷ u)) i res
        ≡ decode_loop fuel
            (pre ++ (p ∷ q ∷ r ∷ s ∷ u))
            (i + 4)
            (((res ++ (first_byte p q ∷ [])) ++ (second_byte q r ∷ [])) ++ (third_byte r s ∷ []))
  unfolding decode_loop
  round_full fuel res small hr hs =
      let (e₀, e₁, e₂, e₃) = four_reads in
      ground (arith, length-append pre (p ∷ q ∷ r ∷ s ∷ u), e₀, e₁, e₂, e₃)

  round_two :
      (fuel : ℕ) (res : Bytes)
      → length (pre ++ (p ∷ q ∷ r ∷ s ∷ u)) < 2 ^ 64
      → r ≢ b'='
      → s ≡ b'='
      → decode_loop (suc fuel) (pre ++ (p ∷ q ∷ r ∷ s ∷ u)) i res
        ≡ done ((res ++ (first_byte p q ∷ [])) ++ (second_byte q r ∷ []))
  unfolding decode_loop
  round_two fuel res small hr hs =
      let (e₀, e₁, e₂, e₃) = four_reads in
      ground (arith, length-append pre (p ∷ q ∷ r ∷ s ∷ u), e₀, e₁, e₂, e₃)

  round_one :
      (fuel : ℕ) (res : Bytes)
      → length (pre ++ (p ∷ q ∷ r ∷ s ∷ u)) < 2 ^ 64
      → r ≡ b'='
      → decode_loop (suc fuel) (pre ++ (p ∷ q ∷ r ∷ s ∷ u)) i res
        ≡ done (res ++ (first_byte p q ∷ []))
  unfolding decode_loop
  round_one fuel res small hr =
      let (e₀, e₁, e₂, e₃) = four_reads in
      ground (arith, length-append pre (p ∷ q ∷ r ∷ s ∷ u), e₀, e₁, e₂)

round_end :
    (pre res : Bytes) (i fuel : ℕ)
    → i ≡ length pre
    → 4 ≤ length pre
    → length pre < 2 ^ 64
    → decode_loop (suc fuel) (pre ++ []) i res ≡ done res
unfolding decode_loop
round_end pre res i fuel at long small = ground (arith, length-append pre [])

second_padded : (a : ℕ) → symbol (a % 4 * 16) ≡ second_symbol a 0
unfolding second_symbol
second_padded a = ap symbol (omega arith)

third_padded : (b : ℕ) → symbol (b % 16 * 4) ≡ third_symbol b 0
unfolding third_symbol
third_padded b = ap symbol (omega arith)

decode_loop-encoding :
    (s pre res : Bytes) (i fuel : ℕ)
    → i ≡ length pre
    → 4 ≤ length pre + 4 * length s
    → length s < fuel
    → length (pre ++ encoding s) < 2 ^ 64
    → All IsByte s
    → decode_loop fuel (pre ++ encoding s) i res ≡ done (res ++ s)
unfolding encoding
decode_loop-encoding s pre res i zero at long enough small h = absurd (omega arith)
decode_loop-encoding [] pre res i (suc fuel) at long enough small h =
    round_end pre res i fuel at (omega arith) (omega (arith, length-append pre []))
    ∙ ap done (sym (append-nil res))
decode_loop-encoding (a ∷ []) pre res i (suc fuel) at long enough small (ha, h) =
    round_one pre [] (first_symbol a) (symbol (a % 4 * 16)) b'=' b'=' i at fuel res small refl
    ∙ ap (λ (x : ℕ). done (res ++ (x ∷ [])))
        (ap (first_byte (first_symbol a)) (second_padded a)
          ∙ (bytes_back a 0 0 ha (omega arith) (omega arith)).0)
decode_loop-encoding (a ∷ b ∷ []) pre res i (suc fuel) at long enough small (ha, (hb, h)) =
    let (e₀, e₁, e₂) = bytes_back a b 0 ha hb (omega arith) in
    round_two pre [] (first_symbol a) (second_symbol a b) (symbol (b % 16 * 4)) b'=' i at fuel res
      small (rw third_padded (not_padding b 0 hb (omega arith)).0) refl
    ∙ rw (third_padded, e₀, e₁, append_assoc) refl
decode_loop-encoding (a ∷ b ∷ c ∷ s) pre res i (suc fuel) at long enough small (ha, (hb, (hc, h))) =
    let (e₀, e₁, e₂) = bytes_back a b c ha hb hc in
    let (n₂, n₃) = not_padding b c hb hc in
    let quad : Bytes =
      first_symbol a ∷ second_symbol a b ∷ third_symbol b c ∷ fourth_symbol c ∷ [] in
    let moved : pre ++ (quad ++ encoding s) ≡ (pre ++ quad) ++ encoding s =
      sym (append_assoc pre quad (encoding s)) in
    round_full pre (encoding s) (first_symbol a) (second_symbol a b) (third_symbol b c)
      (fourth_symbol c) i at fuel res small n₂ n₃
    ∙ ap (λ (t : Bytes). decode_loop fuel (pre ++ (quad ++ encoding s)) (i + 4) t)
        (rw (e₀, e₁, e₂, append_assoc, append_assoc) refl)
    ∙ ap (λ (t : Bytes). decode_loop fuel t (i + 4) (res ++ (a ∷ b ∷ c ∷ []))) moved
    ∙ decode_loop-encoding s (pre ++ quad) (res ++ (a ∷ b ∷ c ∷ [])) (i + 4) fuel
        (omega (arith, length-append pre quad)) (omega (arith, length-append pre quad))
        (omega arith) (omega (arith, ap length moved)) h
    ∙ ap done (append_assoc res (a ∷ b ∷ c ∷ []) s)

-- Decoding the encoding of a text that is not empty gives the text back, and reads nothing out of
-- range; for texts whose encoding a size_t can index.
pub decode-encode :
    (fuel : ℕ) (s : Bytes)
    → All IsByte s
    → 0 < length s
    → length s < 2 ^ 62
    → length s < fuel
    → base64_string_to_regular_string fuel (regular_string_to_base64_string s) ≡ done s
unfolding base64_string_to_regular_string
decode-encode fuel s h nonempty small enough = rw regular_string_to_base64_string-encoding (
    decode_loop-encoding s [] [] 0 fuel refl (omega arith) enough (omega (arith, length-encoding s))
      h)

-- Decoding a text of fewer than three bytes, the empty text included, reads outside the text: the
-- bound of the loop wraps around.
pub decode_short :
    (fuel : ℕ) (s : Bytes) → length s < 3 → base64_string_to_regular_string (suc fuel) s ≡ fault
unfolding base64_string_to_regular_string decode_loop char_at
decode_short fuel [] h = refl
decode_short fuel (a ∷ []) h = refl
decode_short fuel (a ∷ b ∷ []) h = refl
decode_short fuel (a ∷ b ∷ c ∷ s) h = absurd (omega arith)
