-- ===== src/Uuid.antt =====
-- `UUID4` of EN_Functions.cpp. The draws of std::uniform_int_distribution are a parameter.
mod Tests
use easy_network.Base.{
  ℕ, zero, suc, ◌+◌, ◌<◌, ◌≤◌, ◌≡◌, ◌⊎◌, refl, inl, inr, Bool, true, ◌&&◌, ◌||◌, [], ◌∷◌, ◌++◌,
  arith, Bytes, codes, List, get_or, leb, ◌==◌, if◌then◌else◌, bit_and, bit_or, all_below,
  all_below_sound,
}

abbrev chars : Bytes
chars = codes "0123456789abcdef"

-- `a |= 0b1000; a &= ~(0b0100)` on an int.
variant : ℕ → ℕ
variant a = bit_and (bit_or a 0b1000) 0xffff_fffb

-- The loop from round `i` on, with the rounds that are left; `draw i` is the draw of round `i`.
uuid4_loop : ℕ → ℕ → (ℕ → ℕ) → Bytes → Bytes
uuid4_loop zero i draw res = res
uuid4_loop (suc rounds) i draw res =
    let a = if i == 16 then variant (draw i) else draw i in
    let dash = if i == 7 || i == 11 || i == 15 || i == 19 then b'-' ∷ [] else [] in
    let res' = if i == 12 then res ++ (b'4' ∷ []) else res ++ (get_or chars a 0 ∷ dash) in
    uuid4_loop rounds (i + 1) draw res'

pub uuid4 : (ℕ → ℕ) → Bytes
uuid4 draw = uuid4_loop 32 0 draw []

-- What may stand at a place of a version 4 UUID.
pub data Place : Type 0 where
  hex dash version variant_digit : Place

abbrev pub is_hex : ℕ → Bool
is_hex c = (leb b'0' c && leb c b'9') || (leb b'a' c && leb c b'f')

abbrev pub is_variant : ℕ → Bool
is_variant c = c == b'8' || c == b'9' || c == b'a' || c == b'b'

abbrev pub Fits : Place → ℕ → Type 0
Fits hex c = is_hex c ≡ true
Fits dash c = c ≡ b'-'
Fits version c = c ≡ b'4'
Fits variant_digit c = is_variant c ≡ true

abbrev pub Matches : List Place → Bytes → Type 0
Matches [] [] = Unit
Matches [] (c ∷ s) = ⊥
Matches (p ∷ ps) [] = ⊥
Matches (p ∷ ps) (c ∷ s) = Fits p c × Matches ps s

abbrev pub three_hex : List Place → List Place
three_hex ps = hex ∷ hex ∷ hex ∷ ps

-- xxxxxxxx-xxxx-4xxx-yxxx-xxxxxxxxxxxx
abbrev pub uuid4_form : List Place
uuid4_form = three_hex (
    three_hex (
      hex
      ∷ hex
      ∷ dash
      ∷ three_hex (
          hex
          ∷ dash
          ∷ version
          ∷ three_hex (
              dash
              ∷ variant_digit
              ∷ three_hex (dash ∷ three_hex (three_hex (three_hex (three_hex []))))))))

hex_table : all_below 16 (λ a. is_hex (get_or chars a 0)) ≡ true
hex_table = refl

variant_table : all_below 16 (λ a. is_variant (get_or chars (variant a) 0)) ≡ true
unfolding variant
variant_table = refl

hex_draw : (a : ℕ) → a < 16 → is_hex (get_or chars a 0) ≡ true
hex_draw a h = all_below_sound 16 (λ x. is_hex (get_or chars x 0)) a hex_table h

variant_draw : (a : ℕ) → a < 16 → is_variant (get_or chars (variant a) 0) ≡ true
variant_draw a h =
    all_below_sound 16 (λ x. is_variant (get_or chars (variant x) 0)) a variant_table h

-- Whatever is drawn, `UUID4` returns a text of the form of a version 4 UUID: dashes at their places,
-- the version digit 4, a variant digit out of 8, 9, a, b, and hexadecimal digits.
pub uuid4_form_lem : (draw : ℕ → ℕ) → ((i : ℕ) → draw i < 16) → Matches uuid4_form (uuid4 draw)
unfolding uuid4 uuid4_loop
uuid4_form_lem draw h =
    let d = λ (i : ℕ). hex_draw (draw i) (h i) in
    (
      d 0,
      (
        d 1,
        (
          d 2,
          (
            d 3,
            (
              d 4,
              (
                d 5,
                (
                  d 6,
                  (
                    d 7,
                    (
                      refl,
                      (
                        d 8,
                        (
                          d 9,
                          (
                            d 10,
                            (
                              d 11,
                              (
                                refl,
                                (
                                  refl,
                                  (
                                    d 13,
                                    (
                                      d 14,
                                      (
                                        d 15,
                                        (
                                          refl,
                                          (
                                            variant_draw (draw 16) (h 16),
                                            (
                                              d 17,
                                              (
                                                d 18,
                                                (
                                                  d 19,
                                                  (
                                                    refl,
                                                    (
                                                      d 20,
                                                      (
                                                        d 21,
                                                        (
                                                          d 22,
                                                          (
                                                            d 23,
                                                            (
                                                            d 24,
                                                            (
                                                            d 25,
                                                            (
                                                            d 26,
                                                            (
                                                            d 27,
                                                            (d 28, (d 29, (d 30, (d 31, tt)))),
                                                            ),
                                                            ),
                                                            ),
                                                            ),
                                                          ),
                                                        ),
                                                      ),
                                                    ),
                                                  ),
                                                ),
                                              ),
                                            ),
                                          ),
                                        ),
                                      ),
                                    ),
                                  ),
                                ),
                              ),
                            ),
                          ),
                        ),
                      ),
                    ),
                  ),
                ),
              ),
            ),
          ),
        ),
      ),
    )
