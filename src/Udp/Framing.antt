-- ===== src/Udp/Framing.antt =====
-- The datagram that `Default_UDP_Send` hands over, and the buffer that starts with one.
use easy_network.Base.{
  ℕ, ◌+◌, ◌/◌, ◌%◌, ◌≤◌, ◌<◌, ◌≡◌, ◌≢◌, refl, ap, ◌∙◌, [], ◌∷◌, ◌++◌, arith, Bytes, length, take,
  drop, take-append, ltb, bit_or_128, All, done, if◌then◌else◌,
}
use easy_network.Udp.{udp_header, message_from}

abbrev colon : ℕ
colon = b':'

abbrev pub HasNoColon : Bytes → Type 0
HasNoColon = All (λ c. c ≢ colon)

pub message_after :
    (start : ℕ) (buffer message rest : Bytes)
    → drop start buffer ≡ message ++ rest
    → start + length message ≤ length buffer
    → message_from start (length message) buffer ≡ done message
unfolding message_from
message_after start buffer [] rest e long = refl
message_after start buffer (b ∷ bs) rest e long =
    let whole : take (length (b ∷ bs)) (drop start buffer) ≡ b ∷ bs =
      ap (take (length (b ∷ bs))) e ∙ take-append (b ∷ bs) rest in
    ground (arith, whole)

pub short_header : (n : ℕ) → n < 128 → udp_header n ≡ n ∷ []
unfolding udp_header
short_header n h = let e : n % 256 ≡ n = omega arith in ground (arith, e)

pub long_header : (n : ℕ) → 128 ≤ n → n < 16_384 → udp_header n ≡ (n / 128 + 128) ∷ n % 128 ∷ []
unfolding udp_header
long_header n h small =
    let e : n / 128 % 256 ≡ n / 128 = omega arith in
    let f : n % 128 % 256 ≡ n % 128 = omega arith in
    ground (arith, e, f, bit_or_128 (n / 128) (omega arith))

-- A message behind its length: one byte below 128, else the groups of seven bits with the marker on the
-- first.
abbrev pub datagram : Bytes → Bytes
datagram message =
    if ltb (length message) 128
    then length message ∷ message
    else (length message / 128 + 128) ∷ length message % 128 ∷ message
