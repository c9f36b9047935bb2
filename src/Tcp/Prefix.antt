-- ===== src/Tcp/Prefix.antt =====
-- The length prefix of a message: what the send loops write and the recv loops compute.
use mathlib.Core.WellFounded.{Acc}
use easy_network.Base.{
  ℕ, zero, suc, ◌+◌, ◌*◌, ◌/◌, ◌%◌, ◌^◌, ◌≤◌, ◌<◌, ◌≡◌, ◌≢◌, refl, ap, ◌∙◌, [], ◌∷◌, ◌++◌,
  append_assoc, append-nil, arith, Bytes, length, ◌==◌, if◌then◌else◌, All, IsByte, bit_and_127,
  bit_or_128,
}
use easy_network.Tcp.{digits_loop, message_length_string, mark_bytes, high_groups, message_size}

-- The number that seven-bit groups spell, lowest group first, whatever their top bits.
abbrev pub value : Bytes → ℕ
value [] = 0
value (b ∷ bs) = b % 128 + 128 * value bs

abbrev pub IsGroup : ℕ → Type 0
IsGroup b = b < 128

-- The first `k` digits of `n` in base 128, up to the highest that is not zero.
pub groups : ℕ → ℕ → Bytes
groups zero n = []
groups (suc k) n = if n == 0 then [] else (n % 128) ∷ groups k (n / 128)

digits_loop-groups :
    (k : ℕ) (out : Bytes) (n : ℕ) (w : Acc ◌<◌ n)
    → n < 128 ^ k
    → digits_loop out n w ≡ out ++ groups k n
unfolding digits_loop groups
digits_loop-groups zero out n (Acc.intro _ smaller) h = ground (arith, append-nil out)
digits_loop-groups (suc k) out n (Acc.intro _ smaller) h = grind (
  arith,
  λ (w : Acc ◌<◌ (n / 128)). digits_loop-groups k (out ++ (n % 128 ∷ [])) (n / 128) w (omega arith),
  append_assoc out (n % 128 ∷ []) (groups k (n / 128)),
  append-nil out,
)

groups-value : (k n : ℕ) → n < 128 ^ k → value (groups k n) ≡ n
unfolding groups
groups-value zero n h = omega arith
groups-value (suc k) n h = ground (arith, groups-value k (n / 128) (omega arith))

groups-IsGroup : (k n : ℕ) → All IsGroup (groups k n)
unfolding groups
groups-IsGroup zero n = tt
groups-IsGroup (suc k) n = ground (arith, groups-IsGroup k (n / 128))

-- The shape of a length prefix: the top bit on every byte but the last.
abbrev pub IsMarked : Bytes → Type 0
IsMarked [] = ⊥
IsMarked (b ∷ []) = b < 128
IsMarked (b ∷ c ∷ bs) = (128 ≤ b) × (b < 256) × IsMarked (c ∷ bs)

pub IsMarked-ne-nil : (bs : Bytes) → IsMarked bs → bs ≢ []
IsMarked-ne-nil [] h e = h
IsMarked-ne-nil (b ∷ bs) h e = cc

mark_bytes-value : (bs : Bytes) → All IsGroup bs → value (mark_bytes bs) ≡ value bs
unfolding mark_bytes
mark_bytes-value [] h = refl
mark_bytes-value (b ∷ []) h = refl
mark_bytes-value (b ∷ c ∷ bs) (hb, hs) =
    omega (arith, bit_or_128 b hb, mark_bytes-value (c ∷ bs) hs)

mark_bytes-IsMarked : (bs : Bytes) → bs ≢ [] → All IsGroup bs → IsMarked (mark_bytes bs)
unfolding mark_bytes
mark_bytes-IsMarked [] n h = n refl
mark_bytes-IsMarked (b ∷ []) n (hb, hs) = hb
mark_bytes-IsMarked (b ∷ c ∷ []) n (hb, hs) = rw (bit_or_128 b hb) (omega arith)
mark_bytes-IsMarked (b ∷ c ∷ d ∷ bs) n (hb, hs) =
    rw (bit_or_128 b hb) (omega arith, omega arith, mark_bytes-IsMarked (c ∷ d ∷ bs) (λ e. cc) hs)

length-mark_bytes : (bs : Bytes) → length (mark_bytes bs) ≡ length bs
unfolding mark_bytes
length-mark_bytes [] = refl
length-mark_bytes (b ∷ []) = refl
length-mark_bytes (b ∷ c ∷ bs) = ap suc (length-mark_bytes (c ∷ bs))

IsMarked-IsByte : (bs : Bytes) → IsMarked bs → All IsByte bs
IsMarked-IsByte [] h = tt
IsMarked-IsByte (b ∷ []) h = (omega arith, tt)
IsMarked-IsByte (b ∷ c ∷ bs) (lo, hi, hs) = (hi, IsMarked-IsByte (c ∷ bs) hs)

high_groups-value : (bs : Bytes) → All IsByte bs → high_groups bs ≡ 128 * value bs % 2 ^ 64
unfolding high_groups
high_groups-value [] h = refl
high_groups-value (b ∷ bs) (hb, hs) = omega (arith, bit_and_127 b hb, high_groups-value bs hs)

message_size-value : (bs : Bytes) → bs ≢ [] → All IsByte bs → message_size bs ≡ value bs % 2 ^ 64
unfolding message_size
message_size-value [] n h = absurd (n refl)
message_size-value (b ∷ bs) n (hb, hs) = omega (arith, bit_and_127 b hb, high_groups-value bs hs)

length-groups : (k n : ℕ) → length (groups k n) ≤ k
unfolding groups
length-groups zero n = omega arith
length-groups (suc k) n = ground (arith, length-groups k (n / 128))

-- A positive number has a digit.
groups-ne-nil : (k n : ℕ) → 0 < n → n < 128 ^ k → groups k n ≢ []
unfolding groups
groups-ne-nil zero n p h = absurd (omega arith)
groups-ne-nil (suc k) n p h = ground arith

message_length_string-groups : (n : ℕ) → 0 < n → n < 2 ^ 64 → message_length_string n ≡ groups 10 n
unfolding message_length_string
message_length_string-groups n p h = digits_loop-groups 10 _ n _ (omega arith) ∙ ground arith

message_length_string-zero : message_length_string 0 ≡ 0 ∷ []
unfolding message_length_string
message_length_string-zero = digits_loop-groups 1 _ 0 _ (omega arith) ∙ unfold groups in refl

record LengthString (n : ℕ) (bs : Bytes) : Type 0 where
  pub not_empty : bs ≢ []
  pub all_groups : All IsGroup bs
  pub spells : value bs ≡ n
  pub at_most_ten : length bs ≤ 10

message_length_string-LengthString : (n : ℕ) → n < 2 ^ 64 → LengthString n (message_length_string n)
message_length_string-LengthString zero h = rw message_length_string-zero (record {
  not_empty = λ e. cc;
  all_groups = omega arith;
  spells = refl;
  at_most_ten = omega arith;
})
message_length_string-LengthString (suc n) h =
    rw (message_length_string-groups (suc n) (omega arith) h) (record {
      not_empty = groups-ne-nil 10 (suc n) (omega arith) (omega arith);
      all_groups = groups-IsGroup 10 (suc n);
      spells = groups-value 10 (suc n) (omega arith);
      at_most_ten = length-groups 10 (suc n);
    })

abbrev pub prefix : ℕ → Bytes
prefix n = mark_bytes (message_length_string n)

-- The bytes in front of a message of n bytes are its length in base 128, lowest digit first, with the
-- top bit set on every byte but the last, and there are one to ten of them.
pub prefix_format :
    (n : ℕ) → n < 2 ^ 64 → IsMarked (prefix n) × (value (prefix n) ≡ n) × (length (prefix n) ≤ 10)
prefix_format n h =
    let s = message_length_string-LengthString n h in
    (
      mark_bytes-IsMarked _ s.not_empty s.all_groups,
      mark_bytes-value _ s.all_groups ∙ s.spells,
      rw length-mark_bytes s.at_most_ten,
    )

-- `message_size` computes the number that was written, for every length that a size_t can hold.
pub message_size-prefix : (n : ℕ) → n < 2 ^ 64 → message_size (prefix n) ≡ n
message_size-prefix n h =
    let (marked, spells, short) = prefix_format n h in
    omega (
      arith,
      spells,
      message_size-value (prefix n) (IsMarked-ne-nil _ marked) (IsMarked-IsByte _ marked),
    )
