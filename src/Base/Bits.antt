-- ===== src/Base/Bits.antt =====
-- The masks that the code puts on a byte, as arithmetic: tables checked by evaluation.
use Prim.Native.Nat.{ℕ, zero, suc, ◌+◌, ◌*◌, ◌/◌, ◌%◌, ◌<◌, bit_and, bit_or, compare, Ordering}
use mathlib.Core.Path.{◌≡◌, refl}
use mathlib.Core.Bool.{Bool, true, ◌&&◌}
use native.Mathlib.Omega.{arith}

-- A test at every number below `n`.
abbrev pub all_below : ℕ → (ℕ → Bool) → Bool
all_below zero p = true
all_below (suc n) p = p n && all_below n p

pub all_below_sound : (n : ℕ) (p : ℕ → Bool) (x : ℕ) → all_below n p ≡ true → x < n → p x ≡ true
all_below_sound zero p x h lt = absurd (omega arith)
all_below_sound (suc n) p x h lt = ground (arith, all_below_sound n p x)

abbrev same : ℕ → ℕ → Bool
same a b = elim (compare a b) [ Ordering.eq ↦ true | _ ↦ Bool.false ]

same→eq : (a b : ℕ) → same a b ≡ true → a ≡ b
same→eq a b h = ground arith

pub bit_and_127 : (b : ℕ) → b < 256 → bit_and b 0b01111111 ≡ b % 128
bit_and_127 b h =
    same→eq _ _ (all_below_sound 256 (λ x. same (bit_and x 0b01111111) (x % 128)) b refl h)

pub bit_and_128 : (b : ℕ) → b < 256 → bit_and b 0b10000000 ≡ b / 128 * 128
bit_and_128 b h =
    same→eq _ _ (all_below_sound 256 (λ x. same (bit_and x 0b10000000) (x / 128 * 128)) b refl h)

pub bit_or_128 : (b : ℕ) → b < 128 → bit_or b 0b10000000 ≡ b + 128
bit_or_128 b h =
    same→eq _ _ (all_below_sound 128 (λ x. same (bit_or x 0b10000000) (x + 128)) b refl h)
