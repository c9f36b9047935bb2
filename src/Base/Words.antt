-- ===== src/Base/Words.antt =====
-- Machine integers, and the order of the native numbers for recursion on `Acc`.
use Prim.Native.Nat.{ℕ, zero, suc, ◌+◌, ◌-◌, ◌%◌, ◌^◌, ◌<◌, compare, Ordering}
use mathlib.Core.WellFounded.{Acc, WellFounded}
use native.Mathlib.Omega.{arith}

abbrev pub IsByte : ℕ → Type 0
IsByte b = b < 256

Acc-below : (k n : ℕ) → n < k → Acc ◌<◌ n
Acc-below zero n h = elim h [ ]
Acc-below (suc k) n h = Acc.intro n (λ m hm. Acc-below k m (omega arith))

unfoldable pub lt_wf : WellFounded ◌<◌
unfolding Acc-below
lt_wf = record { apply = λ n. Acc-below (suc n) n (omega arith) }

-- `(size_t)(int)c`, for a non-negative `ssize_t c`: the int keeps the low 32 bits, and a negative
-- int is sign-extended to 64 bits.
abbrev pub size_of_int : ℕ → ℕ
size_of_int c =
    let w = c % 2 ^ 32 in elim (compare w (2 ^ 31)) [ Ordering.lt ↦ w | _ ↦ w + (2 ^ 64 - 2 ^ 32) ]

-- `(size_t)-1`
abbrev pub minus_one : ℕ
minus_one = 2 ^ 64 - 1
