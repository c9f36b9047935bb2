-- ===== src/Base256/RoundTrip.antt =====
-- A number goes through its string in base 256.
use easy_network.Base.{
  ℕ, zero, suc, ◌+◌, ◌*◌, ◌/◌, ◌%◌, ◌^◌, ◌≤◌, ◌<◌, ◌≡◌, refl, ap, All, length, arith, done, lt_wf,
}
use mathlib.Core.WellFounded.{Acc}
use native.Mathlib.Nat.{mod-eq_of_lt, pow-suc}
use easy_network.Base256.{
  quotient-lt, b256_loop, int_to_b256_string, b256_value, b256_string_to_int,
}

value-loop :
    (size n : ℕ) (a : Acc ◌<◌ n) → n * 256 < size → b256_value size (b256_loop n a) ≡ n * 256
unfolding b256_loop b256_value
value-loop size zero a h = refl
value-loop size (suc m) (Acc.intro _ smaller) h =
    let n = suc m in
    let ih = value-loop size (n / 256) (smaller _ (quotient-lt m)) (omega arith) in
    let sum : n / 256 * 256 + n % 256 ≡ n = omega arith in
    let small : n % size ≡ n = mod-eq_of_lt (omega arith) in rw (ih, sum, small) (mod-eq_of_lt h)

string-int :
    (size m : ℕ) (a : Acc ◌<◌ (suc m))
    → suc m < size
    → b256_string_to_int size (b256_loop (suc m) a) ≡ done (suc m)
unfolding b256_loop b256_string_to_int
string-int size m (Acc.intro _ smaller) h =
    let n = suc m in
    let value = value-loop size (n / 256) (smaller _ (quotient-lt m)) (omega arith) in
    let sum : n / 256 * 256 + n % 256 ≡ n = omega arith in
    ap done (rw (value, sum) (mod-eq_of_lt h))

int_to_b256_string-suc :
    (m : ℕ) → int_to_b256_string (suc m) ≡ b256_loop (suc m) (lt_wf.apply (suc m))
unfolding int_to_b256_string
int_to_b256_string-suc m = ground arith

-- `B256StringToInt` gives back the number that `IntToB256String` wrote, for every number of the type.
pub b256_string_to_int-int_to_b256_string :
    (size n : ℕ) → n < size → b256_string_to_int size (int_to_b256_string n) ≡ done n
unfolding int_to_b256_string b256_string_to_int b256_value
b256_string_to_int-int_to_b256_string size zero h = ap done (mod-eq_of_lt h)
b256_string_to_int-int_to_b256_string size (suc m) h =
    rw (int_to_b256_string-suc m) (string-int size m (lt_wf.apply (suc m)) h)

loop_bytes : (n : ℕ) (a : Acc ◌<◌ n) → All (λ c. c < 256) (b256_loop n a)
unfolding b256_loop
loop_bytes zero a = tt
loop_bytes (suc m) (Acc.intro _ smaller) =
    (omega arith, loop_bytes (suc m / 256) (smaller _ (quotient-lt m)))

loop_short : (k n : ℕ) (a : Acc ◌<◌ n) → n < 256 ^ k → length (b256_loop n a) ≤ k
unfolding b256_loop
loop_short k zero a h = omega arith
loop_short zero (suc m) a h = absurd (omega arith)
loop_short (suc k) (suc m) (Acc.intro _ smaller) h =
    let ih : length (b256_loop (suc m / 256) (smaller _ (quotient-lt m))) ≤ k =
      loop_short k (suc m / 256) (smaller _ (quotient-lt m)) (omega (arith, pow-suc 256 k)) in
    omega (arith, ih)

loop_long : (m : ℕ) (a : Acc ◌<◌ (suc m)) → 1 ≤ length (b256_loop (suc m) a)
unfolding b256_loop
loop_long m (Acc.intro _ smaller) = omega arith

-- The string of a number below 256^k has at most k characters, but at least one, and each is a byte.
pub length-int_to_b256_string :
    (k n : ℕ)
    → 1 ≤ k
    → n < 256 ^ k
    → (1 ≤ length (int_to_b256_string n))
      × (length (int_to_b256_string n) ≤ k)
      × All (λ c. c < 256) (int_to_b256_string n)
unfolding int_to_b256_string
length-int_to_b256_string k zero some_bytes h = (omega arith, some_bytes, (omega arith, tt))
length-int_to_b256_string k (suc m) some_bytes h = rw (int_to_b256_string-suc m) (
  loop_long m (lt_wf.apply (suc m)),
  loop_short k (suc m) (lt_wf.apply (suc m)) h,
  loop_bytes (suc m) (lt_wf.apply (suc m)),
)
