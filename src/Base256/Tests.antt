-- ===== src/Base256/Tests.antt =====
-- Numbers of 32 bits in base 256, and the theorems on them.
use easy_network.Base.{◌^◌, ◌≤◌, ◌<◌, ◌≡◌, arith, All, length, done}
use easy_network.Base256.{int_to_b256_string, b256_string_to_int}
use easy_network.Base256.RoundTrip.{
  b256_string_to_int-int_to_b256_string, length-int_to_b256_string,
}

b256_string_to_int-int_to_b256_string_example :
    b256_string_to_int (2 ^ 32) (int_to_b256_string 300) ≡ done 300
b256_string_to_int-int_to_b256_string_example =
    b256_string_to_int-int_to_b256_string (2 ^ 32) 300 (omega arith)

length-int_to_b256_string_example :
    (1 ≤ length (int_to_b256_string 300))
    × (length (int_to_b256_string 300) ≤ 4)
    × All (λ c. c < 256) (int_to_b256_string 300)
length-int_to_b256_string_example = length-int_to_b256_string 4 300 (omega arith) (omega arith)
