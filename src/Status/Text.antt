-- ===== src/Status/Text.antt =====
-- The numbers in the line of a download.
use easy_network.Base.{ℕ, ◌*◌, ◌%◌, ◌^◌, ◌≤◌, ◌<◌, ◌≡◌, refl, [], arith}
use native.Mathlib.Nat.{div-le_of_le-mul, mul-div_cancel}
use easy_network.Status.{eta_text, percent}

-- The time that is left is not printed when it is exactly a minute or an hour.
pub eta_text-empty : (eta_text 60 ≡ []) × (eta_text 3600 ≡ [])
unfolding eta_text
eta_text-empty = (refl, refl)

-- The percentage lies between 0 and 100, and is 100 at the end, for files below 2 ^ 64 / 100 bytes.
pub percent_bounds :
    (transfered_bytes file_size : ℕ)
    → transfered_bytes ≤ file_size
    → 1 ≤ file_size
    → 100 * file_size < 2 ^ 64
    → (percent transfered_bytes file_size ≤ 100) × (percent file_size file_size ≡ 100)
unfolding percent
percent_bounds t n h some_byte small =
    let whole : 100 * t % 2 ^ 64 ≡ 100 * t = omega arith in
    let all : 100 * n % 2 ^ 64 ≡ 100 * n = omega arith in
    rw (whole, all) (div-le_of_le-mul n (omega arith), mul-div_cancel 100 some_byte)
