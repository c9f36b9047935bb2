-- ===== src/Text/Trim.antt =====
-- `TrimString` of EN_Functions.cpp.
use easy_network.Base.{
  ℕ, ◌+◌, ◌-◌, ◌%◌, ◌^◌, ◌≡◌, refl, Bool, true, false, ◌&&◌, ◌||◌, [], ◌∷◌, Bytes, codes, length,
  take, drop, ◌==◌, if◌then◌else◌,
}

-- A blank or a tab.
abbrev is_trimmed : ℕ → Bool
is_trimmed c = c == b' ' || c == 9

-- `start` after its loop.
pub first_kept : Bytes → ℕ
first_kept [] = 0
first_kept (c ∷ s) = let n = first_kept s in if is_trimmed c then 1 + n else 0

-- `end` after its loop, which runs from the back.
pub kept_end : Bytes → ℕ
kept_end [] = 0
kept_end (c ∷ s) = let n = kept_end s in if n == 0 && is_trimmed c then 0 else 1 + n

-- `end - start` wraps around where the text is blank, and `substr` stops at the end of the text.
pub trim_string : Bytes → Bool → Bool → Bytes
trim_string str is_from_left is_from_right =
    let start = if is_from_left then first_kept str else 0 in
    let stop = if is_from_right then kept_end str else length str in
    take ((stop + 2 ^ 64 - start) % 2 ^ 64) (drop start str)

trim_run : trim_string (codes "  a b ") true true ≡ codes "a b"
unfolding trim_string first_kept kept_end
trim_run = refl

left_run : trim_string (codes "  a b ") true false ≡ codes "a b "
unfolding trim_string first_kept kept_end
left_run = refl

blank_run : trim_string (codes "   ") true false ≡ []
unfolding trim_string first_kept kept_end
blank_run = refl
