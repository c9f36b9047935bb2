-- ===== src/Text/Tests.antt =====
-- Runs of the string functions, and the theorems at concrete inputs.
use easy_network.Base.{◌≡◌, refl, List, [], ◌∷◌, arith, Bytes, codes, done}
use easy_network.Text.{
  char_at, match_rest, is_splitter, split_loop, split, first_loop, split_up_to_the_first, find_loop,
  find_all_occurrences, replace_loop, replace,
}
use easy_network.Text.Match.{HasNoNul}
use easy_network.Text.Parts.{IsSplit, join}
use easy_network.Text.Split.{split-IsSplit}
use easy_network.Text.Replace.{replace-split}

abbrev comma_blank : Bytes
comma_blank = codes ", "

abbrev line : Bytes
line = codes "a, b,c, , d"

abbrev line_parts : List Bytes
line_parts = codes "a" ∷ codes "b,c" ∷ [] ∷ codes "d" ∷ []

split_run : split 12 line comma_blank ≡ done line_parts
unfolding split split_loop is_splitter match_rest char_at
split_run = refl

first_run : split_up_to_the_first 12 line comma_blank ≡ done (codes "a", codes "b,c, , d")
unfolding split_up_to_the_first first_loop is_splitter match_rest char_at
first_run = refl

find_run : find_all_occurrences 12 line comma_blank ≡ done (1 ∷ 6 ∷ 8 ∷ [])
unfolding find_all_occurrences find_loop is_splitter match_rest char_at
find_run = refl

replace_run : replace 12 line comma_blank (codes ";") ≡ done (codes "a;b,c;;d")
unfolding replace replace_loop is_splitter match_rest char_at
replace_run = refl

comma_blank_clean : HasNoNul comma_blank
comma_blank_clean = omega arith

split-IsSplit_example :
    (ps : List Bytes) × (split 12 line comma_blank ≡ done ps) × IsSplit comma_blank line ps
split-IsSplit_example = split-IsSplit b',' (codes " ") comma_blank_clean 12 line (omega arith)

replace-split_example :
    (ps : List Bytes) × (split 12 line comma_blank ≡ done ps)
    × (replace 12 line comma_blank (codes ";") ≡ done (join (codes ";") ps))
replace-split_example =
    replace-split b',' (codes " ") comma_blank_clean (codes ";") 12 line (omega arith)
