-- ===== src/Text.antt =====
-- The string functions of EN_Functions.cpp that look for a substring: `Split`, `SplitUpToTheFirst`,
-- `FindAllOccurrences` and `Replace`. A loop is a function of its variables.
pub mod Trim
pub mod Match
pub mod Parts
pub mod Split
pub mod First
pub mod Find
pub mod Replace
pub mod Empty
pub mod Clean
mod Tests
use easy_network.Base.{
  ℕ, zero, suc, ◌+◌, ◌-◌, Bool, true, false, Option, none, some, List, [], ◌∷◌, ◌++◌, Bytes, length,
  get_elem?, drop, ltb, ◌==◌, if◌then◌else◌, Run, done, fault, stuck, ◌>>=◌,
}

-- `str[i]` of a std::string: the byte at `size()` is 0, and what lies beyond is undefined.
unfoldable pub char_at : Bytes → ℕ → Run ℕ
char_at str i = elim (get_elem? str i) [
  | some c ↦ done c
  | none ↦ if i == length str then done 0 else fault
]

-- `for (j = …; j < splitterString.size(); ++j)`, with the rounds that are left.
pub match_rest : ℕ → Bytes → ℕ → Bytes → ℕ → Run Bool
match_rest zero str i splitter j = done true
match_rest (suc rounds) str i splitter j = do
  a ← char_at str (i + j)
  b ← char_at splitter j
  let rest = match_rest rounds str i splitter (j + 1) in if a == b then rest else done false

-- Whether the splitter stands at `i`: its first byte, then the others.
pub is_splitter : Bytes → ℕ → Bytes → Run Bool
is_splitter str i splitter = do
  a ← char_at str i
  b ← char_at splitter 0
  let rest = match_rest (length splitter - 1) str i splitter 1 in
      if a == b then rest else done false

pub split_loop : ℕ → Bytes → Bytes → ℕ → Bytes → List Bytes → Run (List Bytes)
split_loop zero str splitter i part parts = stuck
split_loop (suc fuel) str splitter i part parts =
    let round = (do
      hit ← is_splitter str i splitter
      c ← char_at str i
      let jump = split_loop fuel str splitter (i + length splitter) [] (parts ++ (part ∷ [])) in
          let step = split_loop fuel str splitter (i + 1) (part ++ (c ∷ [])) parts in
          if hit then jump else step) in
    if ltb i (length str) then round else done (parts ++ (part ∷ []))

pub split : ℕ → Bytes → Bytes → Run (List Bytes)
split fuel str splitter = split_loop fuel str splitter 0 [] []

-- The position where the loop ends, and what it stored into `returnPair.first`.
pub first_loop : ℕ → Bytes → Bytes → ℕ → Bytes → Run (Bytes × ℕ)
first_loop zero str splitter i part = stuck
first_loop (suc fuel) str splitter i part =
    let round = (do
      hit ← is_splitter str i splitter
      c ← char_at str i
      let step = first_loop fuel str splitter (i + 1) (part ++ (c ∷ [])) in
          if hit then done (part, i + length splitter) else step) in
    if ltb i (length str) then round else done (str, i)

pub split_up_to_the_first : ℕ → Bytes → Bytes → Run (Bytes × Bytes)
split_up_to_the_first fuel str splitter = do
  (first, i) ← first_loop fuel str splitter 0 []
  done (first, drop i str)

pub find_loop : ℕ → Bytes → Bytes → ℕ → List ℕ → Run (List ℕ)
find_loop zero str needle i found = stuck
find_loop (suc fuel) str needle i found =
    let round = (do
      hit ← is_splitter str i needle
      let jump = find_loop fuel str needle (i + length needle) (found ++ (i ∷ [])) in
          let step = find_loop fuel str needle (i + 1) found in if hit then jump else step) in
    if ltb i (length str) then round else done found

pub find_all_occurrences : ℕ → Bytes → Bytes → Run (List ℕ)
find_all_occurrences fuel str needle = find_loop fuel str needle 0 []

pub replace_loop : ℕ → Bytes → Bytes → Bytes → ℕ → Bytes → Run Bytes
replace_loop zero str old new i res = stuck
replace_loop (suc fuel) str old new i res =
    let round = (do
      hit ← is_splitter str i old
      c ← char_at str i
      let jump = replace_loop fuel str old new (i + length old) (res ++ new) in
          let step = replace_loop fuel str old new (i + 1) (res ++ (c ∷ [])) in
          if hit then jump else step) in
    if ltb i (length str) then round else done res

pub replace : ℕ → Bytes → Bytes → Bytes → Run Bytes
replace fuel str old new = replace_loop fuel str old new 0 []
