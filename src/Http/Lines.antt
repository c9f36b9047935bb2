-- ===== src/Http/Lines.antt =====
-- The lines of a request: `Split` undoes their joining.
use easy_network.Base.{ℕ, ◌<◌, ◌≡◌, List, [], ◌∷◌, arith, Bytes, length, All, done}
use easy_network.Text.{split}
use easy_network.Text.Parts.{join}
use easy_network.Text.Clean.{Lacks, split-join}
use easy_network.Http.{line_end}

-- A text in which no line ends.
abbrev pub HasNoReturn : Bytes → Type 0
HasNoReturn = Lacks 13

pub split_lines :
    (fuel : ℕ) (p : Bytes) (ps : List Bytes)
    → length (join line_end (p ∷ ps)) < fuel
    → HasNoReturn p
    → All HasNoReturn ps
    → split fuel (join line_end (p ∷ ps)) line_end ≡ done (p ∷ ps)
split_lines fuel p ps enough h hs =
    split-join 13 (10 ∷ []) fuel p ps
      ((λ e. absurd (omega arith)), ((λ e. absurd (omega arith)), tt)) enough h hs
