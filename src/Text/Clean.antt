-- ===== src/Text/Clean.antt =====
-- A text that was joined from parts without the first byte of the separator: `Split` and
-- `FindAllOccurrences` find exactly the joints.
use easy_network.Base.{ℕ, ◌<◌, ◌≡◌, ◌≢◌, refl, List, [], ◌∷◌, ◌++◌, arith, Bytes, length, All, done}
use easy_network.Text.{split, find_all_occurrences}
use easy_network.Text.Match.{strip, HasNoNul}
use easy_network.Text.Parts.{Free, IsSplit, join}
use easy_network.Text.Split.{split_unique}
use easy_network.Text.Find.{positions, find_unique}

-- A text without one byte.
abbrev pub Lacks : ℕ → Bytes → Type 0
Lacks b = All (λ c. c ≢ b)

Free-Lacks : (b : ℕ) (v p t : Bytes) → Lacks b p → Free (b ∷ v) p t
unfolding strip
Free-Lacks b v [] t h = tt
Free-Lacks b v (c ∷ p) t (x, h) = (ground arith, Free-Lacks b v p t h)

join-IsSplit :
    (b : ℕ) (v p : Bytes) (ps : List Bytes)
    → Lacks b p
    → All (Lacks b) ps
    → IsSplit (b ∷ v) (join (b ∷ v) (p ∷ ps)) (p ∷ ps)
unfolding join
join-IsSplit b v p [] h hs = (refl, Free-Lacks b v p [] h)
join-IsSplit b v p (q ∷ ps) h (h', hs) =
    let t = join (b ∷ v) (q ∷ ps) in
    (t, refl, Free-Lacks b v p ((b ∷ v) ++ t) h, join-IsSplit b v q ps h' hs)

pub split-join :
    (b : ℕ) (v : Bytes) (fuel : ℕ) (p : Bytes) (ps : List Bytes)
    → HasNoNul (b ∷ v)
    → length (join (b ∷ v) (p ∷ ps)) < fuel
    → Lacks b p
    → All (Lacks b) ps
    → split fuel (join (b ∷ v) (p ∷ ps)) (b ∷ v) ≡ done (p ∷ ps)
split-join b v fuel p ps clean enough h hs =
    split_unique b v clean fuel (join (b ∷ v) (p ∷ ps)) (p ∷ ps) enough (join-IsSplit b v p ps h hs)

pub find-join :
    (b : ℕ) (v : Bytes) (fuel : ℕ) (p : Bytes) (ps : List Bytes)
    → HasNoNul (b ∷ v)
    → length (join (b ∷ v) (p ∷ ps)) < fuel
    → Lacks b p
    → All (Lacks b) ps
    → find_all_occurrences fuel (join (b ∷ v) (p ∷ ps)) (b ∷ v)
      ≡ done (positions (length (b ∷ v)) 0 (p ∷ ps))
find-join b v fuel p ps clean enough h hs =
    find_unique b v clean fuel (join (b ∷ v) (p ∷ ps)) (p ∷ ps) enough (join-IsSplit b v p ps h hs)
