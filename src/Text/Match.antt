-- ===== src/Text/Match.antt =====
-- The comparison at one position of the text, against a description over the text that is left.
use easy_network.Base.{
  ℕ, zero, suc, ◌+◌, ◌-◌, ◌≡◌, ◌≢◌, refl, Bool, true, false, Option, none, some, [], ◌∷◌, ◌++◌,
  arith, append_assoc, Bytes, length, length-append, get_elem?, ◌==◌, if◌then◌else◌, All, done,
}
use easy_network.Text.{char_at, match_rest, is_splitter}

-- What is left behind `p` in a text that starts with `p`.
unfoldable pub strip : Bytes → Bytes → Option Bytes
strip [] s = some s
strip (a ∷ p) [] = none
strip (a ∷ p) (b ∷ s) = if b == a then strip p s else none

abbrev pub is_some : Option Bytes → Bool
is_some none = false
is_some (some t) = true

-- A text with no zero byte.
abbrev pub HasNoNul : Bytes → Type 0
HasNoNul = All (λ c. c ≢ 0)

get_elem?-length : (pre u : Bytes) (a : ℕ) → get_elem? (pre ++ (a ∷ u)) (length pre) ≡ some a
get_elem?-length [] u a = refl
get_elem?-length (x ∷ pre) u a = get_elem?-length pre u a

get_elem?-end : (pre : Bytes) → get_elem? (pre ++ []) (length pre) ≡ none
get_elem?-end [] = refl
get_elem?-end (x ∷ pre) = get_elem?-end pre

pub char_at-append :
    (pre u : Bytes) (a k : ℕ) → k ≡ length pre → char_at (pre ++ (a ∷ u)) k ≡ done a
unfolding char_at
char_at-append pre u a k e = ground (arith, e, get_elem?-length pre u a)

pub char_at_end : (pre : Bytes) (k : ℕ) → k ≡ length pre → char_at (pre ++ []) k ≡ done 0
unfolding char_at
char_at_end pre k e = ground (arith, get_elem?-end pre, length-append pre [])

match_rest-strip :
    (v u pre m : Bytes) (i j n : ℕ)
    → i + j ≡ length pre
    → j ≡ length m
    → n ≡ length v
    → HasNoNul v
    → match_rest n (pre ++ u) i (m ++ v) j ≡ done (is_some (strip v u))
unfolding match_rest strip
match_rest-strip [] u pre m i j zero e f g h = refl
match_rest-strip [] u pre m i j (suc n) e f g h = absurd (omega arith)
match_rest-strip (b ∷ v) u pre m i j zero e f g h = absurd (omega arith)
match_rest-strip (b ∷ v) [] pre m i j (suc n) e f g (hb, hv) =
    ground (arith, char_at_end pre (i + j) e, char_at-append m v b j f)
match_rest-strip (b ∷ v) (a ∷ u) pre m i j (suc n) e f g (hb, hv) = ground (
  arith,
  char_at-append pre u a (i + j) e,
  char_at-append m v b j f,
  match_rest-strip v u (pre ++ (a ∷ [])) (m ++ (b ∷ [])) i (j + 1) n
      (omega (arith, length-append pre (a ∷ []))) (omega (arith, length-append m (b ∷ [])))
      (omega arith) hv,
  append_assoc pre (a ∷ []) u,
  append_assoc m (b ∷ []) v,
)

-- The comparison at a position inside the text reads nothing out of range, and tells whether the
-- text from there on starts with the splitter; for a splitter that is not empty and holds no zero byte.
pub is_splitter-strip :
    (pre u : Bytes) (a b i : ℕ) (v : Bytes)
    → i ≡ length pre
    → HasNoNul (b ∷ v)
    → is_splitter (pre ++ (a ∷ u)) i (b ∷ v) ≡ done (is_some (strip (b ∷ v) (a ∷ u)))
unfolding is_splitter strip
is_splitter-strip pre u a b i v e (hb, hv) = ground (
  arith,
  char_at-append pre u a i e,
  char_at-append [] v b 0 refl,
  match_rest-strip v u (pre ++ (a ∷ [])) (b ∷ []) i 1 (suc (length v) - 1)
      (omega (arith, length-append pre (a ∷ []))) refl (omega arith) hv,
  append_assoc pre (a ∷ []) u,
)
