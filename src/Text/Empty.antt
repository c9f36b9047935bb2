-- ===== src/Text/Empty.antt =====
-- `Split` with an empty splitter, whose first byte is the terminating zero of the std::string.
use easy_network.Base.{
  ℕ, zero, suc, ◌+◌, ◌≡◌, refl, List, [], ◌∷◌, ◌++◌, arith, append_assoc, Bytes, length,
  length-append, done, stuck, true, false,
}
use easy_network.Text.{split_loop, split, char_at, is_splitter, match_rest}
use easy_network.Text.Match.{HasNoNul, char_at-append}

nul_end : char_at [] 0 ≡ done 0
unfolding char_at
nul_end = refl

-- On the zero byte the loop does not move.
loop_stays :
    (fuel : ℕ) (pre u part : Bytes) (parts : List Bytes) (i : ℕ)
    → i ≡ length pre
    → split_loop fuel (pre ++ (0 ∷ u)) [] i part parts ≡ stuck
unfolding split_loop
loop_stays zero pre u part parts i e = refl
loop_stays (suc fuel) pre u part parts i e = ground (
  arith,
  length-append pre (0 ∷ u),
  char_at-append pre u 0 i e,
  is_nul,
  loop_stays fuel pre u [] (parts ++ (part ∷ [])) (i + 0) (omega arith),
)
  where
    is_nul : is_splitter (pre ++ (0 ∷ u)) i [] ≡ done true
    is_nul = unfold is_splitter match_rest in ground (arith, char_at-append pre u 0 i e, nul_end)

loop_reaches :
    (p pre u part : Bytes) (parts : List Bytes) (i fuel : ℕ)
    → i ≡ length pre
    → HasNoNul p
    → split_loop fuel (pre ++ (p ++ (0 ∷ u))) [] i part parts ≡ stuck
unfolding split_loop
loop_reaches [] pre u part parts i fuel e h = loop_stays fuel pre u part parts i e
loop_reaches (c ∷ p) pre u part parts i zero e h = refl
loop_reaches (c ∷ p) pre u part parts i (suc fuel) e (hc, hp) = ground (
  arith,
  length-append pre (c ∷ (p ++ (0 ∷ u))),
  char_at-append pre (p ++ (0 ∷ u)) c i e,
  is_not_nul,
  rw (append_assoc pre (c ∷ []) (p ++ (0 ∷ u))) at (
      loop_reaches p (pre ++ (c ∷ [])) u (part ++ (c ∷ [])) parts (i + 1) fuel
        (omega (arith, length-append pre (c ∷ []))) hp),
)
  where
    is_not_nul : is_splitter (pre ++ (c ∷ (p ++ (0 ∷ u)))) i [] ≡ done false
    is_not_nul =
        unfold is_splitter in ground (arith, char_at-append pre (p ++ (0 ∷ u)) c i e, nul_end)

-- `Split` with an empty splitter never returns on a text that holds a zero byte: no fuel is enough.
pub split_empty_stuck : (p u : Bytes) (fuel : ℕ) → HasNoNul p → split fuel (p ++ (0 ∷ u)) [] ≡ stuck
unfolding split
split_empty_stuck p u fuel h = loop_reaches p [] u [] [] 0 fuel refl h
