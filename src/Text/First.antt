-- ===== src/Text/First.antt =====
-- `SplitUpToTheFirst` cuts a text at the first splitter only.
use easy_network.Base.{
  ℕ, zero, suc, ◌+◌, ◌-◌, ◌<◌, ◌≡◌, refl, sym, ap, ap₂, ◌∙◌, none, some, List, [], ◌∷◌, ◌++◌, arith,
  append_assoc, append-nil, Bytes, length, length-append, drop, drop-append, done,
}
use easy_network.Text.{first_loop, split_up_to_the_first, split}
use easy_network.Text.Match.{strip, HasNoNul, char_at-append, is_splitter-strip}
use easy_network.Text.Parts.{Free, IsSplit, IsSplit-join, join, strip_complete}
use easy_network.Text.Split.{split-IsSplit}

-- The pair that the parts of a split stand for.
unfoldable pub cut_once : Bytes → Bytes → List Bytes → Bytes × Bytes
cut_once sep s [] = (s, [])
cut_once sep s (p ∷ []) = (s, [])
cut_once sep s (p ∷ q ∷ ps) = (p, join sep (q ∷ ps))

module _ (b : ℕ) (v : Bytes) (clean : HasNoNul (b ∷ v)) where
  first_end :
      (s part : Bytes) (i fuel : ℕ)
      → i ≡ length s
      → first_loop (suc fuel) s (b ∷ v) i part ≡ done (s, i)
  unfolding first_loop
  first_end s part i fuel e = ground arith

  first_miss :
      (pre u part : Bytes) (a i fuel : ℕ)
      → i ≡ length pre
      → strip (b ∷ v) (a ∷ u) ≡ none
      → first_loop (suc fuel) (pre ++ (a ∷ u)) (b ∷ v) i part
        ≡ first_loop fuel (pre ++ (a ∷ u)) (b ∷ v) (i + 1) (part ++ (a ∷ []))
  unfolding first_loop
  first_miss pre u part a i fuel e h = ground (
    arith,
    length-append pre (a ∷ u),
    is_splitter-strip pre u a b i v e clean,
    char_at-append pre u a i e,
  )

  first_hit :
      (pre u t part : Bytes) (a i fuel : ℕ)
      → i ≡ length pre
      → strip (b ∷ v) (a ∷ u) ≡ some t
      → first_loop (suc fuel) (pre ++ (a ∷ u)) (b ∷ v) i part ≡ done (part, i + length (b ∷ v))
  unfolding first_loop
  first_hit pre u t part a i fuel e h = ground (
    arith,
    length-append pre (a ∷ u),
    is_splitter-strip pre u a b i v e clean,
    char_at-append pre u a i e,
  )

  first_walk :
      (p t pre part : Bytes) (i fuel more : ℕ)
      → i ≡ length pre
      → fuel ≡ length p + more
      → Free (b ∷ v) p t
      → first_loop fuel (pre ++ (p ++ t)) (b ∷ v) i part
        ≡ first_loop more (pre ++ (p ++ t)) (b ∷ v) (length (pre ++ p)) (part ++ p)
  first_walk [] t pre part i fuel more e g f =
      let e' : i ≡ length (pre ++ []) = omega (arith, length-append pre []) in
      let g' : fuel ≡ more = omega arith in rw (e', g', append-nil part) refl
  first_walk (c ∷ p) t pre part i zero more e g f = absurd (omega arith)
  first_walk (c ∷ p) t pre part i (suc fuel) more e g (h, f) =
      first_miss pre (p ++ t) part c i fuel e h
      ∙ ap (λ (s : Bytes). first_loop fuel s (b ∷ v) (i + 1) (part ++ (c ∷ [])))
          (sym (append_assoc pre (c ∷ []) (p ++ t)))
      ∙ first_walk p t (pre ++ (c ∷ [])) (part ++ (c ∷ [])) (i + 1) fuel more
          (omega (arith, length-append pre (c ∷ []))) (omega arith) f
      ∙ rw
          (
            append_assoc pre (c ∷ []) p,
            append_assoc part (c ∷ []) p,
            append_assoc pre (c ∷ []) (p ++ t),
          )
          refl

  loop_none :
      (s : Bytes) (fuel : ℕ)
      → length s < fuel
      → Free (b ∷ v) s []
      → first_loop fuel s (b ∷ v) 0 [] ≡ done (s, length s)
  loop_none s fuel h f =
      let k = fuel - length s - 1 in
      ap (λ (u : Bytes). first_loop fuel u (b ∷ v) 0 []) (sym (append-nil s))
      ∙ first_walk s [] [] [] 0 fuel (suc k) refl (omega arith) f
      ∙ ap (λ (u : Bytes). first_loop (suc k) u (b ∷ v) (length s) s) (append-nil s)
      ∙ first_end s s (length s) k refl

  loop_some :
      (s p t : Bytes) (fuel : ℕ)
      → length s < fuel
      → s ≡ p ++ ((b ∷ v) ++ t)
      → Free (b ∷ v) p ((b ∷ v) ++ t)
      → first_loop fuel s (b ∷ v) 0 [] ≡ done (p, length p + length (b ∷ v))
  loop_some s p t fuel h e f =
      let k = fuel - length p - 1 in
      let sizes : length s ≡ length p + suc (length v + length t) =
        omega (arith, ap length e, length-append p ((b ∷ v) ++ t), length-append v t) in
      ap (λ (u : Bytes). first_loop fuel u (b ∷ v) 0 []) e
      ∙ first_walk p ((b ∷ v) ++ t) [] [] 0 fuel (suc k) refl (omega arith) f
      ∙ first_hit p (v ++ t) t p b (length p) k refl (strip_complete (b ∷ v) t)

  drop_part : (s p t : Bytes) → s ≡ p ++ ((b ∷ v) ++ t) → drop (length p + length (b ∷ v)) s ≡ t
  drop_part s p t e =
      ap₂ (λ (n : ℕ) (u : Bytes). drop n u) (sym (length-append p (b ∷ v)))
        (e ∙ sym (append_assoc p (b ∷ v) t))
      ∙ drop-append (p ++ (b ∷ v)) t

  drop_all : (s : Bytes) → drop (length s) s ≡ []
  drop_all [] = refl
  drop_all (c ∷ s) = drop_all s

  first-IsSplit :
      (fuel : ℕ) (s : Bytes) (ps : List Bytes)
      → length s < fuel
      → IsSplit (b ∷ v) s ps
      → split_up_to_the_first fuel s (b ∷ v) ≡ done (cut_once (b ∷ v) s ps)
  unfolding split_up_to_the_first cut_once
  first-IsSplit fuel s [] h x = absurd x
  first-IsSplit fuel s (p ∷ []) h (e, f) = ground (arith, loop_none s fuel h (rw e f), drop_all s)
  first-IsSplit fuel s (p ∷ q ∷ ps) h (t, e, f, x) =
      ground
        (arith, loop_some s p t fuel h e f, drop_part s p t e, IsSplit-join (b ∷ v) t (q ∷ ps) x)

  -- `SplitUpToTheFirst` ends; it returns the whole text and an empty one if `Split` finds one part,
  -- and else the first part and the rest of the text behind the first splitter; for a splitter that is
  -- not empty and holds no zero byte.
  pub first-split :
      (fuel : ℕ) (s : Bytes)
      → length s < fuel
      → (ps : List Bytes) × (split fuel s (b ∷ v) ≡ done ps)
        × (split_up_to_the_first fuel s (b ∷ v) ≡ done (cut_once (b ∷ v) s ps))
  first-split fuel s h =
      let (ps, p, x) = split-IsSplit b v clean fuel s h in (ps, p, first-IsSplit fuel s ps h x)
