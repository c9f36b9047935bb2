-- ===== src/Text/Split.antt =====
-- `Split` computes the parts between the leftmost occurrences of the splitter.
use easy_network.Base.{
  ℕ, zero, suc, ◌+◌, ◌<◌, ◌≡◌, refl, sym, ap, ◌∙◌, none, some, ◌-◌, ap₂, List, [], ◌∷◌, ◌++◌, arith,
  append_assoc, append-nil, Bytes, length, length-append, done,
}
use easy_network.Text.{split_loop, split}
use easy_network.Text.Match.{strip, HasNoNul, char_at-append, is_splitter-strip}
use easy_network.Text.Parts.{Free, IsSplit, join, IsSplit-join, IsSplit-exists, strip_complete}

module _ (b : ℕ) (v : Bytes) (clean : HasNoNul (b ∷ v)) where
  -- One round: at the end of the text, on a byte that starts no splitter, and on a splitter.
  split_end :
      (pre part : Bytes) (parts : List Bytes) (i fuel : ℕ)
      → i ≡ length pre
      → split_loop (suc fuel) (pre ++ []) (b ∷ v) i part parts ≡ done (parts ++ (part ∷ []))
  unfolding split_loop
  split_end pre part parts i fuel e = ground (arith, length-append pre [])

  split_miss :
      (pre u part : Bytes) (parts : List Bytes) (a i fuel : ℕ)
      → i ≡ length pre
      → strip (b ∷ v) (a ∷ u) ≡ none
      → split_loop (suc fuel) (pre ++ (a ∷ u)) (b ∷ v) i part parts
        ≡ split_loop fuel (pre ++ (a ∷ u)) (b ∷ v) (i + 1) (part ++ (a ∷ [])) parts
  unfolding split_loop
  split_miss pre u part parts a i fuel e h = ground (
    arith,
    length-append pre (a ∷ u),
    is_splitter-strip pre u a b i v e clean,
    char_at-append pre u a i e,
  )

  split_hit :
      (pre u t part : Bytes) (parts : List Bytes) (a i fuel : ℕ)
      → i ≡ length pre
      → strip (b ∷ v) (a ∷ u) ≡ some t
      → split_loop (suc fuel) (pre ++ (a ∷ u)) (b ∷ v) i part parts
        ≡ split_loop fuel (pre ++ (a ∷ u)) (b ∷ v) (i + length (b ∷ v)) [] (parts ++ (part ∷ []))
  unfolding split_loop
  split_hit pre u t part parts a i fuel e h = ground (
    arith,
    length-append pre (a ∷ u),
    is_splitter-strip pre u a b i v e clean,
    char_at-append pre u a i e,
  )

  -- The loop walks over a part, byte by byte.
  split_walk :
      (p t pre part : Bytes) (parts : List Bytes) (i fuel more : ℕ)
      → i ≡ length pre
      → fuel ≡ length p + more
      → Free (b ∷ v) p t
      → split_loop fuel (pre ++ (p ++ t)) (b ∷ v) i part parts
        ≡ split_loop more ((pre ++ p) ++ t) (b ∷ v) (length (pre ++ p)) (part ++ p) parts
  split_walk [] t pre part parts i fuel more e g f =
      let e' : i ≡ length (pre ++ []) = omega (arith, length-append pre []) in
      let g' : fuel ≡ more = omega arith in rw (e', g', append-nil, append-nil) refl
  split_walk (c ∷ p) t pre part parts i zero more e g f = absurd (omega arith)
  split_walk (c ∷ p) t pre part parts i (suc fuel) more e g (h, f) =
      split_miss pre (p ++ t) part parts c i fuel e h
      ∙ ap (λ (s : Bytes). split_loop fuel s (b ∷ v) (i + 1) (part ++ (c ∷ [])) parts)
          (sym (append_assoc pre (c ∷ []) (p ++ t)))
      ∙ split_walk p t (pre ++ (c ∷ [])) (part ++ (c ∷ [])) parts (i + 1) fuel more
          (omega (arith, length-append pre (c ∷ []))) (omega arith) f
      ∙ rw (append_assoc pre (c ∷ []) p, append_assoc part (c ∷ []) p) refl

  split_loop-IsSplit :
      (ps : List Bytes) (s pre : Bytes) (parts : List Bytes) (fuel : ℕ)
      → length s < fuel
      → IsSplit (b ∷ v) s ps
      → split_loop fuel (pre ++ s) (b ∷ v) (length pre) [] parts ≡ done (parts ++ ps)
  split_loop-IsSplit [] s pre parts fuel h x = absurd x
  split_loop-IsSplit (p ∷ []) s pre parts fuel h (e, f) =
      let k = fuel - length s - 1 in
      ap (λ (u : Bytes). split_loop fuel (pre ++ u) (b ∷ v) (length pre) [] parts)
        (e ∙ sym (append-nil p))
      ∙ split_walk p [] pre [] parts (length pre) fuel (suc k) refl (omega (arith, ap length e)) f
      ∙ split_end (pre ++ p) p parts (length (pre ++ p)) k refl
  split_loop-IsSplit (p ∷ q ∷ ps) s pre parts fuel h (t, e, f, x) =
      let k = fuel - length p - 1 in
      let sizes : length s ≡ length p + suc (length v + length t) =
        omega (arith, ap length e, length-append p ((b ∷ v) ++ t), length-append v t) in
      ap (λ (u : Bytes). split_loop fuel (pre ++ u) (b ∷ v) (length pre) [] parts) e
      ∙ split_walk p ((b ∷ v) ++ t) pre [] parts (length pre) fuel (suc k) refl (omega arith) f
      ∙ split_hit (pre ++ p) (v ++ t) t p parts b (length (pre ++ p)) k refl
          (strip_complete (b ∷ v) t)
      ∙ ap₂ (λ (u : Bytes) (i : ℕ). split_loop k u (b ∷ v) i [] (parts ++ (p ∷ [])))
          (sym (append_assoc (pre ++ p) (b ∷ v) t)) (sym (length-append (pre ++ p) (b ∷ v)))
      ∙ split_loop-IsSplit (q ∷ ps) t ((pre ++ p) ++ (b ∷ v)) (parts ++ (p ∷ [])) k (omega arith) x
      ∙ ap done (append_assoc parts (p ∷ []) (q ∷ ps))

  -- With fuel above the length of the text `Split` ends, reads nothing out of range, and returns the
  -- parts of the text between the leftmost occurrences of the splitter; for a splitter that is not
  -- empty and holds no zero byte.
  pub split-IsSplit :
      (fuel : ℕ) (s : Bytes)
      → length s < fuel
      → (ps : List Bytes) × (split fuel s (b ∷ v) ≡ done ps) × IsSplit (b ∷ v) s ps
  unfolding split
  split-IsSplit fuel s h =
      let (ps, x) = IsSplit-exists b v s in (ps, split_loop-IsSplit ps s [] [] fuel h x, x)

  -- Any list of parts between leftmost occurrences is what `Split` returns: there is only one.
  pub split_unique :
      (fuel : ℕ) (s : Bytes) (ps : List Bytes)
      → length s < fuel
      → IsSplit (b ∷ v) s ps
      → split fuel s (b ∷ v) ≡ done ps
  unfolding split
  split_unique fuel s ps h x = split_loop-IsSplit ps s [] [] fuel h x

  -- Joining what `Split` returns gives the text back.
  pub join-split :
      (fuel : ℕ) (s : Bytes) (ps : List Bytes)
      → length s < fuel
      → split fuel s (b ∷ v) ≡ done ps
      → join (b ∷ v) ps ≡ s
  join-split fuel s ps h e =
      let (qs, p, x) = split-IsSplit fuel s h in
      let same : qs ≡ ps = cc in rw (← same) (IsSplit-join (b ∷ v) s qs x)
