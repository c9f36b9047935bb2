-- ===== src/Text/Replace.antt =====
-- `Replace` puts the new text between the parts of a split.
use easy_network.Base.{
  ℕ, zero, suc, ◌+◌, ◌-◌, ◌<◌, ◌≡◌, refl, sym, ap, ap₂, ◌∙◌, none, some, List, [], ◌∷◌, ◌++◌, arith,
  append_assoc, append-nil, Bytes, length, length-append, done,
}
use easy_network.Text.{replace_loop, replace, split}
use easy_network.Text.Match.{strip, HasNoNul, char_at-append, is_splitter-strip}
use easy_network.Text.Parts.{Free, IsSplit, join, strip_complete}
use easy_network.Text.Split.{split-IsSplit}

module _ (b : ℕ) (v : Bytes) (clean : HasNoNul (b ∷ v)) (new : Bytes) where
  replace_end :
      (pre res : Bytes) (i fuel : ℕ)
      → i ≡ length pre
      → replace_loop (suc fuel) (pre ++ []) (b ∷ v) new i res ≡ done res
  unfolding replace_loop
  replace_end pre res i fuel e = ground (arith, length-append pre [])

  replace_miss :
      (pre u res : Bytes) (a i fuel : ℕ)
      → i ≡ length pre
      → strip (b ∷ v) (a ∷ u) ≡ none
      → replace_loop (suc fuel) (pre ++ (a ∷ u)) (b ∷ v) new i res
        ≡ replace_loop fuel (pre ++ (a ∷ u)) (b ∷ v) new (i + 1) (res ++ (a ∷ []))
  unfolding replace_loop
  replace_miss pre u res a i fuel e h = ground (
    arith,
    length-append pre (a ∷ u),
    is_splitter-strip pre u a b i v e clean,
    char_at-append pre u a i e,
  )

  replace_hit :
      (pre u t res : Bytes) (a i fuel : ℕ)
      → i ≡ length pre
      → strip (b ∷ v) (a ∷ u) ≡ some t
      → replace_loop (suc fuel) (pre ++ (a ∷ u)) (b ∷ v) new i res
        ≡ replace_loop fuel (pre ++ (a ∷ u)) (b ∷ v) new (i + length (b ∷ v)) (res ++ new)
  unfolding replace_loop
  replace_hit pre u t res a i fuel e h = ground (
    arith,
    length-append pre (a ∷ u),
    is_splitter-strip pre u a b i v e clean,
    char_at-append pre u a i e,
  )

  replace_walk :
      (p t pre res : Bytes) (i fuel more : ℕ)
      → i ≡ length pre
      → fuel ≡ length p + more
      → Free (b ∷ v) p t
      → replace_loop fuel (pre ++ (p ++ t)) (b ∷ v) new i res
        ≡ replace_loop more ((pre ++ p) ++ t) (b ∷ v) new (length (pre ++ p)) (res ++ p)
  replace_walk [] t pre res i fuel more e g f =
      let e' : i ≡ length (pre ++ []) = omega (arith, length-append pre []) in
      let g' : fuel ≡ more = omega arith in rw (e', g', append-nil, append-nil) refl
  replace_walk (c ∷ p) t pre res i zero more e g f = absurd (omega arith)
  replace_walk (c ∷ p) t pre res i (suc fuel) more e g (h, f) =
      replace_miss pre (p ++ t) res c i fuel e h
      ∙ ap (λ (s : Bytes). replace_loop fuel s (b ∷ v) new (i + 1) (res ++ (c ∷ [])))
          (sym (append_assoc pre (c ∷ []) (p ++ t)))
      ∙ replace_walk p t (pre ++ (c ∷ [])) (res ++ (c ∷ [])) (i + 1) fuel more
          (omega (arith, length-append pre (c ∷ []))) (omega arith) f
      ∙ rw (append_assoc pre (c ∷ []) p, append_assoc res (c ∷ []) p) refl

  replace_loop-join :
      (ps : List Bytes) (s pre res : Bytes) (fuel : ℕ)
      → length s < fuel
      → IsSplit (b ∷ v) s ps
      → replace_loop fuel (pre ++ s) (b ∷ v) new (length pre) res ≡ done (res ++ join new ps)
  unfolding join
  replace_loop-join [] s pre res fuel h x = absurd x
  replace_loop-join (p ∷ []) s pre res fuel h (e, f) =
      let k = fuel - length s - 1 in
      ap (λ (u : Bytes). replace_loop fuel (pre ++ u) (b ∷ v) new (length pre) res)
        (e ∙ sym (append-nil p))
      ∙ replace_walk p [] pre res (length pre) fuel (suc k) refl (omega (arith, ap length e)) f
      ∙ replace_end (pre ++ p) (res ++ p) (length (pre ++ p)) k refl
  replace_loop-join (p ∷ q ∷ ps) s pre res fuel h (t, e, f, x) =
      let k = fuel - length p - 1 in
      let sizes : length s ≡ length p + suc (length v + length t) =
        omega (arith, ap length e, length-append p ((b ∷ v) ++ t), length-append v t) in
      ap (λ (u : Bytes). replace_loop fuel (pre ++ u) (b ∷ v) new (length pre) res) e
      ∙ replace_walk p ((b ∷ v) ++ t) pre res (length pre) fuel (suc k) refl (omega arith) f
      ∙ replace_hit (pre ++ p) (v ++ t) t (res ++ p) b (length (pre ++ p)) k refl
          (strip_complete (b ∷ v) t)
      ∙ ap₂ (λ (u : Bytes) (i : ℕ). replace_loop k u (b ∷ v) new i ((res ++ p) ++ new))
          (sym (append_assoc (pre ++ p) (b ∷ v) t)) (sym (length-append (pre ++ p) (b ∷ v)))
      ∙ replace_loop-join (q ∷ ps) t ((pre ++ p) ++ (b ∷ v)) ((res ++ p) ++ new) k (omega arith) x
      ∙ ap done (
          append_assoc (res ++ p) new (join new (q ∷ ps))
          ∙ append_assoc res p (new ++ join new (q ∷ ps)))

  -- `Replace` is `Split` at the old text followed by a join with the new one, and it ends; for an old
  -- text that is not empty and holds no zero byte.
  pub replace-split :
      (fuel : ℕ) (s : Bytes)
      → length s < fuel
      → (ps : List Bytes) × (split fuel s (b ∷ v) ≡ done ps)
        × (replace fuel s (b ∷ v) new ≡ done (join new ps))
  unfolding replace
  replace-split fuel s h =
      let (ps, p, x) = split-IsSplit b v clean fuel s h in
      (ps, p, replace_loop-join ps s [] [] fuel h x)
