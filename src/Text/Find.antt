-- ===== src/Text/Find.antt =====
-- `FindAllOccurrences` returns the positions between the parts of a split.
use easy_network.Base.{
  ℕ, zero, suc, ◌+◌, ◌-◌, ◌<◌, ◌≡◌, refl, sym, ap, ap₂, subst, ◌∙◌, none, some, List, [], ◌∷◌, ◌++◌,
  arith, append_assoc, append-nil, Bytes, length, length-append, drop, drop-append, done, All,
}
use easy_network.Text.{find_loop, find_all_occurrences, split}
use easy_network.Text.Match.{strip, HasNoNul, is_splitter-strip}
use easy_network.Text.Parts.{Free, IsSplit, strip_complete}
use easy_network.Text.Split.{split-IsSplit}

-- Where the separators stand, `size` bytes each, if the first part starts at `start`.
unfoldable pub positions : ℕ → ℕ → List Bytes → List ℕ
positions size start [] = []
positions size start (p ∷ []) = []
positions size start (p ∷ q ∷ ps) =
    (start + length p) ∷ positions size (start + length p + size) (q ∷ ps)

-- The needle starts at position `i` of the text.
abbrev pub OccursAt : Bytes → Bytes → ℕ → Type 0
OccursAt needle s i = (t : Bytes) × (strip needle (drop i s) ≡ some t)

module _ (b : ℕ) (v : Bytes) (clean : HasNoNul (b ∷ v)) where
  find_end :
      (pre : Bytes) (found : List ℕ) (i fuel : ℕ)
      → i ≡ length pre
      → find_loop (suc fuel) (pre ++ []) (b ∷ v) i found ≡ done found
  unfolding find_loop
  find_end pre found i fuel e = ground (arith, length-append pre [])

  find_miss :
      (pre u : Bytes) (found : List ℕ) (a i fuel : ℕ)
      → i ≡ length pre
      → strip (b ∷ v) (a ∷ u) ≡ none
      → find_loop (suc fuel) (pre ++ (a ∷ u)) (b ∷ v) i found
        ≡ find_loop fuel (pre ++ (a ∷ u)) (b ∷ v) (i + 1) found
  unfolding find_loop
  find_miss pre u found a i fuel e h =
      ground (arith, length-append pre (a ∷ u), is_splitter-strip pre u a b i v e clean)

  find_hit :
      (pre u t : Bytes) (found : List ℕ) (a i fuel : ℕ)
      → i ≡ length pre
      → strip (b ∷ v) (a ∷ u) ≡ some t
      → find_loop (suc fuel) (pre ++ (a ∷ u)) (b ∷ v) i found
        ≡ find_loop fuel (pre ++ (a ∷ u)) (b ∷ v) (i + length (b ∷ v)) (found ++ (i ∷ []))
  unfolding find_loop
  find_hit pre u t found a i fuel e h =
      ground (arith, length-append pre (a ∷ u), is_splitter-strip pre u a b i v e clean)

  find_walk :
      (p t pre : Bytes) (found : List ℕ) (i fuel more : ℕ)
      → i ≡ length pre
      → fuel ≡ length p + more
      → Free (b ∷ v) p t
      → find_loop fuel (pre ++ (p ++ t)) (b ∷ v) i found
        ≡ find_loop more ((pre ++ p) ++ t) (b ∷ v) (length pre + length p) found
  find_walk [] t pre found i fuel more e g f =
      let e' : i ≡ length pre + 0 = omega arith in
      let g' : fuel ≡ more = omega arith in rw (e', g', append-nil) refl
  find_walk (c ∷ p) t pre found i zero more e g f = absurd (omega arith)
  find_walk (c ∷ p) t pre found i (suc fuel) more e g (h, f) =
      let len : length (pre ++ (c ∷ [])) + length p ≡ length pre + suc (length p) =
        omega (arith, length-append pre (c ∷ [])) in
      find_miss pre (p ++ t) found c i fuel e h
      ∙ ap (λ (s : Bytes). find_loop fuel s (b ∷ v) (i + 1) found)
          (sym (append_assoc pre (c ∷ []) (p ++ t)))
      ∙ find_walk p t (pre ++ (c ∷ [])) found (i + 1) fuel more
          (omega (arith, length-append pre (c ∷ []))) (omega arith) f
      ∙ rw (append_assoc pre (c ∷ []) p, len) refl

  find_loop-positions :
      (ps : List Bytes) (s pre : Bytes) (found : List ℕ) (start fuel : ℕ)
      → start ≡ length pre
      → length s < fuel
      → IsSplit (b ∷ v) s ps
      → find_loop fuel (pre ++ s) (b ∷ v) start found
        ≡ done (found ++ positions (length (b ∷ v)) start ps)
  unfolding positions
  find_loop-positions [] s pre found start fuel g h x = absurd x
  find_loop-positions (p ∷ []) s pre found start fuel g h (e, f) =
      let k = fuel - length s - 1 in
      ap (λ (u : Bytes). find_loop fuel (pre ++ u) (b ∷ v) start found) (e ∙ sym (append-nil p))
      ∙ find_walk p [] pre found start fuel (suc k) g (omega (arith, ap length e)) f
      ∙ find_end (pre ++ p) found (length pre + length p) k (omega (arith, length-append pre p))
      ∙ ap done (sym (append-nil found))
  find_loop-positions (p ∷ q ∷ ps) s pre found start fuel g h (t, e, f, x) =
      let k = fuel - length p - 1 in
      let i = start + length p in
      let size = length (b ∷ v) in
      let sizes : length s ≡ length p + suc (length v + length t) =
        omega (arith, ap length e, length-append p ((b ∷ v) ++ t), length-append v t) in
      let at : i ≡ length (pre ++ p) = omega (arith, length-append pre p) in
      ap (λ (u : Bytes). find_loop fuel (pre ++ u) (b ∷ v) start found) e
      ∙ find_walk p ((b ∷ v) ++ t) pre found start fuel (suc k) g (omega arith) f
      ∙ ap
          (λ (n : ℕ). find_loop (suc k) ((pre ++ p) ++ ((b ∷ v) ++ t)) (b ∷ v) (n + length p) found)
          (sym g)
      ∙ find_hit (pre ++ p) (v ++ t) t found b i k at (strip_complete (b ∷ v) t)
      ∙ ap (λ (u : Bytes). find_loop k u (b ∷ v) (i + size) (found ++ (i ∷ [])))
          (sym (append_assoc (pre ++ p) (b ∷ v) t))
      ∙ find_loop-positions (q ∷ ps) t ((pre ++ p) ++ (b ∷ v)) (found ++ (i ∷ [])) (i + size) k
          (omega (arith, at, length-append (pre ++ p) (b ∷ v))) (omega arith) x
      ∙ ap done (append_assoc found (i ∷ []) (positions size (i + size) (q ∷ ps)))

  pub find_unique :
      (fuel : ℕ) (s : Bytes) (ps : List Bytes)
      → length s < fuel
      → IsSplit (b ∷ v) s ps
      → find_all_occurrences fuel s (b ∷ v) ≡ done (positions (length (b ∷ v)) 0 ps)
  unfolding find_all_occurrences
  find_unique fuel s ps h x = find_loop-positions ps s [] [] 0 fuel refl h x

  -- `FindAllOccurrences` ends and returns the positions of the separators between the parts that
  -- `Split` returns; for a needle that is not empty and holds no zero byte.
  pub find-split :
      (fuel : ℕ) (s : Bytes)
      → length s < fuel
      → (ps : List Bytes) × (split fuel s (b ∷ v) ≡ done ps)
        × (find_all_occurrences fuel s (b ∷ v) ≡ done (positions (length (b ∷ v)) 0 ps))
  unfolding find_all_occurrences
  find-split fuel s h =
      let (ps, p, x) = split-IsSplit b v clean fuel s h in (ps, p, find_unique fuel s ps h x)

  -- The needle starts at each of the positions.
  positions-strip :
      (ps : List Bytes) (s pre : Bytes) (start : ℕ)
      → start ≡ length pre
      → IsSplit (b ∷ v) s ps
      → All (OccursAt (b ∷ v) (pre ++ s)) (positions (length (b ∷ v)) start ps)
  unfolding positions
  positions-strip [] s pre start g x = absurd x
  positions-strip (p ∷ []) s pre start g x = tt
  positions-strip (p ∷ q ∷ ps) s pre start g (t, e, f, x) =
      let at : start + length p ≡ length (pre ++ p) = omega (arith, length-append pre p) in
      let left : pre ++ s ≡ (pre ++ p) ++ ((b ∷ v) ++ t) =
        ap (λ (u : Bytes). pre ++ u) e ∙ sym (append_assoc pre p ((b ∷ v) ++ t)) in
      let whole : pre ++ s ≡ ((pre ++ p) ++ (b ∷ v)) ++ t =
        left ∙ sym (append_assoc (pre ++ p) (b ∷ v) t) in
      let here : drop (start + length p) (pre ++ s) ≡ (b ∷ v) ++ t =
        ap₂ (λ (n : ℕ) (u : Bytes). drop n u) at left ∙ drop-append (pre ++ p) ((b ∷ v) ++ t) in
      (
        (t, ap (strip (b ∷ v)) here ∙ strip_complete (b ∷ v) t),
        subst
            (λ (u : Bytes).
              All (OccursAt (b ∷ v) u)
                (positions (length (b ∷ v)) (start + length p + length (b ∷ v)) (q ∷ ps)))
            (sym whole)
            (positions-strip (q ∷ ps) t ((pre ++ p) ++ (b ∷ v)) (start + length p + length (b ∷ v))
              (omega (arith, at, length-append (pre ++ p) (b ∷ v))) x),
      )

  -- Whatever `FindAllOccurrences` returns, the needle starts at each of its positions; for a
  -- needle that is not empty and holds no zero byte.
  pub find_sound :
      (fuel : ℕ) (s : Bytes) (found : List ℕ)
      → length s < fuel
      → find_all_occurrences fuel s (b ∷ v) ≡ done found
      → All (OccursAt (b ∷ v) s) found
  unfolding find_all_occurrences
  find_sound fuel s found h e =
      let (ps, p, x) = split-IsSplit b v clean fuel s h in
      let same : positions (length (b ∷ v)) 0 ps ≡ found =
        cc (find_loop-positions ps s [] [] 0 fuel refl h x) in
      subst (λ (l : List ℕ). All (OccursAt (b ∷ v) s) l) same (positions-strip ps s [] 0 refl x)
