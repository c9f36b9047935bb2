-- ===== src/Text/Parts.antt =====
-- What it means to cut a text at the leftmost occurrences of a separator, one after the other.
use easy_network.Base.{
  ℕ, zero, suc, ◌<◌, ◌≡◌, ◌⊎◌, inl, inr, refl, sym, ap, ◌∙◌, none, some, List, [], ◌∷◌, ◌++◌, arith,
  append-nil, Bytes, length, length-append, Option-cases,
}
use easy_network.Text.Match.{strip}

pub strip_sound : (p s t : Bytes) → strip p s ≡ some t → s ≡ p ++ t
unfolding strip
strip_sound [] s t e = cc
strip_sound (a ∷ p) [] t e = cc
strip_sound (a ∷ p) (b ∷ s) t e = ground (arith, strip_sound p s t)

pub strip_complete : (p t : Bytes) → strip p (p ++ t) ≡ some t
unfolding strip
strip_complete [] t = refl
strip_complete (a ∷ p) t = ground (arith, strip_complete p t)

-- In `p ++ t` the separator starts at no position of `p`.
abbrev pub Free : Bytes → Bytes → Bytes → Type 0
Free sep [] t = Unit
Free sep (c ∷ p) t = (strip sep (c ∷ (p ++ t)) ≡ none) × Free sep p t

-- `parts` are the pieces of `s` between the leftmost occurrences of the separator.
abbrev pub IsSplit : Bytes → Bytes → List Bytes → Type 0
IsSplit sep s [] = ⊥
IsSplit sep s (p ∷ []) = (s ≡ p) × Free sep p []
IsSplit sep s (p ∷ q ∷ ps) =
    (t : Bytes) × (s ≡ p ++ (sep ++ t)) × Free sep p (sep ++ t) × IsSplit sep t (q ∷ ps)

-- The parts with the separator between them.
unfoldable pub join : Bytes → List Bytes → Bytes
join sep [] = []
join sep (p ∷ []) = p
join sep (p ∷ q ∷ ps) = p ++ (sep ++ join sep (q ∷ ps))

pub IsSplit-join : (sep s : Bytes) (ps : List Bytes) → IsSplit sep s ps → join sep ps ≡ s
unfolding join
IsSplit-join sep s [] h = absurd h
IsSplit-join sep s (p ∷ []) h = sym h.0
IsSplit-join sep s (p ∷ q ∷ ps) (t, e, f, h) =
    ap (λ (u : Bytes). p ++ (sep ++ u)) (IsSplit-join sep t (q ∷ ps) h) ∙ sym e

-- Either the separator does not occur, or there is a leftmost occurrence.
abbrev pub Leftmost : Bytes → Bytes → Type 0
Leftmost sep s =
    Free sep s [] ⊎ ((p : Bytes) × (t : Bytes) × (s ≡ p ++ (sep ++ t)) × Free sep p (sep ++ t))

find-Leftmost : (a : ℕ) (v s : Bytes) → Leftmost (a ∷ v) s
find-Leftmost a v [] = inl tt
find-Leftmost a v (c ∷ s) = elim (Option-cases (strip (a ∷ v) (c ∷ s))) [
  | inr (t, e) ↦ inr ([], t, strip_sound (a ∷ v) (c ∷ s) t e, tt)
  | inl e ↦ elim (find-Leftmost a v s) [
    | inl free ↦ inl ((rw append-nil e, free))
    | inr (p, t, q, free) ↦ inr (c ∷ p, t, ap (λ (u : Bytes). c ∷ u) q, (rw (← q) e, free))
  ]
]

cons_part :
    (a : ℕ) (v s p t : Bytes) (ps : List Bytes)
    → s ≡ p ++ ((a ∷ v) ++ t)
    → Free (a ∷ v) p ((a ∷ v) ++ t)
    → IsSplit (a ∷ v) t ps
    → IsSplit (a ∷ v) s (p ∷ ps)
cons_part a v s p t [] e f h = absurd h
cons_part a v s p t (q ∷ ps) e f h = (t, e, f, h)

IsSplit-below :
    (fuel a : ℕ) (v s : Bytes) → length s < fuel → (ps : List Bytes) × IsSplit (a ∷ v) s ps
IsSplit-below zero a v s h = absurd (omega arith)
IsSplit-below (suc fuel) a v s h = elim (find-Leftmost a v s) [
  | inl free ↦ (s ∷ [], (refl, free))
  | inr (p, t, e, free) ↦
      let shorter : length t < fuel =
        omega (arith, ap length e, length-append p ((a ∷ v) ++ t), length-append v t) in
      let (ps, parts) = IsSplit-below fuel a v t shorter in
      (p ∷ ps, cons_part a v s p t ps e free parts)
]

-- Every text has its parts.
pub IsSplit-exists : (a : ℕ) (v s : Bytes) → (ps : List Bytes) × IsSplit (a ∷ v) s ps
IsSplit-exists a v s = IsSplit-below (suc (length s)) a v s (omega arith)
