-- ===== src/Threads/Tally.antt =====
-- How many threads stand where: the sum of a weight over all threads.
use easy_network.Base.{
  ℕ, zero, suc, ◌+◌, ◌*◌, ◌≤◌, ◌≡◌, ◌⊎◌, inl, inr, refl, ap, List, [], ◌∷◌, ◌++◌, map, arith,
  length, replicate,
}

zero_or_more : (n : ℕ) → (n ≡ 0) ⊎ (1 ≤ n)
zero_or_more zero = inl refl
zero_or_more (suc n) = inr (omega arith)

module _ {Point : Type 0} where
  unfoldable pub tally : (Point → ℕ) → List Point → ℕ
  tally f [] = 0
  tally f (x ∷ xs) = f x + tally f xs

  pub tally-append :
      (f : Point → ℕ) (xs ys : List Point) → tally f (xs ++ ys) ≡ tally f xs + tally f ys
  unfolding tally
  tally-append f [] ys = omega arith
  tally-append f (x ∷ xs) ys = omega (arith, tally-append f xs ys)

  -- One thread and the others.
  pub tally_middle :
      (f : Point → ℕ) (xs ys : List Point) (x : Point)
      → tally f (xs ++ (x ∷ ys)) ≡ tally f (xs ++ ys) + f x
  unfolding tally
  tally_middle f xs ys x = omega (arith, tally-append f xs (x ∷ ys), tally-append f xs ys)

  pub tally_le :
      (f g : Point → ℕ) (xs : List Point) → ((x : Point) → f x ≤ g x) → tally f xs ≤ tally g xs
  unfolding tally
  tally_le f g [] h = omega arith
  tally_le f g (x ∷ xs) h = omega (arith, h x, tally_le f g xs h)

  pub tally_same :
      (f : Point → ℕ) (wake : Point → Point) (xs : List Point)
      → ((x : Point) → f (wake x) ≡ f x)
      → tally f (map wake xs) ≡ tally f xs
  unfolding tally
  tally_same f wake [] h = refl
  tally_same f wake (x ∷ xs) h = omega (arith, h x, tally_same f wake xs h)

  pub tally_sum :
      (f g : Point → ℕ) (xs : List Point) → tally f xs + tally g xs ≡ tally (λ x. f x + g x) xs
  unfolding tally
  tally_sum f g [] = omega arith
  tally_sum f g (x ∷ xs) = omega (arith, tally_sum f g xs)

  pub tally-one : (xs : List Point) → tally (λ x. 1) xs ≡ length xs
  unfolding tally
  tally-one [] = refl
  tally-one (x ∷ xs) = omega (arith, tally-one xs)

  pub tally-replicate : (f : Point → ℕ) (n : ℕ) (x : Point) → tally f (replicate n x) ≡ n * f x
  unfolding tally
  tally-replicate f zero x = omega arith
  tally-replicate f (suc n) x = grind (arith, tally-replicate f n x)

  pub tally-none : (f : Point → ℕ) (n : ℕ) (x : Point) → f x ≡ 0 → tally f (replicate n x) ≡ 0
  tally-none f n x e = rw (tally-replicate f n x, e) (omega arith)

  pub length-replicate : (n : ℕ) (x : Point) → length (replicate n x) ≡ n
  length-replicate zero x = refl
  length-replicate (suc n) x = ap suc (length-replicate n x)

  pub length-hole :
      (xs ys : List Point) (x : Point) → length (xs ++ (x ∷ ys)) ≡ suc (length (xs ++ ys))
  length-hole [] ys x = refl
  length-hole (z ∷ xs) ys x = ap suc (length-hole xs ys x)

  pub length-wake : (wake : Point → Point) (ts : List Point) → length (map wake ts) ≡ length ts
  length-wake wake [] = refl
  length-wake wake (x ∷ ts) = ap suc (length-wake wake ts)

  pub tally_wake :
      (f : Point → ℕ) (wake : Point → Point) (xs : List Point)
      → ((x : Point) → f (wake x) ≤ f x)
      → tally f (map wake xs) ≤ tally f xs
  unfolding tally
  tally_wake f wake [] h = omega arith
  tally_wake f wake (x ∷ xs) h = omega (arith, h x, tally_wake f wake xs h)

  -- A thread that counts.
  pub tally_find :
      (f : Point → ℕ) (ts : List Point)
      → 1 ≤ tally f ts
      → (xs : List Point) × (x : Point) × (ys : List Point) × (ts ≡ xs ++ (x ∷ ys)) × (1 ≤ f x)
  unfolding tally
  tally_find f [] h = absurd (omega arith)
  tally_find f (x ∷ ts) h = elim (zero_or_more (f x)) [
    | inr p ↦ ([], x, ts, refl, p)
    | inl e ↦
        let (xs, y, ys, q, p) = tally_find f ts (omega arith) in
        (x ∷ xs, y, ys, ap (λ (t : List Point). x ∷ t) q, p)
  ]
