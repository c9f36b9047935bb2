-- ===== src/Barrier/Safety.antt =====
-- What holds in every state of the threads at a barrier.
use easy_network.Base.{
  ℕ, zero, suc, ◌+◌, ◌^◌, ◌≤◌, ◌<◌, ◌≡◌, refl, sym, ap, subst, ◌∙◌, ◌⊎◌, inl, inr, some, List, ◌∷◌,
  ◌++◌, map, arith, length, replicate,
}
use easy_network.Threads.{Reach}
use easy_network.Threads.Tally.{
  tally, tally_middle, tally_le, tally_same, tally_sum, tally-one, tally-replicate,
  length-replicate, length-hole, length-wake,
}
use easy_network.Threads.Rule.{Reach-keeps}
use easy_network.Barrier.{
  Point, arriving, trying, ringing, to_wait, asleep, awake, passed, advance, rings, wake, barrier,
}
use easy_network.Barrier.Keeps.{
  outside, tries, counted, bells, opened, through, Totals, with_thread, Agrees, AgreesAfter,
  advance-Agrees,
}

abbrev totals : List Point → Totals
totals ts = record {
  out = tally outside ts;
  tests = tally tries ts;
  inside = tally counted ts;
  bell = tally bells ts;
  free = tally opened ts;
}

totals_middle :
    (xs ys : List Point) (x : Point) → totals (xs ++ (x ∷ ys)) ≡ with_thread (totals (xs ++ ys)) x
totals_middle xs ys x =
    rw
      (
        tally_middle outside xs ys x,
        tally_middle tries xs ys x,
        tally_middle counted xs ys x,
        tally_middle bells xs ys x,
        tally_middle opened xs ys x,
      )
      refl

-- How the weights of one thread are related, and what a notification does to them.
weights :
    (x : Point)
    → (bells x ≤ opened x)
      × (tries x ≤ counted x)
      × (counted x + outside x ≤ 1)
      × (through x ≤ opened x)
      × (1 ≤ counted x + outside x + opened x)
weights arriving = ground arith
weights trying = ground arith
weights ringing = ground arith
weights to_wait = ground arith
weights asleep = ground arith
weights awake = ground arith
weights passed = ground arith

wake_weights :
    (x : Point)
    → (outside (wake x) ≡ outside x)
      × (tries (wake x) ≡ tries x)
      × (counted (wake x) ≡ counted x)
      × (bells (wake x) ≡ bells x)
unfolding wake
wake_weights arriving = ground arith
wake_weights trying = ground arith
wake_weights ringing = ground arith
wake_weights to_wait = ground arith
wake_weights asleep = ground arith
wake_weights awake = ground arith
wake_weights passed = ground arith

present : (ts : List Point) → tally counted ts + tally outside ts ≤ length ts
present ts = omega (
  arith,
  tally_sum counted outside ts,
  tally_le (λ x. counted x + outside x) (λ x. 1) ts (λ x. (weights x).2),
  tally-one ts,
)

someone : (ts : List Point) → length ts ≤ tally counted ts + tally outside ts + tally opened ts
someone ts = omega (
  arith,
  tally_sum counted outside ts,
  tally_sum (λ x. counted x + outside x) opened ts,
  tally_le (λ x. 1) (λ x. counted x + outside x + opened x) ts (λ x. (weights x).4),
  tally-one ts,
)

-- The invariant, with the number of the threads.
abbrev Holds : ℕ → ℕ → List Point → Type 0
Holds amount c ts = Agrees amount (totals ts) c × (length ts ≡ amount)

keeps :
    (amount : ℕ)
    → amount < 2 ^ 31
    → (c c' : ℕ) (x x' : Point) (xs ys : List Point) → advance amount x c ≡ some (x', c')
    → Holds amount c (xs ++ (x ∷ ys))
    → Holds amount c' (xs ++ (x' ∷ ys))
keeps amount small c c' x x' xs ys e (h, l) =
    let others = xs ++ ys in
    let room : tally counted others + tally outside others + 1 ≤ amount =
      omega (arith, present others, length-hole xs ys x) in
    let after =
      advance-Agrees amount (totals others) x c (tally_le bells opened others (λ z. (weights z).0))
        (tally_le tries counted others (λ z. (weights z).1)) room small
        (subst (λ t. Agrees amount t c) (totals_middle xs ys x) h) in
    (
      subst (λ t. Agrees amount t c') (sym (totals_middle xs ys x'))
          (subst (AgreesAfter amount (totals others)) e after),
      omega (arith, length-hole xs ys x, length-hole xs ys x'),
    )

ring_cases : (x x' : Point) (c : ℕ) → rings x c ≡ some x' → (x ≡ ringing) × (x' ≡ ringing)
unfolding rings
ring_cases ringing x' c e = ground arith
ring_cases x x' c e = cc

rung :
    (amount c : ℕ) (ts : List Point)
    → 1 ≤ tally bells ts
    → Holds amount c ts
    → Holds amount c (map wake ts)
rung amount c ts bell (h, l) =
    let open_now : 0 < tally opened ts =
      omega (arith, tally_le bells opened ts (λ z. (weights z).0)) in
    let same_bell = tally_same bells wake ts (λ z. (wake_weights z).3) in
    let still_open = tally_le bells opened (map wake ts) (λ z. (weights z).0) in
    (
      (
        tally_same counted wake ts (λ z. (wake_weights z).2) ∙ h.0,
        (λ p. (
          tally_same outside wake ts (λ z. (wake_weights z).0) ∙ (h.1 open_now).0,
          (h.1 open_now).1,
        )),
        (λ p q. absurd (omega arith)),
        (λ p q. absurd (omega arith)),
      ),
      length-wake wake ts ∙ l,
    )

survives :
    (amount c : ℕ) (x x' : Point) (xs ys : List Point)
    → rings x c ≡ some x'
    → Holds amount c (xs ++ (x ∷ ys))
    → Holds amount c (map wake (xs ++ (x' ∷ ys)))
survives amount c x x' xs ys e h =
    let (p, p') = ring_cases x x' c e in
    rung amount c (xs ++ (x' ∷ ys)) (omega (arith, tally_middle bells xs ys x', ap bells p'))
      (subst (λ z. Holds amount c (xs ++ (z ∷ ys))) (p ∙ sym p') h)

Reach-Holds :
    (amount c : ℕ) (ts : List Point)
    → 1 ≤ amount
    → amount < 2 ^ 31
    → Reach (barrier amount) 0 (replicate amount arriving) c ts
    → Holds amount c ts
Reach-Holds amount c ts some_thread small r =
    Reach-keeps (barrier amount) (Holds amount) (keeps amount small) (survives amount)
      (
        (
          tally-replicate counted amount arriving ∙ omega arith,
          (λ p. absurd (omega (arith, tally-replicate opened amount arriving))),
          (λ p q. absurd (omega arith)),
          (λ p q. refl),
        ),
        length-replicate amount arriving,
      )
      r

-- The barrier: where `amount` threads call `Wait(amount)` once each, in every state that they reach no
-- thread has passed before all have arrived. For fewer than 2^31 threads and a wait that ends by a
-- notification only.
pub barrier_holds :
    (amount c : ℕ) (ts : List Point)
    → 1 ≤ amount
    → amount < 2 ^ 31
    → Reach (barrier amount) 0 (replicate amount arriving) c ts
    → 1 ≤ tally through ts
    → tally outside ts ≡ 0
barrier_holds amount c ts some_thread small r h =
    let ((count, shut, full, busy), l) = Reach-Holds amount c ts some_thread small r in
    (shut (omega (arith, tally_le through opened ts (λ z. (weights z).3)))).0

zero_or_pos : (n : ℕ) → (n ≡ 0) ⊎ (0 < n)
zero_or_pos zero = inl refl
zero_or_pos (suc n) = inr (omega arith)

-- Nobody is left behind, under the same conditions: in every state in which all have arrived, a thread is
-- in the notifying loop, or one stands before its test with the counter full, so that the test succeeds,
-- or no thread waits any more.
pub barrier_opens :
    (amount c : ℕ) (ts : List Point)
    → 1 ≤ amount
    → amount < 2 ^ 31
    → Reach (barrier amount) 0 (replicate amount arriving) c ts
    → tally outside ts ≡ 0
    → (1 ≤ tally bells ts) ⊎ ((1 ≤ tally tries ts) × (c ≡ amount)) ⊎ (tally counted ts ≡ 0)
barrier_opens amount c ts some_thread small r h =
    let ((count, shut, full, busy), l) = Reach-Holds amount c ts some_thread small r in
    let all = someone ts in
    let most = present ts in
    elim (zero_or_pos (tally opened ts)) [
      | inl none_open ↦
          let c_full : c ≡ amount = omega arith in inr (inl (full none_open c_full, c_full))
      | inr some_open ↦ elim (zero_or_pos (tally bells ts)) [
        | inl silent ↦ inr (inr (count ∙ busy some_open silent))
        | inr loud ↦ inl loud
      ]
    ]
