-- ===== src/CrossWalk/Safety.antt =====
-- What holds in every state that threads can bring a crosswalk into.
use easy_network.Base.{
  bit, ℕ, zero, suc, ◌+◌, ◌^◌, ◌≤◌, ◌<◌, ◌≡◌, refl, sym, ap, ◌∙◌, ◌⊎◌, inl, inr, subst, Bool, true,
  false, List, [], ◌∷◌, ◌++◌, map, arith, length, replicate,
}
use easy_network.CrossWalk.{
  outside, car_lock_mtx, stop_notify, walk_lock, Point, Shared, shared, wake, Step, Reach,
  new_crosswalk, drives, walks, runs, notifies, here, next,
}
use easy_network.CrossWalk.Tally.{
  tally, tally_middle, tally_le, holds_mtx, holds_road, counted, let_through, notifying, pending,
  flagged, waits,
}
use easy_network.CrossWalk.Keeps.{Totals, with_thread, Agrees, AgreesAfter, advance-Agrees}
use easy_network.CrossWalk.Totals.{
  totals, totals_middle, wake_weights, tally_same, related, cars_le,
}

length_middle :
    (xs ys : List Point) (x y : Point) → length (xs ++ (x ∷ ys)) ≡ length (xs ++ (y ∷ ys))
length_middle [] ys x y = refl
length_middle (z ∷ xs) ys x y = ap suc (length_middle xs ys x y)

length-wake : (ts : List Point) → length (map wake ts) ≡ length ts
length-wake [] = refl
length-wake (x ∷ ts) = ap suc (length-wake ts)

length-hole : (xs ys : List Point) (x : Point) → length (xs ++ (x ∷ ys)) ≡ suc (length (xs ++ ys))
length-hole [] ys x = refl
length-hole (z ∷ xs) ys x = ap suc (length-hole xs ys x)

-- One thread moves, the others stand.
moved :
    (xs ys : List Point) (x y : Point) (sh sh' : Shared)
    → (Agrees (with_thread (totals (xs ++ ys)) x) sh
        → Agrees (with_thread (totals (xs ++ ys)) y) sh')
    → Agrees (totals (xs ++ (x ∷ ys))) sh
    → Agrees (totals (xs ++ (y ∷ ys))) sh'
moved xs ys x y sh sh' f h =
    subst (λ t. Agrees t sh') (sym (totals_middle xs ys y))
      (f (subst (λ t. Agrees t sh) (totals_middle xs ys x) h))

-- The start of a call moves no number.
starts :
    (o : Totals) (y : Point) (sh : Shared)
    → (y ≡ car_lock_mtx) ⊎ (y ≡ walk_lock)
    → Agrees (with_thread o outside) sh
    → Agrees (with_thread o y) sh
starts o y sh (inl e) h = rw e h
starts o y sh (inr e) h = rw e h

bells_pending : (x : Point) → notifying x ≤ pending x
bells_pending stop_notify = omega arith
bells_pending x = omega arith

-- A notification: the road is free then, so that the woken pedestrian may pass.
notified :
    (m r : Bool) (c : ℕ) (ts : List Point)
    → 1 ≤ tally notifying ts
    → Agrees (totals ts) (shared m r true c)
    → Agrees (totals (map wake ts)) (shared m r true c)
notified m r c ts bell h =
    let free : c ≡ 0 = h.5 (omega arith) in
    (
      tally_same holds_mtx ts (λ x. (wake_weights x).0) ∙ h.0,
      tally_same holds_road ts (λ x. (wake_weights x).1) ∙ h.1,
      tally_same counted ts (λ x. (wake_weights x).2) ∙ h.2,
      tally_same flagged ts (λ x. (wake_weights x).5) ∙ h.3,
      (λ _. free),
      (λ _. free),
      (λ p. omega (
        arith,
        tally_same pending ts (λ x. (wake_weights x).4),
        tally_le notifying pending ts bells_pending,
      )),
    )

-- Every step keeps the invariant and the number of threads.
Step-Agrees :
    {sh sh' : Shared} {ts ts' : List Point}
    → Step sh ts sh' ts'
    → length ts < 2 ^ 31
    → Agrees (totals ts) sh
    → Agrees (totals ts') sh' × (length ts' ≡ length ts)
Step-Agrees (drives sh xs ys) room h = (
  moved xs ys outside car_lock_mtx sh sh (starts (totals (xs ++ ys)) car_lock_mtx sh (inl refl)) h,
  length_middle xs ys car_lock_mtx outside,
)
Step-Agrees (walks sh xs ys) room h = (
  moved xs ys outside walk_lock sh sh (starts (totals (xs ++ ys)) walk_lock sh (inr refl)) h,
  length_middle xs ys walk_lock outside,
)
Step-Agrees (runs sh sh' x y xs ys e) room h =
    let few : tally counted (xs ++ ys) + 1 < 2 ^ 31 =
      omega (arith, cars_le (xs ++ ys), length-hole xs ys x) in
    (
      moved xs ys x y sh sh'
          (λ a.
            subst (AgreesAfter (totals (xs ++ ys))) e
              (advance-Agrees (totals (xs ++ ys)) x sh (related (xs ++ ys)) few a))
          h,
      length_middle xs ys y x,
    )
Step-Agrees (notifies m r c xs ys) room h = (
  notified m r c (xs ++ (stop_notify ∷ ys))
      (omega (arith, tally_middle notifying xs ys stop_notify)) h,
  length-wake (xs ++ (stop_notify ∷ ys)),
)

tally-replicate : (f : Point → ℕ) (n : ℕ) → f outside ≡ 0 → tally f (replicate n outside) ≡ 0
unfolding tally
tally-replicate f zero h = refl
tally-replicate f (suc n) h = omega (arith, h, tally-replicate f n h)

length-replicate : (n : ℕ) (x : Point) → length (replicate n x) ≡ n
length-replicate zero x = refl
length-replicate (suc n) x = ap suc (length-replicate n x)

new-Agrees : (n : ℕ) → Agrees (totals (replicate n outside)) new_crosswalk
new-Agrees n = (
  tally-replicate holds_mtx n refl,
  tally-replicate holds_road n refl,
  tally-replicate counted n refl,
  tally-replicate flagged n refl,
  (λ p. refl),
  (λ p. refl),
  (λ p. omega (arith, tally-replicate waits n refl)),
)

Reach-Agrees :
    (n : ℕ) {sh : Shared} {ts : List Point}
    → n < 2 ^ 31
    → Reach (replicate n outside) sh ts
    → Agrees (totals ts) sh × (length ts ≡ n)
Reach-Agrees n room here = (new-Agrees n, length-replicate n outside)
Reach-Agrees n room (next r step) =
    let (h, l) = Reach-Agrees n room r in
    let (h', l') = Step-Agrees step (omega arith) h in (h', l' ∙ l)

at_most_one : (b : Bool) (n : ℕ) → n ≡ bit b → n ≤ 1
at_most_one true n h = omega arith
at_most_one false n h = omega arith

is_set : (b : Bool) (n : ℕ) → n ≡ bit b → 1 ≤ n → b ≡ true
is_set true n h p = refl
is_set false n h p = absurd (omega arith)

-- The promise of the crosswalk, for fewer than 2^31 threads and a `Cv.wait` that returns only after a
-- notification: in every state that they reach, while a pedestrian is let through no car is on the
-- road, and no second pedestrian is let through.
pub crosswalk_excludes :
    (n : ℕ) (sh : Shared) (ts : List Point)
    → n < 2 ^ 31
    → Reach (replicate n outside) sh ts
    → 1 ≤ tally let_through ts
    → (tally counted ts ≡ 0) × (tally let_through ts ≡ 1)
crosswalk_excludes n (shared m r w c) ts room reach passes =
    let (h, l) = Reach-Agrees n room reach in
    let one : tally holds_mtx ts ≤ 1 = at_most_one m (tally holds_mtx ts) h.0 in
    (h.2 ∙ h.4 passes, omega (arith, (related ts).3))

-- No wake-up is lost, under the same conditions: while a pedestrian waits or is about to, there is a
-- car on the road, or one that has left it and has not yet ended its notifications; and
-- IsCondVarWaiting is set, so that such a car does notify.
pub crosswalk_wakes :
    (n : ℕ) (m r w : Bool) (c : ℕ) (ts : List Point)
    → n < 2 ^ 31
    → Reach (replicate n outside) (shared m r w c) ts
    → 1 ≤ tally waits ts
    → (1 ≤ tally counted ts + tally pending ts) × (w ≡ true)
crosswalk_wakes n m r w c ts room reach sleeps =
    let (h, l) = Reach-Agrees n room reach in
    (omega (arith, h.6 sleeps), is_set w (tally flagged ts) h.3 (omega (arith, (related ts).2)))
