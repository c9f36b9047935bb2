-- ===== src/ParallelFor/Covers.antt =====
-- What `operator()` has done when it returns.
use easy_network.Base.{
  ℕ, suc, ◌+◌, ◌≤◌, ◌≡◌, refl, sym, ap, subst, ◌∙◌, some, List, ◌∷◌, ◌++◌, map, arith, length,
}
use easy_network.Threads.{Reach}
use easy_network.Threads.Tally.{
  tally, tally_middle, tally_le, tally_same, tally_sum, tally-one, tally-none, length-replicate,
  length-hole, length-wake,
}
use easy_network.Threads.Rule.{Reach-keeps}
use easy_network.ParallelFor.{
  Point, lock_step, test_ended, unlock_finishing, main_waits, Shared, advance, rings, wake,
  parallel_for, started, started_threads,
}
use easy_network.ParallelFor.Weights.{
  calls_of, due, holds_step, knows, known, steps, takes, past, ended, returned, main, blank_tally,
  weights, due_empty,
}
use easy_network.ParallelFor.Keeps.{Totals, with_thread, Agrees, AgreesAfter, advance-Agrees}

module _ (k : ℕ) where
  abbrev totals : List Point → Totals
  totals ts = record {
    holder = tally holds_step ts;
    knowing = tally knows ts;
    value = tally known ts;
    stepping = tally steps ts;
    taken = tally (takes k) ts;
    beyond = tally past ts;
    finished = tally ended ts;
    done = tally returned ts;
    leading = tally main ts;
  }

  totals_middle :
      (xs ys : List Point) (x : Point)
      → totals (xs ++ (x ∷ ys)) ≡ with_thread k (totals (xs ++ ys)) x
  totals_middle xs ys x =
      rw
        (
          tally_middle holds_step xs ys x,
          tally_middle knows xs ys x,
          tally_middle known xs ys x,
          tally_middle steps xs ys x,
          tally_middle (takes k) xs ys x,
          tally_middle past xs ys x,
          tally_middle ended xs ys x,
          tally_middle returned xs ys x,
          tally_middle main xs ys x,
        )
        refl

  -- A thread has taken `k`, or has ended, or is the main one, and not two of these.
  busy : (ts : List Point) → tally (takes k) ts + tally ended ts + tally main ts ≤ length ts
  busy ts = omega (
    arith,
    tally_sum (takes k) ended ts,
    tally_sum (λ x. takes k x + ended x) main ts,
    tally_le (λ x. takes k x + ended x + main x) (λ x. 1) ts (λ x. (weights k x).2),
    tally-one ts,
  )

wake_weights :
    (k : ℕ) (x : Point)
    → (holds_step (wake x) ≡ holds_step x)
      × (knows (wake x) ≡ knows x)
      × (known (wake x) ≡ known x)
      × (steps (wake x) ≡ steps x)
      × (takes k (wake x) ≡ takes k x)
      × (past (wake x) ≡ past x)
      × (ended (wake x) ≡ ended x)
      × (main (wake x) ≡ main x)
unfolding wake
wake_weights k main_waits = ground arith
wake_weights k x = (refl, refl, refl, refl, refl, refl, refl, refl)

ring_cases :
    (n : ℕ) (x x' : Point) (sh : Shared)
    → rings n x sh ≡ some x'
    → (x ≡ test_ended) × (x' ≡ unlock_finishing) × (n ≤ sh.ended_threads)
unfolding rings
ring_cases n test_ended x' sh e = ground arith
ring_cases n x x' sh e = cc

module _ (first last n k : ℕ) where
  -- The invariant, with the number of the threads.
  abbrev Holds : Shared → List Point → Type 0
  Holds sh ts = Agrees first last n k (totals k ts) sh × (length ts ≡ suc n)

  keeps :
      (sh sh' : Shared) (x x' : Point) (xs ys : List Point)
      → advance last n x sh ≡ some (x', sh')
      → Holds sh (xs ++ (x ∷ ys))
      → Holds sh' (xs ++ (x' ∷ ys))
  keeps sh sh' x x' xs ys e (h, l) =
      let others = xs ++ ys in
      let after =
        advance-Agrees first last n k (totals k others)
          (tally_le knows holds_step others (λ z. (weights k z).0))
          (tally_le steps holds_step others (λ z. (weights k z).1)) (blank_tally others) x sh
          (subst (λ t. Agrees first last n k t sh) (totals_middle k xs ys x) h) in
      (
        subst (λ t. Agrees first last n k t sh') (sym (totals_middle k xs ys x'))
            (subst (AgreesAfter first last n k (totals k others)) e after),
        omega (arith, length-hole xs ys x, length-hole xs ys x'),
      )

  rung :
      (sh : Shared) (ts : List Point)
      → n ≤ sh.ended_threads
      → 1 ≤ tally past ts
      → Holds sh ts
      → Holds sh (map wake ts)
  rung sh ts all someone (h, l) =
      rw
        (
          length-wake wake ts,
          tally_same holds_step wake ts (λ z. (wake_weights k z).0),
          tally_same knows wake ts (λ z. (wake_weights k z).1),
          tally_same known wake ts (λ z. (wake_weights k z).2),
          tally_same steps wake ts (λ z. (wake_weights k z).3),
          tally_same (takes k) wake ts (λ z. (wake_weights k z).4),
          tally_same past wake ts (λ z. (wake_weights k z).5),
          tally_same ended wake ts (λ z. (wake_weights k z).6),
          tally_same main wake ts (λ z. (wake_weights k z).7),
        )
        ((h.0, h.1, h.2, h.3, h.4, h.5, h.6, (λ z. (h.2 someone, all)), h.8), l)

  survives :
      (sh : Shared) (x x' : Point) (xs ys : List Point)
      → rings n x sh ≡ some x'
      → Holds sh (xs ++ (x ∷ ys))
      → Holds sh (map wake (xs ++ (x' ∷ ys)))
  survives sh x x' xs ys e (h, l) =
      let (p, p', all) = ring_cases n x x' sh e in
      let others = totals k (xs ++ ys) in
      rung sh (xs ++ (x' ∷ ys)) all (omega (arith, tally_middle past xs ys x', ap past p')) (
        subst (λ t. Agrees first last n k t sh)
            (totals_middle k xs ys x
              ∙ ap (with_thread k others) p
              ∙ sym (ap (with_thread k others) p')
              ∙ sym (totals_middle k xs ys x'))
            h,
        omega (arith, length-hole xs ys x, length-hole xs ys x'),
      )

  pub Reach-Holds :
      (sh : Shared) (ts : List Point)
      → first ≤ last
      → Reach (parallel_for last n) (started first) (started_threads n) sh ts
      → Holds sh ts
  unfolding tally
  Reach-Holds sh ts range r =
      Reach-keeps (parallel_for last n) Holds keeps survives
        (rw
          (
            tally-none holds_step n lock_step refl,
            tally-none ended n lock_step refl,
            tally-none past n lock_step refl,
            tally-none knows n lock_step refl,
            tally-none steps n lock_step refl,
            tally-none (takes k) n lock_step refl,
            tally-none returned n lock_step refl,
            tally-none main n lock_step refl,
            length-replicate n lock_step,
            due_empty first k,
          )
          (ground arith))
        r

-- Where `operator()` runs with the range from `first` to `last` and some number of threads, and it has
-- returned, the user's function has been called exactly once with every number from `first` to before `last`,
-- and with no other number, whatever the order of the threads' statements was. For a wait that ends by a
-- notification only.
pub parallel_for_covers :
    (first last n k : ℕ) (sh : Shared) (ts : List Point)
    → first ≤ last
    → Reach (parallel_for last n) (started first) (started_threads n) sh ts
    → 1 ≤ tally returned ts
    → calls_of k sh.calls ≡ due first last k
parallel_for_covers first last n k sh ts range r h =
    let ((a, count, c, d, e, f, calls, all, one), l) = Reach-Holds first last n k sh ts range r in
    let (at_end, enough) = all h in
    let full = busy k ts in omega (arith, calls, ap (λ p. due first p k) at_end)
