-- ===== src/Barrier/Tests.antt =====
-- Runs of two threads at a barrier, and the theorems on them.
use easy_network.Base.{ℕ, ◌≤◌, ◌≡◌, ◌⊎◌, refl, [], ◌∷◌, arith, replicate}
use easy_network.Threads.{Reach, here, next, runs, notifies}
use easy_network.Threads.Tally.{tally}
use easy_network.Barrier.{
  arriving, trying, ringing, to_wait, asleep, awake, passed, advance, rings, wake, barrier,
}
use easy_network.Barrier.Keeps.{outside, counted, bells, tries, through}
use easy_network.Barrier.Safety.{barrier_holds, barrier_opens}

-- The first thread waits, the second one tests the full counter.
waiting_reached : Reach (barrier 2) 0 (replicate 2 arriving) 2 (asleep ∷ trying ∷ [])
unfolding advance
waiting_reached =
    next
      (next
        (next (next here (runs 0 1 arriving trying [] (arriving ∷ []) refl))
          (runs 1 1 trying to_wait [] (arriving ∷ []) refl))
        (runs 1 1 to_wait asleep [] (arriving ∷ []) refl))
      (runs 1 2 arriving trying (asleep ∷ []) [] refl)

passed_reached : Reach (barrier 2) 0 (replicate 2 arriving) 0 (passed ∷ ringing ∷ [])
unfolding advance rings wake
passed_reached =
    next
      (next (next waiting_reached (runs 2 1 trying ringing (asleep ∷ []) [] refl))
        (notifies 1 ringing ringing (asleep ∷ []) [] refl))
      (runs 1 0 awake passed [] (ringing ∷ []) refl)

one_passed : 1 ≤ tally through (passed ∷ ringing ∷ [])
unfolding tally
one_passed = omega arith

all_arrived : tally outside (asleep ∷ trying ∷ []) ≡ 0
unfolding tally
all_arrived = refl

barrier_holds_example : tally outside (passed ∷ ringing ∷ []) ≡ 0
barrier_holds_example =
    barrier_holds 2 0 (passed ∷ ringing ∷ []) (omega arith) (omega arith) passed_reached one_passed

barrier_opens_example :
    (1 ≤ tally bells (asleep ∷ trying ∷ []))
    ⊎ ((1 ≤ tally tries (asleep ∷ trying ∷ [])) × (◌≡◌ {A = ℕ} 2 2))
    ⊎ (tally counted (asleep ∷ trying ∷ []) ≡ 0)
barrier_opens_example =
    barrier_opens 2 2 (asleep ∷ trying ∷ []) (omega arith) (omega arith) waiting_reached all_arrived
