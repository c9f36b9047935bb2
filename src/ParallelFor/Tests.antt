-- ===== src/ParallelFor/Tests.antt =====
-- A run of one thread over one number, and the theorem on it.
use easy_network.Base.{ℕ, ◌≤◌, ◌≡◌, refl, Bool, true, false, List, [], ◌∷◌, arith}
use easy_network.Threads.{Reach, here, next, runs, notifies}
use easy_network.Threads.Tally.{tally}
use easy_network.ParallelFor.{
  Point, lock_step, read_pos, test_end, step_pos, unlock_step, invoke, lock_finishing, count_ended,
  leave_step, test_ended, unlock_finishing, main_to_wait, main_waits, main_returned, Shared,
  advance, rings, wake, parallel_for, started, started_threads,
}
use easy_network.ParallelFor.Weights.{calls_of, due, returned}
use easy_network.ParallelFor.Covers.{parallel_for_covers}

abbrev shared : Bool → Bool → ℕ → ℕ → List ℕ → Shared
shared step finishing pos ended calls = record {
  step_locked = step;
  finishing_locked = finishing;
  pos = pos;
  ended_threads = ended;
  calls = calls;
}

abbrev waiting : List Point
waiting = main_waits ∷ []

invoked_reached :
    Reach
      (parallel_for 1 1)
      (started 0)
      (started_threads 1)
      (shared false false 1 0 (0 ∷ []))
      (main_waits ∷ lock_step ∷ [])
unfolding advance
invoked_reached =
    next
      (next
        (next
          (next
            (next
              (next
                (next here (
                  runs (shared false false 0 0 []) (shared false false 0 0 []) main_to_wait
                    main_waits [] (lock_step ∷ []) refl))
                (runs (shared false false 0 0 []) (shared true false 0 0 []) lock_step read_pos
                  waiting [] refl))
              (runs (shared true false 0 0 []) (shared true false 0 0 []) read_pos (test_end 0)
                waiting [] refl))
            (runs (shared true false 0 0 []) (shared true false 0 0 []) (test_end 0) (step_pos 0)
              waiting [] refl))
          (runs (shared true false 0 0 []) (shared true false 1 0 []) (step_pos 0) (unlock_step 0)
            waiting [] refl))
        (runs (shared true false 1 0 []) (shared false false 1 0 []) (unlock_step 0) (invoke 0)
          waiting [] refl))
      (runs (shared false false 1 0 []) (shared false false 1 0 (0 ∷ [])) (invoke 0) lock_step
        waiting [] refl)

ended_reached :
    Reach
      (parallel_for 1 1)
      (started 0)
      (started_threads 1)
      (shared false true 1 1 (0 ∷ []))
      (main_waits ∷ test_ended ∷ [])
unfolding advance
ended_reached =
    next
      (next
        (next
          (next
            (next
              (next invoked_reached (
                runs (shared false false 1 0 (0 ∷ [])) (shared true false 1 0 (0 ∷ [])) lock_step
                  read_pos waiting [] refl))
              (runs (shared true false 1 0 (0 ∷ [])) (shared true false 1 0 (0 ∷ [])) read_pos
                (test_end 1) waiting [] refl))
            (runs (shared true false 1 0 (0 ∷ [])) (shared true false 1 0 (0 ∷ [])) (test_end 1)
              lock_finishing waiting [] refl))
          (runs (shared true false 1 0 (0 ∷ [])) (shared true true 1 0 (0 ∷ [])) lock_finishing
            count_ended waiting [] refl))
        (runs (shared true true 1 0 (0 ∷ [])) (shared true true 1 1 (0 ∷ [])) count_ended leave_step
          waiting [] refl))
      (runs (shared true true 1 1 (0 ∷ [])) (shared false true 1 1 (0 ∷ [])) leave_step test_ended
        waiting [] refl)

returned_reached :
    Reach
      (parallel_for 1 1)
      (started 0)
      (started_threads 1)
      (shared false true 1 1 (0 ∷ []))
      (main_returned ∷ unlock_finishing ∷ [])
unfolding rings wake
returned_reached =
    next ended_reached
      (notifies (shared false true 1 1 (0 ∷ [])) test_ended unlock_finishing waiting [] refl)

one_returned : 1 ≤ tally returned (main_returned ∷ unlock_finishing ∷ [])
unfolding tally
one_returned = omega arith

parallel_for_covers_example : calls_of 0 (0 ∷ []) ≡ due 0 1 0
parallel_for_covers_example =
    parallel_for_covers 0 1 1 0 (shared false true 1 1 (0 ∷ []))
      (main_returned ∷ unlock_finishing ∷ []) (omega arith) returned_reached one_returned
