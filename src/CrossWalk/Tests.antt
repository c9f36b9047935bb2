-- ===== src/CrossWalk/Tests.antt =====
-- A run of two threads on a crosswalk, and the theorems on it.
use easy_network.Base.{◌+◌, ◌≤◌, ◌≡◌, refl, true, false, List, [], ◌∷◌, arith, replicate}
use easy_network.CrossWalk.{
  outside, car_lock_mtx, car_lock_road, car_add, car_unlock_road, car_unlock_mtx, on_road,
  walk_lock, walk_flag, walk_test, walk_wait, walk_asleep, walk_unflag, crossing, Point, shared,
  advance, is_positive, Reach, new_crosswalk, drives, walks, runs, here, next,
}
use easy_network.CrossWalk.Tally.{tally, counted, let_through, pending, waits}
use easy_network.CrossWalk.Safety.{crosswalk_excludes, crosswalk_wakes}

-- One pedestrian alone reaches the other side.
crossing_reached : Reach (replicate 2 outside) (shared true false false 0) (crossing ∷ outside ∷ [])
unfolding advance is_positive
crossing_reached =
    next
      (next
        (next
          (next (next here (walks new_crosswalk [] (outside ∷ []))) (
            runs new_crosswalk (shared true false false 0) walk_lock walk_flag [] (outside ∷ [])
              refl))
          (runs (shared true false false 0) (shared true false true 0) walk_flag walk_test []
            (outside ∷ []) refl))
        (runs (shared true false true 0) (shared true false true 0) walk_test walk_unflag []
          (outside ∷ []) refl))
      (runs (shared true false true 0) (shared true false false 0) walk_unflag crossing []
        (outside ∷ []) refl)

-- A car drives onto the road, then a pedestrian comes and waits.
abbrev car_on : List Point
car_on = on_road ∷ outside ∷ []

car_reached : Reach (replicate 2 outside) (shared false false false 1) car_on
unfolding advance
car_reached =
    next
      (next
        (next
          (next
            (next (next here (drives new_crosswalk [] (outside ∷ []))) (
              runs new_crosswalk (shared true false false 0) car_lock_mtx car_lock_road []
                (outside ∷ []) refl))
            (runs (shared true false false 0) (shared true true false 0) car_lock_road car_add []
              (outside ∷ []) refl))
          (runs (shared true true false 0) (shared true true false 1) car_add car_unlock_road []
            (outside ∷ []) refl))
        (runs (shared true true false 1) (shared true false false 1) car_unlock_road car_unlock_mtx
          [] (outside ∷ []) refl))
      (runs (shared true false false 1) (shared false false false 1) car_unlock_mtx on_road []
        (outside ∷ []) refl)

waiting_reached :
    Reach (replicate 2 outside) (shared true false true 1) (on_road ∷ walk_asleep ∷ [])
unfolding advance is_positive
waiting_reached =
    next
      (next
        (next
          (next (next car_reached (walks (shared false false false 1) (on_road ∷ []) [])) (
            runs (shared false false false 1) (shared true false false 1) walk_lock walk_flag
              (on_road ∷ []) [] refl))
          (runs (shared true false false 1) (shared true false true 1) walk_flag walk_test
            (on_road ∷ []) [] refl))
        (runs (shared true false true 1) (shared true false true 1) walk_test walk_wait
          (on_road ∷ []) [] refl))
      (runs (shared true false true 1) (shared true false true 1) walk_wait walk_asleep
        (on_road ∷ []) [] refl)

one_crosses : 1 ≤ tally let_through (crossing ∷ outside ∷ [])
unfolding tally
one_crosses = omega arith

one_waits : 1 ≤ tally waits (on_road ∷ walk_asleep ∷ [])
unfolding tally
one_waits = omega arith

crosswalk_excludes_example :
    (tally counted (crossing ∷ outside ∷ []) ≡ 0)
    × (tally let_through (crossing ∷ outside ∷ []) ≡ 1)
crosswalk_excludes_example =
    crosswalk_excludes 2 (shared true false false 0) (crossing ∷ outside ∷ []) (omega arith)
      crossing_reached one_crosses

crosswalk_wakes_example :
    (1 ≤ tally counted (on_road ∷ walk_asleep ∷ []) + tally pending (on_road ∷ walk_asleep ∷ []))
    × (true ≡ true)
crosswalk_wakes_example =
    crosswalk_wakes 2 true false true 1 (on_road ∷ walk_asleep ∷ []) (omega arith) waiting_reached
      one_waits
