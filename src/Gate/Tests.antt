-- ===== src/Gate/Tests.antt =====
-- A message that comes while the handler sleeps, and the theorem on it.
use easy_network.Base.{ℕ, ◌+◌, ◌≤◌, ◌≡◌, refl, Bool, true, false, List, [], ◌∷◌, ◌++◌, arith}
use easy_network.Threads.{Reach, here, next, runs, notifies}
use easy_network.Threads.Tally.{tally}
use easy_network.Gate.{
  Point, test_shutdown, test_empty, close_lock, test_activated, lock_cond_var, close_release,
  to_wait, waits, unlock_cond_var, receive, open_lock, try_cond_var, ring, Shared, advance, rings,
  wake, gate, new_shared, new_threads,
}
use easy_network.Gate.Weights.{asleep, pending, open_holds}
use easy_network.Gate.Wakes.{CanRun, gate_wakes}

abbrev shared : Bool → Bool → Bool → ℕ → Bool → Shared
shared mtx cond activated messages shutdown = record {
  mtx = mtx;
  cond_var_mutex = cond;
  is_activated = activated;
  messages = messages;
  is_shutdown = shutdown;
}

asleep_reached :
    Reach gate new_shared
      (new_threads (true ∷ []))
      (shared false true true 0 false)
      (waits ∷ receive ∷ [])
unfolding advance
asleep_reached =
    next
      (next
        (next
          (next
            (next
              (next
                (next here (
                  runs (shared false false true 0 false) (shared false false true 0 false)
                    test_shutdown test_empty [] (receive ∷ []) refl))
                (runs (shared false false true 0 false) (shared false false true 0 false) test_empty
                  close_lock [] (receive ∷ []) refl))
              (runs (shared false false true 0 false) (shared true false true 0 false) close_lock
                test_activated [] (receive ∷ []) refl))
            (runs (shared true false true 0 false) (shared true false true 0 false) test_activated
              lock_cond_var [] (receive ∷ []) refl))
          (runs (shared true false true 0 false) (shared true true true 0 false) lock_cond_var
            close_release [] (receive ∷ []) refl))
        (runs (shared true true true 0 false) (shared false true true 0 false) close_release to_wait
          [] (receive ∷ []) refl))
      (runs (shared false true true 0 false) (shared false true true 0 false) to_wait waits []
        (receive ∷ []) refl)

message_reached :
    Reach gate new_shared
      (new_threads (true ∷ []))
      (shared false true true 1 false)
      (waits ∷ open_lock true ∷ [])
unfolding advance
message_reached = next asleep_reached (
    runs (shared false true true 0 false) (shared false true true 1 false) receive (open_lock true)
      (waits ∷ []) [] refl)

woken_reached :
    Reach gate new_shared
      (new_threads (true ∷ []))
      (shared true true true 1 false)
      (unlock_cond_var ∷ ring true ∷ [])
unfolding advance rings wake
woken_reached =
    next
      (next
        (next message_reached (
          runs (shared false true true 1 false) (shared true true true 1 false) (open_lock true)
            (try_cond_var true) (waits ∷ []) [] refl))
        (runs (shared true true true 1 false) (shared true true true 1 false) (try_cond_var true)
          (ring true) (waits ∷ []) [] refl))
      (notifies (shared true true true 1 false) (ring true) (ring true) (waits ∷ []) [] refl)

sleeps : 1 ≤ tally asleep (waits ∷ open_lock true ∷ [])
unfolding tally
sleeps = omega arith

gate_wakes_example :
    (1 ≤ tally pending (waits ∷ open_lock true ∷ []))
    × ((xs : List Point) × (x : Point) × (ys : List Point) × (waits ∷ open_lock true ∷ []
          ≡ xs ++ (x ∷ ys))
        × (1 ≤ open_holds x + pending x)
        × CanRun x (shared false true true 1 false))
gate_wakes_example =
    gate_wakes (true ∷ []) (shared false true true 1 false) (waits ∷ open_lock true ∷ [])
      message_reached sleeps (omega arith)
