-- ===== src/Gate/Weights.antt =====
-- What the threads at a gate stand for in its invariant.
use easy_network.Base.{ℕ, ◌+◌, ◌≤◌, ◌≡◌, refl, arith}
use easy_network.Gate.{
  Point, test_shutdown, test_empty, handle, remove, over, close_lock, test_activated, lock_cond_var,
  close_release, to_wait, waits, unlock_cond_var, close_relock, activate, close_unlock, receive,
  shut_down, shut, open_lock, try_cond_var, deactivate, open_release, ring, open_unlock, wake,
}

-- The openers that hold `mtx`.
abbrev pub open_holds : Point → ℕ
open_holds (try_cond_var a) = 1
open_holds (deactivate a) = 1
open_holds (open_release a) = 1
open_holds (ring a) = 1
open_holds (open_unlock a) = 1
open_holds x = 0

-- The handler where it holds `mtx`.
abbrev pub close_holds : Point → ℕ
close_holds test_activated = 1
close_holds lock_cond_var = 1
close_holds close_release = 1
close_holds activate = 1
close_holds close_unlock = 1
close_holds x = 0

-- Who holds `condVarMutex`.
abbrev pub cond_holds : Point → ℕ
cond_holds close_release = 1
cond_holds to_wait = 1
cond_holds waits = 1
cond_holds unlock_cond_var = 1
cond_holds (deactivate a) = 1
cond_holds (open_release a) = 1
cond_holds x = 0

-- The handler after its test of IsShutdown, after its test of the buffer, and after its test of
-- IsActivated, up to the end of the wait.
abbrev pub tested : Point → ℕ
tested test_empty = 1
tested handle = 1
tested remove = 1
tested x = 0

abbrev pub closing : Point → ℕ
closing close_lock = 1
closing test_activated = 1
closing x = 0

abbrev pub sleepy : Point → ℕ
sleepy lock_cond_var = 1
sleepy close_release = 1
sleepy to_wait = 1
sleepy waits = 1
sleepy x = 0

-- The handler in the gate without `mtx`.
abbrev pub inside : Point → ℕ
inside to_wait = 1
inside waits = 1
inside unlock_cond_var = 1
inside close_relock = 1
inside x = 0

abbrev pub asleep : Point → ℕ
asleep waits = 1
asleep x = 0

-- An opener that has yet to open the gate or to wake the handler, and one in the loop.
abbrev pub pending : Point → ℕ
pending (open_lock a) = 1
pending (try_cond_var a) = 1
pending (deactivate a) = 1
pending (ring a) = 1
pending x = 0

abbrev pub rung : Point → ℕ
rung (ring a) = 1
rung x = 0

-- The handler thread, wherever it stands.
abbrev pub handler : Point → ℕ
handler receive = 0
handler shut_down = 0
handler shut = 0
handler (open_lock a) = 0
handler (try_cond_var a) = 0
handler (deactivate a) = 0
handler (open_release a) = 0
handler (ring a) = 0
handler (open_unlock a) = 0
handler x = 1

-- How the weights of one thread are related.
pub weights :
    (x : Point)
    → (sleepy x ≤ close_holds x + cond_holds x)
      × (cond_holds x ≤ open_holds x + close_holds x + inside x)
      × (inside x + closing x + tested x ≤ handler x)
      × (close_holds x + asleep x ≤ handler x)
      × (asleep x ≤ sleepy x)
      × (rung x ≤ open_holds x)
weights test_shutdown = ground arith
weights test_empty = ground arith
weights handle = ground arith
weights remove = ground arith
weights over = ground arith
weights close_lock = ground arith
weights test_activated = ground arith
weights lock_cond_var = ground arith
weights close_release = ground arith
weights to_wait = ground arith
weights waits = ground arith
weights unlock_cond_var = ground arith
weights close_relock = ground arith
weights activate = ground arith
weights close_unlock = ground arith
weights receive = ground arith
weights shut_down = ground arith
weights shut = ground arith
weights (open_lock a) = ground arith
weights (try_cond_var a) = ground arith
weights (deactivate a) = ground arith
weights (open_release a) = ground arith
weights (ring a) = ground arith
weights (open_unlock a) = ground arith

-- What a notification does to them.
pub wake_weights :
    (x : Point)
    → (open_holds (wake x) ≡ open_holds x)
      × (close_holds (wake x) ≡ close_holds x)
      × (cond_holds (wake x) ≡ cond_holds x)
      × (tested (wake x) ≡ tested x)
      × (closing (wake x) ≡ closing x)
      × (inside (wake x) ≡ inside x)
      × (pending (wake x) ≡ pending x)
      × (rung (wake x) ≡ rung x)
      × (handler (wake x) ≡ handler x)
      × (sleepy (wake x) ≤ sleepy x)
unfolding wake
wake_weights waits = ground arith
wake_weights x = (refl, refl, refl, refl, refl, refl, refl, refl, refl, omega arith)
