-- ===== src/Barrier.antt =====
-- EN_ThreadBarrier.cpp: `Wait(amount)`, called once by each of the threads. Each waits with a mutex of its own,
-- which C++ leaves undefined where several wait at a time; here `Cv.wait` does what it does with one mutex.
pub mod Keeps
pub mod Safety
mod Tests
use easy_network.Base.{
  ℕ, ◌+◌, ◌-◌, ◌%◌, ◌^◌, Bool, true, false, not, Option, none, some, ◌==◌, if◌then◌else◌,
}
use easy_network.Threads.{System}

-- The next statement of a thread in `Wait`.
pub data Point : Type 0 where
  arriving : Point
  trying : Point
  ringing : Point
  to_wait : Point
  asleep : Point
  awake : Point
  passed : Point

-- WaitingAmount is an int of 32 bits in two's complement. The loop of the thread whose exchange succeeded
-- ends at 0; until then it calls `notify_all`.
unfoldable pub advance : ℕ → Point → ℕ → Option (Point × ℕ)
advance amount arriving c = some (trying, (c + 1) % 2 ^ 32)
advance amount trying c =
    if c == amount then some (ringing, (amount + 2 ^ 32 - 1) % 2 ^ 32) else some (to_wait, c)
advance amount ringing c = if c == 0 then some (passed, c) else none
advance amount to_wait c = some (asleep, c)
advance amount asleep c = none
advance amount awake c = some (passed, (c + 2 ^ 32 - 1) % 2 ^ 32)
advance amount passed c = none

unfoldable pub rings : Point → ℕ → Option Point
rings ringing c = if c == 0 then none else some ringing
rings x c = none

unfoldable pub wake : Point → Point
wake asleep = awake
wake x = x

-- The threads that call `Wait(amount)`; the shared state is WaitingAmount.
abbrev pub barrier : ℕ → System
barrier amount = record {
  Point = Point;
  Shared = ℕ;
  advance = advance amount;
  rings = rings;
  wake = wake;
}
