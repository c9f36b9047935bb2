-- ===== src/ParallelFor.antt =====
-- EN_ParallelFor.h: a loop over numbers that several threads share, and the thread that waits for them.
pub mod Weights
pub mod Keeps
pub mod Covers
mod Tests
use easy_network.Base.{
  ℕ, ◌+◌, Bool, true, false, Option, none, some, List, [], ◌∷◌, ◌++◌, ◌==◌, leb, if◌then◌else◌,
  replicate,
}
use easy_network.Threads.{System}

-- The next statement: of `ThreadFunc`, where `p` is LocalPos, and of the thread in `operator()`.
pub data Point : Type 0 where
  lock_step : Point
  read_pos : Point
  test_end : ℕ → Point
  step_pos : ℕ → Point
  unlock_step : ℕ → Point
  invoke : ℕ → Point
  lock_finishing : Point
  count_ended : Point
  leave_step : Point
  test_ended : Point
  unlock_finishing : Point
  over : Point
  -- operator(), before and in its wait, and after it
  main_to_wait : Point
  main_waits : Point
  main_returned : Point

-- StepMutex, ThreadFinishingMutex, Pos, EndedThreads, and the calls of the user's function so far.
pub record Shared : Type 0 where
  pub step_locked : Bool
  pub finishing_locked : Bool
  pub pos : ℕ
  pub ended_threads : ℕ
  pub calls : List ℕ

-- `last` is End.
unfoldable pub advance : ℕ → ℕ → Point → Shared → Option (Point × Shared)
advance last thread_amount lock_step sh =
    if sh.step_locked then none else some (read_pos, record sh { step_locked = true })
advance last thread_amount read_pos sh = some (test_end sh.pos, sh)
advance last thread_amount (test_end p) sh =
    if sh.pos == last then some (lock_finishing, sh) else some (step_pos p, sh)
advance last thread_amount (step_pos p) sh = some (unlock_step p, record sh { pos = sh.pos + 1 })
advance last thread_amount (unlock_step p) sh = some (invoke p, record sh { step_locked = false })
advance last thread_amount (invoke p) sh =
    some (lock_step, record sh { calls = sh.calls ++ (p ∷ []) })
advance last thread_amount lock_finishing sh =
    if sh.finishing_locked then none else some (count_ended, record sh { finishing_locked = true })
advance last thread_amount count_ended sh =
    some (leave_step, record sh { ended_threads = sh.ended_threads + 1 })
advance last thread_amount leave_step sh = some (test_ended, record sh { step_locked = false })
advance last thread_amount test_ended sh =
    if leb thread_amount sh.ended_threads then none else some (unlock_finishing, sh)
advance last thread_amount unlock_finishing sh = some (over, record sh { finishing_locked = false })
advance last thread_amount over sh = none
advance last thread_amount main_to_wait sh = some (main_waits, sh)
advance last thread_amount main_waits sh = none
advance last thread_amount main_returned sh = none

-- `if (EndedThreads >= ThreadAmount) CondVar.notify_all()`
unfoldable pub rings : ℕ → Point → Shared → Option Point
rings thread_amount test_ended sh =
    if leb thread_amount sh.ended_threads then some unlock_finishing else none
rings thread_amount x sh = none

unfoldable pub wake : Point → Point
wake main_waits = main_returned
wake x = x

abbrev pub parallel_for : ℕ → ℕ → System
parallel_for last thread_amount = record {
  Point = Point;
  Shared = Shared;
  advance = advance last thread_amount;
  rings = rings thread_amount;
  wake = wake;
}

-- `operator()` after it has started its threads: the shared state, and all the threads.
abbrev pub started : ℕ → Shared
started first = record {
  step_locked = false;
  finishing_locked = false;
  pos = first;
  ended_threads = 0;
  calls = [];
}

abbrev pub started_threads : ℕ → List Point
started_threads thread_amount = main_to_wait ∷ replicate thread_amount lock_step
