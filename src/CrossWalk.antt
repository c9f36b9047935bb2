-- ===== src/CrossWalk.antt =====
-- EN_ThreadCrossWalk.cpp: many "cars" or one "pedestrian" hold the road. Threads interleave at the
-- calls on the mutexes, the atomics and the condition variable.
pub mod Tally
pub mod Keeps
mod Totals
pub mod Safety
mod Tests
use easy_network.Base.{
  ℕ, ◌+◌, ◌-◌, ◌%◌, ◌^◌, ◌≡◌, Bool, true, false, not, ◌&&◌, Option, none, some, List, [], ◌∷◌, ◌++◌,
  map, ltb, ◌==◌, if◌then◌else◌,
}

-- The members: whether Mtx and RoadMtx are locked, IsCondVarWaiting, and RoadCounter, an int of 32
-- bits in two's complement.
pub data Shared : Type 0 where
  shared : Bool → Bool → Bool → ℕ → Shared

-- `RoadCounter > 0`
unfoldable pub is_positive : ℕ → Bool
is_positive c = not (c == 0) && ltb c (2 ^ 31)

-- Where a thread stands: the next statement it runs, or between two calls.
pub data Point : Type 0 where
  outside : Point
  -- CarStartCrossRoad
  car_lock_mtx : Point
  car_lock_road : Point
  car_add : Point
  car_unlock_road : Point
  car_unlock_mtx : Point
  on_road : Point
  -- CarStopCrossRoad, its first statement at `on_road`
  stop_sub : Point
  stop_test : Point
  stop_notify : Point
  stop_unlock : Point
  -- PedestrianStartCrossRoad
  walk_lock : Point
  walk_flag : Point
  walk_test : Point
  walk_wait : Point
  walk_asleep : Point
  walk_unflag : Point
  -- between PedestrianStartCrossRoad and PedestrianStopCrossRoad
  crossing : Point

-- One statement of the thread at a point, `none` where it blocks. A call of `Cv.notify_all()` is no
-- such statement, since it concerns all threads: see `Step`.
unfoldable pub advance : Point → Shared → Option (Point × Shared)
advance outside sh = none
advance car_lock_mtx (shared false r w c) = some (car_lock_road, shared true r w c)
advance car_lock_mtx (shared true r w c) = none
advance car_lock_road (shared m false w c) = some (car_add, shared m true w c)
advance car_lock_road (shared m true w c) = none
advance car_add (shared m r w c) = some (car_unlock_road, shared m r w ((c + 1) % 2 ^ 32))
advance car_unlock_road (shared m r w c) = some (car_unlock_mtx, shared m false w c)
advance car_unlock_mtx (shared m r w c) = some (on_road, shared false r w c)
advance on_road (shared m false w c) = some (stop_sub, shared m true w c)
advance on_road (shared m true w c) = none
advance stop_sub (shared m r w c) = some (stop_test, shared m r w ((c + 2 ^ 32 - 1) % 2 ^ 32))
advance stop_test (shared m r w c) =
    some (if c == 0 then stop_notify else stop_unlock, shared m r w c)
advance stop_notify (shared m r true c) = none
advance stop_notify (shared m r false c) = some (stop_unlock, shared m r false c)
advance stop_unlock (shared m r w c) = some (outside, shared m false w c)
advance walk_lock (shared false r w c) = some (walk_flag, shared true r w c)
advance walk_lock (shared true r w c) = none
advance walk_flag (shared m r w c) = some (walk_test, shared m r true c)
advance walk_test (shared m r w c) =
    some (if is_positive c then walk_wait else walk_unflag, shared m r w c)
advance walk_wait sh = some (walk_asleep, sh)
advance walk_asleep sh = none
advance walk_unflag (shared m r w c) = some (crossing, shared m r false c)
advance crossing (shared m r w c) = some (outside, shared false r w c)

-- What `Cv.notify_all()` does to each thread.
unfoldable pub wake : Point → Point
wake walk_asleep = walk_unflag
wake x = x

-- A step of one of the threads: the start of a call, a statement, or a notification, which ends every
-- `Cv.wait`. Without a notification `Cv.wait` does not return here.
pub data Step : Shared → List Point → Shared → List Point → Type 0 where
  drives :
      (sh : Shared) (front back : List Point)
      → Step sh (front ++ (outside ∷ back)) sh (front ++ (car_lock_mtx ∷ back))
  walks :
      (sh : Shared) (front back : List Point)
      → Step sh (front ++ (outside ∷ back)) sh (front ++ (walk_lock ∷ back))
  runs :
      (sh sh' : Shared) (x y : Point) (front back : List Point)
      → advance x sh ≡ some (y, sh')
      → Step sh (front ++ (x ∷ back)) sh' (front ++ (y ∷ back))
  notifies :
      (m r : Bool) (c : ℕ) (front back : List Point)
      → Step
          (shared m r true c)
          (front ++ (stop_notify ∷ back))
          (shared m r true c)
          (map wake (front ++ (stop_notify ∷ back)))

-- The constructor's state.
abbrev pub new_crosswalk : Shared
new_crosswalk = shared false false false 0

-- The states that `n` threads can reach from a new object.
pub data Reach (ts₀ : List Point) : Shared → List Point → Type 0 where
  here : Reach ts₀ new_crosswalk ts₀
  next :
      {sh sh' : Shared} {ts ts' : List Point}
      → Reach ts₀ sh ts
      → Step sh ts sh' ts'
      → Reach ts₀ sh' ts'
