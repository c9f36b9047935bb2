-- ===== src/CrossWalk/Keeps.antt =====
-- The invariant of the crosswalk, and every statement keeps it.
use easy_network.Base.{
  bit, ℕ, ◌+◌, ◌^◌, ◌≤◌, ◌<◌, ◌≡◌, true, false, Option, none, some, arith, Bool-cases, inl, inr,
  ◌==◌,
}
use easy_network.CrossWalk.{
  outside, car_lock_mtx, car_lock_road, car_add, car_unlock_road, car_unlock_mtx, on_road, stop_sub,
  stop_test, stop_notify, stop_unlock, walk_lock, walk_flag, walk_test, walk_wait, walk_asleep,
  walk_unflag, crossing, Point, Shared, shared, advance, is_positive,
}
use easy_network.CrossWalk.Tally.{
  holds_mtx, holds_road, counted, let_through, notifying, pending, flagged, waits,
}

-- The numbers of threads that the invariant is about.
pub record Totals : Type 0 where
  pub mtx : ℕ
  pub road : ℕ
  pub cars : ℕ
  pub through : ℕ
  pub bells : ℕ
  pub pend : ℕ
  pub flags : ℕ
  pub sleepers : ℕ

abbrev pub with_thread : Totals → Point → Totals
with_thread o x = record {
  mtx = o.mtx + holds_mtx x;
  road = o.road + holds_road x;
  cars = o.cars + counted x;
  through = o.through + let_through x;
  bells = o.bells + notifying x;
  pend = o.pend + pending x;
  flags = o.flags + flagged x;
  sleepers = o.sleepers + waits x;
}

-- The locks are held by one thread at most, the counter and the flag are right, the road is free when
-- a pedestrian was let through and while a car notifies, and a waiting pedestrian has a car to wait for
-- or one that notifies.
abbrev pub Agrees : Totals → Shared → Type 0
Agrees t (shared m r w c) =
    (t.mtx ≡ bit m)
    × (t.road ≡ bit r)
    × (t.cars ≡ c)
    × (t.flags ≡ bit w)
    × (0 < t.through → c ≡ 0)
    × (0 < t.bells → c ≡ 0)
    × (0 < t.sleepers → 1 ≤ c + t.pend)

-- What holds of the other threads by the meaning of the numbers.
abbrev pub Related : Totals → Type 0
Related t =
    (t.bells ≤ t.road)
    × (t.flags ≤ t.mtx)
    × (t.sleepers ≤ t.flags)
    × (t.sleepers + t.through ≤ t.mtx)
    × (t.pend ≤ t.road)

-- What the invariant says of the outcome of one statement.
abbrev pub AgreesAfter : Totals → Option (Point × Shared) → Type 0
AgreesAfter o none = Unit
AgreesAfter o (some (y, sh)) = Agrees (with_thread o y) sh

pub advance-Agrees :
    (o : Totals) (x : Point) (sh : Shared)
    → Related o
    → o.cars + 1 < 2 ^ 31
    → Agrees (with_thread o x) sh
    → AgreesAfter o (advance x sh)
unfolding advance
advance-Agrees o outside sh e room h = tt
advance-Agrees o car_lock_mtx (shared false r w c) e room h = ground arith
advance-Agrees o car_lock_mtx (shared true r w c) e room h = tt
advance-Agrees o car_lock_road (shared m false w c) e room h = ground arith
advance-Agrees o car_lock_road (shared m true w c) e room h = tt
advance-Agrees o car_add (shared m r w c) e room h = ground arith
advance-Agrees o car_unlock_road (shared m r w c) e room h = ground arith
advance-Agrees o car_unlock_mtx (shared m r w c) e room h = ground arith
advance-Agrees o on_road (shared m false w c) e room h = ground arith
advance-Agrees o on_road (shared m true w c) e room h = tt
advance-Agrees o stop_sub (shared m r w c) e room h = ground arith
advance-Agrees o stop_test (shared m r w c) e room h = elim (Bool-cases (c == 0)) [
  | inl z ↦ rw z (ground arith)
  | inr z ↦ rw z (ground arith)
]
advance-Agrees o stop_notify (shared m r true c) e room h = tt
advance-Agrees o stop_notify (shared m r false c) e room h = ground arith
advance-Agrees o stop_unlock (shared m r w c) e room h = ground arith
advance-Agrees o walk_lock (shared false r w c) e room h = ground arith
advance-Agrees o walk_lock (shared true r w c) e room h = tt
advance-Agrees o walk_flag (shared m r w c) e room h = ground arith
advance-Agrees o walk_test (shared m r w c) e room h = elim (Bool-cases (is_positive c)) [
  | inl z ↦ rw z (unfold is_positive in ground arith)
  | inr z ↦ rw z (unfold is_positive in ground arith)
]
advance-Agrees o walk_wait (shared m r w c) e room h = ground arith
advance-Agrees o walk_asleep sh e room h = tt
advance-Agrees o walk_unflag (shared m r w c) e room h = ground arith
advance-Agrees o crossing (shared m r w c) e room h = ground arith
