-- ===== src/CrossWalk/Totals.antt =====
-- The numbers of the invariant for a list of threads.
use easy_network.Base.{ℕ, ◌+◌, ◌≤◌, ◌≡◌, refl, List, [], ◌∷◌, ◌++◌, map, arith, length}
use easy_network.CrossWalk.{
  outside, car_lock_mtx, car_lock_road, car_add, car_unlock_road, car_unlock_mtx, on_road, stop_sub,
  stop_test, stop_notify, stop_unlock, walk_lock, walk_flag, walk_test, walk_wait, walk_asleep,
  walk_unflag, crossing, Point, wake,
}
use easy_network.CrossWalk.Tally.{
  tally, tally_middle, tally_le, tally-one, tally-append, holds_mtx, holds_road, counted,
  let_through, notifying, pending, flagged, waits,
}
use easy_network.CrossWalk.Keeps.{Totals, with_thread, Related}

abbrev pub totals : List Point → Totals
totals ts = record {
  mtx = tally holds_mtx ts;
  road = tally holds_road ts;
  cars = tally counted ts;
  through = tally let_through ts;
  bells = tally notifying ts;
  pend = tally pending ts;
  flags = tally flagged ts;
  sleepers = tally waits ts;
}

pub totals_middle :
    (xs ys : List Point) (x : Point) → totals (xs ++ (x ∷ ys)) ≡ with_thread (totals (xs ++ ys)) x
totals_middle xs ys x =
    rw
      (
        tally_middle holds_mtx xs ys x,
        tally_middle holds_road xs ys x,
        tally_middle counted xs ys x,
        tally_middle let_through xs ys x,
        tally_middle notifying xs ys x,
        tally_middle pending xs ys x,
        tally_middle flagged xs ys x,
        tally_middle waits xs ys x,
        tally-append holds_mtx xs ys,
        tally-append holds_road xs ys,
        tally-append counted xs ys,
        tally-append let_through xs ys,
        tally-append notifying xs ys,
        tally-append pending xs ys,
        tally-append flagged xs ys,
        tally-append waits xs ys,
      )
      refl

tally_sum :
    (f g : Point → ℕ) (ts : List Point) → tally f ts + tally g ts ≡ tally (λ x. f x + g x) ts
unfolding tally
tally_sum f g [] = omega arith
tally_sum f g (x ∷ ts) = omega (arith, tally_sum f g ts)

-- How the numbers of one thread are related, and what a notification does to them.
pub weights :
    (x : Point)
    → (notifying x ≤ holds_road x)
      × (flagged x ≤ holds_mtx x)
      × (waits x ≤ flagged x)
      × (waits x + let_through x ≤ holds_mtx x)
      × (pending x ≤ holds_road x)
      × (counted x ≤ 1)
      × (notifying x + counted x ≤ 1)
weights outside = ground arith
weights car_lock_mtx = ground arith
weights car_lock_road = ground arith
weights car_add = ground arith
weights car_unlock_road = ground arith
weights car_unlock_mtx = ground arith
weights on_road = ground arith
weights stop_sub = ground arith
weights stop_test = ground arith
weights stop_notify = ground arith
weights stop_unlock = ground arith
weights walk_lock = ground arith
weights walk_flag = ground arith
weights walk_test = ground arith
weights walk_wait = ground arith
weights walk_asleep = ground arith
weights walk_unflag = ground arith
weights crossing = ground arith

pub wake_weights :
    (x : Point)
    → (holds_mtx (wake x) ≡ holds_mtx x)
      × (holds_road (wake x) ≡ holds_road x)
      × (counted (wake x) ≡ counted x)
      × (notifying (wake x) ≡ notifying x)
      × (pending (wake x) ≡ pending x)
      × (flagged (wake x) ≡ flagged x)
      × (waits (wake x) ≤ waits x)
unfolding wake
wake_weights outside = ground arith
wake_weights car_lock_mtx = ground arith
wake_weights car_lock_road = ground arith
wake_weights car_add = ground arith
wake_weights car_unlock_road = ground arith
wake_weights car_unlock_mtx = ground arith
wake_weights on_road = ground arith
wake_weights stop_sub = ground arith
wake_weights stop_test = ground arith
wake_weights stop_notify = ground arith
wake_weights stop_unlock = ground arith
wake_weights walk_lock = ground arith
wake_weights walk_flag = ground arith
wake_weights walk_test = ground arith
wake_weights walk_wait = ground arith
wake_weights walk_asleep = ground arith
wake_weights walk_unflag = ground arith
wake_weights crossing = ground arith

pub tally_same :
    (f : Point → ℕ) (ts : List Point)
    → ((x : Point) → f (wake x) ≡ f x)
    → tally f (map wake ts) ≡ tally f ts
unfolding tally
tally_same f [] h = refl
tally_same f (x ∷ ts) h = omega (arith, h x, tally_same f ts h)

pub related : (ts : List Point) → Related (totals ts)
related ts = (
  tally_le notifying holds_road ts (λ x. (weights x).0),
  tally_le flagged holds_mtx ts (λ x. (weights x).1),
  tally_le waits flagged ts (λ x. (weights x).2),
  rw (tally_sum waits let_through ts)
      (tally_le (λ x. waits x + let_through x) holds_mtx ts (λ x. (weights x).3)),
  tally_le pending holds_road ts (λ x. (weights x).4),
)

pub cars_le : (ts : List Point) → tally counted ts ≤ length ts
cars_le ts = omega (arith, tally_le counted (λ x. 1) ts (λ x. (weights x).5), tally-one ts)
