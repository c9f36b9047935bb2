-- ===== src/CrossWalk/Tally.antt =====
-- How many threads stand where.
use easy_network.Base.{ℕ, ◌+◌, ◌≤◌, ◌≡◌, refl, List, [], ◌∷◌, ◌++◌, map, arith, length}
use easy_network.CrossWalk.{
  car_lock_road, car_add, car_unlock_road, car_unlock_mtx, on_road, stop_sub, stop_test,
  stop_notify, stop_unlock, walk_flag, walk_test, walk_wait, walk_asleep, walk_unflag, crossing,
  Point, wake,
}

unfoldable pub tally : (Point → ℕ) → List Point → ℕ
tally f [] = 0
tally f (x ∷ xs) = f x + tally f xs

pub tally-append :
    (f : Point → ℕ) (xs ys : List Point) → tally f (xs ++ ys) ≡ tally f xs + tally f ys
unfolding tally
tally-append f [] ys = omega arith
tally-append f (x ∷ xs) ys = omega (arith, tally-append f xs ys)

-- One thread and the others.
pub tally_middle :
    (f : Point → ℕ) (xs ys : List Point) (x : Point)
    → tally f (xs ++ (x ∷ ys)) ≡ tally f xs + tally f ys + f x
unfolding tally
tally_middle f xs ys x = omega (arith, tally-append f xs (x ∷ ys))

pub tally_le :
    (f g : Point → ℕ) (xs : List Point) → ((x : Point) → f x ≤ g x) → tally f xs ≤ tally g xs
unfolding tally
tally_le f g [] h = omega arith
tally_le f g (x ∷ xs) h = omega (arith, h x, tally_le f g xs h)

pub tally-map :
    (f g : Point → ℕ) (xs : List Point)
    → ((x : Point) → f (wake x) ≤ g x)
    → tally f (map wake xs) ≤ tally g xs
unfolding tally
tally-map f g [] h = omega arith
tally-map f g (x ∷ xs) h = omega (arith, h x, tally-map f g xs h)

pub tally-one : (xs : List Point) → tally (λ x. 1) xs ≡ length xs
unfolding tally
tally-one [] = refl
tally-one (x ∷ xs) = omega (arith, tally-one xs)

-- The threads that hold Mtx.
abbrev pub holds_mtx : Point → ℕ
holds_mtx car_lock_road = 1
holds_mtx car_add = 1
holds_mtx car_unlock_road = 1
holds_mtx car_unlock_mtx = 1
holds_mtx walk_flag = 1
holds_mtx walk_test = 1
holds_mtx walk_wait = 1
holds_mtx walk_asleep = 1
holds_mtx walk_unflag = 1
holds_mtx crossing = 1
holds_mtx x = 0

-- The threads that hold RoadMtx.
abbrev pub holds_road : Point → ℕ
holds_road car_add = 1
holds_road car_unlock_road = 1
holds_road stop_sub = 1
holds_road stop_test = 1
holds_road stop_notify = 1
holds_road stop_unlock = 1
holds_road x = 0

-- The cars that RoadCounter counts.
abbrev pub counted : Point → ℕ
counted car_unlock_road = 1
counted car_unlock_mtx = 1
counted on_road = 1
counted stop_sub = 1
counted x = 0

-- The pedestrians that have seen the road free.
abbrev pub let_through : Point → ℕ
let_through walk_unflag = 1
let_through crossing = 1
let_through x = 0

abbrev pub notifying : Point → ℕ
notifying stop_notify = 1
notifying x = 0

-- The cars that have left and may still notify.
abbrev pub pending : Point → ℕ
pending stop_test = 1
pending stop_notify = 1
pending x = 0

-- The pedestrians between the two stores to IsCondVarWaiting.
abbrev pub flagged : Point → ℕ
flagged walk_test = 1
flagged walk_wait = 1
flagged walk_asleep = 1
flagged walk_unflag = 1
flagged x = 0

-- The pedestrians that wait for a notification or are about to.
abbrev pub waits : Point → ℕ
waits walk_wait = 1
waits walk_asleep = 1
waits x = 0
