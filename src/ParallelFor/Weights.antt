-- ===== src/ParallelFor/Weights.antt =====
-- What the threads of EN_ParallelFor.h stand for in its invariant, and the numbers of a range.
use easy_network.Base.{
  bit, bit_le_one, ℕ, ◌+◌, ◌≤◌, ◌≡◌, refl, ◌&&◌, List, [], ◌∷◌, ◌++◌, arith, ◌==◌, leb, ltb,
}
use easy_network.Threads.Tally.{tally, tally-append}
use easy_network.ParallelFor.{
  Point, lock_step, read_pos, test_end, step_pos, unlock_step, invoke, lock_finishing, count_ended,
  leave_step, test_ended, unlock_finishing, over, main_to_wait, main_waits, main_returned,
}

-- Whether a number is the one that is looked at.
abbrev pub at : ℕ → ℕ → ℕ
at k p = bit (k == p)

-- How often the user's function was called with `k`.
abbrev pub calls_of : ℕ → List ℕ → ℕ
calls_of k calls = tally (at k) calls

-- How often a number is in the range from `first` to before `pos`.
abbrev pub due : ℕ → ℕ → ℕ → ℕ
due first pos k = bit (leb first k && ltb k pos)

-- The weights of the threads: who holds StepMutex, who knows Pos and its value there, who is about to
-- step it, who has taken `k` and not called the function with it, who has seen the end, who is counted
-- as ended, and whether `operator()` has returned.
abbrev pub holds_step : Point → ℕ
holds_step read_pos = 1
holds_step (test_end p) = 1
holds_step (step_pos p) = 1
holds_step (unlock_step p) = 1
holds_step lock_finishing = 1
holds_step count_ended = 1
holds_step leave_step = 1
holds_step x = 0

abbrev pub knows : Point → ℕ
knows (test_end p) = 1
knows (step_pos p) = 1
knows x = 0

abbrev pub known : Point → ℕ
known (test_end p) = p
known (step_pos p) = p
known x = 0

abbrev pub steps : Point → ℕ
steps (step_pos p) = 1
steps x = 0

abbrev pub takes : ℕ → Point → ℕ
takes k (unlock_step p) = at k p
takes k (invoke p) = at k p
takes k x = 0

abbrev pub past : Point → ℕ
past lock_finishing = 1
past count_ended = 1
past leave_step = 1
past test_ended = 1
past unlock_finishing = 1
past over = 1
past x = 0

abbrev pub ended : Point → ℕ
ended leave_step = 1
ended test_ended = 1
ended unlock_finishing = 1
ended over = 1
ended x = 0

abbrev pub returned : Point → ℕ
returned main_returned = 1
returned x = 0

abbrev pub main : Point → ℕ
main main_to_wait = 1
main main_waits = 1
main main_returned = 1
main x = 0

pub due_suc : (first pos k : ℕ) → first ≤ pos → due first (pos + 1) k ≡ due first pos k + at k pos
due_suc first pos k h = ground arith

pub due_empty : (first k : ℕ) → due first first k ≡ 0
due_empty first k = ground arith

pub calls_of-append :
    (k p : ℕ) (calls : List ℕ) → calls_of k (calls ++ (p ∷ [])) ≡ calls_of k calls + at k p
unfolding tally
calls_of-append k p calls = omega (arith, tally-append (at k) calls (p ∷ []))

-- A thread that does not know Pos stands for no value.
blank : (x : Point) → knows x ≡ 0 → known x ≡ 0
blank (test_end p) h = absurd (omega arith)
blank (step_pos p) h = absurd (omega arith)
blank x h = refl

pub blank_tally : (ts : List Point) → tally knows ts ≡ 0 → tally known ts ≡ 0
unfolding tally
blank_tally [] h = refl
blank_tally (x ∷ ts) h = omega (arith, blank_tally ts (omega arith), blank x (omega arith))

-- How the weights of one thread are related.
pub weights :
    (k : ℕ) (x : Point)
    → (knows x ≤ holds_step x) × (steps x ≤ holds_step x) × (takes k x + ended x + main x ≤ 1)
weights k lock_step = ground arith
weights k read_pos = ground arith
weights k (test_end p) = ground arith
weights k (step_pos p) = ground arith
weights k (unlock_step p) = (omega arith, omega arith, omega (arith, bit_le_one (k == p)))
weights k (invoke p) = (omega arith, omega arith, omega (arith, bit_le_one (k == p)))
weights k lock_finishing = ground arith
weights k count_ended = ground arith
weights k leave_step = ground arith
weights k test_ended = ground arith
weights k unlock_finishing = ground arith
weights k over = ground arith
weights k main_to_wait = ground arith
weights k main_waits = ground arith
weights k main_returned = ground arith
