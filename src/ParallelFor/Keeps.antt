-- ===== src/ParallelFor/Keeps.antt =====
-- The invariant of the parallel loop, and every statement keeps it.
use easy_network.Base.{
  bit, bit_le_one, ℕ, ◌+◌, ◌≤◌, ◌<◌, ◌≡◌, ap, Option, none, some, arith, Bool-cases, inl, inr, ◌==◌,
  leb,
}
use easy_network.ParallelFor.{
  Point, lock_step, read_pos, test_end, step_pos, unlock_step, invoke, lock_finishing, count_ended,
  leave_step, test_ended, unlock_finishing, over, main_to_wait, main_waits, main_returned, Shared,
  advance,
}
use easy_network.ParallelFor.Weights.{
  at, calls_of, due, holds_step, knows, known, steps, takes, past, ended, returned, main, due_suc,
  calls_of-append,
}

pub record Totals : Type 0 where
  pub holder : ℕ
  pub knowing : ℕ
  pub value : ℕ
  pub stepping : ℕ
  pub taken : ℕ
  pub beyond : ℕ
  pub finished : ℕ
  pub done : ℕ
  pub leading : ℕ

abbrev pub with_thread : ℕ → Totals → Point → Totals
with_thread k o x = record {
  holder = o.holder + holds_step x;
  knowing = o.knowing + knows x;
  value = o.value + known x;
  stepping = o.stepping + steps x;
  taken = o.taken + takes k x;
  beyond = o.beyond + past x;
  finished = o.finished + ended x;
  done = o.done + returned x;
  leading = o.leading + main x;
}

-- StepMutex has one holder, who knows the value of Pos; Pos stays in the range, is at its end once a
-- thread has seen the end, and is not there while a thread is about to step it; EndedThreads counts; each
-- number before Pos was taken once, and then the function was called with it or a thread is about to;
-- `operator()` returns only after all threads have ended; and one thread runs it.
abbrev pub Agrees : ℕ → ℕ → ℕ → ℕ → Totals → Shared → Type 0
Agrees first last thread_amount k t sh =
    (t.holder ≡ bit sh.step_locked)
    × (t.finished ≡ sh.ended_threads)
    × (0 < t.beyond → sh.pos ≡ last)
    × ((first ≤ sh.pos) × (sh.pos ≤ last))
    × (0 < t.knowing → t.value ≡ sh.pos)
    × (0 < t.stepping → sh.pos < last)
    × (calls_of k sh.calls + t.taken ≡ due first sh.pos k)
    × (0 < t.done → (sh.pos ≡ last) × (thread_amount ≤ sh.ended_threads))
    × (t.leading ≡ 1)

abbrev pub AgreesAfter : ℕ → ℕ → ℕ → ℕ → Totals → Option (Point × Shared) → Type 0
AgreesAfter first last thread_amount k o none = Unit
AgreesAfter first last thread_amount k o (some (x, sh)) =
    Agrees first last thread_amount k (with_thread k o x) sh

module _ (first last thread_amount k : ℕ) (o : Totals) (alone : o.knowing ≤ o.holder)
    (few : o.stepping ≤ o.holder) (blank : o.knowing ≡ 0 → o.value ≡ 0) where
  stepped :
      (p : ℕ) (sh : Shared)
      → Agrees first last thread_amount k (with_thread k o (step_pos p)) sh
      → AgreesAfter first last thread_amount k o (advance last thread_amount (step_pos p) sh)
  unfolding advance
  stepped p sh h =
      let fresh = due_suc first sh.pos k h.3.0 in
      let one : o.holder ≡ 0 = omega (arith, bit_le_one sh.step_locked, h.0) in
      let nothing = blank (omega arith) in
      let same : p ≡ sh.pos = omega (arith, h.4 (omega arith)) in
      let below : sh.pos < last = h.5 (omega arith) in
      (
        h.0,
        h.1,
        (λ z. absurd (omega (arith, h.2 z))),
        (omega arith, omega arith),
        (λ z. absurd (omega arith)),
        (λ z. absurd (omega arith)),
        (omega (arith, h.6, fresh, ap (at k) same)),
        (λ z. absurd (omega (arith, (h.7 z).0))),
        h.8,
      )

  pub advance-Agrees :
      (x : Point) (sh : Shared)
      → Agrees first last thread_amount k (with_thread k o x) sh
      → AgreesAfter first last thread_amount k o (advance last thread_amount x sh)
  unfolding advance
  advance-Agrees lock_step sh h = elim (Bool-cases sh.step_locked) [
    | inl z ↦ rw z tt
    | inr z ↦ rw z (ground arith)
  ]
  advance-Agrees read_pos sh h = ground arith
  advance-Agrees (test_end p) sh h = elim (Bool-cases (sh.pos == last)) [
    | inl z ↦ rw z (ground arith)
    | inr z ↦ rw z (ground arith)
  ]
  advance-Agrees (step_pos p) sh h = stepped p sh h
  advance-Agrees (unlock_step p) sh h = ground arith
  advance-Agrees (invoke p) sh h =
      (h.0, h.1, h.2, h.3, h.4, h.5, omega (arith, h.6, calls_of-append k p sh.calls), h.7, h.8)
  advance-Agrees lock_finishing sh h = elim (Bool-cases sh.finishing_locked) [
    | inl z ↦ rw z tt
    | inr z ↦ rw z h
  ]
  advance-Agrees count_ended sh h = ground arith
  advance-Agrees leave_step sh h = ground arith
  advance-Agrees test_ended sh h = elim (Bool-cases (leb thread_amount sh.ended_threads)) [
    | inl z ↦ rw z tt
    | inr z ↦ rw z h
  ]
  advance-Agrees unlock_finishing sh h = h
  advance-Agrees over sh h = tt
  advance-Agrees main_to_wait sh h = h
  advance-Agrees main_waits sh h = tt
  advance-Agrees main_returned sh h = tt
