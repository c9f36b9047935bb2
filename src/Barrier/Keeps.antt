-- ===== src/Barrier/Keeps.antt =====
-- The invariant of the barrier, and every statement keeps it.
use easy_network.Base.{
  ℕ, ◌+◌, ◌^◌, ◌≤◌, ◌<◌, ◌≡◌, Option, none, some, arith, Bool-cases, inl, inr, ◌==◌,
}
use easy_network.Barrier.{Point, arriving, trying, ringing, to_wait, asleep, awake, passed, advance}

-- The weights of the threads.
abbrev pub outside : Point → ℕ
outside arriving = 1
outside x = 0

abbrev pub tries : Point → ℕ
tries trying = 1
tries x = 0

-- The threads that WaitingAmount counts.
abbrev pub counted : Point → ℕ
counted trying = 1
counted to_wait = 1
counted asleep = 1
counted awake = 1
counted x = 0

abbrev pub bells : Point → ℕ
bells ringing = 1
bells x = 0

-- The threads for which the barrier is open.
abbrev pub opened : Point → ℕ
opened ringing = 1
opened awake = 1
opened passed = 1
opened x = 0

abbrev pub through : Point → ℕ
through passed = 1
through x = 0

pub record Totals : Type 0 where
  pub out : ℕ
  pub tests : ℕ
  pub inside : ℕ
  pub bell : ℕ
  pub free : ℕ

abbrev pub with_thread : Totals → Point → Totals
with_thread o x = record {
  out = o.out + outside x;
  tests = o.tests + tries x;
  inside = o.inside + counted x;
  bell = o.bell + bells x;
  free = o.free + opened x;
}

-- The counter is right; the barrier opens for nobody before all have arrived; before it opens, a full
-- counter has a thread that is about to test it; and after it has opened, a thread notifies as long as
-- one is counted.
abbrev pub Agrees : ℕ → Totals → ℕ → Type 0
Agrees amount t c =
    (t.inside ≡ c)
    × (0 < t.free → (t.out ≡ 0) × (c + 1 ≤ amount))
    × (t.free ≡ 0 → c ≡ amount → 1 ≤ t.tests)
    × (0 < t.free → t.bell ≡ 0 → c ≡ 0)

abbrev pub AgreesAfter : ℕ → Totals → Option (Point × ℕ) → Type 0
AgreesAfter amount o none = Unit
AgreesAfter amount o (some (x, c)) = Agrees amount (with_thread o x) c

-- `o` is the other threads.
pub advance-Agrees :
    (amount : ℕ) (o : Totals) (x : Point) (c : ℕ)
    → o.bell ≤ o.free
    → o.tests ≤ o.inside
    → o.inside + o.out + 1 ≤ amount
    → amount < 2 ^ 31
    → Agrees amount (with_thread o x) c
    → AgreesAfter amount o (advance amount x c)
unfolding advance
advance-Agrees amount o arriving c b t room small h = ground arith
advance-Agrees amount o trying c b t room small h = elim (Bool-cases (c == amount)) [
  | inl z ↦ rw z (ground arith)
  | inr z ↦ rw z (ground arith)
]
advance-Agrees amount o ringing c b t room small h = elim (Bool-cases (c == 0)) [
  | inl z ↦ rw z (ground arith)
  | inr z ↦ rw z tt
]
advance-Agrees amount o to_wait c b t room small h = ground arith
advance-Agrees amount o asleep c b t room small h = tt
advance-Agrees amount o awake c b t room small h = ground arith
advance-Agrees amount o passed c b t room small h = tt
