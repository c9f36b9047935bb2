-- ===== src/Base/Outcome.antt =====
-- The result of a piece of C++ that may read outside a string or run for ever.

-- `fault`: an access that the language leaves undefined. `stuck`: the fuel of a loop ran out.
pub data Run {ℓ} (A : Type ℓ) : Type ℓ where
  done : A → Run A
  fault : Run A
  stuck : Run A

infixl 5 ◌>>=◌
abbrev pub ◌>>=◌ {ℓ κ} : {A : Type ℓ} {B : Type κ} → Run A → (A → Run B) → Run B
done a >>= f = f a
fault >>= f = fault
stuck >>= f = stuck
