-- ===== src/Gate/Keeps.antt =====
-- The invariant of the gate, and every statement keeps it.
use easy_network.Base.{bit, bit_le_one, ℕ, ◌+◌, ◌≤◌, ◌<◌, ◌≡◌, not, Option, none, some, arith}
use easy_network.Gate.{
  Point, test_shutdown, test_empty, handle, remove, over, close_lock, test_activated, lock_cond_var,
  close_release, to_wait, waits, unlock_cond_var, close_relock, activate, close_unlock, receive,
  shut_down, shut, open_lock, try_cond_var, deactivate, open_release, ring, open_unlock, Shared,
  advance,
}
use easy_network.Gate.Weights.{
  open_holds, close_holds, cond_holds, tested, closing, sleepy, inside, pending, rung, handler,
}

pub record Totals : Type 0 where
  pub opening : ℕ
  pub shutting : ℕ
  pub cond : ℕ
  pub checked : ℕ
  pub near : ℕ
  pub drowsy : ℕ
  pub within : ℕ
  pub due : ℕ
  pub ringing : ℕ
  pub handlers : ℕ

abbrev pub with_thread : Totals → Point → Totals
with_thread o x = record {
  opening = o.opening + open_holds x;
  shutting = o.shutting + close_holds x;
  cond = o.cond + cond_holds x;
  checked = o.checked + tested x;
  near = o.near + closing x;
  drowsy = o.drowsy + sleepy x;
  within = o.within + inside x;
  due = o.due + pending x;
  ringing = o.ringing + rung x;
  handlers = o.handlers + handler x;
}

-- What the handler is woken for: messages and the end of the server.
abbrev pub work : Shared → ℕ
work sh = sh.messages + bit sh.is_shutdown

-- The two mutexes have one holder each. A handler that found no work, and has work now, finds the gate
-- open or there is an opener that has yet to open it; one that goes to sleep or sleeps has such an
-- opener; and while an opener rings the handler is in the gate.
abbrev pub Agrees : Totals → Shared → Type 0
Agrees t sh =
    (t.opening + t.shutting ≡ bit sh.mtx)
    × (t.cond ≡ bit sh.cond_var_mutex)
    × (0 < t.checked → 0 < bit sh.is_shutdown → 0 < t.due + bit (not sh.is_activated))
    × (0 < t.near → 0 < work sh → 0 < t.due + bit (not sh.is_activated))
    × (0 < t.drowsy → 0 < work sh → 0 < t.due)
    × (0 < t.ringing → 0 < t.within)
    × (t.handlers ≡ 1)

abbrev pub AgreesAfter : Totals → Option (Point × Shared) → Type 0
AgreesAfter o none = Unit
AgreesAfter o (some (x, sh)) = Agrees (with_thread o x) sh

-- How the weights of the other threads are related.
abbrev pub Related : Totals → Type 0
Related o =
    (o.drowsy ≤ o.shutting + o.cond)
    × (o.cond ≤ o.opening + o.shutting + o.within)
    × (o.within + o.near + o.checked ≤ o.handlers)
    × (o.ringing ≤ o.opening)

pub advance-Agrees :
    (o : Totals) (x : Point) (sh : Shared)
    → Related o
    → Agrees (with_thread o x) sh
    → AgreesAfter o (advance x sh)
unfolding advance
advance-Agrees o test_shutdown sh k h =
    ground (arith, bit_le_one sh.mtx, bit_le_one sh.cond_var_mutex)
advance-Agrees o test_empty sh k h = ground (arith, bit_le_one sh.mtx, bit_le_one sh.cond_var_mutex)
advance-Agrees o handle sh k h = ground (arith, bit_le_one sh.mtx, bit_le_one sh.cond_var_mutex)
advance-Agrees o remove sh k h = ground (arith, bit_le_one sh.mtx, bit_le_one sh.cond_var_mutex)
advance-Agrees o over sh k h = tt
advance-Agrees o close_lock sh k h = ground (arith, bit_le_one sh.mtx, bit_le_one sh.cond_var_mutex)
advance-Agrees o test_activated sh k h =
    ground (arith, bit_le_one sh.mtx, bit_le_one sh.cond_var_mutex)
advance-Agrees o lock_cond_var sh k h =
    ground (arith, bit_le_one sh.mtx, bit_le_one sh.cond_var_mutex)
advance-Agrees o close_release sh k h =
    ground (arith, bit_le_one sh.mtx, bit_le_one sh.cond_var_mutex)
advance-Agrees o to_wait sh k h = ground (arith, bit_le_one sh.mtx, bit_le_one sh.cond_var_mutex)
advance-Agrees o waits sh k h = tt
advance-Agrees o unlock_cond_var sh k h =
    ground (arith, bit_le_one sh.mtx, bit_le_one sh.cond_var_mutex)
advance-Agrees o close_relock sh k h =
    ground (arith, bit_le_one sh.mtx, bit_le_one sh.cond_var_mutex)
advance-Agrees o activate sh k h = ground (arith, bit_le_one sh.mtx, bit_le_one sh.cond_var_mutex)
advance-Agrees o close_unlock sh k h =
    ground (arith, bit_le_one sh.mtx, bit_le_one sh.cond_var_mutex)
advance-Agrees o receive sh k h = ground (arith, bit_le_one sh.mtx, bit_le_one sh.cond_var_mutex)
advance-Agrees o shut_down sh k h = ground (arith, bit_le_one sh.mtx, bit_le_one sh.cond_var_mutex)
advance-Agrees o shut sh k h = tt
advance-Agrees o (open_lock again) sh k h =
    ground (arith, bit_le_one sh.mtx, bit_le_one sh.cond_var_mutex)
advance-Agrees o (try_cond_var again) sh k h =
    ground (arith, bit_le_one sh.mtx, bit_le_one sh.cond_var_mutex)
advance-Agrees o (deactivate again) sh k h =
    ground (arith, bit_le_one sh.mtx, bit_le_one sh.cond_var_mutex)
advance-Agrees o (open_release again) sh k h =
    ground (arith, bit_le_one sh.mtx, bit_le_one sh.cond_var_mutex)
advance-Agrees o (ring again) sh k h =
    ground (arith, bit_le_one sh.mtx, bit_le_one sh.cond_var_mutex)
advance-Agrees o (open_unlock again) sh k h =
    ground (arith, bit_le_one sh.mtx, bit_le_one sh.cond_var_mutex)
