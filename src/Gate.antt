-- ===== src/Gate.antt =====
-- EN_ThreadGate.cpp in its place in EN_UDP_Server.cpp: the thread of `ThreadListHandler`, which closes the
-- gate where its buffer is empty, and the threads that open it, those of `Run` and of `Shutdown`.
pub mod Weights
pub mod Keeps
pub mod Wakes
mod Tests
use easy_network.Base.{
  ℕ, ◌+◌, ◌-◌, Bool, true, false, Option, none, some, List, [], ◌∷◌, ◌==◌, if◌then◌else◌,
}
use easy_network.Threads.{System}

-- The next statement. An opener is in `Open`, and `again` says whether it then goes on in `Run`.
pub data Point : Type 0 where
  -- ThreadListHandler
  test_shutdown : Point
  test_empty : Point
  handle : Point
  remove : Point
  over : Point
  -- EN_ThreadGate::Close
  close_lock : Point
  test_activated : Point
  lock_cond_var : Point
  close_release : Point
  to_wait : Point
  waits : Point
  unlock_cond_var : Point
  close_relock : Point
  activate : Point
  close_unlock : Point
  -- Run and Shutdown
  receive : Point
  shut_down : Point
  shut : Point
  -- EN_ThreadGate::Open
  open_lock : Bool → Point
  try_cond_var : Bool → Point
  deactivate : Bool → Point
  open_release : Bool → Point
  ring : Bool → Point
  open_unlock : Bool → Point

-- `mtx`, `condVarMutex` and IsActivated of the gate, the number of messages in the buffer, and IsShutdown.
pub record Shared : Type 0 where
  pub mtx : Bool
  pub cond_var_mutex : Bool
  pub is_activated : Bool
  pub messages : ℕ
  pub is_shutdown : Bool

unfoldable pub advance : Point → Shared → Option (Point × Shared)
advance test_shutdown sh = some (if sh.is_shutdown then over else test_empty, sh)
advance test_empty sh = some (if sh.messages == 0 then close_lock else handle, sh)
advance handle sh = some (remove, sh)
advance remove sh = some (test_empty, record sh { messages = sh.messages - 1 })
advance over sh = none
advance close_lock sh = if sh.mtx then none else some (test_activated, record sh { mtx = true })
advance test_activated sh = some (if sh.is_activated then lock_cond_var else activate, sh)
advance lock_cond_var sh =
    if sh.cond_var_mutex then none else some (close_release, record sh { cond_var_mutex = true })
advance close_release sh = some (to_wait, record sh { mtx = false })
advance to_wait sh = some (waits, sh)
advance waits sh = none
advance unlock_cond_var sh = some (close_relock, record sh { cond_var_mutex = false })
advance close_relock sh = if sh.mtx then none else some (close_unlock, record sh { mtx = true })
advance activate sh = some (close_unlock, record sh { is_activated = true })
advance close_unlock sh = some (test_shutdown, record sh { mtx = false })
advance receive sh = some (open_lock true, record sh { messages = sh.messages + 1 })
advance shut_down sh = some (open_lock false, record sh { is_shutdown = true })
advance shut sh = none
advance (open_lock again) sh =
    if sh.mtx then none else some (try_cond_var again, record sh { mtx = true })
advance (try_cond_var again) sh =
    if sh.cond_var_mutex
    then some (ring again, sh)
    else some (deactivate again, record sh { cond_var_mutex = true })
advance (deactivate again) sh = some (open_release again, record sh { is_activated = false })
advance (open_release again) sh = some (open_unlock again, record sh { cond_var_mutex = false })
advance (ring again) sh =
    if sh.cond_var_mutex
    then none
    else some (open_release again, record sh { cond_var_mutex = true })
advance (open_unlock again) sh = some (if again then receive else shut, record sh { mtx = false })

-- `while (condVarMutex.try_lock() != true) cv.notify_all()`
unfoldable pub rings : Point → Shared → Option Point
rings (ring again) sh = if sh.cond_var_mutex then some (ring again) else none
rings x sh = none

unfoldable pub wake : Point → Point
wake waits = unlock_cond_var
wake x = x

abbrev pub gate : System
gate = record { Point = Point; Shared = Shared; advance = advance; rings = rings; wake = wake }

-- The gate and the buffer at the start of `Run`.
abbrev pub new_shared : Shared
new_shared = record {
  mtx = false;
  cond_var_mutex = false;
  is_activated = true;
  messages = 0;
  is_shutdown = false;
}

-- The handler thread, some threads that receive, and some that call `Shutdown`.
abbrev pub openers : List Bool → List Point
openers [] = []
openers (again ∷ bs) = (if again then receive else shut_down) ∷ openers bs

abbrev pub new_threads : List Bool → List Point
new_threads bs = test_shutdown ∷ openers bs
