-- ===== src/MessageLoop.antt =====
-- The loop that every receiving thread of the library runs: `ClientHandler` of EN_TCP_Server.cpp and of
-- its variants, and `ServerHandler` of EN_TCP_Client.cpp. They differ in what they do with a message.
pub mod Serve
use easy_network.Base.{ℕ, zero, suc, Bool, true, false, Option, none, some, Bytes, Run, done, stuck}

-- `recv` may depend on the state, since a handler may replace the function for receiving.
module _ {State World : Type 0} (recv : State → Bytes → World → Option ((Bool × Bytes) × World))
    (handle : Bytes → State → World → State × World) where
  -- `while (true)`, on fuel; `message` is the local variable between two rounds. It ends where `recv`
  -- returns false.
  unfoldable pub message_loop : ℕ → Bytes → State → World → Run (State × World)
  message_loop zero message st w = stuck
  message_loop (suc fuel) message st w = elim (recv st message w) [
    | none ↦ stuck
    | some ((false, m), w') ↦ done (st, w')
    | some ((true, m), w') ↦ message_loop fuel m (handle m st w').0 (handle m st w').1
  ]
