-- ===== src/Session/Switch.antt =====
-- The loop of EN_TCP_Server_SCUP.h, whose receiving function stands in the context.
use easy_network.Base.{
  ℕ, zero, suc, ◌≡◌, refl, Bool, true, false, Option, none, some, Bytes, Run, done, stuck,
}
use easy_network.MessageLoop.{message_loop}
use easy_network.Session.{SessionServer, SessionHost, handle_message, Protocol, protocol_loop}

-- A round of either loop, with what goes on after a message.
module _ {State World : Type 0} where
  abbrev after :
      Option ((Bool × Bytes) × World)
      → State
      → (Bytes → World → Run (State × World))
      → Run (State × World)
  after r sv k = elim r [
    | none ↦ stuck
    | some ((false, m), w) ↦ done (sv, w)
    | some ((true, m), w) ↦ k m w
  ]

  after_same :
      (r : Option ((Bool × Bytes) × World)) (sv : State)
      (k k' : Bytes → World → Run (State × World))
      → ((m : Bytes) (w : World) → k m w ≡ k' m w)
      → after r sv k ≡ after r sv k'
  after_same none sv k k' h = refl
  after_same (some ((false, m), w)) sv k k' h = refl
  after_same (some ((true, m), w)) sv k k' h = h m w

module _ {Data World : Type 0} (host : SessionHost (Protocol Data World) World) (sock : ℕ)
    (recv : ℕ → Bytes → World → Option ((Bool × Bytes) × World))
    (keeps : (m : Bytes) (t : Protocol Data World) (w : World)
      → t.context_recv ≡ some recv
      → (host.client_message_handler sock m t w).0.context_recv ≡ some recv) where
  -- While the user keeps the receiving function of the context, the loop of the server with the user's protocol
  -- is the one that every receiving thread runs, with that function: the same end, state and faults.
  pub protocol_loop-message_loop :
      (fuel : ℕ) (message : Bytes) (sv : SessionServer (Protocol Data World) World) (w : World)
      → sv.session_context.context_recv ≡ some recv
      → protocol_loop host fuel sock message sv w
        ≡ message_loop
            (λ (v : SessionServer (Protocol Data World) World). recv sock)
            (handle_message host sock)
            fuel
            message
            sv
            w
  unfolding protocol_loop message_loop
  protocol_loop-message_loop zero message sv w e = refl
  protocol_loop-message_loop (suc fuel) message sv w e =
      let next = recv sock message w in
      rw (protocol_loop, message_loop, e)
        (after_same next sv _ _ (λ m w'.
          protocol_loop-message_loop fuel m (handle_message host sock m sv w').0
            (handle_message host sock m sv w').1 (keeps m sv.session_context w' e)))
