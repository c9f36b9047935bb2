-- ===== src/MessageLoop/Serve.antt =====
-- The loop with `Default_TCP_Recv` on a stream of whole messages.
use easy_network.Base.{
  ℕ, zero, suc, ◌≤◌, ◌<◌, ◌^◌, ◌≡◌, refl, ap, ◌∙◌, Bool, true, false, Option, some, List, [], ◌∷◌,
  ◌++◌, foldl, arith, append_assoc, Bytes, length, All, done,
}
use easy_network.Net.{Sockets, IsStream}
use easy_network.Tcp.{Limits, default_tcp_recv, msg_buf}
use easy_network.Tcp.Prefix.{prefix}
use easy_network.Tcp.Send.{msg_buf_lem}
use easy_network.Tcp.Recv.{default_tcp_recv_whole, default_tcp_recv_end}
use easy_network.MessageLoop.{message_loop}

-- The bytes of a sequence of messages.
abbrev pub wire_of : List Bytes → Bytes
wire_of [] = []
wire_of (m ∷ ms) = msg_buf m ++ wire_of ms

abbrev pub Fits : Limits → Bytes → Type 0
Fits limits m = (length m ≤ limits.max_tcp_message_size) × (length m < 2 ^ 31)

module _ (net : Sockets) {from sock : ℕ} (s : IsStream net from sock) (limits : Limits) where
  open s use {unread}

  received_next :
      (fuel : ℕ) (m old rest : Bytes) (w : net.World)
      → 10 ≤ fuel
      → Fits limits m
      → unread w ≡ msg_buf m ++ rest
      → (w' : net.World) × (default_tcp_recv net fuel limits sock old w ≡ some ((true, m), w'))
        × (unread w' ≡ rest)
  received_next fuel m old rest w enough (fits, small) e =
      default_tcp_recv_whole net s fuel limits old m rest w enough fits small (
        e ∙ ap (λ (t : Bytes). t ++ rest) (msg_buf_lem m) ∙ append_assoc (prefix (length m)) m rest)

  -- What a handler has to respect: it leaves the bytes of the other side unread, its new state is a
  -- function `step` of the message and the old state, and it keeps the receiving function.
  pub record IsHandler {State : Type 0} (recv_fuel : ℕ)
      (recv : State → Bytes → net.World → Option ((Bool × Bytes) × net.World))
      (handle : Bytes → State → net.World → State × net.World) (step : State → Bytes → State)
      : Type 0 where
    pub handle_keeps :
        (m : Bytes) (st : State) (w : net.World) → unread (handle m st w).1 ≡ unread w
    pub handle_steps : (m : Bytes) (st : State) (w : net.World) → (handle m st w).0 ≡ step st m
    pub recv_stays : (m : Bytes) (st : State) → recv (step st m) ≡ recv st

  -- The loop ends, and has handled every message, in order.
  pub message_loop_serves :
      {State : Type 0} (recv_fuel : ℕ)
      (recv : State → Bytes → net.World → Option ((Bool × Bytes) × net.World))
      (handle : Bytes → State → net.World → State × net.World) (step : State → Bytes → State)
      (h : IsHandler recv_fuel recv handle step) (ms : List Bytes) (fuel : ℕ) (old : Bytes)
      (st : State) (w : net.World)
      → 10 ≤ recv_fuel
      → length ms < fuel
      → All (Fits limits) ms
      → recv st ≡ default_tcp_recv net recv_fuel limits sock
      → unread w ≡ wire_of ms
      → (w' : net.World) × (message_loop recv handle fuel old st w ≡ done (foldl step st ms, w'))
  unfolding message_loop
  message_loop_serves recv_fuel recv handle step h ms zero old st w ten enough fit r e =
      absurd (omega arith)
  message_loop_serves {State} recv_fuel recv handle step h [] (suc fuel) old st w ten enough fit r
        e =
      let (w', p) = default_tcp_recv_end net s recv_fuel limits old w (omega arith) e in
      let now : recv st old w ≡ some ((false, []), w') =
        ap (λ (g : Bytes → net.World → Option ((Bool × Bytes) × net.World)). g old w) r ∙ p in
      (w', rw (message_loop, now) refl)
  message_loop_serves {State} recv_fuel recv handle step h (m ∷ ms) (suc fuel) old st w ten enough
        (fm, fit) r e =
      let (w₁, p, q) = received_next recv_fuel m old (wire_of ms) w ten fm e in
      let now : recv st old w ≡ some ((true, m), w₁) =
        ap (λ (g : Bytes → net.World → Option ((Bool × Bytes) × net.World)). g old w) r ∙ p in
      let (w', p') =
        message_loop_serves recv_fuel recv handle step h ms fuel m (step st m) (handle m st w₁).1
          ten (omega arith) fit (h.recv_stays m st ∙ r) (h.handle_keeps m st w₁ ∙ q) in
      (w', rw (message_loop, now, h.handle_steps m st w₁) p')
