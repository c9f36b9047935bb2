-- ===== src/TcpClient/Serve.antt =====
-- The thread of the client with `Default_TCP_Recv`.
use easy_network.Base.{
  ℕ, ◌≤◌, ◌<◌, ◌≡◌, refl, sym, ap, ◌∙◌, false, none, List, [], ◌∷◌, ◌++◌, map, foldl, append_assoc,
  append-nil, Bytes, length, All, done,
}
use easy_network.Net.{Sockets, IsStream}
use easy_network.Tcp.{Limits, default_tcp_recv}
use easy_network.MessageLoop.Serve.{wire_of, Fits, IsHandler, message_loop_serves}
use easy_network.TcpClient.{
  Client, Host, Event, connected, received, disconnected, handle_message, server_handler,
  is_connected,
}

module _ (net : Sockets) {from sock : ℕ} (s : IsStream net from sock) (host : Host net.World)
    (limits : Limits) (connect_keeps : (w : net.World) → s.unread (host.on_connect w) ≡ s.unread w)
    (handler_keeps : (m : Bytes) (w : net.World)
      → s.unread (host.server_message_handler m w) ≡ s.unread w) where
  open s use {unread}

  step : Client net.World → Bytes → Client net.World
  step c m = record c { events = c.events ++ (received m ∷ []) }

  steps :
      (ms : List Bytes) (c : Client net.World)
      → foldl step c ms ≡ record c { events = c.events ++ map received ms }
  unfolding step
  steps [] c = ap (λ (t : List Event). record c { events = t }) (sym (append-nil c.events))
  steps (m ∷ ms) c =
      steps ms (step c m)
      ∙ ap (λ (t : List Event). record c { events = t }) (append_assoc c.events (received m ∷ []) _)

  thread-IsHandler :
      (recv_fuel : ℕ)
      → IsHandler net s limits recv_fuel
          (λ (d : Client net.World). d.tcp_recv d.server_connection_socket)
          (handle_message host)
          step
  unfolding step
  thread-IsHandler recv_fuel = record {
    handle_keeps = λ m st w. handler_keeps m w;
    handle_steps = λ m st w. refl;
    recv_stays = λ m st. refl;
  }

  -- The thread of a client whose server sent the messages `ms` and then closed the connection: it ends;
  -- it has called OnConnect first, then ServerMessageHandler once for each message, in order, and
  -- OnDisconnect last; and the client is not connected any more. The user's functions leave the server's
  -- bytes unread, the messages keep to the limits, and the fuel exceeds the number of messages.
  pub server_handler_serves :
      (recv_fuel : ℕ) (ms : List Bytes) (fuel : ℕ) (c : Client net.World) (w : net.World)
      → 10 ≤ recv_fuel
      → length ms < fuel
      → All (Fits limits) ms
      → c.tcp_recv c.server_connection_socket ≡ default_tcp_recv net recv_fuel limits sock
      → unread w ≡ wire_of ms
      → (c' : Client net.World) × (w' : net.World) × (server_handler host fuel c w ≡ done (c', w'))
        × (c'.events ≡ c.events ++ (connected ∷ (map received ms ++ (disconnected ∷ []))))
        × (is_connected host c' ≡ false)
  unfolding server_handler is_connected
  server_handler_serves recv_fuel ms fuel c w ten enough fit r e =
      let c₁ = record c { events = c.events ++ (connected ∷ []) } in
      let (w', p) =
        message_loop_serves net s limits recv_fuel
          (λ (d : Client net.World). d.tcp_recv d.server_connection_socket) (handle_message host)
          step (thread-IsHandler recv_fuel) ms fuel [] c₁ (host.on_connect w) ten enough fit r
          (connect_keeps w ∙ e) in
      (
        record c {
          events = ((c.events ++ (connected ∷ [])) ++ map received ms) ++ (disconnected ∷ []);
          server_connection_socket = none;
        },
        host.close_socket c.server_connection_socket (host.on_disconnect w'),
        rw (p, steps ms c₁) refl,
        append_assoc (c.events ++ (connected ∷ [])) (map received ms) (disconnected ∷ [])
            ∙ append_assoc c.events (connected ∷ []) _,
        refl,
      )
