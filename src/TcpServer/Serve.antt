-- ===== src/TcpServer/Serve.antt =====
-- The thread of one client with `Default_TCP_Recv`.
use easy_network.Base.{
  ℕ, ◌≤◌, ◌<◌, ◌≡◌, refl, sym, ap, ◌∙◌, Bool, Option, List, [], ◌∷◌, ◌++◌, map, foldl, append_assoc,
  append-nil, Bytes, length, All, done,
}
use easy_network.Net.{Sockets, IsStream}
use easy_network.Tcp.{Limits, default_tcp_recv}
use easy_network.MessageLoop.Serve.{wire_of, Fits, IsHandler, message_loop_serves}
use easy_network.TcpServer.{
  Server, Host, Event, connected, received, disconnected, handle_message, handle_messages,
  client_handler, erase_socket,
}

module _ (net : Sockets) {from sock : ℕ} (s : IsStream net from sock) (host : Host net.World)
    (limits : Limits)
    (connect_keeps : (w : net.World) → s.unread (host.on_client_connected sock w) ≡ s.unread w)
    (handler_keeps : (m : Bytes) (w : net.World)
      → s.unread (host.client_message_handler sock m w) ≡ s.unread w) where
  open s use {unread}

  -- What the loop makes of the server.
  step : Server net.World → Bytes → Server net.World
  step sv m = record sv { events = sv.events ++ (received sock m ∷ []) }

  steps :
      (ms : List Bytes) (sv : Server net.World)
      → foldl step sv ms ≡ record sv { events = sv.events ++ map (received sock) ms }
  unfolding step
  steps [] sv = ap (λ (t : List Event). record sv { events = t }) (sym (append-nil sv.events))
  steps (m ∷ ms) sv =
      steps ms (step sv m)
      ∙ ap (λ (t : List Event). record sv { events = t })
          (append_assoc sv.events (received sock m ∷ []) _)

  thread-IsHandler :
      (recv_fuel : ℕ)
      → IsHandler net s limits recv_fuel
          (λ (v : Server net.World). v.tcp_recv sock)
          (handle_message host sock)
          step
  unfolding step
  thread-IsHandler recv_fuel = record {
    handle_keeps = λ m st w. handler_keeps m w;
    handle_steps = λ m st w. refl;
    recv_stays = λ m st. refl;
  }

  -- The thread of a client that sent the messages `ms` and then closed its side: `ClientHandler` ends;
  -- it has called OnClientConnected first, then ClientMessageHandler once for each message, in order,
  -- and OnClientDisconnect last; the socket is out of the set. The user's functions leave the client's
  -- bytes unread, the messages keep to the limits, and the fuel exceeds the number of messages.
  pub client_handler_serves :
      (recv_fuel : ℕ) (ms : List Bytes) (fuel : ℕ) (sv : Server net.World) (w : net.World)
      → 10 ≤ recv_fuel
      → length ms < fuel
      → All (Fits limits) ms
      → sv.tcp_recv ≡ default_tcp_recv net recv_fuel limits
      → unread w ≡ wire_of ms
      → (w' : net.World) × (client_handler host fuel sock sv w
          ≡ done (
            record sv {
              events =
                  sv.events
                  ++ (connected sock ∷ (map (received sock) ms ++ (disconnected sock ∷ [])));
              client_sockets = erase_socket sock sv.client_sockets;
            },
            w',
          ))
  unfolding client_handler handle_messages
  client_handler_serves recv_fuel ms fuel sv w ten enough fit r e =
      let sv₁ = record sv { events = sv.events ++ (connected sock ∷ []) } in
      let (w', p) =
        message_loop_serves net s limits recv_fuel (λ (v : Server net.World). v.tcp_recv sock)
          (handle_message host sock) step (thread-IsHandler recv_fuel) ms fuel [] sv₁
          (host.on_client_connected sock w) ten enough fit
          (ap (λ (g : ℕ → Bytes → net.World → Option ((Bool × Bytes) × net.World)). g sock) r)
          (connect_keeps w ∙ e) in
      (
        host.close_socket sock (host.on_client_disconnect sock w'),
        rw (p, steps ms sv₁)
            (ap
              (λ (t : List Event). done (
                record sv { events = t; client_sockets = erase_socket sock sv.client_sockets },
                host.close_socket sock (host.on_client_disconnect sock w'),
              ))
              (append_assoc (sv.events ++ (connected sock ∷ [])) (map (received sock) ms)
                  (disconnected sock ∷ [])
                ∙ append_assoc sv.events (connected sock ∷ []) _)),
      )
