-- ===== src/Session/Serve.antt =====
-- What becomes of the context in the thread of one client with `Default_TCP_Recv`.
use easy_network.Base.{
  ℕ, ◌≤◌, ◌<◌, ◌≡◌, refl, ap, ◌∙◌, Bool, Option, List, [], ◌∷◌, foldl, Bytes, length, All, done,
}
use easy_network.Net.{Sockets, IsStream}
use easy_network.Tcp.{Limits, default_tcp_recv}
use easy_network.MessageLoop.Serve.{wire_of, Fits, IsHandler, message_loop_serves}
use easy_network.TcpServer.{erase_socket}
use easy_network.Session.{
  SessionServer, SessionHost, handle_message, end_connection, client_handler,
}

-- The user's functions leave the client's bytes unread, and change the context by three functions.
pub record IsUser (net : Sockets) {from sock : ℕ} (s : IsStream net from sock) {Context : Type 0}
    (host : SessionHost Context net.World) (enter : Context → Context)
    (step : Context → Bytes → Context) (leave : Context → Context) : Type 0 where
  pub connect_keeps :
      (t : Context) (w : net.World) → s.unread (host.on_client_connected sock t w).1 ≡ s.unread w
  pub handler_keeps :
      (m : Bytes) (t : Context) (w : net.World)
      → s.unread (host.client_message_handler sock m t w).1 ≡ s.unread w
  pub enters : (t : Context) (w : net.World) → (host.on_client_connected sock t w).0 ≡ enter t
  pub steps :
      (m : Bytes) (t : Context) (w : net.World)
      → (host.client_message_handler sock m t w).0 ≡ step t m
  pub leaves : (t : Context) (w : net.World) → (host.on_client_disconnect sock t w).0 ≡ leave t

module _ (net : Sockets) {from sock : ℕ} (s : IsStream net from sock) (limits : Limits)
    {Context : Type 0} (host : SessionHost Context net.World) (enter : Context → Context)
    (step : Context → Bytes → Context) (leave : Context → Context)
    (user : IsUser net s host enter step leave) where
  open s use {unread}
  open user use {connect_keeps, handler_keeps, enters, steps, leaves}

  -- The server after the thread's calls.
  abbrev pub ended : Context → SessionServer Context net.World → SessionServer Context net.World
  ended t sv = record sv {
    server = record sv.server { client_sockets = erase_socket sock sv.server.client_sockets };
    session_context = t;
  }

  server_step : SessionServer Context net.World → Bytes → SessionServer Context net.World
  server_step sv m = record sv { session_context = step sv.session_context m }

  server_steps :
      (ms : List Bytes) (sv : SessionServer Context net.World)
      → foldl server_step sv ms ≡ record sv { session_context = foldl step sv.session_context ms }
  unfolding server_step
  server_steps [] sv = refl
  server_steps (m ∷ ms) sv = server_steps ms (server_step sv m)

  thread-IsHandler :
      (recv_fuel : ℕ)
      → IsHandler net s limits recv_fuel
          (λ (v : SessionServer Context net.World). v.server.tcp_recv sock)
          (handle_message host sock)
          server_step
  unfolding server_step
  thread-IsHandler recv_fuel = record {
    handle_keeps = λ m st w. handler_keeps m st.session_context w;
    handle_steps = λ m st w.
        ap (λ (t : Context). record st { session_context = t }) (steps m st.session_context w);
    recv_stays = λ m st. refl;
  }

  -- The thread of a client that sent the messages `ms` and then closed its side: it ends, the socket is out of
  -- the set, and the context is what the three functions make, in the order of the calls, of the context that
  -- the server had before: it is not a new one for this client. The messages keep to the limits, and the
  -- fuel exceeds their number.
  pub client_handler_folds :
      (recv_fuel : ℕ) (ms : List Bytes) (fuel : ℕ) (sv : SessionServer Context net.World)
      (w : net.World)
      → 10 ≤ recv_fuel
      → length ms < fuel
      → All (Fits limits) ms
      → sv.server.tcp_recv ≡ default_tcp_recv net recv_fuel limits
      → unread w ≡ wire_of ms
      → (w' : net.World) × (client_handler host fuel sock sv w
          ≡ done (ended (leave (foldl step (enter sv.session_context) ms)) sv, w'))
  unfolding client_handler end_connection
  client_handler_folds recv_fuel ms fuel sv w ten enough fit r e =
      let t = sv.session_context in
      let (w', p) =
        message_loop_serves net s limits recv_fuel
          (λ (v : SessionServer Context net.World). v.server.tcp_recv sock)
          (handle_message host sock) server_step (thread-IsHandler recv_fuel) ms fuel []
          (record sv { session_context = (host.on_client_connected sock t w).0 })
          (host.on_client_connected sock t w).1 ten enough fit
          (ap (λ (g : ℕ → Bytes → net.World → Option ((Bool × Bytes) × net.World)). g sock) r)
          (connect_keeps t w ∙ e) in
      let t' = foldl step (host.on_client_connected sock t w).0 ms in
      (
        host.close_socket sock (host.on_client_disconnect sock t' w').1,
        rw (client_handler, p, server_steps)
            (ap
              (λ (u : Context).
                done (ended u sv, host.close_socket sock (host.on_client_disconnect sock t' w').1))
              (leaves t' w' ∙ ap (λ (u : Context). leave (foldl step u ms)) (enters t w))),
      )
