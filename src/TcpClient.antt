-- ===== src/TcpClient.antt =====
-- EN_TCP_Client.cpp: one connection to a server, and the thread that handles the server's messages.
pub mod Connection
pub mod Serve
mod Tests
use easy_network.Base.{
  ℕ, zero, suc, Bool, true, false, ◌&&◌, not, Option, none, some, List, [], ◌∷◌, ◌++◌, Bytes, Run,
  done, stuck, ◌>>=◌, if◌then◌else◌,
}
use easy_network.MessageLoop.{message_loop}
use easy_network.TcpServer.{SocketOption}

-- The calls of the three virtual functions.
pub data Event : Type 0 where
  connected : Event
  received : Bytes → Event
  disconnected : Event

-- The members; `none` is INVALID_SOCKET, and `server_handler_joinable` is whether the thread has been
-- started and not yet joined.
pub record Client (World : Type 0) : Type 0 where
  pub server_port : ℕ
  pub server_ip_address : Bytes
  pub server_connection_socket : Option ℕ
  pub server_handler_joinable : Bool
  pub is_run_message_handler_thread : Bool
  pub socket_options : List SocketOption
  pub tcp_send : Option ℕ → Bytes → World → Bool × World
  pub tcp_recv : Option ℕ → Bytes → World → Option ((Bool × Bytes) × World)
  pub events : List Event

-- What a client stands on: the user's functions and the calls of the operating system. `find_ip` is
-- GetIpByURL, empty where it finds nothing; the calls on sockets take INVALID_SOCKET too.
pub record Host (World : Type 0) : Type 0 where
  pub on_connect : World → World
  pub server_message_handler : Bytes → World → World
  pub on_disconnect : World → World
  pub find_ip : Bytes → Bytes
  pub open_socket : World → Option ℕ × World
  pub connect_socket : ℕ → Bytes → ℕ → World → Bool × World
  pub close_socket : Option ℕ → World → World
  pub set_option : Option ℕ → SocketOption → World → World

module _ {World : Type 0} (host : Host World) where
  unfoldable pub is_connected : Client World → Bool
  is_connected c = elim c.server_connection_socket [ none ↦ false | some s ↦ true ]

  -- The thread is joined; its function has ended then.
  unfoldable pub wait_for_server_handler_end : Client World → Client World
  wait_for_server_handler_end c =
      if c.server_handler_joinable && c.is_run_message_handler_thread
      then record c { server_handler_joinable = false }
      else c

  pub set_options : Option ℕ → List SocketOption → World → World
  set_options sock [] w = w
  set_options sock (o ∷ os) w = set_options sock os (host.set_option sock o w)

  -- The first statements of `Connect`.
  address_of : Bytes → Bytes
  address_of ip_addr = elim (host.find_ip ip_addr) [ [] ↦ ip_addr | b ∷ bs ↦ b ∷ bs ]

  -- After a connection was made.
  start_handler : Client World → World → Client World × World
  start_handler c w =
      let c' = wait_for_server_handler_end c in
      (
        if c'.is_run_message_handler_thread
            then record c' { server_handler_joinable = true }
            else c',
        set_options c'.server_connection_socket c'.socket_options w,
      )

  connect_new : Client World → World → Bool × Client World × World
  connect_new c w =
      let (opened, w₁) = host.open_socket w in
      elim opened [
        | none ↦ (false, record c { server_connection_socket = none }, w₁)
        | some s ↦
            let (ok, w₂) = host.connect_socket s c.server_ip_address c.server_port w₁ in
            let (c', w₃) = start_handler (record c { server_connection_socket = some s }) w₂ in
            if ok then (true, c', w₃) else (false, record c { server_connection_socket = none }, w₂)
      ]

  unfoldable pub connect : Bytes → ℕ → Client World → World → Bool × Client World × World
  unfolding connect_new start_handler address_of is_connected wait_for_server_handler_end
  connect ip_addr port c w =
      let c' = record c { server_ip_address = address_of ip_addr; server_port = port } in
      if is_connected c' then (false, c', w) else connect_new c' w

  abbrev pub handle_message : Bytes → Client World → World → Client World × World
  handle_message m c w =
      (record c { events = c.events ++ (received m ∷ []) }, host.server_message_handler m w)

  -- `ServerHandler`, on fuel for its loop.
  unfoldable pub server_handler : ℕ → Client World → World → Run (Client World × World)
  server_handler fuel c w = do
    (c', w') ←
        message_loop (λ d. d.tcp_recv d.server_connection_socket) handle_message fuel []
          (record c { events = c.events ++ (connected ∷ []) }) (host.on_connect w)
    done (
      record c' { events = c'.events ++ (disconnected ∷ []); server_connection_socket = none },
      host.close_socket c'.server_connection_socket (host.on_disconnect w'),
    )

  unfoldable pub send_to_server : Bytes → Client World → World → Bool × World
  send_to_server message c w = c.tcp_send c.server_connection_socket message w

  pub wait_message : Bytes → Client World → World → Option ((Bool × Bytes) × World)
  wait_message message c w = c.tcp_recv c.server_connection_socket message w

  -- `in_handler` is whether the thread of the handler itself makes the call.
  unfoldable pub disconnect : Bool → Bool → Client World → World → Client World × World
  disconnect is_blocking in_handler c w =
      let joined = not in_handler && (c.server_handler_joinable && is_blocking) in
      (
        record c {
          server_connection_socket = none;
          server_handler_joinable = if joined then false else c.server_handler_joinable;
        },
        host.close_socket c.server_connection_socket w,
      )

  pub set_socket_option : SocketOption → Client World → Client World
  set_socket_option o c = record c { socket_options = c.socket_options ++ (o ∷ []) }

  pub set_socket_options : List SocketOption → Client World → Client World
  set_socket_options os c = record c { socket_options = c.socket_options ++ os }

  pub set_tcp_send_function :
      (Option ℕ → Bytes → World → Bool × World) → Client World → Client World
  set_tcp_send_function f c = record c { tcp_send = f }

  pub set_tcp_recv_function :
      (Option ℕ → Bytes → World → Option ((Bool × Bytes) × World)) → Client World → Client World
  set_tcp_recv_function f c = record c { tcp_recv = f }

  -- The destructor.
  pub end_client : Client World → World → Client World × World
  end_client c w = (wait_for_server_handler_end c, host.close_socket c.server_connection_socket w)
