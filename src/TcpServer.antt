-- ===== src/TcpServer.antt =====
-- EN_TCP_Server.cpp: the set of client sockets, the thread of one client, and the methods that the
-- user's code calls. Each method's body stands between two calls of the crosswalk and is one step here.
pub mod Clients
pub mod Serve
pub mod Accepting
mod Tests
use easy_network.MessageLoop.{message_loop}
use easy_network.Base.{
  ℕ, zero, suc, ◌+◌, Bool, true, false, Option, none, some, List, [], ◌∷◌, ◌++◌, Bytes, length, ltb,
  ◌==◌, ◌||◌, not, if◌then◌else◌, Run, done, stuck, ◌>>=◌,
}

-- SocketOption: level, name and value.
pub record SocketOption : Type 0 where
  pub level : ℕ
  pub option_name : ℕ
  pub option_value : ℕ

-- The calls of the three virtual functions, in their order.
pub data Event : Type 0 where
  connected : ℕ → Event
  received : ℕ → Bytes → Event
  disconnected : ℕ → Event

-- The members. `none` for the listening socket is INVALID_SOCKET; `clients` is the std::set in its
-- order; `events` are the virtual functions' calls so far.
pub record Server (World : Type 0) : Type 0 where
  pub port : ℕ
  pub ip_address : Bytes
  pub is_shutdown : Bool
  pub server_listen_socket : Option ℕ
  pub client_sockets : List ℕ
  pub accept_socket_options : List SocketOption
  pub socket_options_after_connection : List SocketOption
  pub tcp_send : ℕ → Bytes → World → Bool × World
  pub tcp_recv : ℕ → Bytes → World → Option ((Bool × Bytes) × World)
  pub events : List Event

-- What a server stands on: the user's virtual functions and the calls of the operating system.
pub record Host (World : Type 0) : Type 0 where
  pub on_client_connected : ℕ → World → World
  pub client_message_handler : ℕ → Bytes → World → World
  pub on_client_disconnect : ℕ → World → World
  pub close_socket : ℕ → World → World
  pub set_option : ℕ → SocketOption → World → World

-- std::set<EN_SOCKET>
unfoldable pub find_socket : ℕ → List ℕ → Bool
find_socket s [] = false
find_socket s (c ∷ cs) = s == c || find_socket s cs

unfoldable pub insert_socket : ℕ → List ℕ → List ℕ
insert_socket s [] = s ∷ []
insert_socket s (c ∷ cs) =
    if s == c then c ∷ cs else if ltb s c then s ∷ c ∷ cs else c ∷ insert_socket s cs

unfoldable pub erase_socket : ℕ → List ℕ → List ℕ
erase_socket s [] = []
erase_socket s (c ∷ cs) = if s == c then cs else c ∷ erase_socket s cs

module _ {World : Type 0} (host : Host World) where
  pub get_connections_count : Server World → ℕ
  get_connections_count sv = length sv.client_sockets

  pub set_options : ℕ → List SocketOption → World → World
  set_options sock [] w = w
  set_options sock (o ∷ os) w = set_options sock os (host.set_option sock o w)

  -- A new connection in `Run`.
  pub accept_connection : ℕ → Server World → World → Server World × World
  accept_connection sock sv w = (
    record sv { client_sockets = insert_socket sock sv.client_sockets },
    set_options sock sv.socket_options_after_connection w,
  )

  -- One round of `ClientHandler` with a message.
  abbrev pub handle_message : ℕ → Bytes → Server World → World → Server World × World
  handle_message sock m sv w = (
    record sv { events = sv.events ++ (received sock m ∷ []) },
    host.client_message_handler sock m w,
  )

  -- The loop of `ClientHandler` and the end of the connection.
  unfoldable pub handle_messages : ℕ → ℕ → Bytes → Server World → World → Run (Server World × World)
  handle_messages fuel sock message sv w = do
    (sv', w') ← message_loop (λ v. v.tcp_recv sock) (handle_message sock) fuel message sv w
    done (
      record sv' { events = sv'.events ++ (disconnected sock ∷ []) },
      host.on_client_disconnect sock w',
    )

  unfoldable pub client_handler : ℕ → ℕ → Server World → World → Run (Server World × World)
  client_handler fuel sock sv w = do
    (sv', w') ←
        handle_messages fuel sock [] (record sv { events = sv.events ++ (connected sock ∷ []) })
          (host.on_client_connected sock w)
    done (
      record sv' { client_sockets = erase_socket sock sv'.client_sockets },
      host.close_socket sock w',
    )

  pub disconnect_client : ℕ → Server World → World → World
  disconnect_client sock sv w =
      if find_socket sock sv.client_sockets then host.close_socket sock w else w

  pub close_all : List ℕ → World → World
  close_all [] w = w
  close_all (s ∷ ss) w = close_all ss (host.close_socket s w)

  pub disconnect_all_connected_clients : Server World → World → World
  disconnect_all_connected_clients sv w = close_all sv.client_sockets w

  pub shutdown : Server World → World → Server World × World
  shutdown sv w = elim sv.server_listen_socket [
    | none ↦ (record sv { is_shutdown = true }, w)
    | some s ↦ (record sv { is_shutdown = true }, host.close_socket s w)
  ]

  -- The result codes -2, -1 and 0 become false, false and true.
  unfoldable pub send_to_client : ℕ → Bytes → Server World → World → Bool × World
  send_to_client sock message sv w =
      if find_socket sock sv.client_sockets then sv.tcp_send sock message w else (false, w)

  send_all : (ℕ → Bytes → World → Bool × World) → Bytes → List ℕ → World → World
  send_all send message [] w = w
  send_all send message (s ∷ ss) w = send_all send message ss (send s message w).1

  pub multicast_send : Bytes → Server World → World → World
  multicast_send message sv w = send_all sv.tcp_send message sv.client_sockets w

  pub wait_message : ℕ → Bytes → Server World → World → Option ((Bool × Bytes) × World)
  wait_message sock message sv w = sv.tcp_recv sock message w

  pub add_accept_socket_option : SocketOption → Server World → Server World
  add_accept_socket_option o sv = record sv {
    accept_socket_options = sv.accept_socket_options ++ (o ∷ []);
  }

  pub add_on_socket_create_option : SocketOption → Server World → Server World
  add_on_socket_create_option o sv = record sv {
    socket_options_after_connection = sv.socket_options_after_connection ++ (o ∷ []);
  }

  pub set_socket_option : ℕ → SocketOption → Server World → World → World
  set_socket_option sock o sv w =
      if find_socket sock sv.client_sockets then host.set_option sock o w else w

  -- Both functions can be replaced only before the server runs.
  pub set_tcp_send_function : (ℕ → Bytes → World → Bool × World) → Server World → Server World
  set_tcp_send_function f sv = elim sv.server_listen_socket [
    | none ↦ record sv { tcp_send = f }
    | some s ↦ sv
  ]

  pub set_tcp_recv_function :
      (ℕ → Bytes → World → Option ((Bool × Bytes) × World)) → Server World → Server World
  set_tcp_recv_function f sv = elim sv.server_listen_socket [
    | none ↦ record sv { tcp_recv = f }
    | some s ↦ sv
  ]

  -- PredefinedSocketOptions are a list of options here; each overload goes through all of them.
  pub add_accept_socket_options : List SocketOption → Server World → Server World
  add_accept_socket_options os sv = record sv {
    accept_socket_options = sv.accept_socket_options ++ os;
  }

  pub add_on_socket_create_options : List SocketOption → Server World → Server World
  add_on_socket_create_options os sv = record sv {
    socket_options_after_connection = sv.socket_options_after_connection ++ os;
  }

  pub set_socket_options : ℕ → List SocketOption → Server World → World → World
  set_socket_options sock os sv w =
      if find_socket sock sv.client_sockets then set_options sock os w else w
