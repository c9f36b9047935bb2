-- ===== src/UdpClient.antt =====
-- EN_UDP_Client.cpp: a socket for datagrams to one server, and the thread that handles what comes back.
pub mod Serve
pub mod Options
mod Tests
use easy_network.Base.{
  ℕ, zero, suc, ◌+◌, Bool, true, false, Option, none, some, List, [], ◌∷◌, ◌++◌, Bytes, codes, Run,
  done, stuck, ◌>>=◌,
}
use easy_network.TcpServer.{SocketOption}
use easy_network.Udp.Receive.{source_of}

-- The members; `none` is INVALID_SOCKET. `handler_threads` is how often the thread was started, which is
-- detached at once, and `handled` what ServerMessageHandler was called with.
pub record Client (World : Type 0) : Type 0 where
  pub server_port : ℕ
  pub server_ip_address : Bytes
  pub server_connection_socket : Option ℕ
  pub socket_options : List SocketOption
  pub udp_send : Option ℕ → Bytes → Bytes → World → World
  pub udp_recv : Option ℕ → Bytes → Bytes → World → Run ((Bool × Bytes × Bytes) × World)
  pub handler_threads : ℕ
  pub handled : List Bytes

-- What a client stands on; the calls on sockets take INVALID_SOCKET too.
pub record Host (World : Type 0) : Type 0 where
  pub server_message_handler : Bytes → World → World
  pub open_socket : World → Option ℕ × World
  pub close_socket : Option ℕ → World → World
  pub set_option : Option ℕ → SocketOption → World → World

module _ {World : Type 0} (host : Host World) where
  pub set_options : Option ℕ → List SocketOption → World → World
  set_options sock [] w = w
  set_options sock (o ∷ os) w = set_options sock os (host.set_option sock o w)

  -- A datagram without bytes to "0.0.0.0:0" makes the system choose a port.
  unfoldable pub run : Client World → World → Bool × Client World × World
  run c w =
      let (opened, w') = host.open_socket w in
      elim opened [
        | none ↦ (false, record c { server_connection_socket = none }, w')
        | some s ↦ (
          true,
          record c { server_connection_socket = some s; handler_threads = c.handler_threads + 1 },
          c.udp_send (some s) (codes "0.0.0.0:0") [] (set_options (some s) c.socket_options w'),
        )
      ]

  -- The loop of `ServerHandler`, on fuel, with its local variables `ipAddress` and `message`.
  unfoldable pub server_loop : ℕ → Bytes → Bytes → Client World → World → Run (Client World × World)
  server_loop zero source message c w = stuck
  server_loop (suc fuel) source message c w = do
    ((ok, source', message'), w') ← c.udp_recv c.server_connection_socket source message w
    let rest =
        server_loop fuel source' message' (record c { handled = c.handled ++ (message' ∷ []) })
          (host.server_message_handler message' w')
    elim ok [ true ↦ rest | false ↦ done (c, w') ]

  unfoldable pub server_handler : ℕ → Client World → World → Run (Client World × World)
  server_handler fuel c w = server_loop fuel [] [] c w

  unfoldable pub send_to_server : Bytes → Client World → World → World
  send_to_server message c w =
      c.udp_send c.server_connection_socket (source_of c.server_ip_address c.server_port) message w

  pub stop : Client World → World → World
  stop c w = host.close_socket c.server_connection_socket w

  unfoldable pub set_socket_option : SocketOption → Client World → World → Client World × World
  set_socket_option o c w = elim c.server_connection_socket [
    | none ↦ (c, host.set_option none o w)
    | some s ↦ (record c { socket_options = c.socket_options ++ (o ∷ []) }, w)
  ]

  unfoldable pub set_socket_options :
      List SocketOption → Client World → World → Client World × World
  set_socket_options os c w = elim c.server_connection_socket [
    | none ↦ (c, set_options none os w)
    | some s ↦ (record c { socket_options = c.socket_options ++ os }, w)
  ]

  pub set_udp_send_function :
      (Option ℕ → Bytes → Bytes → World → World) → Client World → Client World
  set_udp_send_function f c = record c { udp_send = f }

  pub set_udp_recv_function :
      (Option ℕ → Bytes → Bytes → World → Run ((Bool × Bytes × Bytes) × World))
      → Client World
      → Client World
  set_udp_recv_function f c = record c { udp_recv = f }
