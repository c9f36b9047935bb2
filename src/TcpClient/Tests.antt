-- ===== src/TcpClient/Tests.antt =====
-- The client's theorems at concrete inputs.
use easy_network.Base.{
  ◌≡◌, refl, true, false, some, List, [], ◌∷◌, ◌++◌, map, arith, Bytes, codes, done,
}
use easy_network.Net.Pipe.{pipe, pipe-IsStream}
use easy_network.Tcp.{default_limits, default_tcp_send, default_tcp_recv}
use easy_network.MessageLoop.Serve.{wire_of}
use easy_network.TcpClient.{
  Client, Host, connected, received, disconnected, is_connected, server_handler,
}
use easy_network.TcpClient.Serve.{server_handler_serves}

-- A host on which no connection can be made.
abbrev quiet_host : Host Bytes
quiet_host = record {
  on_connect = λ w. w;
  server_message_handler = λ m w. w;
  on_disconnect = λ w. w;
  find_ip = λ name. [];
  open_socket = λ w. (some 5, w);
  connect_socket = λ sock address port w. (false, w);
  close_socket = λ sock w. w;
  set_option = λ sock o w. w;
}

abbrev client : Client Bytes
client = record {
  server_port = 1111;
  server_ip_address = codes "127.0.0.1";
  server_connection_socket = some 5;
  server_handler_joinable = true;
  is_run_message_handler_thread = true;
  socket_options = [];
  tcp_send = λ sock. default_tcp_send pipe default_limits 4;
  tcp_recv = λ sock. default_tcp_recv pipe 10 default_limits 5;
  events = [];
}

abbrev messages : List Bytes
messages = codes "hello" ∷ codes "bye" ∷ []

server_handler_serves_example :
    (c' : Client Bytes) × (w' : Bytes) × (server_handler quiet_host 3 client (wire_of messages)
      ≡ done (c', w'))
    × (c'.events ≡ [] ++ (connected ∷ (map received messages ++ (disconnected ∷ []))))
    × (is_connected quiet_host c' ≡ false)
server_handler_serves_example =
    server_handler_serves pipe (pipe-IsStream 4 5) quiet_host default_limits (λ w. refl)
      (λ m w. refl) 10 messages 3 client (wire_of messages) (omega arith) (omega arith)
      ((omega arith, omega arith), ((omega arith, omega arith), tt)) refl refl
