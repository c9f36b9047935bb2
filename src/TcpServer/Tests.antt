-- ===== src/TcpServer/Tests.antt =====
-- The server's theorems at concrete inputs.
use easy_network.Base.{
  ℕ, ◌≡◌, refl, Bool, true, false, Option, none, some, List, [], ◌∷◌, ◌++◌, map, arith, Bytes,
  codes, leb, done,
}
use easy_network.Net.Pipe.{pipe, pipe-IsStream}
use easy_network.Tcp.{default_limits, default_tcp_send, default_tcp_recv, msg_buf}
use easy_network.TcpServer.{
  Server, Host, connected, received, disconnected, find_socket, erase_socket, send_to_client,
  client_handler,
}
use easy_network.TcpServer.Clients.{send_to_client_arrives}
use easy_network.MessageLoop.Serve.{wire_of}
use easy_network.TcpServer.Accepting.{Listening, run_over, run}
use easy_network.TcpServer.Accepting.Closing.{IsListening}
use easy_network.TcpServer.Accepting.Ends.{over, run-ends}
use easy_network.TcpServer.Serve.{client_handler_serves}

abbrev quiet_host : Host Bytes
quiet_host = record {
  on_client_connected = λ sock w. w;
  client_message_handler = λ sock m w. w;
  on_client_disconnect = λ sock w. w;
  close_socket = λ sock w. w;
  set_option = λ sock o w. w;
}

abbrev server : Server Bytes
server = record {
  port = 1111;
  ip_address = [];
  is_shutdown = false;
  server_listen_socket = none;
  client_sockets = 4 ∷ 5 ∷ [];
  accept_socket_options = [];
  socket_options_after_connection = [];
  tcp_send = default_tcp_send pipe default_limits;
  tcp_recv = default_tcp_recv pipe 10 default_limits;
  events = [];
}

abbrev messages : List Bytes
messages = codes "hello" ∷ [] ∷ codes "bye" ∷ []

stranger : find_socket 7 (4 ∷ 9 ∷ []) ≡ false
unfolding find_socket
stranger = refl

send_to_client_arrives_example :
    ((send_to_client quiet_host 4 (codes "hi") server []).0 ≡ true
      → (find_socket 4 (4 ∷ 5 ∷ []) ≡ true)
        × ((send_to_client quiet_host 4 (codes "hi") server []).1 ≡ [] ++ msg_buf (codes "hi")))
    × (find_socket 4 (4 ∷ 5 ∷ []) ≡ false
        → send_to_client quiet_host 4 (codes "hi") server [] ≡ (false, []))
send_to_client_arrives_example =
    send_to_client_arrives pipe (pipe-IsStream 4 5) quiet_host default_limits server (codes "hi") []
      refl (omega arith)

client_handler_serves_example :
    (w' : Bytes) × (client_handler quiet_host 4 5 server (wire_of messages)
      ≡ done (
        record server {
          events = [] ++ (connected 5 ∷ (map (received 5) messages ++ (disconnected 5 ∷ [])));
          client_sockets = erase_socket 5 (4 ∷ 5 ∷ []);
        },
        w',
      ))
client_handler_serves_example =
    client_handler_serves pipe (pipe-IsStream 4 5) quiet_host default_limits (λ w. refl)
      (λ m w. refl) 10 messages 4 server (wire_of messages) (omega arith) (omega arith)
      ((omega arith, omega arith), ((omega arith, omega arith), ((omega arith, omega arith), tt)))
      refl refl

-- The sockets of the connections that come, and those that have been closed.
abbrev Sockets : Type 0
Sockets = List ℕ × List ℕ

abbrev closing : Host Sockets
closing = record {
  on_client_connected = λ sock w. w;
  client_message_handler = λ sock m w. w;
  on_client_disconnect = λ sock w. w;
  close_socket = λ sock w. (w.0, w.1 ++ (sock ∷ []));
  set_option = λ sock o w. w;
}

abbrev accept_first : List ℕ → List ℕ → Option ℕ × Sockets
accept_first [] closed = (none, ([], closed))
accept_first (s ∷ ss) closed = (some s, (ss, closed))

-- Shutdown is called before the third call of `accept`.
abbrev shut_at : ℕ → Bool
shut_at i = leb 2 i

abbrev listening : Listening Sockets
listening = record {
  open_socket = λ w. (some 3, w);
  bind_socket = λ l ip port w. (true, w);
  listen_on = λ l w. (true, w);
  accept_on = λ l w. accept_first w.0 w.1;
  close_invalid = λ w. w;
  shut = shut_at;
  shutdown_first = true;
  leaving = 7 ∷ 5 ∷ [];
}

abbrev listening-IsListening : IsListening closing listening
listening-IsListening = record {
  coming = λ w. w.0;
  closed = λ w. w.1;
  accept_next = λ l s rest w e. rw e (refl, refl, refl);
  accept_end = λ l w e. rw e (refl, refl);
  closes = λ s w. refl;
  invalid_keeps = λ w. refl;
  disconnect_keeps = λ s w. refl;
  option_keeps = λ s o w. (refl, refl);
  open_keeps = λ w. (refl, refl);
  bind_keeps = λ l ip port w. (refl, refl);
  listen_keeps = λ l w. (refl, refl);
}

abbrev new_server : Server Sockets
new_server = record {
  port = 1111;
  ip_address = [];
  is_shutdown = false;
  server_listen_socket = none;
  client_sockets = [];
  accept_socket_options = [];
  socket_options_after_connection = [];
  tcp_send = λ sock m w. (true, w);
  tcp_recv = λ sock m w. none;
  events = [];
}

run-ends_example :
    (w' : Sockets) × (run closing listening 3 new_server (7 ∷ 5 ∷ [], [])
      ≡ done (run_over (over closing listening listening-IsListening new_server) w'))
    × (w'.1 ≡ 3 ∷ 5 ∷ 7 ∷ 3 ∷ 7 ∷ 5 ∷ [])
unfolding easy_network.TcpServer.insert_socket easy_network.TcpServer.find_socket
    easy_network.TcpServer.erase_socket
run-ends_example =
    run-ends closing listening listening-IsListening (7 ∷ 5 ∷ []) 3 3 new_server (7 ∷ 5 ∷ [], [])
      (omega arith) refl refl (λ v. refl) (λ v. refl) (λ j h. ground (arith, h)) refl refl
      (refl, (refl, tt))
