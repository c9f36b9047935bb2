-- ===== src/Session/Tests.antt =====
-- The theorems on the session context at concrete inputs: a context that counts the messages.
use easy_network.Base.{
  ℕ, ◌+◌, ◌≡◌, refl, false, none, some, List, [], ◌∷◌, arith, Bytes, codes, done,
}
use easy_network.Net.Pipe.{pipe, pipe-IsStream}
use easy_network.Tcp.{default_limits, default_tcp_send, default_tcp_recv}
use easy_network.MessageLoop.Serve.{wire_of}
use easy_network.TcpServer.{Server}
use easy_network.Session.{SessionServer, SessionHost, client_handler, Protocol}
use easy_network.Session.Serve.{IsUser, client_handler_folds}

abbrev counting : SessionHost ℕ Bytes
counting = record {
  on_client_connected = λ sock n w. (n + 10, w);
  client_message_handler = λ sock m n w. (n + 1, w);
  on_client_disconnect = λ sock n w. (n, w);
  close_socket = λ sock w. w;
}

abbrev server : Server Bytes
server = record {
  port = 1111;
  ip_address = [];
  is_shutdown = false;
  server_listen_socket = none;
  client_sockets = 5 ∷ [];
  accept_socket_options = [];
  socket_options_after_connection = [];
  tcp_send = default_tcp_send pipe default_limits;
  tcp_recv = default_tcp_recv pipe 10 default_limits;
  events = [];
}

-- An earlier client has left 12 in the context.
abbrev used : SessionServer ℕ Bytes
used = record { server = server; session_context = 12 }

abbrev messages : List Bytes
messages = codes "hello" ∷ codes "bye" ∷ []

counting-IsUser : IsUser pipe (pipe-IsStream 4 5) counting (λ n. n + 10) (λ n m. n + 1) (λ n. n)
counting-IsUser = record {
  connect_keeps = λ t w. refl;
  handler_keeps = λ m t w. refl;
  enters = λ t w. refl;
  steps = λ m t w. refl;
  leaves = λ t w. refl;
}

client_handler_folds_example :
    (w' : Bytes) × (client_handler counting 3 5 used (wire_of messages)
      ≡ done (
        record used { server = record server { client_sockets = [] }; session_context = 24 },
        w',
      ))
unfolding easy_network.TcpServer.erase_socket
client_handler_folds_example =
    client_handler_folds pipe (pipe-IsStream 4 5) default_limits counting (λ n. n + 10)
      (λ n m. n + 1) (λ n. n) counting-IsUser 10 messages 3 used (wire_of messages) (omega arith)
      (omega arith) ((omega arith, omega arith), ((omega arith, omega arith), tt)) refl refl

abbrev silent : SessionHost (Protocol ℕ Bytes) Bytes
silent = record {
  on_client_connected = λ sock t w. (t, w);
  client_message_handler = λ sock m t w. (record t { user_data = t.user_data + 1 }, w);
  on_client_disconnect = λ sock t w. (t, w);
  close_socket = λ sock w. w;
}

abbrev with_protocol : SessionServer (Protocol ℕ Bytes) Bytes
with_protocol = record {
  server = server;
  session_context = record {
    user_data = 0;
    context_send = none;
    context_recv = some (default_tcp_recv pipe 10 default_limits);
  };
}
