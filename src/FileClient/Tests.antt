-- ===== src/FileClient/Tests.antt =====
-- The two connections at a concrete input.
use easy_network.Base.{
  ℕ, suc, refl, true, false, Option, none, some, List, [], ◌∷◌, ◌++◌, ◌==◌, not,
}
use easy_network.TcpClient.{Client, Host}
use easy_network.FileClient.{FtClient}
use easy_network.FileClient.Both.{IsClosing}

-- The world is the number of the next socket with the sockets that were closed, and port 81 refuses.
abbrev Sockets : Type 0
Sockets = ℕ × List (Option ℕ)

abbrev host : Host Sockets
host = record {
  on_connect = λ w. w;
  server_message_handler = λ m w. w;
  on_disconnect = λ w. w;
  find_ip = λ name. [];
  open_socket = λ w. (some w.0, (suc w.0, w.1));
  connect_socket = λ sock address port w. (not (port == 81), w);
  close_socket = λ sock w. (w.0, w.1 ++ (sock ∷ []));
  set_option = λ sock o w. w;
}

abbrev idle : Client Sockets
idle = record {
  server_port = 1111;
  server_ip_address = [];
  server_connection_socket = none;
  server_handler_joinable = false;
  is_run_message_handler_thread = true;
  socket_options = [];
  tcp_send = λ sock message w. (true, w);
  tcp_recv = λ sock message w. none;
  events = [];
}

abbrev both : FtClient Sockets
both = record { base = idle; eternal_ft_client = idle }

abbrev closing : IsClosing host host
closing = record { closed = λ w. w.1; closes = λ s w. refl; eternal_closes = λ s w. refl }
