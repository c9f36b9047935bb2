-- ===== src/UdpClient/Tests.antt =====
-- The theorems on the client at concrete inputs.
use easy_network.Base.{◌≡◌, refl, none, some, List, [], ◌∷◌, ◌++◌, arith, Bytes, codes, done}
use easy_network.TcpServer.{SocketOption}
use easy_network.Tcp.{default_limits}
use easy_network.Udp.Receive.{windows, default_udp_recv}
use easy_network.Udp.Delivers.{Datagram}
use easy_network.Udp.Mailbox.{mailbox, mailbox-IsInbox, sent_from}
use easy_network.UdpClient.{Client, Host, server_handler}
use easy_network.UdpClient.Serve.{server_handler_handles}

abbrev quiet : Host (List Datagram)
quiet = record {
  server_message_handler = λ m w. w;
  open_socket = λ w. (some 3, w);
  close_socket = λ sock w. w;
  set_option = λ sock o w. w;
}

abbrev client : Client (List Datagram)
client = record {
  server_port = 1111;
  server_ip_address = codes "127.0.0.1";
  server_connection_socket = some 3;
  socket_options = [];
  udp_send = λ sock address m w. w;
  udp_recv = λ sock source m w. default_udp_recv mailbox 3 windows default_limits [] source w;
  handler_threads = 1;
  handled = [];
}

abbrev new_client : Client (List Datagram)
new_client = record client { server_connection_socket = none; handler_threads = 0 }

abbrev waiting_datagrams : List Datagram
waiting_datagrams = sent_from (codes "hello") ∷ sent_from (codes "bye") ∷ []

abbrev messages : List Bytes
messages = codes "hello" ∷ codes "bye" ∷ []

abbrev no_delay : SocketOption
no_delay = record { level = 6; option_name = 1; option_value = 1 }

server_handler_handles_example :
    (w' : List Datagram) × (server_handler quiet 3 client waiting_datagrams
      ≡ done (record client { handled = [] ++ messages }, w'))
server_handler_handles_example =
    server_handler_handles mailbox mailbox-IsInbox default_limits [] quiet (λ m w. refl)
      (λ n w e. rw e refl) waiting_datagrams messages 3 client waiting_datagrams (omega arith)
      ((omega arith, omega arith, omega arith), ((omega arith, omega arith, omega arith), tt))
      (refl, (refl, tt)) refl refl
