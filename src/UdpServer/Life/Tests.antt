-- ===== src/UdpServer/Life/Tests.antt =====
-- The server's life at concrete inputs. The world is the list of the messages that come, with their
-- senders, and those that were handled; the first handler thread has one round after each.
use easy_network.Base.{
  ℕ, ◌+◌, ◌≡◌, refl, ap, Bool, true, false, none, some, List, [], ◌∷◌, ◌++◌, arith, Bytes, codes,
  length, ◌==◌, done, stuck,
}
use easy_network.TcpServer.{SocketOption}
use easy_network.UdpServer.{queue}
use easy_network.UdpServer.Life.{
  Server, Host, threw, empty_buffer, receive_loop, run, shutdown, set_socket_option,
}
use easy_network.UdpServer.Life.Keeps.{IsFeed, receive_loop_keeps}
use easy_network.UdpServer.Life.Weights.{weigh, total}
use easy_network.UdpServer.Life.Locked.{failed_run-locks}

abbrev Net : Type 0
Net = List (Bytes × Bytes) × List Bytes

-- A user that does not want messages of one byte.
abbrev wants : Bytes → Bytes → Bool
wants m address = elim (length m == 1) [ true ↦ false | false ↦ true ]

abbrev busy : Host Net
busy = record {
  instant_client_message_handler = λ m address w. (wants m address, w);
  open_socket = λ w. (none, w);
  bind_socket = λ sock address port w. (true, w);
  close_socket = λ sock w. w;
  set_option = λ sock o w. w;
  now = λ w. 0;
  is_shutdown = λ w. false;
  store_shutdown = λ w. w;
  open_gates = λ w. w;
  client_message_handler = λ m address elapsed w. (w.0, w.1 ++ (m ∷ []));
  turns = λ w. (0 ∷ [], w);
  join = λ w. none;
}

abbrev take_first : List (Bytes × Bytes) → List Bytes → (Bool × Bytes × Bytes) × Net
take_first [] n = ((false, [], []), ([], n))
take_first ((address, m) ∷ ms) n = ((true, address, m), (ms, n))

abbrev server : Server Net
server = record {
  port = 1111;
  ip_address = codes "127.0.0.1";
  thread_amount = 2;
  server_bufer_type = queue;
  max_stack_buff_size = 16;
  shutdown_mutex = false;
  udp_server_socket = some 3;
  socket_options = [];
  buffers = empty_buffer ∷ empty_buffer ∷ [];
  udp_send = λ sock address m w. w;
  udp_recv = λ sock source m w. done (take_first w.0 w.1);
}

abbrev busy-IsFeed : IsFeed busy (λ sock source m w. done (take_first w.0 w.1)) wants
busy-IsFeed = record {
  coming = λ w. w.0;
  handled = λ w. w.1;
  recv_next = λ sock source message address m rest w e.
      ((rest, w.1), ap (λ (t : List (Bytes × Bytes)). done (take_first t w.1)) e, refl, refl, refl);
  recv_end = λ sock source message w e. (
    ([], []),
    ([], w.1),
    ap (λ (t : List (Bytes × Bytes)). done (take_first t w.1)) e,
    refl,
    refl,
  );
  instant_wants = λ m address w. refl;
  instant_keeps = λ m address w. (refl, refl);
  handler_calls = λ m address elapsed w. (refl, refl);
  turns_keep = λ w. (refl, refl);
}

abbrev messages : List (Bytes × Bytes)
messages = (codes "x:1", codes "hello") ∷ (codes "y:2", codes "!") ∷ (codes "x:1", codes "bye") ∷ []

receive_loop_keeps_example :
    (sv' : Server Net) × (w' : Net) × (receive_loop busy 4 [] [] server (messages, [])
      ≡ done (sv', w'))
    × ((f : Bytes → ℕ)
        → weigh f w'.1 + total f sv'.buffers ≡ 0 + weigh f (codes "hello" ∷ codes "bye" ∷ []))
receive_loop_keeps_example =
    receive_loop_keeps busy (λ sock source m w. done (take_first w.0 w.1)) wants busy-IsFeed
      messages 4 [] [] server (messages, []) (omega arith) refl refl refl (omega arith)

failed_run-locks_example :
    (sv' : Server Net) × (w' : Net) × (run busy 4 server (messages, []) ≡ done (threw, sv', w'))
    × ((n : ℕ) (w'' : Net) → run busy n sv' w'' ≡ stuck)
    × ((w'' : Net) → shutdown busy sv' w'' ≡ stuck)
    × ((o : SocketOption) (w'' : Net) → set_socket_option busy o sv' w'' ≡ stuck)
failed_run-locks_example = failed_run-locks busy 4 server (messages, []) refl (λ s e. cc)
