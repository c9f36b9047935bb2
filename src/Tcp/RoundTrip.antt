-- ===== src/Tcp/RoundTrip.antt =====
-- A message that was sent is the message that is received.
use easy_network.Base.{ℕ, ◌^◌, ◌≤◌, ◌<◌, ◌≡◌, ◌∙◌, true, some, [], arith, append-nil, Bytes, length}
use easy_network.Net.{Sockets, IsStream}
use easy_network.Tcp.{Limits, default_tcp_send, default_tcp_recv}
use easy_network.Tcp.Send.{msg_buf_lem, length-msg_buf, default_tcp_send_sound}
use easy_network.Tcp.Recv.{default_tcp_recv_whole}

-- If `Default_TCP_Send` returned true on a connection with nothing unread, `Default_TCP_Recv` at the
-- other end, under a limit that is not lower, returns true and the same message, and leaves nothing
-- unread.
pub default_tcp_recv-send :
    (net : Sockets) {from to : ℕ} (s : IsStream net from to) (fuel : ℕ) (limits limits' : Limits)
    (message old : Bytes) (w : net.World)
    → 10 ≤ fuel
    → limits.max_tcp_message_size ≤ limits'.max_tcp_message_size
    → length message < 2 ^ 62
    → s.unread w ≡ []
    → (default_tcp_send net limits from message w).0 ≡ true
    → (w' : net.World) × (default_tcp_recv net fuel limits' to old
          (default_tcp_send net limits from message w).1
        ≡ some ((true, message), w'))
      × (s.unread w' ≡ [])
default_tcp_recv-send net {from} s fuel limits limits' message old w enough lim small e ok =
    let (out, fits, short) = default_tcp_send_sound net s limits message w small ok in
    default_tcp_recv_whole net s fuel limits' old message []
      (default_tcp_send net limits from message w).1 enough (omega arith)
      (omega (arith, length-msg_buf message)) (out ∙ rw (e, msg_buf_lem message, append-nil))
