-- ===== src/Tcp/Tests.antt =====
-- Runs of the message functions, and the theorems at concrete inputs.
use easy_network.Base.{◌≡◌, refl, ap, lt_wf, Bool, true, some, [], ◌∷◌, ◌++◌, arith, Bytes, codes}
use easy_network.Net.Pipe.{pipe, pipe-IsStream}
use native.Mathlib.Decide.{dec_lt}
use easy_network.Tcp.{
  mark_bytes, message_length_string, digits_loop, sent_size, read_prefix, read_body, high_groups,
  Limits, default_limits, default_tcp_send, default_tcp_recv, msg_buf, message_size,
}
use easy_network.Tcp.Prefix.{prefix}
use easy_network.Tcp.Recv.{default_tcp_recv_total}
use easy_network.Tcp.RoundTrip.{default_tcp_recv-send}

abbrev hello : Bytes
hello = codes "hello"

abbrev tight : Limits
tight = record { max_tcp_message_size = 3; max_udp_message_size = 3 }

msg_buf_run : msg_buf hello ≡ 5 ∷ hello
unfolding msg_buf mark_bytes message_length_string digits_loop lt_wf dec_lt
msg_buf_run = refl

prefix_run : prefix 300 ≡ 0xac ∷ 2 ∷ []
unfolding mark_bytes message_length_string digits_loop lt_wf dec_lt
prefix_run = refl

send_run : default_tcp_send pipe default_limits 4 hello [] ≡ (true, 5 ∷ hello)
unfolding default_tcp_send sent_size msg_buf mark_bytes message_length_string digits_loop lt_wf
    dec_lt
send_run = refl

recv_run :
    default_tcp_recv pipe 10 default_limits 4 [] (5 ∷ hello ++ codes "!")
    ≡ some ((true, hello), codes "!")
unfolding default_tcp_recv read_prefix read_body message_size high_groups
recv_run = refl

default_tcp_recv_total_example :
    (r : (Bool × Bytes) × Bytes) × (default_tcp_recv pipe 6 default_limits 5 [] (200 ∷ 201 ∷ [])
      ≡ some r)
default_tcp_recv_total_example =
    default_tcp_recv_total pipe (pipe-IsStream 4 5) 6 default_limits [] (200 ∷ 201 ∷ [])
      (omega arith)

default_tcp_recv-send_example :
    (w' : Bytes) × (default_tcp_recv pipe 10 default_limits 5 []
        (default_tcp_send pipe default_limits 4 hello []).1
      ≡ some ((true, hello), w'))
    × (w' ≡ [])
default_tcp_recv-send_example =
    default_tcp_recv-send pipe (pipe-IsStream 4 5) 10 default_limits default_limits hello [] []
      (omega arith) (omega arith) (omega arith) refl (ap (λ (r : Bool × Bytes). r.0) send_run)
