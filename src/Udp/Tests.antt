-- ===== src/Udp/Tests.antt =====
-- The datagram functions at a concrete input.
use easy_network.Base.{
  ℕ, ◌≤◌, ◌≡◌, refl, true, false, List, [], ◌∷◌, ◌++◌, arith, Bytes, codes, length, replicate, done,
  fault,
}
use easy_network.Tcp.{default_limits}
use easy_network.Udp.Framing.{datagram}
use easy_network.Udp.Receive.{windows, other, source_of, default_udp_recv}
use easy_network.Udp.Mailbox.{mailbox, mailbox-IsInbox, sent_from}
use easy_network.Udp.Delivers.{Datagram, default_udp_recv_delivers, default_udp_recv_long}

-- The datagrams sent so far, with their destinations.
abbrev to_log : Bytes → ℕ → Bytes → List (Bytes × ℕ × Bytes) → List (Bytes × ℕ × Bytes)
to_log address port datagram sent = sent ++ ((address, port, datagram) ∷ [])

-- A message whose length takes two bytes.
abbrev letters : Bytes
letters = replicate 130 b'x'

datagram_run : datagram letters ≡ 129 ∷ 2 ∷ letters
datagram_run = refl

default_udp_recv_delivers_example :
    (w' : List Datagram) × (default_udp_recv mailbox 3 windows default_limits [] []
        (sent_from (codes "hello") ∷ [])
      ≡ done ((true, source_of (codes "host") 80, codes "hello"), w'))
    × (w' ≡ [])
default_udp_recv_delivers_example =
    default_udp_recv_delivers mailbox mailbox-IsInbox default_limits [] (codes "hello") []
      (sent_from (codes "hello") ∷ []) (sent_from (codes "hello")) [] refl refl (omega arith)
      (omega arith) (omega arith)

default_udp_recv_long_example :
    (128 ≤ length letters
      → (w' : List Datagram) × (default_udp_recv mailbox 3 windows default_limits [] []
            (sent_from letters ∷ [])
          ≡ done ((false, [], []), w')))
    × (default_udp_recv mailbox 3 other default_limits [] [] (sent_from letters ∷ []) ≡ fault)
default_udp_recv_long_example =
    default_udp_recv_long mailbox mailbox-IsInbox default_limits [] letters []
      (sent_from letters ∷ []) (sent_from letters) [] (λ w'. refl) refl refl (omega arith)
      (omega arith)
