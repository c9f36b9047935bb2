-- ===== src/UdpClient/Serve.antt =====
-- The thread of the client with `Default_UDP_Recv`.
use easy_network.Base.{
  ℕ, zero, suc, ◌≤◌, ◌<◌, ◌≡◌, refl, ◌∙◌, List, [], ◌∷◌, ◌++◌, append_assoc, append-nil, arith,
  Bytes, length, All, done,
}
use easy_network.Tcp.{Limits}
use easy_network.Udp.{udp_buf}
use easy_network.Udp.Receive.{windows, from_failed, Datagrams, source_of, default_udp_recv}
use easy_network.Udp.Delivers.{Datagram, IsInbox, default_udp_recv_delivers}
use easy_network.UdpClient.{Client, Host, server_loop, server_handler}

-- A message of 1 to 127 bytes within the limit.
abbrev pub Fits : Limits → Bytes → Type 0
Fits limits m = (1 ≤ length m) × (length m < 128) × (length m < limits.max_udp_message_size)

-- The datagrams carry these messages.
abbrev pub Carries : List Datagram → List Bytes → Type 0
Carries [] [] = Unit
Carries (d ∷ ds) (m ∷ ms) = (d.bytes ≡ udp_buf m) × Carries ds ms
Carries [] (m ∷ ms) = ⊥
Carries (d ∷ ds) [] = ⊥

module _ (net : Datagrams) {sock : ℕ} (inbox : IsInbox net sock) (limits : Limits) (fresh : Bytes)
    (host : Host net.World) where
  open inbox use {waiting}

  module _
      (handler_keeps : (m : Bytes) (w : net.World)
        → waiting (host.server_message_handler m w) ≡ waiting w)
      (ended : (n : ℕ) (w : net.World)
        → waiting w ≡ []
        → (net.recvfrom sock n w).0 ≡ from_failed) where
    loop_serves :
        (ds : List Datagram) (ms : List Bytes) (fuel : ℕ) (source message : Bytes)
        (c : Client net.World) (w : net.World)
        → length ms < fuel
        → All (Fits limits) ms
        → Carries ds ms
        → c.udp_recv c.server_connection_socket
          ≡ (λ source' message'. default_udp_recv net sock windows limits fresh source')
        → waiting w ≡ ds
        → (w' : net.World) × (server_loop host fuel source message c w
            ≡ done (record c { handled = c.handled ++ ms }, w'))
    unfolding server_loop default_udp_recv
    loop_serves [] [] (suc fuel) source message c w enough fits carries r e = (
      net.close sock (net.recvfrom sock limits.max_udp_message_size w).1,
      rw
          (
            server_loop,
            r,
            default_udp_recv,
            ended limits.max_udp_message_size w e,
            append-nil c.handled,
          )
          refl,
    )
    loop_serves [] (m ∷ ms) fuel source message c w enough fits carries r e = absurd carries
    loop_serves (d ∷ ds) [] fuel source message c w enough fits carries r e = absurd carries
    loop_serves [] [] zero source message c w enough fits carries r e = elim enough [ ]
    loop_serves (d ∷ ds) (m ∷ ms) zero source message c w enough fits carries r e = elim enough [ ]
    loop_serves (d ∷ ds) (m ∷ ms) (suc fuel) source message c w enough
          ((some_byte, small, limit), fits) (f, carries) r e =
        let (w₁, p, q) =
          default_udp_recv_delivers net inbox limits fresh m source w d ds e f some_byte small
            limit in
        let c' = record c { handled = c.handled ++ (m ∷ []) } in
        let (w', u) =
          loop_serves ds ms fuel (source_of d.address d.port) m c'
            (host.server_message_handler m w₁) (omega arith) fits carries r
            (handler_keeps m w₁ ∙ q) in
        (w', rw (server_loop, r, p, u, append_assoc c.handled (m ∷ []) ms) refl)

    -- On Windows, the thread of a client at whose socket datagrams wait that carry the messages `ms`, each of 1 to 127 bytes
    -- and within the limit, and whose socket is closed then: it ends, and it has called ServerMessageHandler
    -- once for each message, in their order. The user's handler takes no datagram, and the fuel exceeds the
    -- number of messages.
    pub server_handler_handles :
        (ds : List Datagram) (ms : List Bytes) (fuel : ℕ) (c : Client net.World) (w : net.World)
        → length ms < fuel
        → All (Fits limits) ms
        → Carries ds ms
        → c.udp_recv c.server_connection_socket
          ≡ (λ source' message'. default_udp_recv net sock windows limits fresh source')
        → waiting w ≡ ds
        → (w' : net.World) × (server_handler host fuel c w
            ≡ done (record c { handled = c.handled ++ ms }, w'))
    unfolding server_handler
    server_handler_handles ds ms fuel c w enough fits carries r e =
        loop_serves ds ms fuel [] [] c w enough fits carries r e
