-- ===== src/TcpClient/Connection.antt =====
-- When a client is connected.
use easy_network.Base.{
  ℕ, ◌≡◌, refl, sym, subst, ◌∙◌, Bool, true, false, Option, none, some, arith, Bytes, Bool-cases,
  inl, inr,
}
use easy_network.TcpClient.{
  Client, Host, is_connected, connect, disconnect, connect_new, start_handler, address_of,
  wait_for_server_handler_end,
}

module _ {World : Type 0} (host : Host World) where
  -- What `Connect` has done on each of its ways out.
  abbrev pub Connected : Client World → Bool × Client World × World → Type 0
  Connected c (ok, c', w') =
      (ok ≡ true
        → (is_connected host c ≡ false)
          × (is_connected host c' ≡ true)
          × (c'.server_handler_joinable ≡ c.is_run_message_handler_thread))
      × (ok ≡ false → c'.server_connection_socket ≡ c.server_connection_socket)

  joinable_after :
      (c : Client World) (w : World)
      → (c.is_run_message_handler_thread ≡ false → c.server_handler_joinable ≡ false)
      → (start_handler host c w).0.server_handler_joinable ≡ c.is_run_message_handler_thread
  unfolding start_handler wait_for_server_handler_end
  joinable_after c w h = ground arith

  socket_after :
      (c : Client World) (w : World)
      → (start_handler host c w).0.server_connection_socket ≡ c.server_connection_socket
  unfolding start_handler wait_for_server_handler_end
  socket_after c w = ground arith

  port_after :
      (c : Client World) (w : World) → (start_handler host c w).0.server_port ≡ c.server_port
  unfolding start_handler wait_for_server_handler_end
  port_after c w = ground arith

  new_connection :
      (c : Client World) (w : World) (opened : Option ℕ)
      → (host.open_socket w).0 ≡ opened
      → c.server_connection_socket ≡ none
      → (c.is_run_message_handler_thread ≡ false → c.server_handler_joinable ≡ false)
      → Connected c (connect_new host c w) × ((connect_new host c w).1.server_port ≡ c.server_port)
  unfolding connect_new is_connected
  new_connection c w none e free idle = ground (arith, e, free)
  new_connection c w (some s) e free idle =
      let c' = record c { server_connection_socket = some s } in
      let w' = (host.connect_socket s c.server_ip_address c.server_port (host.open_socket w).1).1 in
      ground (arith, e, free, joinable_after c' w' idle, socket_after c' w', port_after c' w')

  -- `Connect` on every branch, if a client that runs no handler thread has none to join. If it returns
  -- true, the client was not connected before and is connected now, and a handler thread has been started
  -- exactly if the client wants one. If it returns false, the client's socket is the one it had before, an
  -- open connection included. In both cases the remembered port is the new one.
  pub connect_lem :
      (ip_addr : Bytes) (port : ℕ) (c : Client World) (w : World)
      → (c.is_run_message_handler_thread ≡ false → c.server_handler_joinable ≡ false)
      → Connected c (connect host ip_addr port c w)
        × ((connect host ip_addr port c w).1.server_port ≡ port)
  unfolding connect is_connected
  connect_lem ip_addr port c w idle = connect_cases c.server_connection_socket refl
    where
      connect_cases :
          (o : Option ℕ)
          → c.server_connection_socket ≡ o
          → Connected c (connect host ip_addr port c w)
            × ((connect host ip_addr port c w).1.server_port ≡ port)
      connect_cases (some s) e = ground (arith, e)
      connect_cases none e =
          let c' = record c { server_ip_address = address_of host ip_addr; server_port = port } in
          let new : connect host ip_addr port c w ≡ connect_new host c' w = ground (arith, e) in
          subst (λ r. Connected c r × (r.1.server_port ≡ port)) (sym new)
            (new_connection c' w (host.open_socket w).0 refl e idle)

  same_socket :
      (c d : Client World)
      → c.server_connection_socket ≡ d.server_connection_socket
      → is_connected host c ≡ is_connected host d
  unfolding is_connected
  same_socket c d e = rw e

  -- From no connection, the result of `Connect` says whether there is one.
  pub is_connected-connect :
      (ip_addr : Bytes) (port : ℕ) (c : Client World) (w : World)
      → (c.is_run_message_handler_thread ≡ false → c.server_handler_joinable ≡ false)
      → is_connected host c ≡ false
      → is_connected host (connect host ip_addr port c w).1 ≡ (connect host ip_addr port c w).0
  is_connected-connect ip_addr port c w idle free =
      let ((yes_case, no_case), _) = connect_lem ip_addr port c w idle in
      elim (Bool-cases (connect host ip_addr port c w).0) [
        | inl ok ↦ (yes_case ok).1 ∙ sym ok
        | inr bad ↦ same_socket (connect host ip_addr port c w).1 c (no_case bad) ∙ free ∙ sym bad
      ]

  pub is_connected-disconnect :
      (is_blocking in_handler : Bool) (c : Client World) (w : World)
      → is_connected host (disconnect host is_blocking in_handler c w).0 ≡ false
  unfolding disconnect is_connected
  is_connected-disconnect is_blocking in_handler c w = refl
