-- ===== src/UdpClient/Options.antt =====
-- Which socket options reach the socket of a client.
use easy_network.Base.{ℕ, ◌≡◌, refl, ap, Option, none, some, List, [], ◌∷◌, ◌++◌}
use easy_network.TcpServer.{SocketOption}
use easy_network.UdpClient.{Client, Host, run, set_socket_option}

module _ {World : Type 0} (host : Host World) where
  -- The calls of SetSocketOption for each option, in order.
  abbrev pub set_each : List SocketOption → Client World → World → Client World × World
  set_each [] c w = (c, w)
  set_each (o ∷ os) c w = let (c', w') = set_socket_option host o c w in set_each os c' w'

  set_socket_option-none :
      (o : SocketOption) (c : Client World) (w : World)
      → c.server_connection_socket ≡ none
      → set_socket_option host o c w ≡ (c, host.set_option none o w)
  unfolding set_socket_option
  set_socket_option-none o c w e =
      ap
        (λ (sock : Option ℕ). elim sock [
          | none ↦ (c, host.set_option none o w)
          | some s ↦ (record c { socket_options = c.socket_options ++ (o ∷ []) }, w)
        ])
        e

  set_each-keeps :
      (os : List SocketOption) (c : Client World) (w : World)
      → c.server_connection_socket ≡ none
      → (set_each os c w).0 ≡ c
  set_each-keeps [] c w e = refl
  set_each-keeps (o ∷ os) c w e =
      rw (set_each, set_socket_option-none o c w e)
        (set_each-keeps os c (host.set_option none o w) e)

  -- Options that are set one at a time before `Run` have no effect on it: whatever they are, `Run` does from a
  -- given state of the world what it does without them.
  pub run_ignores :
      (os : List SocketOption) (c : Client World) (w w' : World)
      → c.server_connection_socket ≡ none
      → run host (set_each os c w).0 w' ≡ run host c w'
  run_ignores os c w w' e = ap (λ (d : Client World). run host d w') (set_each-keeps os c w e)
