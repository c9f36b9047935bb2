-- ===== src/UdpServer/Life/Locked.antt =====
-- The server after a `Run` that could not make or bind its socket.
use easy_network.Base.{ℕ, ◌≡◌, refl, true, false, Option, none, some, done, stuck}
use easy_network.TcpServer.{SocketOption}
use easy_network.UdpServer.Life.{Server, Host, threw, start, run, shutdown, set_socket_option}

module _ {World : Type 0} (host : Host World) where
  -- A `Run` whose socket cannot be made, or cannot be bound, throws, and every later call of `Run`, `Shutdown` or
  -- SetSocketOption with one option on that server waits for ever, since nothing unlocks ShutdownMutex.
  pub failed_run-locks :
      (fuel : ℕ) (sv : Server World) (w : World)
      → sv.shutdown_mutex ≡ false
      → ((s : ℕ)
          → (host.open_socket w).0 ≡ some s
          → (host.bind_socket s sv.ip_address sv.port (host.open_socket w).1).0 ≡ false)
      → (sv' : Server World) × (w' : World) × (run host fuel sv w ≡ done (threw, sv', w'))
        × ((n : ℕ) (w'' : World) → run host n sv' w'' ≡ stuck)
        × ((w'' : World) → shutdown host sv' w'' ≡ stuck)
        × ((o : SocketOption) (w'' : World) → set_socket_option host o sv' w'' ≡ stuck)
  unfolding run start shutdown set_socket_option
  failed_run-locks fuel sv w free h = go (host.open_socket w).0 refl
    where
      go :
          (r : Option ℕ)
          → (host.open_socket w).0 ≡ r
          → (sv' : Server World) × (w' : World) × (run host fuel sv w ≡ done (threw, sv', w'))
            × ((n : ℕ) (w'' : World) → run host n sv' w'' ≡ stuck)
            × ((w'' : World) → shutdown host sv' w'' ≡ stuck)
            × ((o : SocketOption) (w'' : World) → set_socket_option host o sv' w'' ≡ stuck)
      go none e = (
        record sv { udp_server_socket = none; shutdown_mutex = true },
        (host.open_socket w).1,
        rw (run, start, free, e) refl,
        λ n w''. refl,
        λ w''. refl,
        λ o w''. refl,
      )
      go (some s) e = (
        record sv { udp_server_socket = some s; shutdown_mutex = true },
        (host.bind_socket s sv.ip_address sv.port (host.open_socket w).1).1,
        rw (run, start, free, e, h s e) refl,
        λ n w''. refl,
        λ w''. refl,
        λ o w''. refl,
      )
