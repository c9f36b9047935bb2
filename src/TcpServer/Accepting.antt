-- ===== src/TcpServer/Accepting.antt =====
-- `EN_TCP_Server::Run`: the listening socket, the loop that accepts clients, and its ends.
pub mod Closing
pub mod Ends
use easy_network.Base.{
  ℕ, zero, suc, ◌+◌, Bool, false, Option, none, some, List, [], ◌∷◌, ◌++◌, Bytes, Run, done, stuck,
  ◌>>=◌, if◌then◌else◌,
}
use easy_network.TcpServer.{
  Server, Host, disconnected, erase_socket, set_options, accept_connection,
  disconnect_all_connected_clients,
}

-- The calls of the operating system, `none` and false where they fail, with CloseSocket on INVALID_SOCKET; and
-- what the loop sees of other threads: IsShutdown after the `accept` of round `i`, whether Shutdown has had
-- ShutdownMutex before the end of the loop, and the clients whose threads end while it waits, in order.
pub record Listening (World : Type 0) : Type 0 where
  pub open_socket : World → Option ℕ × World
  pub bind_socket : ℕ → Bytes → ℕ → World → Bool × World
  pub listen_on : ℕ → World → Bool × World
  pub accept_on : ℕ → World → Option ℕ × World
  pub close_invalid : World → World
  pub shut : ℕ → Bool
  pub shutdown_first : Bool
  pub leaving : List ℕ

-- The end of `Run`: a return, or a std::runtime_error.
pub data RunEnd (World : Type 0) : Type 0 where
  run_over : Server World → World → RunEnd World
  run_failed : Server World → World → RunEnd World

module _ {World : Type 0} (host : Host World) (os : Listening World) where
  -- The end of `ClientHandler` in the thread of a client, when its `TCP_Recv` has failed.
  pub client_leaves : ℕ → Server World → World → Server World × World
  client_leaves sock sv w = (
    record sv {
      events = sv.events ++ (disconnected sock ∷ []);
      client_sockets = erase_socket sock sv.client_sockets;
    },
    host.close_socket sock (host.on_client_disconnect sock w),
  )

  -- The loop ends when the set is empty, and never if no further client leaves.
  pub wait_while_all_clients_disconnect : List ℕ → Server World → World → Run (Server World × World)
  wait_while_all_clients_disconnect [] sv w = elim sv.client_sockets [
    | [] ↦ done (sv, w)
    | c ∷ cs ↦ stuck
  ]
  wait_while_all_clients_disconnect (s ∷ ss) sv w =
      let (sv', w') = client_leaves s sv w in
      let rest = wait_while_all_clients_disconnect ss sv' w' in
      elim sv.client_sockets [ [] ↦ done (sv, w) | c ∷ cs ↦ rest ]

  -- The CloseSocket of `Shutdown` in another thread, if it comes before the loop has ended.
  pub shutdown_closes : ℕ → World → World
  shutdown_closes listening w = if os.shutdown_first then host.close_socket listening w else w

  -- Every client is disconnected, then what `accept` has returned and the listening socket are closed.
  pub close_down : ℕ → Option ℕ → Server World → World → Server World × World
  close_down listening incoming sv w =
      let w₁ = disconnect_all_connected_clients host sv w in
      let w₂ = elim incoming as (λ o. World) [
        | none ↦ os.close_invalid w₁
        | some s ↦ host.close_socket s w₁
      ] in
      (record sv { server_listen_socket = none }, host.close_socket listening w₂)

  -- The loop, on fuel; `i` counts the calls of `accept`.
  pub accept_loop : ℕ → ℕ → ℕ → Server World → World → Run (RunEnd World)
  accept_loop zero i listening sv w = stuck
  accept_loop (suc fuel) i listening sv w =
      let (incoming, w₁) = os.accept_on listening w in
      let (closed, w₂) = close_down listening incoming sv w₁ in
      let (shut, w₃) = close_down listening incoming sv (shutdown_closes listening w₁) in
      let after = elim incoming as (λ o. Run (RunEnd World)) [
        | none ↦ do
          (sv', w') ← wait_while_all_clients_disconnect os.leaving closed w₂
          done (run_failed sv' w')
        | some s ↦
            let (sv', w') = accept_connection host s sv w₁ in
            accept_loop fuel (i + 1) listening sv' w'
      ] in
      let ended = (do
        (sv', w') ← wait_while_all_clients_disconnect os.leaving shut w₃
        done (run_over (record sv' { is_shutdown = false }) w')) in
      if os.shut i then ended else after

  -- After `socket` has succeeded.
  pub run_on : ℕ → ℕ → Server World → World → Run (RunEnd World)
  run_on fuel listening sv w =
      let sv' = record sv { server_listen_socket = some listening } in
      let w₁ = set_options host listening sv.accept_socket_options w in
      let (bound, w₂) = os.bind_socket listening sv.ip_address sv.port w₁ in
      let (ready, w₃) = os.listen_on listening w₂ in
      let accepting = accept_loop fuel 0 listening sv' w₃ in
      if bound
      then if ready then accepting else done (run_failed sv' w₃)
      else done (run_failed sv' w₂)

  pub run : ℕ → Server World → World → Run (RunEnd World)
  run fuel sv w =
      let (opened, w₁) = os.open_socket w in
      let started = elim opened as (λ o. Run (RunEnd World)) [
        | none ↦ done (run_failed (record sv { server_listen_socket = none }) w₁)
        | some listening ↦ run_on fuel listening sv w₁
      ] in
      if sv.is_shutdown then done (run_over (record sv { is_shutdown = false }) w) else started
