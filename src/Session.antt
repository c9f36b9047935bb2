-- ===== src/Session.antt =====
-- EN_TCP_Server_SC.h and EN_TCP_Server_SCUP.h: servers whose virtual functions also get the member
-- `SessionContext`, which in the second one holds the functions for sending and receiving too.
pub mod Serve
pub mod Switch
mod Tests
use easy_network.Base.{
  ℕ, zero, suc, Bool, true, false, Option, none, some, [], Bytes, if◌then◌else◌, Run, done, fault,
  stuck, ◌>>=◌,
}
use easy_network.MessageLoop.{message_loop}
use easy_network.TcpServer.{Server, find_socket, erase_socket}

-- The members of the parent class, and `SessionContext`.
pub record SessionServer (Context World : Type 0) : Type 0 where
  pub server : Server World
  pub session_context : Context

-- The user's virtual functions, which may change the context that they are given.
pub record SessionHost (Context World : Type 0) : Type 0 where
  pub on_client_connected : ℕ → Context → World → Context × World
  pub client_message_handler : ℕ → Bytes → Context → World → Context × World
  pub on_client_disconnect : ℕ → Context → World → Context × World
  pub close_socket : ℕ → World → World

module _ {Context World : Type 0} (host : SessionHost Context World) where
  -- A virtual function is called with `SessionContext`.
  abbrev pub with_context :
      (Context → World → Context × World)
      → SessionServer Context World
      → World
      → SessionServer Context World × World
  with_context f sv w =
      let (t, w') = f sv.session_context w in (record sv { session_context = t }, w')

  abbrev pub handle_message :
      ℕ → Bytes → SessionServer Context World → World → SessionServer Context World × World
  handle_message sock m = with_context (host.client_message_handler sock m)

  -- What `ClientHandler` of both classes does after its loop.
  unfoldable pub end_connection :
      ℕ → SessionServer Context World → World → SessionServer Context World × World
  end_connection sock sv w =
      let (sv', w') = with_context (host.on_client_disconnect sock) sv w in
      (
        record sv' {
          server = record sv'.server {
            client_sockets = erase_socket sock sv'.server.client_sockets;
          };
        },
        host.close_socket sock w',
      )

  -- `EN_TCP_Server_SC::ClientHandler`, on fuel for its loop.
  unfoldable pub client_handler :
      ℕ → ℕ → SessionServer Context World → World → Run (SessionServer Context World × World)
  client_handler fuel sock sv w = do
    let (sv', w') = with_context (host.on_client_connected sock) sv w
    (sv'', w'') ← message_loop (λ v. v.server.tcp_recv sock) (handle_message sock) fuel [] sv' w'
    done (end_connection sock sv'' w'')

-- TCP_SessionContext_SCUP; `none` is nullptr.
pub record Protocol (Data World : Type 0) : Type 0 where
  pub user_data : Data
  pub context_send : Option (ℕ → Bytes → World → Bool × World)
  pub context_recv : Option (ℕ → Bytes → World → Option ((Bool × Bytes) × World))

module _ {Data World : Type 0} (host : SessionHost (Protocol Data World) World) where
  -- The loop of `EN_TCP_Server_SCUP::ClientHandler`; a call through nullptr is a fault.
  unfoldable pub protocol_loop :
      ℕ
      → ℕ
      → Bytes
      → SessionServer (Protocol Data World) World
      → World
      → Run (SessionServer (Protocol Data World) World × World)
  protocol_loop zero sock message sv w = stuck
  protocol_loop (suc fuel) sock message sv w = elim sv.session_context.context_recv [
    | none ↦ fault
    | some recv ↦ elim (recv sock message w) [
      | none ↦ stuck
      | some ((false, m), w') ↦ done (sv, w')
      | some ((true, m), w') ↦
          protocol_loop fuel sock m (handle_message host sock m sv w').0
            (handle_message host sock m sv w').1
    ]
  ]

  unfoldable pub protocol_client_handler :
      ℕ
      → ℕ
      → SessionServer (Protocol Data World) World
      → World
      → Run (SessionServer (Protocol Data World) World × World)
  protocol_client_handler fuel sock sv w = do
    let (sv', w') = with_context host (host.on_client_connected sock) sv w
    (sv'', w'') ← protocol_loop fuel sock [] sv' w'
    done (end_connection host sock sv'' w'')

-- The methods that get a context from the user.
module _ {Data World : Type 0} where
  pub send_to_client : ℕ → Bytes → Protocol Data World → Server World → World → Run (Bool × World)
  send_to_client sock message context sv w =
      if find_socket sock sv.client_sockets
      then elim context.context_send [ none ↦ fault | some send ↦ done (send sock message w) ]
      else done (false, w)

  pub wait_message : ℕ → Bytes → Protocol Data World → World → Run ((Bool × Bytes) × World)
  wait_message sock message context w = elim context.context_recv [
    | none ↦ fault
    | some recv ↦ elim (recv sock message w) [ none ↦ stuck | some r ↦ done r ]
  ]
