-- ===== src/UdpServer/Life.antt =====
-- EN_UDP_Server.cpp: `Run` from the socket to its end, `Shutdown`, and the socket options.
pub mod Weights
pub mod Keeps
pub mod Locked
mod Tests
use easy_network.Base.{
  ℕ, zero, suc, ◌+◌, ◌-◌, Bool, true, false, not, ◌||◌, Option, none, some, List, [], ◌∷◌, ◌++◌,
  Bytes, replicate, if◌then◌else◌, Run, done, stuck, ◌>>=◌,
}
use easy_network.TcpServer.{SocketOption}
use easy_network.UdpServer.{BufferType, Buffer, Item, peek, pop, change, on_message}

-- The members; `none` is INVALID_SOCKET, and `shutdown_mutex` says whether ShutdownMutex is locked.
pub record Server (World : Type 0) : Type 0 where
  pub port : ℕ
  pub ip_address : Bytes
  pub thread_amount : ℕ
  pub server_bufer_type : BufferType
  pub max_stack_buff_size : ℕ
  pub shutdown_mutex : Bool
  pub udp_server_socket : Option ℕ
  pub socket_options : List SocketOption
  pub buffers : List Buffer
  pub udp_send : Option ℕ → Bytes → Bytes → World → World
  pub udp_recv : Option ℕ → Bytes → Bytes → World → Run ((Bool × Bytes × Bytes) × World)

-- What a server stands on: the user's functions, the system's calls, the atomic IsShutdown, and the schedule.
-- `turns` are the handler threads that run up to the next message, one for each round of their inner loop,
-- in their order; `join` waits for all of them, and is `none` if one never ends. The clock does not go back.
pub record Host (World : Type 0) : Type 0 where
  pub instant_client_message_handler : Bytes → Bytes → World → Bool × World
  pub open_socket : World → Option ℕ × World
  pub bind_socket : ℕ → Bytes → ℕ → World → Bool × World
  pub close_socket : Option ℕ → World → World
  pub set_option : Option ℕ → SocketOption → World → World
  pub now : World → ℕ
  pub is_shutdown : World → Bool
  pub store_shutdown : World → World
  pub open_gates : World → World
  pub client_message_handler : Bytes → Bytes → ℕ → World → World
  pub turns : World → List ℕ × World
  pub join : World → Option World

pub data Outcome : Type 0 where
  running : Outcome
  returned : Outcome
  threw : Outcome

abbrev pub empty_buffer : Buffer
empty_buffer = record { messages = []; addresses = []; times = [] }

-- What the handler thread `i` reads from its buffer.
unfoldable pub item_at : ℕ → List Buffer → Option Item
item_at i [] = none
item_at zero (b ∷ bs) = peek b
item_at (suc i) (b ∷ bs) = item_at i bs

module _ {World : Type 0} (host : Host World) where
  pub set_options : Option ℕ → List SocketOption → World → World
  set_options sock [] w = w
  set_options sock (o ∷ os) w = set_options sock os (host.set_option sock o w)

  -- With the socket bound: the options, and what stands before the receiving loop.
  abbrev pub begin : ℕ → Server World → World → Outcome × Server World × World
  begin s sv w = (
    running,
    record sv {
      udp_server_socket = some s;
      shutdown_mutex = false;
      buffers = replicate sv.thread_amount empty_buffer;
    },
    set_options (some s) sv.socket_options w,
  )

  -- `Run` up to its loop. Its two `throw`s leave ShutdownMutex locked.
  unfoldable pub start : Server World → World → Run (Outcome × Server World × World)
  start sv w =
      let (opened, w₁) = host.open_socket w in
      if sv.shutdown_mutex then stuck else elim opened [
        | none ↦ done (threw, record sv { udp_server_socket = none; shutdown_mutex = true }, w₁)
        | some s ↦
            let (bound, w₂) = host.bind_socket s sv.ip_address sv.port w₁ in
            done (
              if bound
              then begin s sv w₂
              else (threw, record sv { udp_server_socket = some s; shutdown_mutex = true }, w₂))
      ]

  -- A round of the inner loop of `ThreadListHandler`, as a whole. The user's function does not see the buffers,
  -- so that for a stack, where it is called after the removal, the round does the same.
  unfoldable pub handle_turn : ℕ → List Buffer → World → List Buffer × World
  handle_turn i bs w = elim (item_at i bs) [
    | none ↦ (bs, w)
    | some x ↦
        (change i pop bs, host.client_message_handler x.message x.address (host.now w - x.time) w)
  ]

  unfoldable pub handle_turns : List ℕ → List Buffer → World → List Buffer × World
  handle_turns [] bs w = (bs, w)
  handle_turns (i ∷ is) bs w = let (bs', w') = handle_turn i bs w in handle_turns is bs' w'

  -- A message that InstantClientMessageHandler wants goes into a buffer, whose gate is opened.
  unfoldable pub put : Bytes → Bytes → Server World → World → Server World × World
  put source message sv w =
      let (wanted, w₁) = host.instant_client_message_handler message source w in
      let item : Item = record { message = message; address = source; time = host.now w₁ } in
      let bs = on_message sv.server_bufer_type sv.max_stack_buff_size wanted item sv.buffers in
      let (is, w₂) = host.turns w₁ in
      let (bs', w₃) = handle_turns is bs w₂ in (record sv { buffers = bs' }, w₃)

  -- The loop of `Run`, on fuel, with its local variables `clientAddress` and `message`.
  unfoldable pub receive_loop :
      ℕ → Bytes → Bytes → Server World → World → Run (Server World × World)
  receive_loop zero source message sv w = stuck
  receive_loop (suc fuel) source message sv w = do
    ((ok, source', message'), w₁) ← sv.udp_recv sv.udp_server_socket source message w
    let rest =
        receive_loop fuel source' message' (put source' message' sv w₁).0
          (put source' message' sv w₁).1
    if host.is_shutdown w₁ || not ok then done (sv, w₁) else rest

  -- After the loop.
  unfoldable pub finish : Server World → World → Run (Outcome × Server World × World)
  finish sv w = elim (host.join w) [
    | none ↦ stuck
    | some w₁ ↦
        let w₂ = host.close_socket sv.udp_server_socket w₁ in
        done (if host.is_shutdown w₂ then returned else threw, record sv { buffers = [] }, w₂)
  ]

  after_start : ℕ → Outcome × Server World × World → Run (Outcome × Server World × World)
  after_start fuel (running, sv, w) = do (sv', w') ← receive_loop fuel [] [] sv w; finish sv' w'
  after_start fuel (returned, sv, w) = done (returned, sv, w)
  after_start fuel (threw, sv, w) = done (threw, sv, w)

  unfoldable pub run : ℕ → Server World → World → Run (Outcome × Server World × World)
  unfolding after_start
  run fuel sv w = do started ← start sv w; after_start fuel started

  -- `Shutdown`, by another thread; it waits for a socket.
  unfoldable pub shutdown : Server World → World → Run (Server World × World)
  shutdown sv w = if sv.shutdown_mutex then stuck else elim sv.udp_server_socket [
    | none ↦ stuck
    | some s ↦ done (sv, host.open_gates (host.close_socket (some s) (host.store_shutdown w)))
  ]

  pub send_to_client : Bytes → Bytes → Server World → World → World
  send_to_client client_ip_address message sv w =
      sv.udp_send sv.udp_server_socket client_ip_address message w

  unfoldable pub set_socket_option :
      SocketOption → Server World → World → Run (Server World × World)
  set_socket_option o sv w = if sv.shutdown_mutex then stuck else elim sv.udp_server_socket [
    | none ↦ done (sv, host.set_option none o w)
    | some s ↦ done (record sv { socket_options = sv.socket_options ++ (o ∷ []) }, w)
  ]

  unfoldable pub set_socket_options :
      List SocketOption → Server World → World → Run (Server World × World)
  set_socket_options os sv w = if sv.shutdown_mutex then stuck else elim sv.udp_server_socket [
    | none ↦ done (record sv { socket_options = sv.socket_options ++ os }, w)
    | some s ↦ done (sv, set_options (some s) os w)
  ]

  pub set_udp_send_function :
      (Option ℕ → Bytes → Bytes → World → World) → Server World → Server World
  set_udp_send_function f sv = record sv { udp_send = f }

  pub set_udp_recv_function :
      (Option ℕ → Bytes → Bytes → World → Run ((Bool × Bytes × Bytes) × World))
      → Server World
      → Server World
  set_udp_recv_function f sv = record sv { udp_recv = f }
