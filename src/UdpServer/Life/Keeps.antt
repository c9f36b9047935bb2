-- ===== src/UdpServer/Life/Keeps.antt =====
-- What becomes of the messages that `Run` receives.
use easy_network.Base.{
  ℕ, zero, suc, ◌+◌, ◌-◌, ◌≤◌, ◌<◌, ◌≡◌, refl, ap, ◌∙◌, Bool, true, false, Option, none, some, List,
  [], ◌∷◌, ◌++◌, arith, Bytes, length, Run, done,
}
use easy_network.UdpServer.{queue, Buffer, Item, pop, on_message}
use easy_network.UdpServer.Life.{
  Server, Host, item_at, handle_turn, handle_turns, put, receive_loop,
}
use easy_network.UdpServer.Life.Weights.{
  weigh, weigh-append, total, message_if, change-length, on_message-total, item_at-total,
}

-- What the program stands on while `Run` receives. `coming` are the messages that the socket will deliver
-- before it fails, with their senders, and `handled` those with which ClientMessageHandler has been called.
-- Shutdown is not called.
pub record IsFeed {World : Type 0} (host : Host World)
    (recv : Option ℕ → Bytes → Bytes → World → Run ((Bool × Bytes × Bytes) × World))
    (wants : Bytes → Bytes → Bool) : Type 0 where
  pub coming : World → List (Bytes × Bytes)
  pub handled : World → List Bytes
  pub recv_next :
      (sock : Option ℕ) (source message address m : Bytes) (rest : List (Bytes × Bytes)) (w : World)
      → coming w ≡ (address, m) ∷ rest
      → (w' : World) × (recv sock source message w ≡ done ((true, address, m), w'))
        × (coming w' ≡ rest)
        × (handled w' ≡ handled w)
        × (host.is_shutdown w' ≡ false)
  pub recv_end :
      (sock : Option ℕ) (source message : Bytes) (w : World)
      → coming w ≡ []
      → (r : Bytes × Bytes) × (w' : World) × (recv sock source message w
          ≡ done ((false, r.0, r.1), w'))
        × (handled w' ≡ handled w)
        × (host.is_shutdown w' ≡ false)
  pub instant_wants :
      (m address : Bytes) (w : World)
      → (host.instant_client_message_handler m address w).0 ≡ wants m address
  pub instant_keeps :
      (m address : Bytes) (w : World)
      → (coming (host.instant_client_message_handler m address w).1 ≡ coming w)
        × (handled (host.instant_client_message_handler m address w).1 ≡ handled w)
  pub handler_calls :
      (m address : Bytes) (elapsed : ℕ) (w : World)
      → (coming (host.client_message_handler m address elapsed w) ≡ coming w)
        × (handled (host.client_message_handler m address elapsed w) ≡ handled w ++ (m ∷ []))
  pub turns_keep :
      (w : World) → (coming (host.turns w).1 ≡ coming w) × (handled (host.turns w).1 ≡ handled w)

-- Those of the messages that the user wants.
abbrev pub wanted_of : (Bytes → Bytes → Bool) → List (Bytes × Bytes) → List Bytes
wanted_of wants [] = []
wanted_of wants ((address, m) ∷ ms) = message_if (wants m address) m ++ wanted_of wants ms

module _ {World : Type 0} (host : Host World)
    (recv : Option ℕ → Bytes → Bytes → World → Run ((Bool × Bytes × Bytes) × World))
    (wants : Bytes → Bytes → Bool) (feed : IsFeed host recv wants) where
  open feed use {
    coming, handled, recv_next, recv_end, instant_wants, instant_keeps, handler_calls, turns_keep,
  }

  -- What becomes of the buffers and of the handled messages.
  abbrev Kept : List Buffer → World → List Buffer → World → List Bytes → Type 0
  Kept bs w bs' w' new =
      (coming w' ≡ coming w)
      × ((f : Bytes → ℕ)
          → weigh f (handled w') + total f bs' ≡ (weigh f (handled w) + total f bs) + weigh f new)
      × (length bs' ≡ length bs)

  handle_turn-keeps :
      (i : ℕ) (bs : List Buffer) (w : World)
      → let (bs', w') = handle_turn host i bs w in Kept bs w bs' w' []
  unfolding handle_turn
  handle_turn-keeps i bs w = by_item (item_at i bs) refl
    where
      by_item :
          (r : Option Item)
          → item_at i bs ≡ r
          → let (bs', w') = handle_turn host i bs w in Kept bs w bs' w' []
      by_item none e = rw (handle_turn, e) (refl, λ f. omega arith, refl)
      by_item (some x) e =
          let (c, h) = handler_calls x.message x.address (host.now w - x.time) w in
          rw (handle_turn, e)
            (
              c,
              λ f. omega (
                arith,
                item_at-total f i bs x e,
                ap (weigh f) h,
                weigh-append f (handled w) (x.message ∷ []),
              ),
              change-length pop bs i,
            )

  handle_turns-keeps :
      (is : List ℕ) (bs : List Buffer) (w : World)
      → let (bs', w') = handle_turns host is bs w in Kept bs w bs' w' []
  unfolding handle_turns
  handle_turns-keeps [] bs w = (refl, λ f. omega arith, refl)
  handle_turns-keeps (i ∷ is) bs w =
      let (c, h, l) = handle_turn-keeps i bs w in
      let (bs', w') = handle_turn host i bs w in
      let (c', h', l') = handle_turns-keeps is bs' w' in
      (c' ∙ c, λ f. omega (arith, h f, h' f), l' ∙ l)

  -- One message.
  put_keeps :
      (address m : Bytes) (sv : Server World) (w : World)
      → sv.server_bufer_type ≡ queue
      → 1 ≤ length sv.buffers
      → let (sv', w') = put host address m sv w in
        Kept sv.buffers w sv'.buffers w' (message_if (wants m address) m)
  unfolding put
  put_keeps address m sv w kind some_thread =
      let w₁ = (host.instant_client_message_handler m address w).1 in
      let item : Item = record { message = m; address = address; time = host.now w₁ } in
      let bs = on_message queue sv.max_stack_buff_size (wants m address) item sv.buffers in
      let (p, q) =
        on_message-total sv.max_stack_buff_size (wants m address) item sv.buffers some_thread in
      let (c, h) = instant_keeps m address w in
      let (is, w₂) = host.turns w₁ in
      let (c', h') = turns_keep w₁ in
      let (c'', h'', l) = handle_turns-keeps is bs w₂ in
      rw (put, kind, instant_wants m address w)
        (c'' ∙ c' ∙ c, λ f. omega (arith, h'' f, ap (weigh f) (h' ∙ h), p f), l ∙ q)

  put_stays :
      (address m : Bytes) (sv : Server World) (w : World)
      → let sv' = (put host address m sv w).0 in
        (sv'.udp_recv ≡ sv.udp_recv) × (sv'.server_bufer_type ≡ sv.server_bufer_type)
  unfolding put
  put_stays address m sv w = (refl, refl)

  -- A round of the loop with a message.
  receive_loop-message :
      (fuel : ℕ) (source message address m : Bytes) (sv : Server World) (w w₁ : World)
      → sv.udp_recv sv.udp_server_socket source message w ≡ done ((true, address, m), w₁)
      → host.is_shutdown w₁ ≡ false
      → receive_loop host (suc fuel) source message sv w
        ≡ receive_loop host fuel address m (put host address m sv w₁).0 (put host address m sv w₁).1
  unfolding receive_loop
  receive_loop-message fuel source message address m sv w w₁ p s = rw (receive_loop, p, s) refl

  -- The loop of `Run` with at least one handler thread and the buffers of kind Queue, while `coming` arrives, the
  -- socket then fails and Shutdown is not called: it ends on every schedule of the handler threads' rounds,
  -- each taken as a whole between two messages, and no message is lost, doubled or made up: for every weight
  -- of messages, what ClientMessageHandler has been called with and what the buffers hold together has
  -- grown by the messages that the user wanted. The fuel exceeds the number of messages that come.
  pub receive_loop_keeps :
      (ms : List (Bytes × Bytes)) (fuel : ℕ) (source message : Bytes) (sv : Server World)
      (w : World)
      → length ms < fuel
      → coming w ≡ ms
      → sv.udp_recv ≡ recv
      → sv.server_bufer_type ≡ queue
      → 1 ≤ length sv.buffers
      → (sv' : Server World) × (w' : World) × (receive_loop host fuel source message sv w
          ≡ done (sv', w'))
        × ((f : Bytes → ℕ)
            → weigh f (handled w') + total f sv'.buffers
              ≡ (weigh f (handled w) + total f sv.buffers) + weigh f (wanted_of wants ms))
  unfolding receive_loop
  receive_loop_keeps ms zero source message sv w enough e r kind some_thread = absurd (omega arith)
  receive_loop_keeps [] (suc fuel) source message sv w enough e r kind some_thread =
      let (res, w', p, h, s) = recv_end sv.udp_server_socket source message w e in
      (sv, w', rw (receive_loop, r, p, s) refl, λ f. omega (arith, ap (weigh f) h))
  receive_loop_keeps ((address, m) ∷ ms) (suc fuel) source message sv w enough e r kind
        some_thread =
      let (w₁, p, c, h, s) = recv_next sv.udp_server_socket source message address m ms w e in
      let (c', h', l) = put_keeps address m sv w₁ kind some_thread in
      let (same, same_kind) = put_stays address m sv w₁ in
      let now : sv.udp_recv sv.udp_server_socket source message w ≡ done ((true, address, m), w₁) =
        ap
          (λ (g : Option ℕ → Bytes → Bytes → World → Run ((Bool × Bytes × Bytes) × World)).
            g sv.udp_server_socket source message w)
          r
        ∙ p in
      let (sv', w', q, k) =
        receive_loop_keeps ms fuel address m (put host address m sv w₁).0
          (put host address m sv w₁).1 (omega arith) (c' ∙ c) (same ∙ r) (same_kind ∙ kind)
          (omega (arith, l)) in
      (
        sv',
        w',
        receive_loop-message fuel source message address m sv w w₁ now s ∙ q,
        λ f. omega (
          arith,
          k f,
          h' f,
          ap (weigh f) h,
          weigh-append f (message_if (wants m address) m) (wanted_of wants ms),
        ),
      )
