-- ===== src/TcpServer/Accepting/Closing.antt =====
-- The sockets that `Run` and the threads of the clients close, and the end of its waiting for them.
use easy_network.Base.{
  ℕ, ◌≡◌, refl, sym, ap, ap₂, ◌∙◌, Bool, true, false, none, some, List, [], ◌∷◌, ◌++◌, append_assoc,
  append-nil, map, Bytes, done, if◌then◌else◌,
}
use easy_network.TcpServer.{
  SocketOption, Event, Server, Host, disconnected, find_socket, insert_socket, erase_socket,
  set_options, close_all, disconnect_all_connected_clients,
}
use easy_network.TcpServer.Accepting.{
  Listening, client_leaves, wait_while_all_clients_disconnect, shutdown_closes, close_down,
}

-- `coming` are the sockets that `accept` will return before it fails, `closed` the sockets that have been closed.
pub record IsListening {World : Type 0} (host : Host World) (os : Listening World) : Type 0 where
  pub coming : World → List ℕ
  pub closed : World → List ℕ
  pub accept_next :
      (l s : ℕ) (rest : List ℕ) (w : World)
      → coming w ≡ s ∷ rest
      → ((os.accept_on l w).0 ≡ some s)
        × (coming (os.accept_on l w).1 ≡ rest)
        × (closed (os.accept_on l w).1 ≡ closed w)
  pub accept_end :
      (l : ℕ) (w : World)
      → coming w ≡ []
      → ((os.accept_on l w).0 ≡ none) × (closed (os.accept_on l w).1 ≡ closed w)
  pub closes : (s : ℕ) (w : World) → closed (host.close_socket s w) ≡ closed w ++ (s ∷ [])
  pub invalid_keeps : (w : World) → closed (os.close_invalid w) ≡ closed w
  pub disconnect_keeps : (s : ℕ) (w : World) → closed (host.on_client_disconnect s w) ≡ closed w
  pub option_keeps :
      (s : ℕ) (o : SocketOption) (w : World)
      → (coming (host.set_option s o w) ≡ coming w) × (closed (host.set_option s o w) ≡ closed w)
  pub open_keeps :
      (w : World)
      → (coming (os.open_socket w).1 ≡ coming w) × (closed (os.open_socket w).1 ≡ closed w)
  pub bind_keeps :
      (l : ℕ) (ip : Bytes) (port : ℕ) (w : World)
      → (coming (os.bind_socket l ip port w).1 ≡ coming w)
        × (closed (os.bind_socket l ip port w).1 ≡ closed w)
  pub listen_keeps :
      (l : ℕ) (w : World)
      → (coming (os.listen_on l w).1 ≡ coming w) × (closed (os.listen_on l w).1 ≡ closed w)

-- The set after all the sockets were inserted.
abbrev pub insert_all : List ℕ → List ℕ → List ℕ
insert_all [] cs = cs
insert_all (s ∷ ss) cs = insert_all ss (insert_socket s cs)

-- The clients of the set leave it one at a time, until none is left.
abbrev pub Leave : List ℕ → List ℕ → Type 0
Leave [] [] = Unit
Leave [] (c ∷ cs) = ⊥
Leave (s ∷ ss) cs = (find_socket s cs ≡ true) × Leave ss (erase_socket s cs)

module _ {World : Type 0} (host : Host World) (os : Listening World)
    (net : IsListening host os) where
  open net use {
    coming, closed, accept_next, accept_end, closes, invalid_keeps, disconnect_keeps, option_keeps,
    open_keeps, bind_keeps, listen_keeps,
  }

  pub set_options-keeps :
      (s : ℕ) (o : List SocketOption) (w : World)
      → (coming (set_options host s o w) ≡ coming w) × (closed (set_options host s o w) ≡ closed w)
  unfolding set_options
  set_options-keeps s [] w = (refl, refl)
  set_options-keeps s (o ∷ os') w =
      let (p, q) = set_options-keeps s os' (host.set_option s o w) in
      let (p', q') = option_keeps s o w in (p ∙ p', q ∙ q')

  pub closed-close_all : (ss : List ℕ) (w : World) → closed (close_all host ss w) ≡ closed w ++ ss
  unfolding close_all
  closed-close_all [] w = sym (append-nil (closed w))
  closed-close_all (s ∷ ss) w =
      closed-close_all ss (host.close_socket s w)
      ∙ ap (λ (t : List ℕ). t ++ ss) (closes s w)
      ∙ append_assoc (closed w) (s ∷ []) ss

  -- The server after the clients have left.
  abbrev pub left : List ℕ → Server World → Server World
  left ss sv = record sv { client_sockets = []; events = sv.events ++ map disconnected ss }

  nobody :
      (ss : List ℕ) (sv : Server World) (w : World)
      → sv.client_sockets ≡ []
      → wait_while_all_clients_disconnect host os ss sv w ≡ done (sv, w)
  unfolding wait_while_all_clients_disconnect
  nobody [] sv w e = simp (wait_while_all_clients_disconnect, e) refl
  nobody (s ∷ ss) sv w e = simp (wait_while_all_clients_disconnect, e) refl

  somebody :
      (s : ℕ) (ss : List ℕ) (c : ℕ) (cs : List ℕ) (sv : Server World) (w : World)
      → sv.client_sockets ≡ c ∷ cs
      → wait_while_all_clients_disconnect host os (s ∷ ss) sv w
        ≡ wait_while_all_clients_disconnect host os ss
            (client_leaves host os s sv w).0
            (client_leaves host os s sv w).1
  unfolding wait_while_all_clients_disconnect
  somebody s ss c cs sv w e = simp (wait_while_all_clients_disconnect, e) refl

  -- The clients leave, and the loop that waits for it ends.
  pub waits :
      (ss cs : List ℕ) (sv : Server World) (w : World)
      → Leave ss cs
      → sv.client_sockets ≡ cs
      → (w' : World) × (wait_while_all_clients_disconnect host os ss sv w ≡ done (left ss sv, w'))
        × (closed w' ≡ closed w ++ ss)
  unfolding find_socket client_leaves
  waits [] [] sv w leave e = (
    w,
    nobody [] sv w e
        ∙ ap₂
            (λ (cs : List ℕ) (t : List Event).
              done (record sv { client_sockets = cs; events = t }, w))
            e (sym (append-nil sv.events)),
    sym (append-nil (closed w)),
  )
  waits [] (c ∷ cs) sv w leave e = absurd leave
  waits (s ∷ ss) [] sv w (member, leave) e = cc
  waits (s ∷ ss) (c ∷ cs) sv w (member, leave) e =
      let (sv', w₁) = client_leaves host os s sv w in
      let (w', q, u) = waits ss (erase_socket s (c ∷ cs)) sv' w₁ leave (ap (erase_socket s) e) in
      (
        w',
        somebody s ss c cs sv w e
            ∙ q
            ∙ ap (λ (t : List Event). done (record sv { client_sockets = []; events = t }, w'))
                (append_assoc sv.events (disconnected s ∷ []) (map disconnected ss)),
        u
            ∙ ap (λ (t : List ℕ). t ++ ss)
                (closes s (host.on_client_disconnect s w)
                  ∙ ap (λ (t : List ℕ). t ++ (s ∷ [])) (disconnect_keeps s w))
            ∙ append_assoc (closed w) (s ∷ []) ss,
      )

  pub closed-shutdown :
      (l : ℕ) (w : World)
      → closed (shutdown_closes host os l w)
        ≡ closed w ++ (if os.shutdown_first then l ∷ [] else [])
  unfolding shutdown_closes
  closed-shutdown l w = by_order os.shutdown_first
    where
      by_order :
          (b : Bool)
          → closed (if b then host.close_socket l w else w) ≡ closed w ++ (if b then l ∷ [] else [])
      by_order true = closes l w
      by_order false = sym (append-nil (closed w))

  pub closed-close_down :
      (l : ℕ) (sv : Server World) (w : World)
      → closed (close_down host os l none sv w).1 ≡ closed w ++ (sv.client_sockets ++ (l ∷ []))
  unfolding close_down disconnect_all_connected_clients
  closed-close_down l sv w =
      closes l (os.close_invalid (close_all host sv.client_sockets w))
      ∙ ap (λ (t : List ℕ). t ++ (l ∷ []))
          (invalid_keeps (close_all host sv.client_sockets w)
            ∙ closed-close_all sv.client_sockets w)
      ∙ append_assoc (closed w) sv.client_sockets (l ∷ [])
