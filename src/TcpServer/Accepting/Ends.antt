-- ===== src/TcpServer/Accepting/Ends.antt =====
-- `Run` from its start to the `Shutdown` of another thread.
use easy_network.Base.{
  ℕ, zero, suc, ◌+◌, ◌≤◌, ◌<◌, ◌≡◌, refl, ap, ◌∙◌, Bool, true, false, none, some, List, [], ◌∷◌,
  ◌++◌, append_assoc, map, arith, length, done, if◌then◌else◌,
}
use easy_network.TcpServer.{
  Server, Host, disconnected, insert_socket, set_options, accept_connection,
}
use easy_network.TcpServer.Accepting.{
  Listening, run_over, shutdown_closes, close_down, accept_loop, run_on, run,
}
use easy_network.TcpServer.Accepting.Closing.{
  IsListening, insert_all, Leave, set_options-keeps, waits, closed-shutdown, closed-close_down,
}

if-false : {A : Type 0} (b : Bool) (x y : A) → b ≡ false → (if b then x else y) ≡ y
if-false b x y e = rw e refl

appended :
    (xs first cs : List ℕ) (l : ℕ) (ss : List ℕ)
    → ((xs ++ first) ++ (cs ++ (l ∷ []))) ++ ss ≡ xs ++ (first ++ (cs ++ (l ∷ ss)))
appended xs first cs l ss = simp append_assoc refl

module _ {World : Type 0} (host : Host World) (os : Listening World)
    (net : IsListening host os) where
  open net use {
    coming, closed, accept_next, accept_end, closes, invalid_keeps, disconnect_keeps, option_keeps,
    open_keeps, bind_keeps, listen_keeps,
  }

  -- The server at the end of `Run`: the clients have left.
  abbrev pub over : Server World → Server World
  over sv = record sv {
    is_shutdown = false;
    server_listen_socket = none;
    client_sockets = [];
    events = sv.events ++ map disconnected os.leaving;
  }

  -- The sockets that are closed while `Run` ends, in order: by a Shutdown that comes first, by `Run`, and by
  -- the threads of the clients.
  abbrev pub closed_at_end : ℕ → List ℕ → List ℕ
  closed_at_end l cs = (if os.shutdown_first then l ∷ [] else []) ++ (cs ++ (l ∷ os.leaving))

  -- The last round of the loop.
  last_round :
      (fuel i l : ℕ) (sv : Server World) (w : World)
      → os.shut i ≡ true
      → coming w ≡ []
      → Leave os.leaving sv.client_sockets
      → (w' : World) × (accept_loop host os (suc fuel) i l sv w ≡ done (run_over (over sv) w'))
        × (closed w' ≡ closed w ++ closed_at_end l sv.client_sockets)
  unfolding accept_loop close_down
  last_round fuel i l sv w now e leave =
      let (p, q) = accept_end l w e in
      let v = (os.accept_on l w).1 in
      let v₁ = shutdown_closes host os l v in
      let (down, v₂) = close_down host os l none sv v₁ in
      let (w', r, u) = waits host os net os.leaving sv.client_sockets down v₂ leave refl in
      let first = if os.shutdown_first then l ∷ [] else [] in
      (
        w',
        rw (accept_loop, p, now, r) refl,
        u
            ∙ ap (λ (t : List ℕ). t ++ os.leaving)
                (closed-close_down host os net l sv v₁
                  ∙ ap (λ (t : List ℕ). t ++ (sv.client_sockets ++ (l ∷ [])))
                      (closed-shutdown host os net l v ∙ ap (λ (t : List ℕ). t ++ first) q))
            ∙ appended (closed w) first sv.client_sockets l os.leaving,
      )

  accept_loop-ends :
      (socks : List ℕ) (fuel i l : ℕ) (sv : Server World) (w : World)
      → length socks < fuel
      → ((j : ℕ) → i ≤ j → j < i + length socks → os.shut j ≡ false)
      → os.shut (i + length socks) ≡ true
      → coming w ≡ socks
      → Leave os.leaving (insert_all socks sv.client_sockets)
      → (w' : World) × (accept_loop host os fuel i l sv w ≡ done (run_over (over sv) w'))
        × (closed w' ≡ closed w ++ closed_at_end l (insert_all socks sv.client_sockets))
  unfolding accept_loop accept_connection
  accept_loop-ends socks zero i l sv w enough opened shut e leave = absurd (omega arith)
  accept_loop-ends [] (suc fuel) i l sv w enough opened shut e leave =
      last_round fuel i l sv w (ap os.shut (omega arith) ∙ shut) e leave
  accept_loop-ends (s ∷ socks) (suc fuel) i l sv w enough opened shut e leave =
      let (p, c, q) = accept_next l s socks w e in
      let w₁ = (os.accept_on l w).1 in
      let (c', q') = set_options-keeps host os net s sv.socket_options_after_connection w₁ in
      let now : os.shut i ≡ false = opened i (omega arith) (omega arith) in
      let (w', r, u) =
        accept_loop-ends socks fuel (i + 1) l
          (record sv { client_sockets = insert_socket s sv.client_sockets })
          (set_options host s sv.socket_options_after_connection w₁) (omega arith)
          (λ j h h'. opened j (omega arith) (omega arith)) (ap os.shut (omega arith) ∙ shut)
          (c' ∙ c) leave in
      (
        w',
        rw (accept_loop, p, now) r,
        u
            ∙ ap (λ (t : List ℕ). t ++ closed_at_end l (insert_all (s ∷ socks) sv.client_sockets))
                (q' ∙ q),
      )

  run-run_on :
      (fuel l : ℕ) (sv : Server World) (w : World)
      → sv.is_shutdown ≡ false
      → (os.open_socket w).0 ≡ some l
      → run host os fuel sv w ≡ run_on host os fuel l sv (os.open_socket w).1
  unfolding run
  run-run_on fuel l sv w fresh opens = rw (run, opens) (if-false sv.is_shutdown _ _ fresh)

  -- `Run` where the socket `l` can be made, bound and listened on, the connections `socks` come, and Shutdown is
  -- called before the call of `accept` after them; no client leaves before that, and then the thread of
  -- each one ends, in any order. It returns. The sockets that have been closed are the listening one, if
  -- Shutdown came to it first, then by `Run` each client's and the listening one, and then by their threads
  -- each client's again; and no other. OnClientDisconnect was called once for each client, and the server
  -- can run again: no socket, no client, IsShutdown reset. The fuel exceeds the number of connections.
  pub run-ends :
      (socks : List ℕ) (fuel l : ℕ) (sv : Server World) (w : World)
      → length socks < fuel
      → sv.is_shutdown ≡ false
      → (os.open_socket w).0 ≡ some l
      → ((v : World) → (os.bind_socket l sv.ip_address sv.port v).0 ≡ true)
      → ((v : World) → (os.listen_on l v).0 ≡ true)
      → ((j : ℕ) → j < length socks → os.shut j ≡ false)
      → os.shut (length socks) ≡ true
      → coming w ≡ socks
      → Leave os.leaving (insert_all socks sv.client_sockets)
      → (w' : World) × (run host os fuel sv w ≡ done (run_over (over sv) w'))
        × (closed w' ≡ closed w ++ closed_at_end l (insert_all socks sv.client_sockets))
  unfolding run_on
  run-ends socks fuel l sv w enough fresh opens binds listens opened shut e leave =
      let w₁ = (os.open_socket w).1 in
      let (c₁, q₁) = open_keeps w in
      let w₂ = set_options host l sv.accept_socket_options w₁ in
      let (c₂, q₂) = set_options-keeps host os net l sv.accept_socket_options w₁ in
      let w₃ = (os.bind_socket l sv.ip_address sv.port w₂).1 in
      let (c₃, q₃) = bind_keeps l sv.ip_address sv.port w₂ in
      let (c₄, q₄) = listen_keeps l w₃ in
      let (w', r, u) =
        accept_loop-ends socks fuel 0 l (record sv { server_listen_socket = some l })
          (os.listen_on l w₃).1 enough (λ j h h'. opened j (omega arith))
          (ap os.shut (omega arith) ∙ shut) (c₄ ∙ c₃ ∙ c₂ ∙ c₁ ∙ e) leave in
      (
        w',
        run-run_on fuel l sv w fresh opens ∙ rw (run_on, binds w₂, listens w₃) r,
        u
            ∙ ap (λ (t : List ℕ). t ++ closed_at_end l (insert_all socks sv.client_sockets))
                (q₄ ∙ q₃ ∙ q₂ ∙ q₁),
      )
