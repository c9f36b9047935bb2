-- ===== src/TcpServer/Clients.antt =====
-- The set of the connected sockets, and the sending to one of them.
use easy_network.Base.{
  ℕ, ◌<◌, ◌^◌, ◌≡◌, refl, true, false, List, [], ◌∷◌, ◌++◌, arith, Bytes, length, All, Bool-cases,
  inl, inr,
}
use easy_network.Net.{Sockets, IsStream}
use easy_network.Tcp.{Limits, default_tcp_send, msg_buf}
use easy_network.Tcp.Send.{default_tcp_send_sound}
use easy_network.TcpServer.{Server, Host, find_socket, insert_socket, erase_socket, send_to_client}

-- The order of a std::set: each element is greater than the ones before it.
abbrev pub IsAscending : List ℕ → Type 0
IsAscending [] = Unit
IsAscending (c ∷ cs) = All (λ d. c < d) cs × IsAscending cs

All-below : (s c : ℕ) (cs : List ℕ) → s < c → All (λ d. c < d) cs → All (λ d. s < d) cs
All-below s c [] h a = tt
All-below s c (d ∷ cs) h (hd, a) = (omega arith, All-below s c cs h a)

All-insert_socket :
    (b s : ℕ) (cs : List ℕ) → b < s → All (λ d. b < d) cs → All (λ d. b < d) (insert_socket s cs)
unfolding insert_socket
All-insert_socket b s [] h a = (h, tt)
All-insert_socket b s (c ∷ cs) h (hc, a) = ground (arith, All-insert_socket b s cs h a)

insert_socket-IsAscending :
    (s : ℕ) (cs : List ℕ) → IsAscending cs → IsAscending (insert_socket s cs)
unfolding insert_socket
insert_socket-IsAscending s [] h = (tt, tt)
insert_socket-IsAscending s (c ∷ cs) (a, h) =
    ground (arith, insert_socket-IsAscending s cs h, All-insert_socket c s cs, All-below s c cs)

find-insert_socket : (s : ℕ) (cs : List ℕ) → find_socket s (insert_socket s cs) ≡ true
unfolding insert_socket find_socket
find-insert_socket s [] = ground arith
find-insert_socket s (c ∷ cs) = ground (arith, find-insert_socket s cs)

erase-insert_socket :
    (s : ℕ) (cs : List ℕ) → find_socket s cs ≡ false → erase_socket s (insert_socket s cs) ≡ cs
unfolding insert_socket erase_socket find_socket
erase-insert_socket s [] h = ground arith
erase-insert_socket s (c ∷ cs) h = ground (arith, erase-insert_socket s cs)

-- The life of a connection in the set of the clients: the new socket is found, the set keeps its order,
-- and when the socket is erased at the end the set is again what it was, if the socket was not in it.
pub client_sockets_life :
    (s : ℕ) (cs : List ℕ)
    → IsAscending cs
    → find_socket s cs ≡ false
    → (find_socket s (insert_socket s cs) ≡ true)
      × IsAscending (insert_socket s cs)
      × (erase_socket s (insert_socket s cs) ≡ cs)
client_sockets_life s cs h new =
    (find-insert_socket s cs, insert_socket-IsAscending s cs h, erase-insert_socket s cs new)

-- `SendToClient` with `Default_TCP_Send`: if it returns true, the socket is a client and its peer can
-- read the whole message behind what it had not read; for a socket that is no client it returns false
-- and nothing is sent. For messages below 2^62 bytes.
pub send_to_client_arrives :
    (net : Sockets) {sock to : ℕ} (s : IsStream net sock to) (host : Host net.World)
    (limits : Limits) (sv : Server net.World) (message : Bytes) (w : net.World)
    → sv.tcp_send ≡ default_tcp_send net limits
    → length message < 2 ^ 62
    → ((send_to_client host sock message sv w).0 ≡ true
        → (find_socket sock sv.client_sockets ≡ true)
          × (s.unread (send_to_client host sock message sv w).1 ≡ s.unread w ++ msg_buf message))
      × (find_socket sock sv.client_sockets ≡ false
          → send_to_client host sock message sv w ≡ (false, w))
unfolding send_to_client
send_to_client_arrives net {sock} s host limits sv message w e small =
    elim (Bool-cases (find_socket sock sv.client_sockets)) [
      | inl client ↦
          rw (client, e)
            ((λ ok. (refl, (default_tcp_send_sound net s limits message w small ok).0)), (λ x. cc))
      | inr stranger ↦ rw stranger ((λ x. cc), (λ x. refl))
    ]
