-- ===== src/Tcp/Recv.antt =====
-- What `Default_TCP_Recv` returns on whole messages, on truncated ones, and that it ends.
use easy_network.Base.{
  ℕ, zero, suc, ◌^◌, ◌≤◌, ◌<◌, ◌≡◌, refl, ap, ◌∙◌, Bool, true, false, Option, none, some, [], ◌∷◌,
  ◌++◌, arith, Bytes, length, length-append, take-append, drop-append, inl, inr,
}
use easy_network.Net.{Sockets, IsStream, got}
use easy_network.Tcp.{Limits, read_prefix, read_body, default_tcp_recv, message_size}
use easy_network.Tcp.Prefix.{prefix, prefix_format, message_size-prefix}
use easy_network.Tcp.Loop.{RecvResult-cases, read_prefix-IsMarked, read_prefix_total, read_end}

module _ (net : Sockets) {from to : ℕ} (s : IsStream net from to) where
  open s use {unread, recv_full, recv_short}

  after_prefix :
      (fuel n : ℕ) (limits : Limits) (old rest : Bytes) (w : net.World)
      → n < 2 ^ 64
      → 10 ≤ fuel
      → unread w ≡ prefix n ++ rest
      → (w' : net.World) × (default_tcp_recv net fuel limits to old w
          ≡ some (read_body net limits to old n w'))
        × (unread w' ≡ rest)
  unfolding default_tcp_recv
  after_prefix fuel n limits old rest w small enough e =
      let (marked, spells, short) = prefix_format n small in
      let (w', p, q) =
        read_prefix-IsMarked net s (prefix n) rest [] fuel w marked e (omega arith) in
      (w', ground (arith, p, message_size-prefix n small), q)

  body_full :
      (limits : Limits) (old message rest : Bytes) (w : net.World)
      → length message ≤ limits.max_tcp_message_size
      → length message < 2 ^ 31
      → unread w ≡ message ++ rest
      → (w' : net.World) × (read_body net limits to old (length message) w ≡ ((true, message), w'))
        × (unread w' ≡ rest)
  unfolding read_body
  body_full limits old [] rest w fits small e = (w, refl, e)
  body_full limits old (b ∷ bs) rest w fits small e =
      let m = b ∷ bs in
      let (p, q) = recv_full (length m) w (omega (arith, ap length e, length-append m rest)) in
      let p' : (net.recv to (length m) w).0 ≡ got m = rw (e, take-append m rest) at p in
      let q' : unread (net.recv to (length m) w).1 ≡ rest = rw (e, drop-append m rest) at q in
      ((net.recv to (length m) w).1, ground (arith, p'), q')

  -- `Default_TCP_Recv` on a stream that starts with a whole message returns true and that message,
  -- whatever the out-parameter held, and leaves what follows unread; for messages within the limit and
  -- below 2^31 bytes, and ten rounds of the prefix loop are enough.
  pub default_tcp_recv_whole :
      (fuel : ℕ) (limits : Limits) (old message rest : Bytes) (w : net.World)
      → 10 ≤ fuel
      → length message ≤ limits.max_tcp_message_size
      → length message < 2 ^ 31
      → unread w ≡ prefix (length message) ++ (message ++ rest)
      → (w' : net.World) × (default_tcp_recv net fuel limits to old w ≡ some ((true, message), w'))
        × (unread w' ≡ rest)
  default_tcp_recv_whole fuel limits old message rest w enough fits small e =
      let (w₁, p, q) =
        after_prefix fuel (length message) limits old (message ++ rest) w (omega arith) enough e in
      let (w₂, p', q') = body_full limits old message rest w₁ fits small q in
      (w₂, p ∙ ap some p', q')

  body_short :
      (n : ℕ) (limits : Limits) (old : Bytes) (w : net.World)
      → n ≤ limits.max_tcp_message_size
      → n < 2 ^ 63
      → length (unread w) < n
      → read_body net limits to old n w ≡ ((false, []), net.close to (net.recv to n w).1)
  unfolding read_body
  body_short n limits old w fits small h = elim (RecvResult-cases (net.recv to n w).0) [
    | inl (bs, p) ↦ let short : length bs < n = rw p at (recv_short n w h) in ground (arith, p)
    | inr p ↦ ground (arith, p)
  ]

  -- A stream that ends inside the body of a message gives false, an empty message and a closed socket.
  pub default_tcp_recv_truncated :
      (fuel n : ℕ) (limits : Limits) (old part : Bytes) (w : net.World)
      → 10 ≤ fuel
      → n ≤ limits.max_tcp_message_size
      → n < 2 ^ 63
      → length part < n
      → unread w ≡ prefix n ++ part
      → (w' : net.World) × (default_tcp_recv net fuel limits to old w
          ≡ some ((false, []), net.close to w'))
  default_tcp_recv_truncated fuel n limits old part w enough fits small h e =
      let (w₁, p, q) = after_prefix fuel n limits old part w (omega arith) enough e in
      (
        (net.recv to n w₁).1,
        p ∙ ap some (body_short n limits old w₁ fits small (omega (arith, ap length q))),
      )

  -- An announced length over the limit gives false at once: the body stays unread, the socket stays
  -- open and the out-parameter keeps what it held.
  pub default_tcp_recv_too_long :
      (fuel n : ℕ) (limits : Limits) (old rest : Bytes) (w : net.World)
      → 10 ≤ fuel
      → limits.max_tcp_message_size < n
      → n < 2 ^ 64
      → unread w ≡ prefix n ++ rest
      → (w' : net.World) × (default_tcp_recv net fuel limits to old w ≡ some ((false, old), w'))
        × (unread w' ≡ rest)
  unfolding read_body
  default_tcp_recv_too_long fuel n limits old rest w enough long small e =
      let (w₁, p, q) = after_prefix fuel n limits old rest w small enough e in
      (w₁, ground (arith, p), q)

  -- `Default_TCP_Recv` ends on every stream, well formed or not: fuel above the number of unread bytes
  -- is enough.
  pub default_tcp_recv_total :
      (fuel : ℕ) (limits : Limits) (old : Bytes) (w : net.World)
      → length (unread w) < fuel
      → (r : (Bool × Bytes) × net.World) × (default_tcp_recv net fuel limits to old w ≡ some r)
  default_tcp_recv_total fuel limits old w h =
      let (r, e) = read_prefix_total net s fuel [] w h in recv_after r e
    where
      recv_after :
          (r : Option Bytes × net.World)
          → read_prefix net fuel to [] w ≡ some r
          → (r' : (Bool × Bytes) × net.World) × (default_tcp_recv net fuel limits to old w
              ≡ some r')
      recv_after (none, w') e = (((false, []), w'), unfold default_tcp_recv in ground (arith, e))
      recv_after (some bytes, w') e = (
        read_body net limits to old (message_size bytes) w',
        unfold default_tcp_recv in ground (arith, e),
      )

  -- At the end of the stream.
  pub default_tcp_recv_end :
      (fuel : ℕ) (limits : Limits) (old : Bytes) (w : net.World)
      → 0 < fuel
      → unread w ≡ []
      → (w' : net.World) × (default_tcp_recv net fuel limits to old w ≡ some ((false, []), w'))
  unfolding default_tcp_recv
  default_tcp_recv_end zero limits old w enough e = absurd (omega arith)
  default_tcp_recv_end (suc fuel) limits old w enough e =
      (net.close to (net.recv to 1 w).1, rw (default_tcp_recv, read_end net s fuel [] w e) refl)
