-- ===== src/Tcp/Quiet.antt =====
-- `Default_TCP_Recv` only reads: what every `recv` and `close` of the socket keeps, it keeps.
use easy_network.Base.{
  ℕ, zero, suc, ◌≡◌, refl, Bool, Option, none, some, [], ◌∷◌, ◌++◌, arith, Bytes, inl, inr,
}
use easy_network.Net.{Sockets}
use easy_network.Tcp.{Limits, read_prefix, read_body, default_tcp_recv, message_size}
use easy_network.Tcp.Loop.{RecvResult-cases}

module _ (net : Sockets) (sock : ℕ) (seen : net.World → Bytes)
    (recv_keeps : (n : ℕ) (w : net.World) → seen (net.recv sock n w).1 ≡ seen w)
    (close_keeps : (w : net.World) → seen (net.close sock w) ≡ seen w) where
  read_prefix_keeps :
      (fuel : ℕ) (so_far : Bytes) (w : net.World) (r : Option Bytes) (w' : net.World)
      → read_prefix net fuel sock so_far w ≡ some (r, w')
      → seen w' ≡ seen w
  unfolding read_prefix
  read_prefix_keeps zero so_far w r w' e = cc
  read_prefix_keeps (suc fuel) so_far w r w' e = elim (RecvResult-cases (net.recv sock 1 w).0) [
    | inl ([], p) ↦ ground (arith, p, recv_keeps 1 w, close_keeps (net.recv sock 1 w).1)
    | inl (b ∷ bs, p) ↦ ground (
      arith,
      p,
      recv_keeps 1 w,
      read_prefix_keeps fuel (so_far ++ (b ∷ [])) (net.recv sock 1 w).1 r w',
    )
    | inr p ↦ ground (arith, p, recv_keeps 1 w, close_keeps (net.recv sock 1 w).1)
  ]

  read_body_keeps :
      (limits : Limits) (old : Bytes) (size : ℕ) (w : net.World)
      → seen (read_body net limits sock old size w).1 ≡ seen w
  unfolding read_body
  read_body_keeps limits old size w =
      ground (arith, recv_keeps size w, close_keeps (net.recv sock size w).1)

  pub default_tcp_recv_keeps :
      (fuel : ℕ) (limits : Limits) (old : Bytes) (w : net.World) (r : Bool × Bytes) (w' : net.World)
      → default_tcp_recv net fuel limits sock old w ≡ some (r, w')
      → seen w' ≡ seen w
  default_tcp_recv_keeps fuel limits old w r w' e = go (read_prefix net fuel sock [] w) refl
    where
      go :
          (o : Option (Option Bytes × net.World))
          → read_prefix net fuel sock [] w ≡ o
          → seen w' ≡ seen w
      go none p = unfold default_tcp_recv in ground (arith, e, p)
      go (some (none, w₁)) p =
          unfold default_tcp_recv in ground (arith, e, p, read_prefix_keeps fuel [] w none w₁ p)
      go (some (some bytes, w₁)) p =
          unfold default_tcp_recv in
          ground (
            arith,
            e,
            p,
            read_prefix_keeps fuel [] w (some bytes) w₁ p,
            read_body_keeps limits old (message_size bytes) w₁,
          )
