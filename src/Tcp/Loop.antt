-- ===== src/Tcp/Loop.antt =====
-- The first loop of `Default_TCP_Recv`, which reads the bytes of the length.
use easy_network.Base.{
  ℕ, zero, suc, ◌≤◌, ◌<◌, ◌≡◌, ◌⊎◌, refl, ap, ◌∙◌, true, false, Option, none, some, [], ◌∷◌, ◌++◌,
  arith, append_assoc, Bytes, length, Bool-cases, ◌==◌, inl, inr, bit_and, bit_and_128,
}
use easy_network.Net.{Sockets, IsStream, RecvResult, got, recv_failed, recv_one}
use easy_network.Tcp.{read_prefix}
use easy_network.Tcp.Prefix.{IsMarked}

pub RecvResult-cases : (r : RecvResult) → ((bs : Bytes) × (r ≡ got bs)) ⊎ (r ≡ recv_failed)
RecvResult-cases (got bs) = inl (bs, refl)
RecvResult-cases recv_failed = inr refl

Bytes-cases : (bs : Bytes) → (bs ≡ []) ⊎ ((b : ℕ) × (rest : Bytes) × (bs ≡ b ∷ rest))
Bytes-cases [] = inl refl
Bytes-cases (b ∷ rest) = inr (b, rest, refl)

module _ (net : Sockets) {from to : ℕ} (s : IsStream net from to) where
  open s use {unread, recv_full, recv_short}

  -- One round of the loop at the end of the stream, on a last byte and on an inner byte.
  pub read_end :
      (fuel : ℕ) (so_far : Bytes) (w : net.World)
      → unread w ≡ []
      → read_prefix net (suc fuel) to so_far w ≡ some (none, net.close to (net.recv to 1 w).1)
  unfolding read_prefix
  read_end fuel so_far w e = elim (RecvResult-cases (net.recv to 1 w).0) [
    | inl ([], p) ↦ ground (arith, p)
    | inl (b ∷ bs, p) ↦ absurd (omega (arith, short (b ∷ bs) p))
    | inr p ↦ ground (arith, p)
  ]
    where
      short : (bs : Bytes) → (net.recv to 1 w).0 ≡ got bs → length bs < 1
      short bs p = rw p at (recv_short 1 w (rw e (omega arith)))

  read_last :
      (fuel b : ℕ) (rest so_far : Bytes) (w : net.World)
      → unread w ≡ b ∷ rest
      → (bit_and b 0b10000000 == 0) ≡ true
      → read_prefix net (suc fuel) to so_far w
        ≡ some (some (so_far ++ (b ∷ [])), (net.recv to 1 w).1)
  unfolding read_prefix
  read_last fuel b rest so_far w e h = ground (arith, (recv_one net s w b rest e).0)

  read_inner :
      (fuel b : ℕ) (rest so_far : Bytes) (w : net.World)
      → unread w ≡ b ∷ rest
      → (bit_and b 0b10000000 == 0) ≡ false
      → read_prefix net (suc fuel) to so_far w
        ≡ read_prefix net fuel to (so_far ++ (b ∷ [])) (net.recv to 1 w).1
  unfolding read_prefix
  read_inner fuel b rest so_far w e h = ground (arith, (recv_one net s w b rest e).0)

  pub read_prefix-IsMarked :
      (bs rest so_far : Bytes) (fuel : ℕ) (w : net.World)
      → IsMarked bs
      → unread w ≡ bs ++ rest
      → length bs ≤ fuel
      → (w' : net.World) × (read_prefix net fuel to so_far w ≡ some (some (so_far ++ bs), w'))
        × (unread w' ≡ rest)
  read_prefix-IsMarked [] rest so_far fuel w m e h = absurd m
  read_prefix-IsMarked (b ∷ bs) rest so_far zero w m e h = absurd (omega arith)
  read_prefix-IsMarked (b ∷ []) rest so_far (suc fuel) w m e h = (
    (net.recv to 1 w).1,
    read_last fuel b rest so_far w e (ground (arith, bit_and_128 b (omega arith))),
    (recv_one net s w b rest e).1,
  )
  read_prefix-IsMarked (b ∷ c ∷ bs) rest so_far (suc fuel) w (lo, hi, m) e h =
      let (w', p, q) =
        read_prefix-IsMarked (c ∷ bs) rest (so_far ++ (b ∷ [])) fuel (net.recv to 1 w).1 m
          (recv_one net s w b ((c ∷ bs) ++ rest) e).1 (omega arith) in
      (
        w',
        read_inner fuel b ((c ∷ bs) ++ rest) so_far w e (ground (arith, bit_and_128 b hi))
            ∙ p
            ∙ ap (λ (t : Bytes). some (some t, w')) (append_assoc so_far (b ∷ []) (c ∷ bs)),
        q,
      )

  -- With more fuel than unread bytes the loop ends, whatever the bytes are.
  pub read_prefix_total :
      (fuel : ℕ) (so_far : Bytes) (w : net.World)
      → length (unread w) < fuel
      → (r : Option Bytes × net.World) × (read_prefix net fuel to so_far w ≡ some r)
  read_prefix_total zero so_far w h = absurd (omega arith)
  read_prefix_total (suc fuel) so_far w h = elim (Bytes-cases (unread w)) [
    | inl e ↦ (_, read_end fuel so_far w e)
    | inr (b, rest, e) ↦ elim (Bool-cases (bit_and b 0b10000000 == 0)) [
      | inl last ↦ (_, read_last fuel b rest so_far w e last)
      | inr inner ↦
          let shorter : length (unread (net.recv to 1 w).1) < fuel =
            omega (arith, ap length (recv_one net s w b rest e).1, ap length e) in
          let (r, p) = read_prefix_total fuel (so_far ++ (b ∷ [])) (net.recv to 1 w).1 shorter in
          (r, read_inner fuel b rest so_far w e inner ∙ p)
    ]
  ]
