-- ===== src/Http/Recv.antt =====
-- `HTTP_Recv` on a stream.
use easy_network.Base.{
  ℕ, zero, suc, ◌+◌, ◌-◌, ◌≤◌, ◌≡◌, refl, ap, ◌∙◌, true, false, none, some, [], ◌∷◌, ◌++◌, arith,
  append_assoc, append-nil, Bytes, length, length-append, take, take-append,
}
use easy_network.Net.{Sockets, IsStream, recv_one}
use easy_network.Text.Match.{strip}
use easy_network.Text.Parts.{Free}
use easy_network.Http.{request_end, is_request_end, recv_loop, http_recv}

-- Four bytes that are not the end of a request do not end the loop.
no_end :
    (message u : Bytes) (b second third fourth : ℕ)
    → strip request_end (fourth ∷ third ∷ second ∷ b ∷ u) ≡ none
    → is_request_end message b second third fourth ≡ false
unfolding strip
no_end message u b second third fourth h = ground arith

abbrev with_end : Bytes → Bytes
with_end m = (((m ++ (13 ∷ [])) ++ (10 ∷ [])) ++ (13 ∷ [])) ++ (10 ∷ [])

with_end_lem : (m : Bytes) → with_end m ≡ m ++ request_end
with_end_lem m =
    append_assoc ((m ++ (13 ∷ [])) ++ (10 ∷ [])) (13 ∷ []) (10 ∷ [])
    ∙ append_assoc (m ++ (13 ∷ [])) (10 ∷ []) (13 ∷ 10 ∷ [])
    ∙ append_assoc m (13 ∷ []) (10 ∷ 13 ∷ 10 ∷ [])

length-four : (m : Bytes) → length (((m ++ (13 ∷ [])) ++ (10 ∷ [])) ++ (13 ∷ [])) ≡ length m + 3
length-four m = omega (
  arith,
  length-append ((m ++ (13 ∷ [])) ++ (10 ∷ [])) (13 ∷ []),
  length-append (m ++ (13 ∷ [])) (10 ∷ []),
  length-append m (13 ∷ []),
)

-- The four calls of `pop_back`.
cut : (m : Bytes) → take (length (with_end m) - 4) (with_end m) ≡ m
cut m =
    let four : length (m ++ request_end) - 4 ≡ length m =
      omega (arith, length-append m request_end) in
    rw (with_end_lem m, four) (take-append m request_end)

module _ (net : Sockets) {from to : ℕ} (s : IsStream net from to) where
  open s use {unread}

  goes_on :
      (fuel : ℕ) (message u rest : Bytes) (b second third fourth : ℕ) (w : net.World)
      → unread w ≡ b ∷ rest
      → strip request_end (fourth ∷ third ∷ second ∷ b ∷ u) ≡ none
      → recv_loop net (suc fuel) to message second third fourth w
        ≡ recv_loop net fuel to (message ++ (b ∷ [])) b second third (net.recv to 1 w).1
  unfolding recv_loop
  goes_on fuel message u rest b second third fourth w e h =
      ground (
        arith,
        (recv_one net s w b rest e).0,
        no_end (message ++ (b ∷ [])) u b second third fourth h,
      )

  ends :
      (fuel : ℕ) (message rest : Bytes) (w : net.World)
      → 4 ≤ length message
      → unread w ≡ 10 ∷ rest
      → recv_loop net (suc fuel) to message 13 10 13 w
        ≡ some (
          (true, take (length (message ++ (10 ∷ [])) - 4) (message ++ (10 ∷ []))),
          (net.recv to 1 w).1,
        )
  unfolding recv_loop
  ends fuel message rest w h e =
      ground (arith, (recv_one net s w 10 rest e).0, length-append message (10 ∷ []))

  -- The four bytes of the end, after at least one byte before them.
  walk_end :
      (rest message : Bytes) (second third fourth more : ℕ) (w : net.World)
      → Free request_end (fourth ∷ third ∷ second ∷ []) request_end
      → 1 ≤ length message
      → unread w ≡ request_end ++ rest
      → (w' : net.World) × (recv_loop net
            (suc (suc (suc (suc more))))
            to
            message
            second
            third
            fourth
            w
          ≡ some ((true, message), w'))
        × (unread w' ≡ rest)
  walk_end rest message second third fourth more w (h₁, (h₂, (h₃, x))) some_byte e =
      let w₁ = (net.recv to 1 w).1 in
      let w₂ = (net.recv to 1 w₁).1 in
      let w₃ = (net.recv to 1 w₂).1 in
      let long = length-four message in
      let e₁ = (recv_one net s w 13 (10 ∷ 13 ∷ 10 ∷ rest) e).1 in
      let e₂ = (recv_one net s w₁ 10 (13 ∷ 10 ∷ rest) e₁).1 in
      let e₃ = (recv_one net s w₂ 13 (10 ∷ rest) e₂).1 in
      (
        (net.recv to 1 w₃).1,
        goes_on (suc (suc (suc more))) message (10 ∷ 13 ∷ 10 ∷ []) (10 ∷ 13 ∷ 10 ∷ rest) 13 second
              third fourth w e h₁
            ∙ goes_on (suc (suc more)) (message ++ (13 ∷ [])) (13 ∷ 10 ∷ []) (13 ∷ 10 ∷ rest) 10 13
                second third w₁ e₁ h₂
            ∙ goes_on (suc more) ((message ++ (13 ∷ [])) ++ (10 ∷ [])) (10 ∷ []) (10 ∷ rest) 13 10
                13 second w₂ e₂ h₃
            ∙ ends more (((message ++ (13 ∷ [])) ++ (10 ∷ [])) ++ (13 ∷ [])) rest w₃
                (omega (arith, long)) e₃
            ∙ ap (λ (t : Bytes). some ((true, t), (net.recv to 1 w₃).1)) (cut message),
        (recv_one net s w₃ 10 rest e₃).1,
      )

  -- The bytes before the end of the request, one after the other.
  walk :
      (m rest message : Bytes) (second third fourth fuel more : ℕ) (w : net.World)
      → Free request_end (fourth ∷ third ∷ second ∷ m) request_end
      → 1 ≤ length message + length m
      → unread w ≡ m ++ (request_end ++ rest)
      → fuel ≡ length m + 4 + more
      → (w' : net.World) × (recv_loop net fuel to message second third fourth w
          ≡ some ((true, message ++ m), w'))
        × (unread w' ≡ rest)
  walk [] rest message second third fourth fuel more w free some_byte e f =
      let four : fuel ≡ suc (suc (suc (suc more))) = omega arith in
      rw (four, append-nil message)
        (walk_end rest message second third fourth more w free (omega arith) e)
  walk (b ∷ m) rest message second third fourth zero more w free some_byte e f =
      absurd (omega arith)
  walk (b ∷ m) rest message second third fourth (suc fuel) more w (h, free) some_byte e f =
      let left = m ++ (request_end ++ rest) in
      let (w', p, q) =
        walk m rest (message ++ (b ∷ [])) b second third fuel more (net.recv to 1 w).1 free
          (omega (arith, length-append message (b ∷ []))) (recv_one net s w b left e).1
          (omega arith) in
      (
        w',
        goes_on fuel message (m ++ request_end) left b second third fourth w e h
            ∙ p
            ∙ ap (λ (t : Bytes). some ((true, t), w')) (append_assoc message (b ∷ []) m),
        q,
      )

  -- `HTTP_Recv` on a stream that starts with a request and the empty line that ends it returns true and
  -- the request without that line, and leaves what follows unread; for a request of at least one byte in which
  -- no empty line ends earlier, and one round of the loop for each byte is enough.
  pub http_recv_request :
      (fuel : ℕ) (m rest : Bytes) (w : net.World)
      → 1 ≤ length m
      → Free request_end m request_end
      → length m + 4 ≤ fuel
      → unread w ≡ m ++ (request_end ++ rest)
      → (w' : net.World) × (http_recv net fuel to w ≡ some ((true, m), w')) × (unread w' ≡ rest)
  unfolding http_recv strip
  http_recv_request fuel m rest w some_byte free enough e =
      walk m rest [] 0 0 0 fuel (fuel - length m - 4) w (refl, (refl, (refl, free))) (omega arith) e
        (omega arith)
