-- ===== src/Http/Respond/Sends.antt =====
-- What `SendResponce` sends of a file, and of one that is not there.
use easy_network.Base.{
  ℕ, zero, suc, ◌+◌, ◌-◌, ◌*◌, ◌^◌, ◌≤◌, ◌<◌, ◌≡◌, refl, sym, ap, ◌∙◌, true, Option, none, some, [],
  ◌++◌, arith, append_assoc, append-nil, Bytes, length, length-take, length-drop, take, drop,
  take-append, take_all, drop_all, drop-drop, take-append-drop, Bool-cases, inl, inr, ltb,
}
use easy_network.Net.{Sockets, sent, IsStream}
use easy_network.TcpServer.{Server, Host, find_socket, send_to_client}
use easy_network.Http.Respond.{
  chunk_size, file_size, read_file, is_chunk, finished, unfinished, responce_loop, send_chunks,
  send_responce,
}

-- The array, so many times.
abbrev pub copies : ℕ → Bytes → Bytes
copies zero buf = []
copies (suc n) buf = buf ++ copies n buf

module _ (net : Sockets) {sock to : ℕ} (s : IsStream net sock to)
    (takes_all : (bs : Bytes) (w : net.World) → (net.send sock bs w).0 ≡ sent (length bs)) where
  open s use {unread}

  unread-send : (bs : Bytes) (w : net.World) → unread (net.send sock bs w).1 ≡ unread w ++ bs
  unread-send bs w =
      (s.send_takes bs w (length bs) (takes_all bs w)).1
      ∙ ap (λ (t : Bytes). unread w ++ t) (take_all (length bs) bs (omega arith))

  -- One round of the loop.
  round :
      (fuel counter : ℕ) (file : Option Bytes) (buf : Bytes) (w : net.World)
      → counter < file_size file - chunk_size
      → length (read_file file counter chunk_size buf) ≡ chunk_size
      → responce_loop net (suc fuel) sock file counter buf w
        ≡ responce_loop net fuel sock file
            (counter + chunk_size)
            (read_file file counter chunk_size buf)
            (net.send sock (read_file file counter chunk_size buf) w).1
  unfolding responce_loop is_chunk
  round fuel counter file buf w h l =
      ground (arith, takes_all (read_file file counter chunk_size buf) w)

  stop :
      (fuel counter : ℕ) (file : Option Bytes) (buf : Bytes) (w : net.World)
      → file_size file - chunk_size ≤ counter
      → responce_loop net (suc fuel) sock file counter buf w ≡ (finished counter buf, w)
  unfolding responce_loop
  stop fuel counter file buf w h = ground arith

  read_chunk :
      (counter : ℕ) (content buf : Bytes)
      → length buf ≡ chunk_size
      → counter < length content - chunk_size
      → read_file (some content) counter chunk_size buf ≡ take chunk_size (drop counter content)
  unfolding read_file
  read_chunk counter content buf l h =
      let bytes = take chunk_size (drop counter content) in
      let long : length bytes ≡ chunk_size =
        omega (arith, length-take chunk_size (drop counter content), length-drop counter content) in
      ap (λ (t : Bytes). bytes ++ t) (drop_all (length bytes) buf (omega arith)) ∙ append-nil bytes

  -- What the loop leaves to be sent is the rest of the file, at most one chunk.
  loop_sends :
      (fuel counter : ℕ) (content buf : Bytes) (w : net.World)
      → length buf ≡ chunk_size
      → counter ≤ length content
      → length content < counter + chunk_size * fuel
      → (counter' : ℕ) × (buf' : Bytes) × (w' : net.World) × (responce_loop net fuel sock
            (some content)
            counter
            buf
            w
          ≡ (finished counter' buf', w'))
        × (counter' ≤ length content)
        × (unread w' ++ drop counter' content ≡ unread w ++ drop counter content)
  loop_sends zero counter content buf w l below enough = absurd (omega arith)
  loop_sends (suc fuel) counter content buf w l below enough =
      elim (Bool-cases (ltb counter (length content - chunk_size))) [
        | inr last ↦
            (counter, buf, w, stop fuel counter (some content) buf w (ground arith), below, refl)
        | inl more ↦
            let h : counter < length content - chunk_size = ground arith in
            let chunk = take chunk_size (drop counter content) in
            let buf' = read_file (some content) counter chunk_size buf in
            let same = read_chunk counter content buf l h in
            let l' : length buf' ≡ chunk_size = omega (
              arith,
              ap length same,
              length-take chunk_size (drop counter content),
              length-drop counter content,
            ) in
            let w₁ = (net.send sock buf' w).1 in
            let (counter', buf'', w', p, q, r) =
              loop_sends fuel (counter + chunk_size) content buf' w₁ l' (omega arith)
                (omega arith) in
            (
              counter',
              buf'',
              w',
              round fuel counter (some content) buf w h l' ∙ p,
              q,
              r
                  ∙ ap (λ (t : Bytes). t ++ drop (counter + chunk_size) content)
                      (unread-send buf' w)
                  ∙ ap (λ (t : Bytes). (unread w ++ t) ++ drop (counter + chunk_size) content) same
                  ∙ append_assoc (unread w) chunk (drop (counter + chunk_size) content)
                  ∙ ap (λ (t : Bytes). unread w ++ t)
                      (ap (λ (t : Bytes). chunk ++ t) (sym (drop-drop chunk_size counter content))
                        ∙ take-append-drop chunk_size (drop counter content)),
            )
      ]

  read_rest :
      (counter : ℕ) (content buf : Bytes)
      → take
          (length content - counter)
          (read_file (some content) counter (length content - counter) buf)
        ≡ drop counter content
  unfolding read_file
  read_rest counter content buf =
      let n = length content - counter in
      let rest = drop counter content in
      let all : take n rest ≡ rest = take_all n rest (omega (arith, length-drop counter content)) in
      let size : n ≡ length rest = sym (length-drop counter content) in
      ap (λ (t : Bytes). take n (t ++ drop (length t) buf)) all
      ∙ ap (λ k. take k (rest ++ drop (length rest) buf)) size
      ∙ take-append rest (drop (length rest) buf)

  chunks_send :
      (fuel : ℕ) (content buf : Bytes) (w : net.World)
      → length buf ≡ chunk_size
      → length content < chunk_size * fuel
      → (counter' : ℕ) × (buf' : Bytes) × (w' : net.World) × (send_chunks net fuel sock
            (some content)
            buf
            w
          ≡ (finished counter' buf', w'))
        × (unread w' ++ drop counter' content ≡ unread w ++ content)
  chunks_send fuel content buf w l enough = elim (Bool-cases (ltb chunk_size (length content))) [
    | inr small ↦ (0, buf, w, rw small refl, refl)
    | inl large ↦
        let (counter', buf', w', p, q, r) =
          loop_sends fuel 0 content buf w l (omega arith) (omega arith) in
        (counter', buf', w', rw large p, r)
  ]

  -- `SendResponce` to a client whose socket takes everything sends the head of the response and then the
  -- whole file, and ends; for a file that can be opened, and fuel for its chunks of 4096 bytes.
  pub send_responce_sends :
      (host : Host net.World) (sv : Server net.World) (fuel : ℕ) (responce content buf : Bytes)
      (w : net.World)
      → (sv.tcp_send sock responce w).1 ≡ (net.send sock responce w).1
      → find_socket sock sv.client_sockets ≡ true
      → length buf ≡ chunk_size
      → length content < chunk_size * fuel
      → (w' : net.World) × (send_responce net host sv fuel sock responce (some content) buf w
          ≡ some w')
        × (unread w' ≡ unread w ++ (responce ++ content))
  unfolding send_responce send_to_client
  send_responce_sends host sv fuel responce content buf w e client l enough =
      let w₁ = (net.send sock responce w).1 in
      let (counter, buf', w₂, p, q) = chunks_send fuel content buf w₁ l enough in
      let last =
        take (length content - counter)
          (read_file (some content) counter (length content - counter) buf') in
      (
        (net.send sock last w₂).1,
        rw (client, e, p) refl,
        unread-send last w₂
            ∙ ap (λ (t : Bytes). unread w₂ ++ t) (read_rest counter content buf')
            ∙ q
            ∙ ap (λ (t : Bytes). t ++ content) (unread-send responce w)
            ∙ append_assoc (unread w) responce content,
      )

  loop_leaks :
      (fuel counter : ℕ) (buf : Bytes) (w : net.World)
      → length buf ≡ chunk_size
      → counter + chunk_size * (fuel + 1) < 2 ^ 64 - 1
      → (w' : net.World) × (responce_loop net fuel sock none counter buf w ≡ (unfinished, w'))
        × (unread w' ≡ unread w ++ copies fuel buf)
  unfolding responce_loop read_file
  loop_leaks zero counter buf w l below = (w, refl, sym (append-nil (unread w)))
  loop_leaks (suc fuel) counter buf w l below =
      let (w', p, q) =
        loop_leaks fuel (counter + chunk_size) buf (net.send sock buf w).1 l (omega arith) in
      (
        w',
        round fuel counter none buf w (omega arith) l ∙ p,
        q
            ∙ ap (λ (t : Bytes). t ++ copies fuel buf) (unread-send buf w)
            ∙ append_assoc (unread w) buf (copies fuel buf),
      )

  -- Where the file cannot be opened, the loop of `SendResponce` does not end in any number of rounds below 2^51, and in
  -- each of them it sends the whole array, which the code has never written; for a socket that takes
  -- everything.
  pub missing_file_leaks :
      (fuel : ℕ) (buf : Bytes) (w : net.World)
      → length buf ≡ chunk_size
      → fuel < 2 ^ 51
      → (w' : net.World) × (send_chunks net fuel sock none buf w ≡ (unfinished, w'))
        × (unread w' ≡ unread w ++ copies fuel buf)
  missing_file_leaks fuel buf w l few = loop_leaks fuel 0 buf w l (omega arith)
