-- ===== src/Transfer/Send/Whole.antt =====
-- `SendFile` as a whole: what it puts on the wire, and the ways in which it fails.
use easy_network.Base.{
  ℕ, ◌-◌, ◌^◌, ◌≤◌, ◌<◌, ◌≡◌, refl, ap, ◌∙◌, Bool, true, false, some, [], ◌++◌, arith, append_assoc,
  Bytes, codes, length, drop, ltb, Bool-cases, inl, inr,
}
use easy_network.Net.{Sockets}
use easy_network.Tcp.{Limits, default_tcp_send, default_tcp_recv, msg_buf}
use easy_network.Tcp.Send.{default_tcp_send_complete, length-msg_buf}
use easy_network.Tcp.Quiet.{default_tcp_recv_keeps}
use easy_network.Transfer.{buf_len, sub64, Status, set_file_size, finish, Env, report_all}
use easy_network.Transfer.Chunks.{chunks, full_chunks}
use easy_network.Transfer.Send.{bytes_eq, file_info, send_content, send_file}
use easy_network.Transfer.Send.Loop.{TakesAll, send_last_sends, send_loop_sends}

module _ (net : Sockets) {sock : ℕ} (out : TakesAll net sock) (env : Env) where
  open out use {written, takes_all, recv_keeps, close_keeps}

  content_sent :
      (fuel : ℕ) (content : Bytes) (before : ℕ) (buf : Bytes) (st : Status) (w : net.World)
      → ((j : ℕ) → env.stop j ≡ false)
      → length buf ≡ buf_len
      → full_chunks (length content - before) < fuel
      → (st' : Status) × (w' : net.World) × (send_content net sock env fuel content before buf st w
          ≡ some ((true, finish true (report_all (length content) st')), w'))
        × (written w'
            ≡ written w ++ chunks (full_chunks (length content - before)) buf (drop before content))
  unfolding send_content
  content_sent fuel content before buf st w go h enough =
      elim (Bool-cases (ltb (length content) buf_len)) [
        | inl little ↦
            let st₁ = set_file_size (length content) st in
            let none_full : full_chunks (length content - before) ≡ 0 = ground arith in
            let (w', p, q) = send_last_sends net out env content before buf st₁ w h in
            (st₁, w', ground (arith, p), rw none_full q)
        | inr long ↦
            let st₁ = set_file_size (length content) st in
            let (st', w', p, q) =
              send_loop_sends net out env (full_chunks (length content - before)) fuel content 0
                before 0 buf st₁ w go h (ground arith) refl enough in
            (st', w', ground (arith, p), q)
      ]

  -- The message in front of the chunks.
  pub announced :
      (limits : Limits) (info : Bytes) (w : net.World)
      → length info ≤ limits.max_tcp_message_size
      → length info < 2 ^ 30
      → ((default_tcp_send net limits sock info w).0 ≡ true)
        × (written (default_tcp_send net limits sock info w).1 ≡ written w ++ msg_buf info)
  announced limits info w fits small =
      let short : length (msg_buf info) < 2 ^ 31 = omega (arith, length-msg_buf info) in
      let (e, q) = takes_all (msg_buf info) w short in
      let p = default_tcp_send_complete net limits sock info w fits e short in
      (ap (λ (r : Bool × net.World). r.0) p, ap (λ (r : Bool × net.World). written r.1) p ∙ q)

  -- The status of a transmission that has ended well, of a file of `n` bytes.
  abbrev pub Succeeded : ℕ → Status → Type 0
  Succeeded n st =
      (st.is_transmission_ended ≡ true)
      × (st.is_transmission_succeed ≡ true)
      × (st.transfered_bytes ≡ n)
      × (st.transmission_speed ≡ 0)
      × (st.transmission_eta ≡ 0)

  finish-Succeeded : (n : ℕ) (st : Status) → Succeeded n (finish true (report_all n st))
  unfolding finish report_all easy_network.Transfer.invoke_progress_function
      easy_network.Transfer.set_is_transmission_ended
      easy_network.Transfer.set_is_transmission_succeed easy_network.Transfer.set_transfered_bytes
      easy_network.Transfer.set_transmission_speed easy_network.Transfer.set_transmission_eta
  finish-Succeeded n st = elim (Bool-cases st.is_set_progress_function) [
    | inl e ↦ rw e (refl, refl, refl, refl, refl)
    | inr e ↦ rw e (refl, refl, refl, refl, refl)
  ]

  -- `SendFile` of a file of which `before` bytes were sent earlier, on a connection that takes every
  -- buffer whole, with no stop and with an answer other than "bad": it returns true, its status says
  -- that the transmission ended and succeeded with all bytes of the file transfered and no speed or time
  -- left to report, and it has written the announcement followed by the
  -- chunks of the rest of the file. The rounds of the loop are the fuel that is needed.
  pub send_file_sends :
      (limits : Limits) (fuel : ℕ) (name content : Bytes) (before : ℕ) (buf reply : Bytes)
      (st : Status) (w w₂ : net.World)
      → ((j : ℕ) → env.stop j ≡ false)
      → length buf ≡ buf_len
      → full_chunks (length content - before) < fuel
      → length (file_info name before (sub64 (length content) before)) ≤ limits.max_tcp_message_size
      → length (file_info name before (sub64 (length content) before)) < 2 ^ 30
      → default_tcp_recv net fuel limits sock []
          (default_tcp_send net limits sock
            (file_info name before (sub64 (length content) before))
            w).1
        ≡ some ((true, reply), w₂)
      → bytes_eq reply (codes "bad") ≡ false
      → (st' : Status) × (w' : net.World) × (send_file net sock env limits fuel name
            (some content)
            before
            buf
            st
            w
          ≡ some ((true, st'), w'))
        × Succeeded (length content) st'
        × (written w'
            ≡ written w
              ++ (msg_buf (file_info name before (sub64 (length content) before))
                  ++ chunks (full_chunks (length content - before)) buf (drop before content)))
  unfolding send_file
  send_file_sends limits fuel name content before buf reply st w w₂ go h enough fits small answer
        good =
      let info = file_info name before (sub64 (length content) before) in
      let quiet =
        default_tcp_recv_keeps net sock written recv_keeps close_keeps fuel limits []
          (default_tcp_send net limits sock info w).1 (true, reply) w₂ answer in
      let (ok, q₁) = announced limits info w fits small in
      let (st', w', p, q) = content_sent fuel content before buf st w₂ go h enough in
      (
        finish true (report_all (length content) st'),
        w',
        ground (arith, ok, answer, good, p),
        finish-Succeeded (length content) st',
        q
            ∙ ap
                (λ (t : Bytes).
                  t ++ chunks (full_chunks (length content - before)) buf (drop before content))
                (quiet ∙ q₁)
            ∙ append_assoc (written w) (msg_buf info) _,
      )
