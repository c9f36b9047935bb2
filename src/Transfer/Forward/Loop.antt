-- ===== src/Transfer/Forward/Loop.antt =====
-- What `ForwardFile` passes on when the source holds enough and the destination takes all.
use easy_network.Base.{
  ℕ, zero, suc, ◌+◌, ◌-◌, ◌*◌, ◌^◌, ◌≤◌, ◌<◌, ◌≡◌, refl, sym, ap, ◌∙◌, true, false, some, [], ◌∷◌,
  ◌++◌, arith, append_assoc, Bytes, codes, length, take, drop, length-take, length-drop,
  take-append-drop, ltb, done, Bool-cases, inl, inr,
}
use easy_network.Net.{Sockets, IsStream}
use easy_network.Number.{to_string, string_to_int, greatest_unsigned_long, converted}
use easy_network.Number.RoundTrip.{string_to_int-to_string}
use easy_network.Tcp.{Limits, default_tcp_send, default_tcp_recv, msg_buf}
use easy_network.Tcp.Prefix.{prefix}
use easy_network.Tcp.Send.{msg_buf_lem, default_tcp_send_keeps}
use easy_network.Tcp.Recv.{default_tcp_recv_whole}
use easy_network.Tcp.Quiet.{default_tcp_recv_keeps}
use easy_network.Text.{split}
use easy_network.Transfer.{buf_len, Status, set_file_size, finish, Env, report, report_all}
use easy_network.Transfer.Chunks.{full_chunks}
use easy_network.Transfer.Send.{file_info}
use easy_network.Transfer.Send.Loop.{TakesAll, full_sent}
use easy_network.Transfer.Send.Whole.{announced}
use easy_network.Transfer.Recv.Loop.{chunk_read}
use easy_network.Transfer.Recv.Whole.{HasNoBlank, split-file_info}
use easy_network.Transfer.Forward.{
  forwarded, forward_buffer, forward_last, forward_loop, forward_content, forward_announced,
  forward_file,
}

module _ (net : Sockets) {from source destination : ℕ} (s : IsStream net from source)
    (out : TakesAll net destination) (env : Env) (limits : Limits)
    (send_keeps : (bs : Bytes) (w : net.World)
      → s.unread (net.send destination bs w).1 ≡ s.unread w)
    (recv_quiet : (n : ℕ) (w : net.World) → out.written (net.recv source n w).1 ≡ out.written w)
    (close_quiet : (w : net.World) → out.written (net.close source w) ≡ out.written w) where
  open s use {unread}
  open out use {written, takes_all}

  buffer_forwarded :
      (chunk more : Bytes) (w : net.World)
      → length chunk ≡ buf_len
      → unread w ≡ chunk ++ more
      → (w' : net.World) × (forward_buffer net source destination env limits w ≡ (true, w'))
        × (unread w' ≡ more)
        × (written w' ≡ written w ++ chunk)
  unfolding forward_buffer
  buffer_forwarded chunk more w h e =
      let w₁ = (net.recv source buf_len w).1 in
      let (p, q) = chunk_read net s env chunk more w h e in
      let (full, arrived) = takes_all chunk w₁ (omega arith) in
      (
        (net.send destination chunk w₁).1,
        ground (arith, p, full_sent _ _ full h),
        send_keeps chunk w₁ ∙ q,
        arrived ∙ ap (λ (t : Bytes). t ++ chunk) (recv_quiet buf_len w),
      )

  round :
      (fuel size i received last : ℕ) (st : Status) (w w₁ : net.World)
      → received < size - buf_len
      → env.stop i ≡ false
      → forward_buffer net source destination env limits w ≡ (true, w₁)
      → forward_loop net source destination env limits (suc fuel) size i received last st w
        ≡ forward_loop net source destination env limits fuel size
            (i + 1)
            (received + buf_len)
            (report (env.asleep i) size (received + buf_len) last (received + buf_len) st).1
            (report (env.asleep i) size (received + buf_len) last (received + buf_len) st).0
            w₁
  unfolding forward_loop
  round fuel size i received last st w w₁ more go p = ground (arith, p)

  loop_forwards :
      (k fuel size i received last : ℕ) (wire more : Bytes) (st : Status) (w : net.World)
      → ((j : ℕ) → env.stop j ≡ false)
      → buf_len ≤ size
      → k ≡ full_chunks (size - received)
      → k < fuel
      → length wire ≡ buf_len * (k + 1)
      → unread w ≡ wire ++ more
      → (st' : Status) × (w' : net.World) × (forward_loop net source destination env limits fuel
            size i received last st w
          ≡ done (forwarded true (finish true (report_all size st')) false, w'))
        × (unread w' ≡ more)
        × (written w' ≡ written w ++ wire)
  unfolding forward_loop forward_last
  loop_forwards k zero size i received last wire more st w go long c enough h e =
      absurd (omega arith)
  loop_forwards zero (suc fuel) size i received last wire more st w go long c enough h e =
      let (w', p, q, r) = buffer_forwarded wire more w (omega arith) e in
      (st, w', ground (arith, p), q, r)
  loop_forwards (suc k) (suc fuel) size i received last wire more st w go long c enough h e =
      let front = take buf_len wire in
      let back = drop buf_len wire in
      let (w₁, p, q, r) =
        buffer_forwarded front (back ++ more) w (omega (arith, length-take buf_len wire)) (
          e
          ∙ ap (λ (t : Bytes). t ++ more) (sym (take-append-drop buf_len wire))
          ∙ append_assoc front back more) in
      let n = report (env.asleep i) size (received + buf_len) last (received + buf_len) st in
      let (st', w', p', q', r') =
        loop_forwards k fuel size (i + 1) (received + buf_len) n.1 back more n.0 w₁ go long
          (omega arith) (omega arith) (omega (arith, length-drop buf_len wire)) q in
      (
        st',
        w',
        round fuel size i received last st w w₁ (omega arith) (go i) p ∙ p',
        q',
        r'
            ∙ ap (λ (t : Bytes). t ++ back) r
            ∙ append_assoc (written w) front back
            ∙ ap (λ (t : Bytes). written w ++ t) (take-append-drop buf_len wire),
      )

  content_forwards :
      (fuel size : ℕ) (wire more : Bytes) (st : Status) (w : net.World)
      → ((j : ℕ) → env.stop j ≡ false)
      → full_chunks size < fuel
      → length wire ≡ buf_len * (full_chunks size + 1)
      → unread w ≡ wire ++ more
      → (st' : Status) × (w' : net.World) × (forward_content net source destination env limits fuel
            size st w
          ≡ done (forwarded true (finish true (report_all size st')) false, w'))
        × (unread w' ≡ more)
        × (written w' ≡ written w ++ wire)
  unfolding forward_content forward_last
  content_forwards fuel size wire more st w go enough h e = elim (Bool-cases (ltb size buf_len)) [
    | inl little ↦
        let none_full : full_chunks size ≡ 0 = ground arith in
        let (w', p, q, r) = buffer_forwarded wire more w (omega (arith, none_full)) e in
        (set_file_size size st, w', ground (arith, little, p), q, r)
    | inr long ↦
        let (st', w', p, q, r) =
          loop_forwards (full_chunks size) fuel size 0 0 0 wire more (set_file_size size st) w go
            (ground arith) (omega arith) enough h e in
        (st', w', rw long p, q, r)
  ]

  file_accepted :
      (fuel : ℕ) (name info b f : Bytes) (before : ℕ) (st : Status) (w w₁ : net.World)
      → default_tcp_recv net fuel limits source [] w ≡ some ((true, info), w₁)
      → (default_tcp_send net limits destination info w₁).0 ≡ true
      → split fuel info (codes " ") ≡ done (name ∷ b ∷ f ∷ [])
      → string_to_int greatest_unsigned_long b ≡ converted before
      → forward_file net source destination env limits fuel st w
        ≡ forward_content net source destination env limits fuel before st
            (default_tcp_send net limits destination info w₁).1
  unfolding forward_file forward_announced
  file_accepted fuel name info b f before st w w₁ p ok q x =
      rw (forward_file, p, ok, q, forward_announced, x) refl

  -- `ForwardFile` on a source that carries an announcement and then bytes, to a destination that takes
  -- all, with no stop: it returns true, and it has passed on the announcement and as many buffers of
  -- 4096 bytes as the second field of the announcement, `before`, asks for: `full_chunks before + 1`.
  -- What stands after them stays unread; the third field, the number of bytes that follow, is not used.
  -- The name has no blank, the announcement keeps to the limits, and the fuel exceeds the rounds.
  pub forward_file_forwards :
      (fuel : ℕ) (name : Bytes) (before following : ℕ) (wire more : Bytes) (st : Status)
      (w : net.World)
      → ((j : ℕ) → env.stop j ≡ false)
      → HasNoBlank name
      → before < 2 ^ 64
      → 10 ≤ fuel
      → length (file_info name before following) < fuel
      → length (file_info name before following) ≤ limits.max_tcp_message_size
      → length (file_info name before following) < 2 ^ 30
      → full_chunks before < fuel
      → length wire ≡ buf_len * (full_chunks before + 1)
      → unread w ≡ msg_buf (file_info name before following) ++ (wire ++ more)
      → (st' : Status) × (w' : net.World) × (forward_file net source destination env limits fuel st
            w
          ≡ done (forwarded true (finish true (report_all before st')) false, w'))
        × (unread w' ≡ more)
        × (written w' ≡ written w ++ (msg_buf (file_info name before following) ++ wire))
  forward_file_forwards fuel name before following wire more st w go clean b64 ten long fits small
        rounds h e =
      let info = file_info name before following in
      let (w₁, p₁, q₁) =
        default_tcp_recv_whole net s fuel limits [] info (wire ++ more) w ten fits (omega arith) (
          e
          ∙ ap (λ (t : Bytes). t ++ (wire ++ more)) (msg_buf_lem info)
          ∙ append_assoc (prefix (length info)) info (wire ++ more)) in
      let quiet =
        default_tcp_recv_keeps net source written recv_quiet close_quiet fuel limits [] w
          (true, info) w₁ p₁ in
      let w₂ = (default_tcp_send net limits destination info w₁).1 in
      let (ok, sent) = announced net out env limits info w₁ fits small in
      let (st', w', p, q, r) =
        content_forwards fuel before wire more st w₂ go rounds h
          (default_tcp_send_keeps net unread destination send_keeps limits info w₁ ∙ q₁) in
      (
        st',
        w',
        file_accepted fuel name info (to_string before) (to_string following) before st w w₁ p₁ ok
              (split-file_info fuel name before following clean long)
              (string_to_int-to_string greatest_unsigned_long before (omega arith))
            ∙ p,
        q,
        r
            ∙ ap (λ (t : Bytes). t ++ wire) (sent ∙ ap (λ (t : Bytes). t ++ msg_buf info) quiet)
            ∙ append_assoc (written w) (msg_buf info) wire,
      )
