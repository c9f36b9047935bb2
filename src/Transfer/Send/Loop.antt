-- ===== src/Transfer/Send/Loop.antt =====
-- The loop of `SendFile` on a connection that takes every buffer whole.
use easy_network.Base.{
  ℕ, zero, suc, ◌+◌, ◌-◌, ◌^◌, ◌≤◌, ◌<◌, ◌≡◌, sym, ap, ◌∙◌, true, false, some, ◌++◌, arith,
  append_assoc, Bytes, length, drop, drop-drop,
}
use easy_network.Net.{Sockets, SendResult, sent}
use easy_network.Transfer.{buf_len, Status, finish, Env, report, report_all, read_into, is_full}
use easy_network.Transfer.Chunks.{chunks, full_chunks, length-read_into}
use easy_network.Transfer.Send.{send_last, send_loop}

-- A connection on which `send` takes all that it is given, as long as an int can count it. `written`
-- is all that the socket has sent.
pub record TakesAll (net : Sockets) (sock : ℕ) : Type 0 where
  pub written : net.World → Bytes
  pub takes_all :
      (bs : Bytes) (w : net.World)
      → length bs < 2 ^ 31
      → ((net.send sock bs w).0 ≡ sent (length bs))
        × (written (net.send sock bs w).1 ≡ written w ++ bs)
  pub recv_keeps : (n : ℕ) (w : net.World) → written (net.recv sock n w).1 ≡ written w
  pub close_keeps : (w : net.World) → written (net.close sock w) ≡ written w

pub full_sent : (r : SendResult) (n : ℕ) → r ≡ sent n → n ≡ buf_len → is_full r ≡ true
unfolding is_full
full_sent (sent m) n e h = ground arith
full_sent SendResult.send_failed n e h = cc

module _ (net : Sockets) {sock : ℕ} (out : TakesAll net sock) (env : Env) where
  open out use {written, takes_all}

  buffer_sent :
      (buf rest : Bytes) (w : net.World)
      → length buf ≡ buf_len
      → (is_full (net.send sock (read_into buf rest) w).0 ≡ true)
        × (written (net.send sock (read_into buf rest) w).1 ≡ written w ++ read_into buf rest)
  buffer_sent buf rest w h =
      let l = length-read_into buf rest h in
      let (e, q) = takes_all (read_into buf rest) w (omega arith) in (full_sent _ _ e l, q)

  pub send_last_sends :
      (content : Bytes) (position : ℕ) (buf : Bytes) (st : Status) (w : net.World)
      → length buf ≡ buf_len
      → (w' : net.World) × (send_last net sock env content position buf st w
          ≡ ((true, finish true (report_all (length content) st)), w'))
        × (written w' ≡ written w ++ chunks 0 buf (drop position content))
  unfolding send_last chunks
  send_last_sends content position buf st w h =
      let (e, q) = buffer_sent buf (drop position content) w h in
      ((net.send sock (read_into buf (drop position content)) w).1, ground (arith, e), q)

  -- Without a stop the loop ends after the rounds that the file needs and has sent all chunks.
  pub send_loop_sends :
      (k fuel : ℕ) (content : Bytes) (i position last : ℕ) (buf : Bytes) (st : Status)
      (w : net.World)
      → ((j : ℕ) → env.stop j ≡ false)
      → length buf ≡ buf_len
      → buf_len ≤ length content
      → k ≡ full_chunks (length content - position)
      → k < fuel
      → (st' : Status) × (w' : net.World) × (send_loop net sock env fuel content i position last buf
            st w
          ≡ some ((true, finish true (report_all (length content) st')), w'))
        × (written w' ≡ written w ++ chunks k buf (drop position content))
  unfolding send_loop chunks
  send_loop_sends k zero content i position last buf st w go h long e enough = absurd (omega arith)
  send_loop_sends zero (suc fuel) content i position last buf st w go h long e enough =
      let (w', p, q) = send_last_sends content position buf st w h in (st, w', ground (arith, p), q)
  send_loop_sends (suc k) (suc fuel) content i position last buf st w go h long e enough =
      let rest = drop position content in
      let buf' = read_into buf rest in
      let w₁ = (net.send sock buf' w).1 in
      let (full, q₁) = buffer_sent buf rest w h in
      let r =
        report (env.asleep i) (length content) (position + buf_len) last (position + buf_len) st in
      let (st', w', p, q) =
        send_loop_sends k fuel content (i + 1) (position + buf_len) r.1 buf' r.0 w₁ go
          (length-read_into buf rest h) long (omega arith) (omega arith) in
      (
        st',
        w',
        ground (arith, full, go i, p),
        q
            ∙ ap (λ (t : Bytes). t ++ chunks k buf' (drop (position + buf_len) content)) q₁
            ∙ append_assoc (written w) buf' (chunks k buf' (drop (position + buf_len) content))
            ∙ ap (λ (t : Bytes). written w ++ (buf' ++ chunks k buf' t))
                (sym (drop-drop buf_len position content)),
      )
