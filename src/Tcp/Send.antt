-- ===== src/Tcp/Send.antt =====
-- What a successful `Default_TCP_Send` has written, and when it refuses.
use easy_network.Base.{
  ℕ, ◌+◌, ◌^◌, ◌≤◌, ◌<◌, ◌≡◌, ◌≢◌, refl, ap, ◌∙◌, true, false, ◌++◌, arith, Bytes, length,
  length-append, take_all, Bool-cases, ltb, ==_iff, inl, inr, ◌⊎◌,
}
use easy_network.Net.{Sockets, IsStream, SendResult, sent, send_failed}
use easy_network.Tcp.{Limits, sent_size, msg_buf, default_tcp_send}
use easy_network.Tcp.Prefix.{prefix, prefix_format}

SendResult-cases : (r : SendResult) → ((n : ℕ) × (r ≡ sent n)) ⊎ (r ≡ send_failed)
SendResult-cases (sent n) = inl (n, refl)
SendResult-cases send_failed = inr refl

pub msg_buf_lem : (message : Bytes) → msg_buf message ≡ prefix (length message) ++ message
unfolding msg_buf
msg_buf_lem message = refl

pub length-msg_buf :
    (message : Bytes)
    → length message < 2 ^ 64
    → (length message ≤ length (msg_buf message)) × (length (msg_buf message) ≤ length message + 10)
length-msg_buf message h =
    rw (msg_buf_lem, length-append) (omega (arith, (prefix_format (length message) h).2))

-- The int that `send` returns stands for the whole buffer only if the buffer is below 2 GiB and all
-- of it was taken.
sent_size-full :
    (r : SendResult) (n len : ℕ)
    → n ≤ len
    → len < 2 ^ 63
    → r ≡ sent n
    → sent_size r ≡ len
    → (n ≡ len) × (len < 2 ^ 31)
unfolding sent_size
sent_size-full (sent m) n len h small e p = ground arith
sent_size-full send_failed n len h small e p = cc

sent_size_failed : (len : ℕ) → len < 2 ^ 63 → sent_size send_failed ≢ len
unfolding sent_size
sent_size_failed len h e = omega arith

sent_size_small : (n : ℕ) → n < 2 ^ 31 → sent_size (sent n) ≡ n
unfolding sent_size
sent_size_small n h = ground arith

module _ (net : Sockets) {from to : ℕ} (s : IsStream net from to) where
  open s use {unread, send_takes}

  written :
      (bs : Bytes) (w : net.World)
      → length bs < 2 ^ 63
      → sent_size (net.send from bs w).0 ≡ length bs
      → (unread (net.send from bs w).1 ≡ unread w ++ bs) × (length bs < 2 ^ 31)
  written bs w small e = elim (SendResult-cases (net.send from bs w).0) [
    | inl (n, p) ↦
        let (le, out) = send_takes bs w n p in
        let (full, fits) = sent_size-full _ n (length bs) le small p e in
        (out ∙ ap (λ (t : Bytes). unread w ++ t) (take_all n bs (omega arith)), fits)
    | inr p ↦ absurd (sent_size_failed (length bs) small (rw p at e))
  ]

  -- If `Default_TCP_Send` returns true, the message was within the limit, the whole buffer (the
  -- length prefix, then the message) stands behind the bytes that the peer had not read, and the
  -- buffer is shorter than 2^31 bytes.
  pub default_tcp_send_sound :
      (limits : Limits) (message : Bytes) (w : net.World)
      → length message < 2 ^ 62
      → (default_tcp_send net limits from message w).0 ≡ true
      → (unread (default_tcp_send net limits from message w).1 ≡ unread w ++ msg_buf message)
        × (length message ≤ limits.max_tcp_message_size)
        × (length (msg_buf message) < 2 ^ 31)
  unfolding default_tcp_send
  default_tcp_send_sound limits message w small e =
      elim (Bool-cases (ltb limits.max_tcp_message_size (length message))) [
        | inl long ↦ absurd (cc (rw long at e))
        | inr fits ↦
            let full : sent_size (net.send from (msg_buf message) w).0 ≡ length (msg_buf message) =
              (==_iff _ _).0 (rw fits at e) in
            let (out, short) =
              written (msg_buf message) w (omega (arith, length-msg_buf message)) full in
            rw fits (out, ground arith, short)
      ]

-- `Default_TCP_Send` returns true on a message within the limit whose buffer `send` takes whole, if
-- the buffer is shorter than 2^31 bytes.
pub default_tcp_send_complete :
    (net : Sockets) (limits : Limits) (sock : ℕ) (message : Bytes) (w : net.World)
    → length message ≤ limits.max_tcp_message_size
    → (net.send sock (msg_buf message) w).0 ≡ sent (length (msg_buf message))
    → length (msg_buf message) < 2 ^ 31
    → default_tcp_send net limits sock message w ≡ (true, (net.send sock (msg_buf message) w).1)
unfolding default_tcp_send
default_tcp_send_complete net limits sock message w fits full short =
    ground (arith, full, sent_size_small (length (msg_buf message)) short)

-- A message over the limit is refused, and nothing is sent.
pub default_tcp_send_too_long :
    (net : Sockets) (limits : Limits) (sock : ℕ) (message : Bytes) (w : net.World)
    → limits.max_tcp_message_size < length message
    → default_tcp_send net limits sock message w ≡ (false, w)
unfolding default_tcp_send
default_tcp_send_too_long net limits sock message w long = ground arith

-- It keeps what every `send` of the socket keeps.
pub default_tcp_send_keeps :
    (net : Sockets) (seen : net.World → Bytes) (sock : ℕ)
    → ((bs : Bytes) (w : net.World) → seen (net.send sock bs w).1 ≡ seen w)
    → (limits : Limits) (message : Bytes) (w : net.World)
    → seen (default_tcp_send net limits sock message w).1 ≡ seen w
unfolding default_tcp_send
default_tcp_send_keeps net seen sock keeps limits message w =
    ground (arith, keeps (msg_buf message) w)
