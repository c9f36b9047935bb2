-- ===== src/Tcp.antt =====
-- `Default_TCP_Send` and `Default_TCP_Recv` of EN_Functions.cpp: a message behind its length.
pub mod Prefix
pub mod Send
mod Loop
pub mod Recv
pub mod RoundTrip
pub mod Quiet
mod Tests
use mathlib.Core.Logic.{dite}
use mathlib.Core.WellFounded.{Acc}
use native.Mathlib.Decide.{dec_lt}
use easy_network.Base.{
  ℕ, zero, suc, ◌+◌, ◌*◌, ◌/◌, ◌%◌, ◌^◌, ◌<◌, bit_and, bit_or, Bool, true, false, Option, none,
  some, List, [], ◌∷◌, ◌++◌, arith, Bytes, length, ltb, ◌==◌, if◌then◌else◌, lt_wf, size_of_int,
  minus_one,
}
use easy_network.Net.{Sockets, SendResult, sent, send_failed, RecvResult, got, recv_failed}

-- The global variables of EN_Functions.cpp.
pub record Limits : Type 0 where
  pub max_tcp_message_size : ℕ
  pub max_udp_message_size : ℕ

abbrev pub default_limits : Limits
default_limits = record { max_tcp_message_size = 1_073_741_824; max_udp_message_size = 16_384 }

pub set_max_tcp_message_size : ℕ → Limits → Limits
set_max_tcp_message_size n l = record l { max_tcp_message_size = n }

pub get_max_tcp_message_size : Limits → ℕ
get_max_tcp_message_size l = l.max_tcp_message_size

pub shift_shrinks : (n : ℕ) → 0 < n → n / 128 < n
shift_shrinks n h = omega arith

-- `while (messageLength > 0)`: the low seven bits, then `>>= 7`.
unfoldable pub digits_loop : Bytes → (n : ℕ) → Acc ◌<◌ n → Bytes
digits_loop out n (Acc.intro _ smaller) =
    dite (dec_lt 0 n)
      (λ more. digits_loop (out ++ (n % 128 ∷ [])) (n / 128) (smaller _ (shift_shrinks n more)))
      (λ _. out)

-- `messageLengthString`: the length in base 128, or one zero byte.
unfoldable pub message_length_string : ℕ → Bytes
message_length_string n = digits_loop (if n == 0 then 0 ∷ [] else []) n (lt_wf.apply n)

-- The top bit on every byte but the last.
unfoldable pub mark_bytes : Bytes → Bytes
mark_bytes [] = []
mark_bytes (b ∷ []) = b ∷ []
mark_bytes (b ∷ c ∷ bs) = bit_or b 0b10000000 ∷ mark_bytes (c ∷ bs)

-- `msgBuf`: what is handed to `send`.
unfoldable pub msg_buf : Bytes → Bytes
msg_buf message = mark_bytes (message_length_string (length message)) ++ message

-- `(size_t)sendedBytes`
unfoldable pub sent_size : SendResult → ℕ
sent_size (sent n) = size_of_int n
sent_size send_failed = minus_one

-- `messageSize` from the bytes of the prefix, last byte first; `size_t` has 64 bits.
unfoldable pub high_groups : Bytes → ℕ
high_groups [] = 0
high_groups (b ∷ bs) = (high_groups bs + bit_and b 0b01111111) % 2 ^ 64 * 128 % 2 ^ 64

unfoldable pub message_size : Bytes → ℕ
message_size [] = 0
message_size (b ∷ bs) = (high_groups bs + bit_and b 0b01111111) % 2 ^ 64

module _ (net : Sockets) where
  unfoldable pub default_tcp_send : Limits → ℕ → Bytes → net.World → Bool × net.World
  default_tcp_send limits sock message w =
      if ltb limits.max_tcp_message_size (length message)
      then (false, w)
      else let (r, w') = net.send sock (msg_buf message) w in
        (sent_size r == length (msg_buf message), w')

  -- The first loop, on fuel: one byte at a time up to the first byte below 128. `some none` means
  -- that the connection ended and the socket was closed, `none` that the fuel ran out.
  unfoldable pub read_prefix : ℕ → ℕ → Bytes → net.World → Option (Option Bytes × net.World)
  read_prefix zero sock so_far w = none
  read_prefix (suc fuel) sock so_far w =
      let (r, w') = net.recv sock 1 w in
      elim r [
        | got (b ∷ bs) ↦
            let so_far' = so_far ++ (b ∷ []) in
            let rest = read_prefix fuel sock so_far' w' in
            if bit_and b 0b10000000 == 0 then some (some so_far', w') else rest
        | got [] ↦ some (none, net.close sock w')
        | recv_failed ↦ some (none, net.close sock w')
      ]

  -- The rest of the function, at the size that the prefix gave. The message is an out-parameter:
  -- `message` is what it held before the call. A buffer of 2^64 - 1 bytes cannot be allocated, so
  -- the -1 of a failed `recv` never equals the size.
  unfoldable pub read_body : Limits → ℕ → Bytes → ℕ → net.World → (Bool × Bytes) × net.World
  read_body limits sock message size w =
      if size == 0
      then ((true, []), w)
      else if ltb limits.max_tcp_message_size size
      then ((false, message), w)
      else let (r, w') = net.recv sock size w in
        elim r [
          | got bs ↦
              if size_of_int (length bs) == size
              then ((true, bs), w')
              else ((false, []), net.close sock w')
          | recv_failed ↦ ((false, []), net.close sock w')
        ]

  unfoldable pub default_tcp_recv :
      ℕ → Limits → ℕ → Bytes → net.World → Option ((Bool × Bytes) × net.World)
  default_tcp_recv fuel limits sock message w = elim (read_prefix fuel sock [] w) [
    | none ↦ none
    | some (none, w') ↦ some ((false, []), w')
    | some (some bytes, w') ↦ some (read_body limits sock message (message_size bytes) w')
  ]
