-- ===== src/Udp.antt =====
-- `Default_UDP_Send` and `Default_UDP_Recv` of EN_Functions.cpp, from the datagram on.
pub mod Framing
pub mod Receive
pub mod Delivers
pub mod Mailbox
mod Tests
use easy_network.Base.{
  ℕ, ◌+◌, ◌-◌, ◌*◌, ◌/◌, ◌%◌, ◌^◌, Bool, true, false, List, [], ◌∷◌, ◌++◌, Bytes, codes, length,
  take, drop, leb, ltb, ◌==◌, bit_and, bit_or, Run, done, fault, ◌>>=◌, if◌then◌else◌,
}
use easy_network.Number.{string_to_int, greatest_int, Conversion, converted, refused, out_of_range}
use easy_network.Tcp.{Limits}
use easy_network.Text.{split}

-- The bytes of the length: one below 128, else two with the high bit of the first set.
pub udp_header : ℕ → Bytes
udp_header n =
    if leb 128 n then bit_or (n / 128 % 256) 0b10000000 ∷ n % 128 % 256 ∷ [] else n % 256 ∷ []

-- The datagram, `msgBuf`.
pub udp_buf : Bytes → Bytes
udp_buf message = udp_header (length message) ++ message

-- `returned` with the world after `sendto`, if it was called; `thrown` where StringToInt lets an
-- exception through.
pub data UdpSend (World : Type 0) : Type 0 where
  udp_returned : World → UdpSend World
  udp_thrown : World → UdpSend World

-- `sendto` takes an address, a port of 16 bits and a datagram.
module _ {World : Type 0} (sendto : Bytes → ℕ → Bytes → World → World) (limits : Limits) where
  pub udp_send_parts : List Bytes → Bytes → World → Run (UdpSend World)
  udp_send_parts (address ∷ port ∷ others) message w = elim (string_to_int greatest_int port) [
    | refused ↦ done (udp_returned w)
    | out_of_range ↦ done (udp_thrown w)
    | converted p ↦
        if ltb limits.max_udp_message_size (length message)
        then done (udp_returned w)
        else done (udp_returned (sendto address (p % 2 ^ 16) (udp_buf message) w))
  ]
  udp_send_parts (address ∷ []) message w = fault
  udp_send_parts [] message w = fault

  pub default_udp_send : ℕ → Bytes → Bytes → World → Run (UdpSend World)
  default_udp_send fuel destination message w = do
    parts ← split fuel destination (codes ":")
    udp_send_parts parts message w

-- What `Default_UDP_Recv` makes of its buffer, whose first bytes are the datagram: the result `message`.
-- `second` is the byte that its second call of `recv` delivers. Reads behind the buffer are faults.
pub udp_size : ℕ → ℕ → ℕ
udp_size first second =
    if bit_and first 0b10000000 == 0
    then bit_and first 0b01111111
    else bit_and first 0b01111111 * 128 + bit_and second 0b01111111

pub message_from : ℕ → ℕ → Bytes → Run Bytes
message_from start size buffer =
    if size == 0
    then done []
    else if ltb (length buffer) (start + size)
    then fault
    else done (take size (drop start buffer))
