-- ===== src/Udp/Receive.antt =====
-- `Default_UDP_Recv` of EN_Functions.cpp with its calls, on Windows and elsewhere.
use easy_network.Base.{
  ℕ, Bool, true, false, [], ◌∷◌, ◌++◌, Bytes, codes, length, drop, ◌==◌, bit_and, Run, done, fault,
  ◌>>=◌, if◌then◌else◌,
}
use easy_network.Net.{RecvResult, got, recv_failed}
use easy_network.Number.{to_string}
use easy_network.Tcp.{Limits}
use easy_network.Udp.{udp_size, message_from}

-- What `recvfrom` returns: the bytes that it put into the buffer with the address and the port they came
-- from, or -1.
pub data FromResult : Type 0 where
  arrived : Bytes → Bytes → ℕ → FromResult
  from_failed : FromResult

-- The calls on a socket for datagrams, and what `CloseSocket` does to it.
pub record Datagrams : Type 1 where
  pub World : Type 0
  pub recvfrom : ℕ → ℕ → World → FromResult × World
  pub recv : ℕ → ℕ → World → RecvResult × World
  pub close : ℕ → World → World

-- The two branches of the conditional compilation.
pub data Platform : Type 0 where
  windows : Platform
  other : Platform

-- The buffer `msg` after bytes were put at its start.
abbrev pub overwritten : Bytes → Bytes → Bytes
overwritten bytes msg = bytes ++ drop (length bytes) msg

-- The text of `sourceAddress`.
abbrev pub source_of : Bytes → ℕ → Bytes
source_of address port = address ++ (codes ":" ++ to_string port)

module _ (net : Datagrams) (sock : ℕ) where
  -- The result, `sourceAddress` and `message`. A message without bytes leaves `sourceAddress` as it was.
  unfoldable pub read_message :
      ℕ → ℕ → Bytes → Bytes → Bytes → net.World → Run ((Bool × Bytes × Bytes) × net.World)
  read_message start size msg source named w = do
    m ← message_from start size msg
    done ((true, if size == 0 then source else named, m), w)

  -- The exits with an error.
  abbrev pub give_up : Bytes → net.World → Run ((Bool × Bytes × Bytes) × net.World)
  give_up source w = done ((false, source, []), net.close sock w)

  -- The length, whose second byte takes another call of `recv`.
  unfoldable pub read_length :
      Bytes → Bytes → Bytes → net.World → Run ((Bool × Bytes × Bytes) × net.World)
  read_length [] source named w = fault
  read_length (first ∷ rest) source named w =
      let short = bit_and first 0b10000000 == 0 in
      let (r, w') = net.recv sock 1 w in
      if short then read_message 1 (udp_size first 0) (first ∷ rest) source named w else elim r [
        | got (second ∷ others) ↦
            read_message 2 (udp_size first second) (first ∷ rest) source named w'
        | got [] ↦ give_up source w'
        | recv_failed ↦ give_up source w'
      ]

  -- Windows gets the buffer `msg`. Elsewhere the call gets `&msg`: what arrives is written over the pointer
  -- itself, and the reads of `msg[0]` that follow are undefined. `fresh` is what stands in
  -- `new char[MaxUdpMessageSize]`.
  unfoldable pub default_udp_recv :
      Platform → Limits → Bytes → Bytes → net.World → Run ((Bool × Bytes × Bytes) × net.World)
  default_udp_recv platform limits fresh source w =
      let (r, w') = net.recvfrom sock limits.max_udp_message_size w in
      elim r [
        | arrived (b ∷ bs) address port ↦ elim platform [
          | windows ↦ read_length (overwritten (b ∷ bs) fresh) source (source_of address port) w'
          | other ↦ fault
        ]
        | arrived [] address port ↦ give_up source w'
        | from_failed ↦ give_up source w'
      ]
