-- ===== src/Udp/Delivers.antt =====
-- What `Default_UDP_Recv` makes of the datagrams that wait at its socket.
use easy_network.Base.{
  ℕ, ◌+◌, ◌/◌, ◌%◌, ◌≤◌, ◌<◌, ◌≡◌, refl, ◌∙◌, true, false, List, [], ◌∷◌, arith, Bytes, length,
  length-append, drop, ◌==◌, bit_and, bit_and_127, bit_and_128, done, fault, ltb, Bool-cases, inl,
  inr,
}
use easy_network.Net.{recv_failed}
use easy_network.Tcp.{Limits}
use easy_network.Udp.{udp_buf, udp_size, message_from}
use easy_network.Udp.Framing.{message_after, short_header, long_header}
use easy_network.Udp.Receive.{
  arrived, windows, other, Datagrams, overwritten, source_of, read_message, read_length,
  default_udp_recv,
}

pub record Datagram : Type 0 where
  pub bytes : Bytes
  pub address : Bytes
  pub port : ℕ

-- What the manuals say of a socket for datagrams: a call of `recvfrom` takes the first that waits, and puts
-- it into the buffer if there is room for the whole of it.
pub record IsInbox (net : Datagrams) (sock : ℕ) : Type 0 where
  pub waiting : net.World → List Datagram
  pub recvfrom_first :
      (n : ℕ) (w : net.World) (d : Datagram) (ds : List Datagram)
      → waiting w ≡ d ∷ ds
      → length d.bytes ≤ n
      → ((net.recvfrom sock n w).0 ≡ arrived d.bytes d.address d.port)
        × (waiting (net.recvfrom sock n w).1 ≡ ds)

module _ (net : Datagrams) {sock : ℕ} (inbox : IsInbox net sock) (limits : Limits)
    (fresh : Bytes) where
  open inbox use {waiting, recvfrom_first}

  -- The call of `recvfrom` for a whole datagram.
  recvfrom_whole :
      (b : ℕ) (bs source : Bytes) (w : net.World) (d : Datagram) (ds : List Datagram)
      → waiting w ≡ d ∷ ds
      → d.bytes ≡ b ∷ bs
      → length (b ∷ bs) ≤ limits.max_udp_message_size
      → (w' : net.World) × (default_udp_recv net sock windows limits fresh source w
          ≡ read_length net sock
              (overwritten (b ∷ bs) fresh)
              source
              (source_of d.address d.port)
              w')
        × (waiting w' ≡ ds)
  unfolding default_udp_recv
  recvfrom_whole b bs source w d ds e f fits =
      let (p, q) = recvfrom_first limits.max_udp_message_size w d ds e (rw f fits) in
      (_, rw (default_udp_recv, p, f) refl, q)

  recvfrom_elsewhere :
      (b : ℕ) (bs source : Bytes) (w : net.World) (d : Datagram) (ds : List Datagram)
      → waiting w ≡ d ∷ ds
      → d.bytes ≡ b ∷ bs
      → length (b ∷ bs) ≤ limits.max_udp_message_size
      → default_udp_recv net sock other limits fresh source w ≡ fault
  unfolding default_udp_recv
  recvfrom_elsewhere b bs source w d ds e f fits =
      let (p, q) = recvfrom_first limits.max_udp_message_size w d ds e (rw f fits) in
      rw (default_udp_recv, p, f) refl

  -- On Windows, the datagram of a message of 1 to 127 bytes that fits into the buffer and waits first at the
  -- socket: the result is true with the message and the text of its sender, and the datagram is taken.
  pub default_udp_recv_delivers :
      (message source : Bytes) (w : net.World) (d : Datagram) (ds : List Datagram)
      → waiting w ≡ d ∷ ds
      → d.bytes ≡ udp_buf message
      → 1 ≤ length message
      → length message < 128
      → length message < limits.max_udp_message_size
      → (w' : net.World) × (default_udp_recv net sock windows limits fresh source w
          ≡ done ((true, source_of d.address d.port, message), w'))
        × (waiting w' ≡ ds)
  unfolding read_length read_message udp_size udp_buf
  default_udp_recv_delivers message source w d ds e f some_byte small fits =
      let n = length message in
      let (w', p, q) =
        recvfrom_whole n message source w d ds e (f ∙ rw (short_header n small) refl)
          (omega arith) in
      let high : bit_and n 0b10000000 ≡ 0 = bit_and_128 n (omega arith) ∙ omega arith in
      let low : bit_and n 0b01111111 ≡ n = bit_and_127 n (omega arith) ∙ omega arith in
      let some_size : (n == 0) ≡ false = ground arith in
      let read : message_from 1 n (overwritten (n ∷ message) fresh) ≡ done message =
        message_after 1 (overwritten (n ∷ message) fresh) message
          (drop (length (n ∷ message)) fresh) refl
          (omega (arith, length-append message (drop (length (n ∷ message)) fresh))) in
      (w', p ∙ rw (high, low, read, some_size) refl, q)

  -- A message of 128 to 16,383 bytes whose datagram fits into the buffer and waits first at the socket. On
  -- Windows, where a call of `recv` with MSG_WAITALL fails on a socket for datagrams: the second byte of the
  -- length is asked of the system, so the result is false without a message, and the socket is closed.
  -- Elsewhere such a datagram, and also one of a shorter message, makes the function read through an
  -- overwritten pointer, which is undefined.
  pub default_udp_recv_long :
      (message source : Bytes) (w : net.World) (d : Datagram) (ds : List Datagram)
      → ((w' : net.World) → (net.recv sock 1 w').0 ≡ recv_failed)
      → waiting w ≡ d ∷ ds
      → d.bytes ≡ udp_buf message
      → length message < 16_384
      → length message + 2 ≤ limits.max_udp_message_size
      → (128 ≤ length message
          → (w' : net.World) × (default_udp_recv net sock windows limits fresh source w
              ≡ done ((false, source, []), net.close sock w')))
        × (default_udp_recv net sock other limits fresh source w ≡ fault)
  unfolding read_length udp_buf
  default_udp_recv_long message source w d ds unsupported waits f small fits =
      let n = length message in
      (
        λ big.
            let (w', p, q) =
              recvfrom_whole (n / 128 + 128) (n % 128 ∷ message) source w d ds waits
                (f ∙ rw (long_header n big small) refl) (omega arith) in
            let high : (bit_and (n / 128 + 128) 0b10000000 == 0) ≡ false =
              ground (arith, bit_and_128 (n / 128 + 128) (omega arith)) in
            ((net.recv sock 1 w').1, p ∙ rw (read_length, high, unsupported w') refl),
        elim (Bool-cases (ltb n 128)) [
          | inl little ↦
              recvfrom_elsewhere n message source w d ds waits
                (f ∙ rw (short_header n (ground arith)) refl) (omega arith)
          | inr big ↦
              recvfrom_elsewhere (n / 128 + 128) (n % 128 ∷ message) source w d ds waits
                (f ∙ rw (long_header n (ground arith) small) refl) (omega arith)
        ],
      )
