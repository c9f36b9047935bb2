-- ===== src/Net.antt =====
-- The operating system's stream sockets, which the library calls and does not implement:
-- `send`, `recv` with MSG_WAITALL, and what `CloseSocket` (EN_Functions.cpp) does to a socket.
pub mod Pipe
use easy_network.Base.{ℕ, ◌≤◌, ◌<◌, ◌≡◌, [], ◌∷◌, ◌++◌, arith, Bytes, length, take, drop}

-- What `send` returns: the number of bytes taken, or -1.
pub data SendResult : Type 0 where
  sent : ℕ → SendResult
  send_failed : SendResult

-- What `recv` returns, with the bytes that it put into the buffer; no byte at the end of the stream.
pub data RecvResult : Type 0 where
  got : Bytes → RecvResult
  recv_failed : RecvResult

-- A call takes a socket and the state of the world outside the process.
pub record Sockets : Type 1 where
  pub World : Type 0
  pub send : ℕ → Bytes → World → SendResult × World
  pub recv : ℕ → ℕ → World → RecvResult × World
  pub close : ℕ → World → World

-- A `recv` with MSG_WAITALL that returns fewer bytes than were asked for.
abbrev pub IsShort : ℕ → RecvResult → Type 0
IsShort n (got bs) = length bs < n
IsShort n recv_failed = Unit

-- What the manual pages say of a connected pair: `from` writes, `to` reads the same bytes in order.
-- `unread` is what has been written and not yet read.
pub record IsStream (net : Sockets) (from to : ℕ) : Type 0 where
  pub unread : net.World → Bytes
  pub send_takes :
      (bs : Bytes) (w : net.World) (n : ℕ)
      → (net.send from bs w).0 ≡ sent n
      → (n ≤ length bs) × (unread (net.send from bs w).1 ≡ unread w ++ take n bs)
  pub recv_full :
      (n : ℕ) (w : net.World)
      → n ≤ length (unread w)
      → ((net.recv to n w).0 ≡ got (take n (unread w)))
        × (unread (net.recv to n w).1 ≡ drop n (unread w))
  pub recv_short : (n : ℕ) (w : net.World) → length (unread w) < n → IsShort n (net.recv to n w).0

-- A `recv` of one byte.
pub recv_one :
    (net : Sockets) {from to : ℕ} (s : IsStream net from to) (w : net.World) (b : ℕ) (rest : Bytes)
    → s.unread w ≡ b ∷ rest
    → ((net.recv to 1 w).0 ≡ got (b ∷ [])) × (s.unread (net.recv to 1 w).1 ≡ rest)
recv_one net s w b rest e =
    let (p, q) = s.recv_full 1 w (rw e (omega arith)) in (rw e at p, rw e at q)
