-- ===== src/Http/Respond.antt =====
-- `SendResponce` of experimental/EN_HTTP_Server.cpp: the head of the response and then a file in chunks.
pub mod Sends
use easy_network.Base.{
  ℕ, zero, suc, ◌+◌, ◌-◌, ◌*◌, ◌^◌, ◌≤◌, ◌<◌, ◌≡◌, refl, sym, ap, ◌∙◌, Bool, true, false, Option,
  none, some, [], ◌∷◌, ◌++◌, arith, append_assoc, append-nil, Bytes, length, length-append,
  length-take, length-drop, take, drop, take-append, take_all, drop_all, drop-drop,
  take-append-drop, Bool-cases, inl, inr, ltb, ◌==◌, if◌then◌else◌,
}
use easy_network.Net.{Sockets, SendResult, sent, send_failed, IsStream}
use easy_network.TcpServer.{Server, Host, find_socket, send_to_client}

-- CHUNK_SIZE
abbrev pub chunk_size : ℕ
chunk_size = 4096

-- `tellg` at the end of the file; it is -1 for a file that could not be opened (`none`).
abbrev pub file_size : Option Bytes → ℕ
file_size none = 2 ^ 64 - 1
file_size (some content) = length content

-- `file.read(fileDataChunk, n)` after `counter` bytes; nothing is read from a file that is not open.
unfoldable pub read_file : Option Bytes → ℕ → ℕ → Bytes → Bytes
read_file none counter n buf = buf
read_file (some content) counter n buf =
    let bytes = take n (drop counter content) in bytes ++ drop (length bytes) buf

unfoldable pub is_chunk : SendResult → Bool
is_chunk (sent n) = n == chunk_size
is_chunk send_failed = false

-- How the loop ends: with `counter` and `fileDataChunk`, by its return, or not within the fuel.
pub data LoopEnd : Type 0 where
  finished : ℕ → Bytes → LoopEnd
  returned : LoopEnd
  unfinished : LoopEnd

module _ (net : Sockets) where
  unfoldable pub responce_loop : ℕ → ℕ → Option Bytes → ℕ → Bytes → net.World → LoopEnd × net.World
  responce_loop zero sock file counter buf w = (unfinished, w)
  responce_loop (suc fuel) sock file counter buf w =
      let buf' = read_file file counter chunk_size buf in
      let (r, w') = net.send sock buf' w in
      let rest = responce_loop fuel sock file (counter + chunk_size) buf' w' in
      if ltb counter (file_size file - chunk_size)
      then if is_chunk r then rest else (returned, w')
      else (finished counter buf, w)

  -- The test of the size, and the loop.
  abbrev pub send_chunks : ℕ → ℕ → Option Bytes → Bytes → net.World → LoopEnd × net.World
  send_chunks fuel sock file buf w =
      let looped = responce_loop fuel sock file 0 buf w in
      if ltb chunk_size (file_size file) then looped else (finished 0 buf, w)

  -- The last bytes of the file.
  abbrev pub send_rest : ℕ → Option Bytes → LoopEnd × net.World → Option net.World
  send_rest sock file (finished counter buf, w) =
      let n = file_size file - counter in
      some (net.send sock (take n (read_file file counter n buf)) w).1
  send_rest sock file (returned, w) = some w
  send_rest sock file (unfinished, w) = none

  -- `buf` is what stands in the array at first, which the code leaves uninitialised.
  unfoldable pub send_responce :
      Host net.World
      → Server net.World
      → ℕ
      → ℕ
      → Bytes
      → Option Bytes
      → Bytes
      → net.World
      → Option net.World
  send_responce host sv fuel sock responce file buf w =
      send_rest sock file
        (send_chunks fuel sock file buf (send_to_client host sock responce sv w).1)
