-- ===== src/Transfer/Send.antt =====
-- `SendFile`.
pub mod Loop
pub mod Whole
use easy_network.Base.{
  ℕ, zero, suc, ◌+◌, ◌-◌, Bool, true, false, not, ◌&&◌, ◌||◌, Option, none, some, [], ◌∷◌, ◌++◌,
  Bytes, codes, length, drop, ltb, ◌==◌, if◌then◌else◌,
}
use easy_network.Net.{Sockets}
use easy_network.Number.{to_string}
use easy_network.Tcp.{Limits, default_tcp_send, default_tcp_recv}
use easy_network.Transfer.{
  buf_len, sub64, Status, set_file_size, finish, Env, report, report_all, read_into, is_full,
}

-- `==` of two std::strings.
unfoldable pub bytes_eq : Bytes → Bytes → Bool
bytes_eq [] [] = true
bytes_eq (a ∷ s) (b ∷ t) = a == b && bytes_eq s t
bytes_eq _ _ = false

-- The message that announces a file: its name, the bytes sent before, and the bytes that follow.
unfoldable pub file_info : Bytes → ℕ → ℕ → Bytes
file_info name before following =
    name ++ (codes " " ++ (to_string before ++ (codes " " ++ to_string following)))

module _ (net : Sockets) (sock : ℕ) (env : Env) where
  -- From the label SendLittleFile on: the last chunk.
  pub send_last : Bytes → ℕ → Bytes → Status → net.World → (Bool × Status) × net.World
  send_last content position buf st w =
      let (r, w') = net.send sock (read_into buf (drop position content)) w in
      if is_full r
      then ((true, finish true (report_all (length content) st)), w')
      else ((false, finish false st), w')

  -- The loop, on fuel; `i` counts the rounds, and `position` is `sendedMessageSize`.
  pub send_loop :
      ℕ → Bytes → ℕ → ℕ → ℕ → Bytes → Status → net.World → Option ((Bool × Status) × net.World)
  send_loop zero content i position last buf st w = none
  send_loop (suc fuel) content i position last buf st w =
      let buf' = read_into buf (drop position content) in
      let (r, w') = net.send sock buf' w in
      let position' = position + buf_len in
      let (st', last') = report (env.asleep i) (length content) position' last position' st in
      let next = send_loop fuel content (i + 1) position' last' buf' st' w' in
      if ltb position (length content - buf_len)
      then if env.stop i
        then some ((false, finish false st), w)
        else if is_full r
        then next
        else some ((false, finish false st), w')
      else some (send_last content position buf st w)

  -- After the receiving party accepted.
  pub send_content :
      ℕ → Bytes → ℕ → Bytes → Status → net.World → Option ((Bool × Status) × net.World)
  send_content fuel content before buf st w =
      let st' = set_file_size (length content) st in
      let looped = send_loop fuel content 0 before 0 buf st' w in
      if ltb (length content) buf_len then some (send_last content before buf st' w) else looped

  -- `content` is what the file holds, if it can be opened; `buf` what the new buffer happens to hold.
  pub send_file :
      Limits
      → ℕ
      → Bytes
      → Option Bytes
      → ℕ
      → Bytes
      → Status
      → net.World
      → Option ((Bool × Status) × net.World)
  send_file limits fuel name none before buf st w = some ((false, finish false st), w)
  send_file limits fuel name (some content) before buf st w =
      let info = file_info name before (sub64 (length content) before) in
      let (announced, w₁) = default_tcp_send net limits sock info w in
      let answer = default_tcp_recv net fuel limits sock [] w₁ in
      if announced
      then elim answer [
        | none ↦ none
        | some ((arrived, reply), w₂) ↦
            let rest = send_content fuel content before buf st w₂ in
            if not arrived || bytes_eq reply (codes "bad")
            then some ((false, finish false st), w₂)
            else rest
      ]
      else some ((false, finish false st), w₁)
