-- ===== src/Transfer/Forward.antt =====
-- `ForwardFile` of EN_Functions.cpp: a file goes from one socket to another without being stored.
pub mod Loop
use easy_network.Base.{
  ℕ, zero, suc, ◌+◌, ◌-◌, ◌≤◌, Bool, true, false, Option, none, some, List, [], ◌∷◌, Bytes, codes,
  ltb, Run, done, fault, stuck, ◌>>=◌, if◌then◌else◌,
}
use easy_network.Net.{Sockets}
use easy_network.Number.{
  string_to_int, greatest_unsigned_long, Conversion, converted, refused, out_of_range,
}
use easy_network.Tcp.{Limits, default_tcp_send, default_tcp_recv}
use easy_network.Text.{split}
use easy_network.Transfer.{buf_len, Status, set_file_size, finish, Env, report, report_all, is_full}
use easy_network.Transfer.Recv.{full_buffer}

-- The outcome: `forwarded` with the result, the status and whether IsStop was reset; `escaped` where
-- StringToInt lets an exception through.
pub data Forwarding : Type 0 where
  forwarded : Bool → Status → Bool → Forwarding
  escaped : Status → Forwarding

module _ (net : Sockets) (source destination : ℕ) (env : Env) (limits : Limits) where
  -- One `recv` and one `send` of a full buffer; false where one of them falls short.
  pub forward_buffer : net.World → Bool × net.World
  forward_buffer w =
      let (r, w') = net.recv source buf_len w in
      elim (full_buffer r) [
        | none ↦ (false, w')
        | some bs ↦ (is_full (net.send destination bs w').0, (net.send destination bs w').1)
      ]

  -- From the label RecvLittleFile on.
  pub forward_last : ℕ → Status → net.World → Forwarding × net.World
  forward_last size st w =
      let (ok, w') = forward_buffer w in
      if ok
      then (forwarded true (finish true (report_all size st)) false, w')
      else (forwarded false (finish false st) false, w')

  -- The loop, on fuel; `i` counts the rounds.
  pub forward_loop : ℕ → ℕ → ℕ → ℕ → ℕ → Status → net.World → Run (Forwarding × net.World)
  forward_loop zero size i received last st w = stuck
  forward_loop (suc fuel) size i received last st w =
      let (ok, w') = forward_buffer w in
      let received' = received + buf_len in
      let (st', last') = report (env.asleep i) size received' last received' st in
      let next = forward_loop fuel size (i + 1) received' last' st' w' in
      if ltb received (size - buf_len)
      then if env.stop i
        then done (forwarded false (finish false st) true, w)
        else if ok
        then next
        else done (forwarded false (finish false st) false, w')
      else done (forward_last size st w)

  pub forward_content : ℕ → ℕ → Status → net.World → Run (Forwarding × net.World)
  forward_content fuel size st w =
      let st' = set_file_size size st in
      let looped = forward_loop fuel size 0 0 0 st' w in
      if ltb size buf_len then done (forward_last size st' w) else looped

  -- `Split(fileInfo)[1]`, a read out of range where there is one part at most.
  pub forward_announced : ℕ → List Bytes → Status → net.World → Run (Forwarding × net.World)
  forward_announced fuel (name ∷ second ∷ others) st w =
      elim (string_to_int greatest_unsigned_long second) [
        | refused ↦ done (forwarded false (finish false st) false, w)
        | out_of_range ↦ done (escaped st, w)
        | converted size ↦ forward_content fuel size st w
      ]
  forward_announced fuel (name ∷ []) st w = fault
  forward_announced fuel [] st w = fault

  pub forward_file : ℕ → Status → net.World → Run (Forwarding × net.World)
  forward_file fuel st w = elim (default_tcp_recv net fuel limits source [] w) [
    | none ↦ stuck
    | some ((false, info), w') ↦ done (forwarded false (finish false st) false, w')
    | some ((true, info), w') ↦
        let (ok, w'') = default_tcp_send net limits destination info w' in
        let announced = (do
          infos ← split fuel info (codes " ")
          forward_announced fuel infos st w'') in
        if ok then announced else done (forwarded false (finish false st) false, w'')
  ]
