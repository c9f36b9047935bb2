-- ===== src/Http.antt =====
-- experimental/EN_HTTP_Server.cpp: how a request is read from the socket, and how it is taken apart.
pub mod Recv
pub mod Lines
pub mod Parse
pub mod Respond
pub mod Handler
mod Tests
use easy_network.Base.{
  ℕ, zero, suc, ◌+◌, ◌-◌, ◌%◌, ◌^◌, Bool, true, false, ◌&&◌, Option, none, some, List, [], ◌∷◌,
  ◌++◌, Bytes, length, take, drop, ltb, ◌==◌, if◌then◌else◌, Run, done, fault, stuck, ◌>>=◌,
}
use easy_network.Net.{Sockets, got, recv_failed, sent, send_failed}
use easy_network.Text.{split}
use easy_network.Transfer.Send.{bytes_eq}

-- "\r\n" and "\r\n\r\n".
abbrev pub line_end : Bytes
line_end = 13 ∷ 10 ∷ []

abbrev pub request_end : Bytes
request_end = 13 ∷ 10 ∷ 13 ∷ 10 ∷ []

-- The test after a byte was read: `first` is firstLastChar, and so on.
abbrev pub is_request_end : Bytes → ℕ → ℕ → ℕ → ℕ → Bool
is_request_end message first second third fourth =
    ltb 4 (length message) && (fourth == 13 && (third == 10 && (second == 13 && first == 10)))

module _ (net : Sockets) where
  -- The loop of `HTTP_Recv`, on fuel; the message is an out-parameter.
  unfoldable pub recv_loop :
      ℕ → ℕ → Bytes → ℕ → ℕ → ℕ → net.World → Option ((Bool × Bytes) × net.World)
  recv_loop zero sock message second third fourth w = none
  recv_loop (suc fuel) sock message second third fourth w =
      let (r, w') = net.recv sock 1 w in
      elim r [
        | got (b ∷ bs) ↦
            let message' = message ++ (b ∷ []) in
            let rest = recv_loop fuel sock message' b second third w' in
            if is_request_end message' b second third fourth
            then some ((true, take (length message' - 4) message'), w')
            else rest
        | got [] ↦ some ((false, message), w')
        | recv_failed ↦ some ((false, message), w')
      ]

  unfoldable pub http_recv : ℕ → ℕ → net.World → Option ((Bool × Bytes) × net.World)
  http_recv fuel sock w = recv_loop fuel sock [] 0 0 0 w

-- `find(":")`: the position of the first colon, or npos.
abbrev pub npos : ℕ
npos = 2 ^ 64 - 1

unfoldable pub find_colon : Bytes → ℕ → ℕ
find_colon [] i = npos
find_colon (c ∷ s) i = let rest = find_colon s (i + 1) in if c == 58 then i else rest

-- `substr` throws std::out_of_range (`none`) where `pos` is beyond the end.
unfoldable pub substr : Bytes → ℕ → ℕ → Option Bytes
substr s pos count = if ltb (length s) pos then none else some (take count (drop pos s))

-- A std::map from names to values.
abbrev pub Params : Type 0
Params = List (Bytes × Bytes)

unfoldable pub find_param : Bytes → Params → Option Bytes
find_param k [] = none
find_param k (p ∷ ps) = let rest = find_param k ps in if bytes_eq p.0 k then some p.1 else rest

-- `insert` leaves a name that is there as it is.
unfoldable pub insert_param : Bytes → Bytes → Params → Params
insert_param name val ps = elim (find_param name ps) [
  | none ↦ ps ++ ((name, val) ∷ [])
  | some v ↦ ps
]

-- One line, with the position of its colon.
unfoldable pub parse_at : ℕ → Bytes → Params → Option Params
parse_at divider line ps = elim (substr line 0 divider) [
  | none ↦ none
  | some name ↦ elim (substr line ((divider + 2) % 2 ^ 64) npos) [
    | none ↦ none
    | some val ↦ some (insert_param name val ps)
  ]
]

unfoldable pub parse_line : Bytes → Params → Option Params
parse_line line ps = parse_at (find_colon line 0) line ps

unfoldable pub parse_lines : List Bytes → Params → Option Params
parse_lines [] ps = some ps
parse_lines (line ∷ lines) ps = elim (parse_line line ps) [
  | none ↦ none
  | some ps' ↦ parse_lines lines ps'
]

abbrev pub with_header : Bytes → Option Params → Run (Option (Bytes × Params))
with_header header none = done none
with_header header (some ps) = done (some (header, ps))

-- The body after `Split`, with its read of `parsedRequestVec[0]`.
abbrev pub parse_request_lines : List Bytes → Run (Option (Bytes × Params))
parse_request_lines [] = fault
parse_request_lines (header ∷ others) = with_header header (parse_lines (header ∷ others) [])

-- The header line and the parameters; `none` where a std::out_of_range leaves the function.
unfoldable pub parse_http_request : ℕ → Bytes → Run (Option (Bytes × Params))
parse_http_request fuel request = do lines ← split fuel request line_end; parse_request_lines lines
