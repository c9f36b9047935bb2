-- ===== src/Transfer/Recv.antt =====
-- `RecvFile`, `GetFileNameFromFullFilePath` and the files that they create.
pub mod Loop
pub mod Naming
pub mod Whole
pub mod EndToEnd
use easy_network.Base.{
  ℕ, zero, suc, ◌+◌, ◌-◌, ◌<◌, Bool, true, false, not, Option, none, some, List, [], ◌∷◌, ◌++◌,
  Bytes, codes, length, take, drop, ltb, ◌==◌, if◌then◌else◌, Run, done, fault, stuck, ◌>>=◌, ◌%◌,
  ◌^◌,
}
use easy_network.Net.{Sockets, RecvResult, got, recv_failed}
use easy_network.Number.{
  to_string, string_to_int, greatest_unsigned_long, converted, refused, out_of_range,
}
use easy_network.Tcp.{Limits, default_tcp_send, default_tcp_recv}
use easy_network.Text.{split}
use easy_network.Transfer.{buf_len, sub64, Status, set_file_size, finish, Env, report, report_all}
use easy_network.Transfer.Send.{bytes_eq}

-- The files that the process can open for reading, by name.
abbrev pub Files : Type 0
Files = Bytes → Option Bytes

unfoldable pub put_file : Bytes → Option Bytes → Files → Files
put_file name content fs other = if bytes_eq name other then content else fs other

-- Whether the file can be opened for reading; a file that exists and cannot be opened is not in `Files`.
unfoldable pub is_file_exist : Files → Bytes → Bool
is_file_exist fs name = elim (fs name) [ none ↦ false | some content ↦ true ]

-- `std::string::rfind` of one byte.
unfoldable pub rfind : ℕ → Bytes → Option ℕ
rfind c [] = none
rfind c (x ∷ s) = elim (rfind c s) [
  | some i ↦ some (suc i)
  | none ↦ if x == c then some 0 else none
]

-- On Linux; -1 + 1 is 0 where there is no slash.
pub get_file_name_from_full_file_path : Bytes → Bytes
get_file_name_from_full_file_path name = elim (rfind b'/' name) [
  | none ↦ name
  | some i ↦ drop (suc i) name
]

unfoldable pub numbered : Bytes → Bytes → ℕ → Bytes
numbered stem extension i = stem ++ (codes " (" ++ (to_string i ++ (codes ")" ++ extension)))

-- `while (IsFileExist(name + " (" + std::to_string(i) + ")" + type)) i += 1;` on fuel.
unfoldable pub unused_number : ℕ → Files → Bytes → Bytes → ℕ → Run ℕ
unused_number zero fs stem extension i = stuck
unused_number (suc fuel) fs stem extension i =
    let next = unused_number fuel fs stem extension (i + 1) in
    if is_file_exist fs (numbered stem extension i) then next else done i

-- The part before the last dot, and the rest.
unfoldable pub stem_and_extension : Bytes → Bytes × Bytes
stem_and_extension name = elim (rfind b'.' name) [
  | none ↦ (name, [])
  | some i ↦ (take i name, drop i name)
]

-- "Check if it was file with same name"
unfoldable pub new_file_name : ℕ → Files → Bytes → Run Bytes
new_file_name fuel fs name =
    let (stem, extension) = stem_and_extension name in
    let other = (do i ← unused_number fuel fs stem extension 1; done (numbered stem extension i)) in
    if is_file_exist fs name then other else done name

-- `rename`: the new name takes the content, and the old one is gone.
pub rename : Bytes → Bytes → Files → Files
rename old new fs = put_file new (fs old) (put_file old none fs)

-- How the receiving part ended: what it returned, the status, the content of the .tmp file, and
-- whether it stored false into IsStop.
pub record Exit : Type 0 where
  pub result : Bool
  pub status : Status
  pub file : Bytes
  pub stop_reset : Bool

-- `receivedBytes == SendFileBufLen`
pub full_buffer : RecvResult → Option Bytes
full_buffer (got bs) = if length bs == buf_len then some bs else none
full_buffer recv_failed = none

module _ (net : Sockets) (sock : ℕ) (env : Env) where
  -- From the label RecvLittleFile on, up to the closing of the file.
  pub recv_last : ℕ → ℕ → Bytes → Status → net.World → Exit × net.World
  recv_last size received file st w =
      let (r, w') = net.recv sock buf_len w in
      elim (full_buffer r) [
        | none ↦ (
          record { result = false; status = finish false st; file = file; stop_reset = false },
          w',
        )
        | some bs ↦ (
          record {
            result = true;
            status = report_all size st;
            file = file ++ take (sub64 size received) bs;
            stop_reset = false;
          },
          w',
        )
      ]

  -- The loop, on fuel: `received` is `receivedMessageSize`, `before` is `previoslySendedBytes`.
  pub recv_loop : ℕ → ℕ → ℕ → ℕ → ℕ → ℕ → Bytes → Status → net.World → Run (Exit × net.World)
  recv_loop zero size before i received last file st w = stuck
  recv_loop (suc fuel) size before i received last file st w =
      let (r, w') = net.recv sock buf_len w in
      let received' = received + buf_len in
      let (st', last') =
        report (env.asleep i) size received' last ((before + received') % 2 ^ 64) st in
      let after = elim (full_buffer r) as (λ o. Run (Exit × net.World)) [
        | none ↦ done (
          record { result = false; status = finish false st; file = file; stop_reset = false },
          w',
        )
        | some bs ↦ recv_loop fuel size before (i + 1) received' last' (file ++ bs) st' w'
      ] in
      if ltb received (size - buf_len)
      then if env.stop i
        then done
            (record { result = false; status = finish false st; file = file; stop_reset = true }, w)
        else after
      else done (recv_last size received file st w)

  pub recv_content : ℕ → ℕ → ℕ → Bytes → Status → net.World → Run (Exit × net.World)
  recv_content fuel size before file st w =
      let looped = recv_loop fuel size before 0 0 0 file st w in
      if ltb size buf_len then done (recv_last size 0 file st w) else looped

-- The outcome of `RecvFile`: `returned` with its result, the status, the files, whether IsStop was
-- reset, and the world; `thrown` where StringToInt lets an exception through.
pub data Outcome (World : Type 0) : Type 0 where
  returned : Bool → Status → Files → Bool → World → Outcome World
  thrown : Status → Files → World → Outcome World

module _ (net : Sockets) (sock : ℕ) (env : Env) (limits : Limits) (opens : Bytes → Bool) where
  pub refuse : Status → Files → net.World → Outcome net.World
  refuse st fs w =
      returned false (finish false st) fs false (default_tcp_send net limits sock (codes "bad") w).1

  -- The .tmp file is renamed after a success; else it stays with what has arrived.
  pub store : ℕ → Bytes → Exit → Files → net.World → Run (Outcome net.World)
  store fuel name x fs w =
      let fs' = put_file (name ++ codes ".tmp") (some x.file) fs in
      let renamed = (do
        new_name ← new_file_name fuel fs' name
        done (
            returned true (finish true x.status) (rename (name ++ codes ".tmp") new_name fs') false
              w)) in
      if x.result then renamed else done (returned false x.status fs' x.stop_reset w)

  pub recv_named : ℕ → Bytes → ℕ → ℕ → Status → Files → net.World → Run (Outcome net.World)
  recv_named fuel name before size st fs w =
      let st' = set_file_size size st in
      let old = elim (fs (name ++ codes ".tmp")) as (λ o. Bytes) [ none ↦ [] | some bs ↦ bs ] in
      let accepted = (do
        (x, w') ←
            recv_content net sock env fuel size before old st'
              (default_tcp_send net limits sock (codes "ok") w).1
        store fuel name x fs w') in
      if opens (name ++ codes ".tmp") then accepted else done (refuse st' fs w)

  pub recv_announced :
      ℕ → (Bytes → Bytes) → List Bytes → Status → Files → net.World → Run (Outcome net.World)
  recv_announced fuel name_function (name ∷ before ∷ following ∷ []) st fs w =
      elim (string_to_int greatest_unsigned_long before) [
        | refused ↦ done (refuse st fs w)
        | out_of_range ↦ done (thrown st fs w)
        | converted b ↦ elim (string_to_int greatest_unsigned_long following) [
          | refused ↦ done (refuse st fs w)
          | out_of_range ↦ done (thrown st fs w)
          | converted size ↦ recv_named fuel (name_function name) b size st fs w
        ]
      ]
  recv_announced fuel name_function [] st fs w = fault
  recv_announced fuel name_function _ st fs w = done (refuse st fs w)

  pub recv_file : ℕ → (Bytes → Bytes) → Status → Files → net.World → Run (Outcome net.World)
  recv_file fuel name_function st fs w = elim (default_tcp_recv net fuel limits sock [] w) [
    | none ↦ stuck
    | some ((false, info), w') ↦ done (returned false (finish false st) fs false w')
    | some ((true, info), w') ↦ do
      infos ← split fuel info (codes " ")
      recv_announced fuel name_function infos st fs w'
  ]
