-- ===== src/Status.antt =====
-- `DefaultDownloadStatusFunction` of EN_Functions.cpp, as the text that it prints.
pub mod Text
use easy_network.Base.{
  ℕ, ◌+◌, ◌*◌, ◌/◌, ◌%◌, ◌^◌, Bool, true, false, ◌&&◌, [], ◌∷◌, ◌++◌, Bytes, codes, replicate, ltb,
  ◌==◌, if◌then◌else◌,
}
use easy_network.Number.{to_string}

-- The name of a measure and its size in bytes.
abbrev pub measure : ℕ → Bytes × ℕ
measure n = if ltb (1024 * 1024) n then (codes "MB", 1024 * 1024) else (codes "KB", 1024)

-- `Eta`, after its three tests.
unfoldable pub eta_text : ℕ → Bytes
eta_text eta =
    let seconds = if ltb eta 60 then to_string eta ++ codes " s" else [] in
    let minutes =
      if ltb 60 eta && ltb eta 3600 then to_string (eta / 60) ++ codes " m" else seconds in
    if ltb 3600 eta
    then to_string (eta / 3600) ++ (codes " h " ++ (to_string (eta % 3600 / 60) ++ codes " m"))
    else minutes

-- `100 * transferedBytes / fileSize` on 64 bits.
unfoldable pub percent : ℕ → ℕ → ℕ
percent transfered_bytes file_size = 100 * transfered_bytes % 2 ^ 64 / file_size

-- Both texts of an amount: the number in its measure, and the name.
abbrev pub amount : ℕ → Bytes × ℕ → Bytes
amount n m = to_string (n / m.1) ++ (codes " " ++ m.0)

pub default_download_status_function : ℕ → ℕ → ℕ → ℕ → Bytes
default_download_status_function transfered_bytes file_size transmission_speed transmission_eta =
    let all_measure = measure file_size in
    let line =
      (13 ∷ codes "Downloaded: ")
      ++ (amount transfered_bytes all_measure
          ++ (codes " All: "
              ++ (amount file_size all_measure
                  ++ (codes " "
                      ++ (to_string (percent transfered_bytes file_size)
                          ++ (codes " %  Speed : "
                              ++ (amount transmission_speed (measure transmission_speed)
                                  ++ (codes "/s ETA : "
                                      ++ (eta_text transmission_eta ++ replicate 21 b' '))))))))) in
    let end =
      if transfered_bytes == file_size
      then (10 ∷ codes "End file transfering") ++ (10 ∷ [])
      else [] in
    if file_size == 0 then [] else line ++ end
