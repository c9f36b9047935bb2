-- ===== src/Logger.antt =====
-- EN_Logger.cpp: the default function for messages and the files of the levels.
pub mod Writes
mod Tests
use easy_network.Base.{
  ℕ, Bool, true, false, not, ◌&&◌, List, [], ◌∷◌, ◌++◌, Bytes, codes, ◌==◌, if◌then◌else◌, bit_and,
  Run, done, fault, stuck, ◌>>=◌,
}

pub data LogLevels : Type 0 where
  info : LogLevels
  hint : LogLevels
  warning : LogLevels
  error : LogLevels

-- EN_LOG_LEVEL_INFO and so on.
abbrev pub level_bit : LogLevels → ℕ
level_bit info = 0b0001
level_bit hint = 0b0010
level_bit warning = 0b0100
level_bit error = 0b1000

-- `levels & EN_LOG_LEVEL_…`
unfoldable pub is_on : ℕ → LogLevels → Bool
is_on levels level = not (bit_and levels (level_bit level) == 0)

-- One of the four streams with its name, and the lines written since it was opened.
pub record LogFile : Type 0 where
  pub file_name : Bytes
  pub is_open : Bool
  pub written : List Bytes

-- The global variables; `cerr` is what was written to std::cerr, line by line.
pub record Logger : Type 0 where
  pub enabled_log_levels : ℕ
  pub logger_mtx : Bool
  pub cerr : List Bytes
  pub info_file : LogFile
  pub hint_file : LogFile
  pub warning_file : LogFile
  pub error_file : LogFile

unfoldable pub file_of : LogLevels → Logger → LogFile
file_of info lg = lg.info_file
file_of hint lg = lg.hint_file
file_of warning lg = lg.warning_file
file_of error lg = lg.error_file

unfoldable pub set_file : LogLevels → LogFile → Logger → Logger
set_file info f lg = record lg { info_file = f }
set_file hint f lg = record lg { hint_file = f }
set_file warning f lg = record lg { warning_file = f }
set_file error f lg = record lg { error_file = f }

abbrev pub tag : LogLevels → Bytes
tag info = codes " [info] "
tag hint = codes " [hint] "
tag warning = codes " [warning] "
tag error = codes " [error] "

-- The line for std::cerr, with the codes of the colours outside Windows.
abbrev pub coloured : LogLevels → Bytes → Bytes
coloured info msg = msg
coloured hint msg = (27 ∷ codes "[94m") ++ (msg ++ (27 ∷ codes "[0m"))
coloured warning msg = (27 ∷ codes "[33m") ++ (msg ++ (27 ∷ codes "[0m"))
coloured error msg = (27 ∷ codes "[31m") ++ (msg ++ (27 ∷ codes "[0m"))

-- A line for the file, unless its name is empty; a stream that is not open takes nothing.
unfoldable pub write_file : Bytes → LogFile → LogFile
write_file msg f = elim f.file_name [
  | [] ↦ f
  | b ∷ bs ↦ if f.is_open then record f { written = f.written ++ (msg ∷ []) } else f
]

-- Unlocking a mutex that is not locked is undefined.
abbrev pub unlock : Logger → Run Logger
unlock lg = if lg.logger_mtx then done (record lg { logger_mtx = false }) else fault

-- What stands between the lock and the end of a case.
abbrev pub write : LogLevels → Bytes → Logger → Logger
write level msg lg =
    set_file level (write_file msg (file_of level lg))
      (record lg { cerr = lg.cerr ++ (coloured level msg ∷ []) })

-- `stamp` is the date and the time. A call from the thread that holds the mutex does not return.
unfoldable pub default_log_func : Bytes → LogLevels → Bytes → Logger → Run Logger
default_log_func stamp level log_message lg =
    let msg = stamp ++ (tag level ++ log_message) in
    if is_on lg.enabled_log_levels level
    then if lg.logger_mtx then stuck else unlock (write level msg (record lg { logger_mtx = true }))
    else unlock lg

pub enable_log_levels : ℕ → Logger → Logger
enable_log_levels levels lg = record lg { enabled_log_levels = levels }

-- `log` is LogFunc, and `opens` says for which level the file can be opened.
module _ (log : LogLevels → Bytes → Logger → Run Logger) (opens : LogLevels → Bool) where
  -- After `open`.
  unfoldable pub after_open : LogLevels → Bytes → Bytes → Logger → Run Logger
  after_open level level_name file_name lg =
      if opens level
      then done (set_file level (record { file_name = file_name; is_open = true; written = [] }) lg)
      else do
        lg' ←
            log error
              (codes "Failed to create log level "
                ++ (level_name ++ (codes " log file with name: " ++ file_name)))
              lg
        done (set_file level (record (file_of level lg') { file_name = [] }) lg')

  -- One of the four ifs.
  unfoldable pub set_level_file : ℕ → LogLevels → Bytes → Bytes → Logger → Run Logger
  set_level_file levels level level_name name lg =
      let closed =
        set_file level (record (file_of level lg) { file_name = name; is_open = false }) lg in
      if is_on levels level
      then elim name [
        | [] ↦ log error (codes "Can not create log file with empty name") closed
        | b ∷ bs ↦ after_open level level_name (b ∷ bs) closed
      ]
      else done lg

  -- The last if.
  unfoldable pub warn_wrong : ℕ → Logger → Run Logger
  warn_wrong levels lg =
      if not (is_on levels info)
        && (not (is_on levels hint) && (not (is_on levels warning) && not (is_on levels error)))
      then log warning (codes "Wrong log levels to log files") lg
      else done lg

  unfoldable pub set_log_levels_file : ℕ → Bytes → Logger → Run Logger
  set_log_levels_file levels name lg = do
    lg₁ ← set_level_file levels info (codes "info") name lg
    lg₂ ← set_level_file levels hint (codes "hint") name lg₁
    lg₃ ← set_level_file levels warning (codes "warning") name lg₂
    lg₄ ← set_level_file levels error (codes "error") name lg₃
    warn_wrong levels lg₄
