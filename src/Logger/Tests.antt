-- ===== src/Logger/Tests.antt =====
-- Runs of the logger, and the theorems on them.
use easy_network.Base.{◌≡◌, refl, true, false, List, [], ◌∷◌, ◌++◌, map, codes, All, done, fault}
use easy_network.Logger.{
  LogLevels, info, hint, error, is_on, LogFile, Logger, file_of, set_file, write_file, coloured,
  set_level_file, after_open, warn_wrong, set_log_levels_file, default_log_func,
}
use easy_network.Logger.Writes.{
  Entry, line, shown, IsOn, log_all, with_lines, lines_of, log_all_lem, log_all_faults,
}

abbrev no_file : LogFile
no_file = record { file_name = []; is_open = false; written = [] }

abbrev quiet : Logger
quiet = record {
  enabled_log_levels = 0b1001;
  logger_mtx = false;
  cerr = [];
  info_file = no_file;
  hint_file = no_file;
  warning_file = no_file;
  error_file = record { file_name = codes "e"; is_open = true; written = [] };
}

abbrev entries : List Entry
entries = (codes "now", info, codes "a") ∷ (codes "then", error, codes "b") ∷ []

entries-IsOn : All (IsOn 0b1001) entries
unfolding is_on
entries-IsOn = (refl, (refl, tt))

hint_off : is_on 0b1001 hint ≡ false
unfolding is_on
hint_off = refl

log_all_lem_example :
    (lg' : Logger) × (log_all entries quiet ≡ done lg')
    × (lg'.logger_mtx ≡ false)
    × (lg'.enabled_log_levels ≡ 0b1001)
    × (lg'.cerr ≡ [] ++ map (λ e. shown e.1 (line e)) entries)
    × ((level : LogLevels)
        → file_of level lg' ≡ with_lines (file_of level quiet) (lines_of level entries))
log_all_lem_example = log_all_lem entries quiet entries-IsOn refl

log_all_faults_example : log_all (entries ++ ((codes "now", hint, codes "c") ∷ [])) quiet ≡ fault
log_all_faults_example =
    log_all_faults entries [] (codes "now", hint, codes "c") quiet entries-IsOn hint_off refl

-- SetLogLevelsFile for the errors and the hints, where only the file for the errors can be opened: the
-- message of the failure is written to std::cerr, and the hints have no file.
set_log_levels_file_run :
    (set_log_levels_file
      (default_log_func (codes "now"))
      (λ level. elim level [ error ↦ true | _ ↦ false ])
      0b1010
      (codes "f")
      quiet)
    ≡ done (record quiet {
      cerr =
          coloured error (codes "now [error] Failed to create log level hint log file with name: f")
          ∷ [];
      hint_file = no_file;
      error_file = record { file_name = codes "f"; is_open = true; written = [] };
    })
unfolding set_log_levels_file set_level_file after_open warn_wrong is_on set_file file_of write_file
    default_log_func
set_log_levels_file_run = refl
