-- ===== src/Logger/Writes.antt =====
-- What `DefaultLogFunc` does with a message.
use easy_network.Base.{
  ℕ, ◌≡◌, refl, ap, ◌∙◌, Bool, true, false, List, [], ◌∷◌, ◌++◌, Bytes, codes, if◌then◌else◌, Run,
  done, fault, stuck, ◌>>=◌, map, append_assoc, append-nil, All, sym, subst, Bool-cases, inl, inr,
}
use easy_network.Logger.{
  LogLevels, info, hint, warning, error, is_on, LogFile, Logger, file_of, set_file, write_file,
  write, default_log_func,
}

-- A message with its date and time, and the line that is written for it.
abbrev pub Entry : Type 0
Entry = Bytes × LogLevels × Bytes

abbrev pub word : LogLevels → Bytes
word info = codes "info"
word hint = codes "hint"
word warning = codes "warning"
word error = codes "error"

abbrev pub line : Entry → Bytes
line (stamp, level, message) = stamp ++ (codes " [" ++ (word level ++ (codes "] " ++ message)))

-- A line as a terminal gets it: an escape sequence sets the colour of the level, light blue for a hint,
-- yellow for a warning and red for an error, and another one resets it.
abbrev pub escape : List ℕ → Bytes
escape digits = (0x1b ∷ b'[' ∷ []) ++ (digits ++ (b'm' ∷ []))

abbrev pub shown : LogLevels → Bytes → Bytes
shown info msg = msg
shown hint msg = escape (b'9' ∷ b'4' ∷ []) ++ (msg ++ escape (b'0' ∷ []))
shown warning msg = escape (b'3' ∷ b'3' ∷ []) ++ (msg ++ escape (b'0' ∷ []))
shown error msg = escape (b'3' ∷ b'1' ∷ []) ++ (msg ++ escape (b'0' ∷ []))

abbrev pub same_level : LogLevels → LogLevels → Bool
same_level info info = true
same_level hint hint = true
same_level warning warning = true
same_level error error = true
same_level x y = false

-- Messages one after the other.
unfoldable pub log_all : List Entry → Logger → Run Logger
log_all [] lg = done lg
log_all ((stamp, level, message) ∷ es) lg = do
  lg' ← default_log_func stamp level message lg
  log_all es lg'

-- What the messages make of the file of a level.
unfoldable written_to : LogLevels → List Entry → LogFile → LogFile
written_to level [] f = f
written_to level (e ∷ es) f =
    written_to level es (if same_level e.1 level then write_file (line e) f else f)

abbrev pub IsOn : ℕ → Entry → Type 0
IsOn levels e = is_on levels e.1 ≡ true

write-cerr :
    (level : LogLevels) (msg : Bytes) (lg : Logger)
    → (write level msg lg).cerr ≡ lg.cerr ++ (shown level msg ∷ [])
unfolding set_file
write-cerr info msg lg = refl
write-cerr hint msg lg = refl
write-cerr warning msg lg = refl
write-cerr error msg lg = refl

-- The logger after a message that was written.
abbrev after : LogLevels → Bytes → Logger → Logger
after level msg lg = record (write level msg (record lg { logger_mtx = true })) {
  logger_mtx = false;
}

after-levels :
    (level : LogLevels) (msg : Bytes) (lg : Logger)
    → (after level msg lg).enabled_log_levels ≡ lg.enabled_log_levels
unfolding set_file
after-levels info msg lg = refl
after-levels hint msg lg = refl
after-levels warning msg lg = refl
after-levels error msg lg = refl

after-file :
    (level other : LogLevels) (msg : Bytes) (lg : Logger)
    → file_of other (after level msg lg)
      ≡ (if same_level level other then write_file msg (file_of other lg) else file_of other lg)
unfolding file_of set_file
after-file info info msg lg = refl
after-file hint hint msg lg = refl
after-file warning warning msg lg = refl
after-file error error msg lg = refl
after-file level other msg lg = refl

log_enabled :
    (stamp message : Bytes) (level : LogLevels) (lg : Logger)
    → is_on lg.enabled_log_levels level ≡ true
    → lg.logger_mtx ≡ false
    → default_log_func stamp level message lg ≡ done (after level (line (stamp, level, message)) lg)
unfolding set_file default_log_func
log_enabled stamp message info lg e m = rw (default_log_func, e, m) refl
log_enabled stamp message hint lg e m = rw (default_log_func, e, m) refl
log_enabled stamp message warning lg e m = rw (default_log_func, e, m) refl
log_enabled stamp message error lg e m = rw (default_log_func, e, m) refl

log_disabled :
    (stamp message : Bytes) (level : LogLevels) (lg : Logger)
    → is_on lg.enabled_log_levels level ≡ false
    → lg.logger_mtx ≡ false
    → default_log_func stamp level message lg ≡ fault
unfolding default_log_func
log_disabled stamp message level lg e m = rw (default_log_func, e, m) refl

log_all-append :
    (es fs : List Entry) (lg : Logger) → log_all (es ++ fs) lg ≡ (log_all es lg >>= log_all fs)
unfolding log_all
log_all-append [] fs lg = refl
log_all-append ((stamp, level, message) ∷ es) fs lg =
    step (default_log_func stamp level message lg) (log_all-append es fs)
  where
    step :
        (r : Run Logger)
        → ((x : Logger) → log_all (es ++ fs) x ≡ (log_all es x >>= log_all fs))
        → (r >>= log_all (es ++ fs)) ≡ ((r >>= log_all es) >>= log_all fs)
    step (done x) h = h x
    step fault h = refl
    step stuck h = refl

-- The lines of one level.
abbrev pub lines_of : LogLevels → List Entry → List Bytes
lines_of level [] = []
lines_of level (e ∷ es) =
    if same_level e.1 level then line e ∷ lines_of level es else lines_of level es

-- A file with more lines, if it has a name and is open.
abbrev pub with_lines : LogFile → List Bytes → LogFile
with_lines f ls = elim f.file_name [
  | [] ↦ f
  | b ∷ bs ↦ if f.is_open then record f { written = f.written ++ ls } else f
]

written_to_lem :
    (level : LogLevels) (es : List Entry) (name : Bytes) (is_open : Bool) (ls : List Bytes)
    → written_to level es (record { file_name = name; is_open = is_open; written = ls })
      ≡ with_lines
          (record { file_name = name; is_open = is_open; written = ls })
          (lines_of level es)
unfolding written_to write_file
written_to_lem level [] [] is_open ls = refl
written_to_lem level [] (b ∷ bs) true ls =
    ap (λ (t : List Bytes). record { file_name = b ∷ bs; is_open = true; written = t })
      (sym (append-nil ls))
written_to_lem level [] (b ∷ bs) false ls = refl
written_to_lem level (e ∷ es) [] is_open ls = elim (Bool-cases (same_level e.1 level)) [
  | inl z ↦ rw z (written_to_lem level es [] is_open ls)
  | inr z ↦ rw z (written_to_lem level es [] is_open ls)
]
written_to_lem level (e ∷ es) (b ∷ bs) false ls = elim (Bool-cases (same_level e.1 level)) [
  | inl z ↦ rw z (written_to_lem level es (b ∷ bs) false ls)
  | inr z ↦ rw z (written_to_lem level es (b ∷ bs) false ls)
]
written_to_lem level (e ∷ es) (b ∷ bs) true ls = elim (Bool-cases (same_level e.1 level)) [
  | inl z ↦ rw z (
      written_to_lem level es (b ∷ bs) true (ls ++ (line e ∷ []))
      ∙ ap (λ (t : List Bytes). record { file_name = b ∷ bs; is_open = true; written = t })
          (append_assoc ls (line e ∷ []) (lines_of level es)))
  | inr z ↦ rw z (written_to_lem level es (b ∷ bs) true ls)
]

written_all :
    (es : List Entry) (lg : Logger)
    → All (IsOn lg.enabled_log_levels) es
    → lg.logger_mtx ≡ false
    → (lg' : Logger) × (log_all es lg ≡ done lg')
      × (lg'.logger_mtx ≡ false)
      × (lg'.enabled_log_levels ≡ lg.enabled_log_levels)
      × (lg'.cerr ≡ lg.cerr ++ map (λ e. shown e.1 (line e)) es)
      × ((level : LogLevels) → file_of level lg' ≡ written_to level es (file_of level lg))
unfolding log_all written_to
written_all [] lg h m = (lg, refl, m, refl, sym (append-nil lg.cerr), λ level. refl)
written_all ((stamp, level, message) ∷ es) lg (h, hs) m =
    let msg = line (stamp, level, message) in
    let lg₁ = after level msg lg in
    let (lg', p, q, r, c, f) =
      written_all es lg₁ (subst (λ l. All (IsOn l) es) (sym (after-levels level msg lg)) hs) refl in
    (
      lg',
      ap (λ x. x >>= log_all es) (log_enabled stamp message level lg h m) ∙ p,
      q,
      r ∙ after-levels level msg lg,
      c
          ∙ ap (λ (t : List Bytes). t ++ map (λ e. shown e.1 (line e)) es)
              (write-cerr level msg (record lg { logger_mtx = true }))
          ∙ append_assoc lg.cerr (shown level msg ∷ []) (map (λ e. shown e.1 (line e)) es),
      λ other. f other ∙ ap (written_to other es) (after-file level other msg lg),
    )

-- Messages of enabled levels, one after the other: `DefaultLogFunc` returns from each of them with the
-- mutex free again; std::cerr has a line for each, in their order, in the colour of its level, and the
-- file of each level has all lines of that level at its end, if it has a name and is open, and is as it was
-- otherwise. The mutex is free before.
pub log_all_lem :
    (es : List Entry) (lg : Logger)
    → All (IsOn lg.enabled_log_levels) es
    → lg.logger_mtx ≡ false
    → (lg' : Logger) × (log_all es lg ≡ done lg')
      × (lg'.logger_mtx ≡ false)
      × (lg'.enabled_log_levels ≡ lg.enabled_log_levels)
      × (lg'.cerr ≡ lg.cerr ++ map (λ e. shown e.1 (line e)) es)
      × ((level : LogLevels)
          → file_of level lg' ≡ with_lines (file_of level lg) (lines_of level es))
log_all_lem es lg h m =
    let (lg', p, q, r, c, f) = written_all es lg h m in
    (
      lg',
      p,
      q,
      r,
      c,
      λ level.
          let g = file_of level lg in
          f level ∙ written_to_lem level es g.file_name g.is_open g.written,
    )

-- A message of a level that is not enabled, whatever was logged before and after it, unlocks a mutex that
-- is not locked, which C++ leaves undefined; for messages of enabled levels before it and a mutex that
-- is free at first.
pub log_all_faults :
    (es fs : List Entry) (e : Entry) (lg : Logger)
    → All (IsOn lg.enabled_log_levels) es
    → is_on lg.enabled_log_levels e.1 ≡ false
    → lg.logger_mtx ≡ false
    → log_all (es ++ (e ∷ fs)) lg ≡ fault
unfolding log_all
log_all_faults es fs e lg h off m =
    let (lg', p, q, r, c, f) = log_all_lem es lg h m in
    log_all-append es (e ∷ fs) lg
    ∙ ap (λ x. x >>= log_all (e ∷ fs)) p
    ∙ ap (λ x. x >>= log_all fs) (log_disabled e.0 e.2 e.1 lg' (ap (λ l. is_on l e.1) r ∙ off) q)
