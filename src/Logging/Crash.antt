-- ===== src/Logging/Crash.antt =====
-- The crash report, the exception hook and `setup_logging` of src/utils/logging.py. What Python
-- gives (the time, the formatted traceback, whether the disk can be written) is an argument; the log
-- file is one that can be opened.
use property_management_lead.Common.{
  ℕ, zero, suc, ◌≡◌, refl, ap, sym, ◌∙◌, Bool, true, false, Option, none, some, List, [], ◌∷◌, ◌++◌,
  length, Text, codes, if◌then◌else◌, arith,
}
use mathlib.Core.List.{append_assoc}
use property_management_lead.Common.Value.{pos, int, Runtime}
use property_management_lead.Logging.Recent.{RecentLogBuffer, new, get_recent}

-- An unhandled exception: `exc_type.__name__`, `exc_value`, `traceback.format_exception(…)`, and
-- whether it is a `KeyboardInterrupt`.
pub record Crash : Type 0 where
  pub type_name : Text
  pub message : Text
  pub traceback : List Text
  pub is_keyboard_interrupt : Bool

-- The handlers of the root logger that the program makes, and any others.
pub data Formatter : Type 0 where
  json_formatter json_like_formatter plain_formatter : Formatter

pub data Handler (Record : Type 0) : Type 0 where
  file_handler : ℕ → Formatter → Text → Handler Record
  stderr_handler : ℕ → Handler Record
  recent_handler : ℕ → Handler Record
  other_handler : Handler Record

-- `sys.excepthook`: Python's own one, or `crash_hook` over the one before.
pub data Hook : Type 0 where
  system_hook : Hook
  crash_hook : Hook → Hook

pub record Logging (Record : Type 0) : Type 0 where
  pub root_level : ℕ
  pub handlers : List (Handler Record)
  pub recent_buffer : Option (RecentLogBuffer Record)
  pub excepthook : Hook

-- What an unhandled exception does: files that are written, and the system's hook.
pub data Effect : Type 0 where
  wrote : List Text → Effect
  ran_system_hook : Effect

abbrev rule : Text
rule = codes "────────────────────────────────────────────────────────────"

recent_lines : Runtime → List Text → List Text
recent_lines runtime [] = []
recent_lines runtime (line ∷ lines) =
    rule
    ∷ (codes "Last "
        ++ (runtime.to_str (int (pos (length (line ∷ lines)))) ++ codes " log line(s):"))
    ∷ rule
    ∷ line
    ∷ lines

-- The lines of the report.
unfoldable pub crash_report : Runtime → Text → Crash → Option (List Text) → List Text
unfolding recent_lines
crash_report runtime timestamp crash recent =
    (codes "Crash Report — " ++ timestamp)
    ∷ (codes "Type: " ++ crash.type_name)
    ∷ (codes "Value: " ++ crash.message)
    ∷ rule
    ∷ codes "Traceback:"
    ∷ rule
    ∷ (crash.traceback
        ++ (elim recent [ none ↦ [] | some lines ↦ recent_lines runtime lines ]
            ++ rule ∷ codes "End of crash report" ∷ []))

-- Whether the directory can be made and the file written, the time stamp, and the format.
pub record Surroundings (Record : Type 0) : Type 0 where
  pub runtime : Runtime
  pub is_directory_made : Bool
  pub is_file_written : Bool
  pub timestamp : Text
  pub format : Record → Text
  -- `HAS_JSON_LOGGER`
  pub has_json_logger : Bool

abbrev pub copies : ℕ → List Effect → List Effect
copies zero effects = []
copies (suc n) effects = effects ++ copies n effects

copies-append :
    (n : ℕ) (xs ys : List Effect) → copies n xs ++ (xs ++ ys) ≡ xs ++ (copies n xs ++ ys)
copies-append zero xs ys = refl
copies-append (suc n) xs ys =
    append_assoc xs (copies n xs) (xs ++ ys)
    ∙ ap (λ (zs : List Effect). xs ++ zs) (copies-append n xs ys)
    ∙ ap (λ (zs : List Effect). xs ++ zs) (sym (append_assoc xs (copies n xs) ys))

module _ {Record : Type 0} where
  unfoldable pub write_crash_report :
      Surroundings Record → Option (RecentLogBuffer Record) → Crash → List Effect
  write_crash_report env recent_buffer crash =
      if env.is_directory_made
      then if env.is_file_written
        then wrote (
            crash_report env.runtime env.timestamp crash
              (elim recent_buffer [ none ↦ none | some b ↦ some (get_recent env.format b) ]))
          ∷ []
        else []
      else []

  -- The call of `sys.excepthook`
  unfoldable pub run_hook :
      Surroundings Record → Option (RecentLogBuffer Record) → Hook → Crash → List Effect
  unfolding write_crash_report
  run_hook env recent_buffer system_hook crash = ran_system_hook ∷ []
  run_hook env recent_buffer (crash_hook original) crash =
      let after = run_hook env recent_buffer original crash in
      if crash.is_keyboard_interrupt
      then after
      else write_crash_report env recent_buffer crash ++ after

  file_formatter : Surroundings Record → Bool → Formatter
  file_formatter env false = plain_formatter
  file_formatter env true = if env.has_json_logger then json_formatter else json_like_formatter

  -- `setup_logging(level, json_format, log_dir)` with the path of the log file
  unfoldable pub setup_logging :
      Surroundings Record → ℕ → Bool → Text → Logging Record → Logging Record
  unfolding file_formatter
  setup_logging env level json_format log_path logging = record {
    root_level = 10;
    handlers =
        file_handler level (file_formatter env json_format) log_path
        ∷ stderr_handler 10
        ∷ recent_handler 10
        ∷ [];
    recent_buffer = some (new 100);
    excepthook = crash_hook logging.excepthook;
  }

  unfoldable pub crash : Surroundings Record → Logging Record → Crash → List Effect
  crash env logging c = run_hook env logging.recent_buffer logging.excepthook c

  -- Any number of calls of `setup_logging`.
  unfoldable pub set_ups :
      Surroundings Record → List (ℕ × (Bool × Text)) → Logging Record → Logging Record
  unfolding setup_logging
  set_ups env [] logging = logging
  set_ups env ((level, (json_format, log_path)) ∷ rest) logging =
      set_ups env rest (setup_logging env level json_format log_path logging)

  abbrev pub reports : Surroundings Record → Option (RecentLogBuffer Record) → Crash → List Effect
  reports env recent c = if c.is_keyboard_interrupt then [] else write_crash_report env recent c

  run_hook-crash_hook :
      (env : Surroundings Record) (recent : Option (RecentLogBuffer Record)) (hook : Hook)
      (c : Crash)
      → run_hook env recent (crash_hook hook) c ≡ reports env recent c ++ run_hook env recent hook c
  unfolding run_hook
  run_hook-crash_hook env recent hook c = ground arith

  -- Each call of `setup_logging` wraps the exception hook once more: an unhandled exception writes
  -- its report once for each call, a keyboard interrupt none, and then the hook that was there
  -- before runs.
  pub run_hook-set_ups :
      (env : Surroundings Record) (recent : Option (RecentLogBuffer Record)) (c : Crash)
      (setups : List (ℕ × (Bool × Text))) (logging : Logging Record)
      → run_hook env recent (set_ups env setups logging).excepthook c
        ≡ copies (length setups) (reports env recent c) ++ run_hook env recent logging.excepthook c
  unfolding set_ups setup_logging
  run_hook-set_ups env recent c [] logging = refl
  run_hook-set_ups env recent c ((level, (json_format, log_path)) ∷ rest) logging =
      run_hook-set_ups env recent c rest (setup_logging env level json_format log_path logging)
      ∙ ap (λ (zs : List Effect). copies (length rest) (reports env recent c) ++ zs)
          (run_hook-crash_hook env recent logging.excepthook c)
      ∙ copies-append (length rest) (reports env recent c)
          (run_hook env recent logging.excepthook c)
      ∙ sym (append_assoc (reports env recent c) (copies (length rest) (reports env recent c)) _)
