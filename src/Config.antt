-- ===== src/Config.antt =====
-- The configuration: `ConfigLoader` of src/config/app_config.cpp. What `read_environment` and
-- `read_config_file` find is a parameter: they call Windows. A character is a UTF-16 code unit.
pub mod Load
pub mod Sources
pub mod Tests
use conhost.Prelude.{
  ℕ, ◌+◌, ltb, ◌==◌, if◌then◌else◌, Bool, true, false, not, ◌&&◌, ◌||◌, Option, none, some, List,
  [], ◌∷◌, ◌++◌, length, Text, codes, equal, starts_with,
}
use conhost.Prelude.Result.{Expected, expected, unexpected, ◌>>=◌}
use conhost.Number.{parse_u32}

pub data LogLevel : Type 0 where
  trace debug info warning error : LogLevel

pub record ConfigError : Type 0 where
  pub message : Text
  pub win32_error : ℕ

pub record AppConfig : Type 0 where
  pub minimum_log_level : LogLevel
  pub locale_override : Text
  pub dry_run : Bool
  pub enable_debug_sink : Bool
  pub enable_file_logging : Bool
  pub log_directory_path : Text
  pub break_on_start : Bool
  pub prefer_pseudoconsole : Bool
  pub hold_window_on_exit : Bool
  pub allow_embedding_passthrough : Bool
  pub enable_legacy_conhost_path : Bool
  pub embedding_wait_timeout_ms : ℕ

abbrev pub default_config : AppConfig
default_config = record {
  minimum_log_level = info;
  locale_override = [];
  dry_run = false;
  enable_debug_sink = true;
  enable_file_logging = false;
  log_directory_path = [];
  break_on_start = false;
  prefer_pseudoconsole = true;
  hold_window_on_exit = false;
  allow_embedding_passthrough = true;
  enable_legacy_conhost_path = true;
  embedding_wait_timeout_ms = 0;
}

abbrev pub is_blank : ℕ → Bool
is_blank ch = ((ch == b' ') || (ch == 9)) || ((ch == 13) || (ch == 10))

-- `trim`: its two searches.
unfoldable pub trim_start : Text → Text
trim_start [] = []
trim_start (ch ∷ text) = if is_blank ch then trim_start text else ch ∷ text

unfoldable pub trim_end : Text → Text
trim_end [] = []
trim_end (ch ∷ text) =
    let rest = trim_end text in if is_blank ch && (length rest == 0) then [] else ch ∷ rest

abbrev pub trim : Text → Text
trim text = trim_end (trim_start text)

unfoldable pub parse_log_level : Text → LogLevel
parse_log_level text =
    if equal text (codes "trace")
    then trace
    else if equal text (codes "debug")
    then debug
    else if equal text (codes "warning")
    then warning
    else if equal text (codes "error")
    then error
    else info

unfoldable pub parse_bool : Text → Bool
parse_bool text =
    equal text (codes "1")
    || (equal text (codes "true")
        || (equal text (codes "TRUE") || (equal text (codes "on") || equal text (codes "ON"))))

unfoldable pub parse_dword_or_default : Text → ℕ → ℕ
parse_dword_or_default text fallback = elim (parse_u32 text) [
  | unexpected e ↦ fallback
  | expected value ↦ value
]

unfoldable pub set_log_directory : Text → AppConfig → AppConfig
set_log_directory path config = record config {
  log_directory_path = path;
  enable_file_logging = not (length path == 0);
}

-- `apply_key_value`, on a key and a value that are trimmed.
unfoldable pub apply_trimmed : AppConfig → Text → Text → AppConfig
apply_trimmed config key value =
    if equal key (codes "locale")
    then record config { locale_override = value }
    else if equal key (codes "dry_run")
    then record config { dry_run = parse_bool value }
    else if equal key (codes "log_level")
    then record config { minimum_log_level = parse_log_level value }
    else if equal key (codes "log_dir")
    then set_log_directory value config
    else if equal key (codes "enable_file_logging") || equal key (codes "file_logging")
    then record config { enable_file_logging = parse_bool value }
    else if equal key (codes "break_on_start")
    then record config { break_on_start = parse_bool value }
    else if equal key (codes "debug_sink")
    then record config { enable_debug_sink = parse_bool value }
    else if equal key (codes "prefer_pseudoconsole")
    then record config { prefer_pseudoconsole = parse_bool value }
    else if equal key (codes "hold_on_exit") || equal key (codes "hold_window_on_exit")
    then record config { hold_window_on_exit = parse_bool value }
    else if equal key (codes "allow_embedding_passthrough")
    then record config { allow_embedding_passthrough = parse_bool value }
    else if equal key (codes "enable_legacy_conhost_path")
    then record config { enable_legacy_conhost_path = parse_bool value }
    else if equal key (codes "embedding_wait_timeout_ms")
    then record config {
      embedding_wait_timeout_ms = parse_dword_or_default value config.embedding_wait_timeout_ms;
    }
    else config

unfoldable pub apply_key_value : AppConfig → Text → Text → AppConfig
apply_key_value config key value = apply_trimmed config (trim key) (trim value)

-- The lines of a text: each ends at a line feed or at the end.
abbrev pub in_first_line : ℕ → List Text → List Text
in_first_line ch [] = (ch ∷ []) ∷ []
in_first_line ch (line ∷ lines) = (ch ∷ line) ∷ lines

unfoldable pub lines_of : Text → List Text
lines_of [] = []
lines_of (ch ∷ text) =
    let rest = lines_of text in if ch == 10 then [] ∷ rest else in_first_line ch rest

-- `line.find('=')`: what stands in front of it, and behind it.
unfoldable pub split_at_equals : Text → Option (Text × Text)
split_at_equals [] = none
split_at_equals (ch ∷ text) =
    let rest = split_at_equals text in
    if ch == b'='
    then some ([], text)
    else elim rest [ none ↦ none | some (key, value) ↦ some (ch ∷ key, value) ]

unfoldable pub apply_line : AppConfig → Text → Expected ConfigError AppConfig
apply_line config text =
    let line = trim text in
    if (length line == 0) || (starts_with line (codes "#") || starts_with line (codes ";"))
    then expected config
    else elim (split_at_equals line) [
      | none ↦
          unexpected
            (record { message = codes "Invalid config line (missing '=')"; win32_error = 11 })
      | some (key, value) ↦ expected (apply_key_value config key value)
    ]

unfoldable pub apply_lines : AppConfig → List Text → Expected ConfigError AppConfig
apply_lines config [] = expected config
apply_lines config (line ∷ lines) = apply_line config line >>= λ next. apply_lines next lines

unfoldable pub parse_text : Text → Expected ConfigError AppConfig
parse_text text = apply_lines default_config (lines_of text)
