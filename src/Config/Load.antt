-- ===== src/Config/Load.antt =====
-- `ConfigLoader::load` of src/config/app_config.cpp: the files, then the environment.
use conhost.Prelude.{
  ℕ, ◌==◌, if◌then◌else◌, Bool, true, false, ◌&&◌, ◌||◌, Option, none, some, [], ◌∷◌, ◌++◌, length,
  Text, codes,
}
use conhost.Prelude.Result.{Expected, expected, unexpected, ◌>>=◌}
use conhost.Config.{
  ConfigError, AppConfig, default_config, trim, parse_log_level, parse_bool, parse_dword_or_default,
  set_log_directory, parse_text,
}

abbrev pub is_separator : ℕ → Bool
is_separator ch = (ch == 92) || (ch == b'/')

-- `append_path_component`, whose test is on the last character.
unfoldable pub append_path_component : Text → Text → Text
append_path_component [] component = component
append_path_component (ch ∷ []) component =
    if is_separator ch then ch ∷ component else ch ∷ 92 ∷ component
append_path_component (ch ∷ d ∷ base) component = ch ∷ append_path_component (d ∷ base) component

-- What stands in front of the last separator.
unfoldable pub before_separator : Text → Option Text
before_separator [] = none
before_separator (ch ∷ text) = elim (before_separator text) [
  | some path ↦ some (ch ∷ path)
  | none ↦ if is_separator ch then some [] else none
]

unfoldable pub directory_from_path : Text → Text
directory_from_path value = elim (before_separator (trim value)) [ none ↦ [] | some path ↦ path ]

-- An override by a variable that is set.
abbrev pub overridden : Option Text → (Text → AppConfig → AppConfig) → AppConfig → AppConfig
overridden none f config = config
overridden (some value) f config = f value config

module _ (read_environment : Text → Option Text) where
  -- A variable that is set to something.
  abbrev pub nonempty_variable : Text → Option Text
  nonempty_variable name = elim (read_environment name) [
    | none ↦ none
    | some value ↦ if length value == 0 then none else some value
  ]

  unfoldable pub home_config : Option Text
  home_config = elim (read_environment (codes "HOMEDRIVE")) [
    | none ↦ none
    | some drive ↦ elim (read_environment (codes "HOMEPATH")) [
      | none ↦ none
      | some path ↦
          if length (drive ++ path) == 0
          then none
          else some (append_path_component (drive ++ path) (codes ".conhost"))
    ]
  ]

  unfoldable pub resolve_default_user_config_path : Option Text
  resolve_default_user_config_path = elim (nonempty_variable (codes "USERPROFILE")) [
    | some profile ↦ some (append_path_component profile (codes ".conhost"))
    | none ↦ elim (nonempty_variable (codes "HOME")) [
      | some home ↦ some (append_path_component home (codes ".conhost"))
      | none ↦ home_config
    ]
  ]

  abbrev pub by_variable : Text → (Text → AppConfig → AppConfig) → AppConfig → AppConfig
  by_variable name f config = overridden (read_environment name) f config

  unfoldable pub override_log_directory : AppConfig → AppConfig
  override_log_directory config = elim (read_environment (codes "OPENCONSOLE_NEW_LOG_DIR")) [
    | some value ↦ set_log_directory (trim value) config
    | none ↦
        by_variable (codes "OPENCONSOLE_NEW_LOG_FILE")
          (λ value c. set_log_directory (directory_from_path value) c) config
  ]

  unfoldable pub apply_environment_overrides : AppConfig → AppConfig
  apply_environment_overrides config =
      let located =
        by_variable (codes "OPENCONSOLE_NEW_LOCALE")
          (λ value c. record c { locale_override = value }) config in
      let dried =
        by_variable (codes "OPENCONSOLE_NEW_DRY_RUN")
          (λ value c. record c { dry_run = parse_bool value }) located in
      let leveled =
        by_variable (codes "OPENCONSOLE_NEW_LOG_LEVEL")
          (λ value c. record c { minimum_log_level = parse_log_level value }) dried in
      let filed =
        by_variable (codes "OPENCONSOLE_NEW_ENABLE_FILE_LOGGING")
          (λ value c. record c { enable_file_logging = parse_bool value })
          (override_log_directory leveled) in
      let broken =
        by_variable (codes "OPENCONSOLE_NEW_BREAK_ON_START")
          (λ value c. record c { break_on_start = parse_bool value }) filed in
      let sunk =
        by_variable (codes "OPENCONSOLE_NEW_DEBUG_SINK")
          (λ value c. record c { enable_debug_sink = parse_bool value }) broken in
      let preferred =
        by_variable (codes "OPENCONSOLE_NEW_PREFER_PTY")
          (λ value c. record c { prefer_pseudoconsole = parse_bool value }) sunk in
      let held =
        by_variable (codes "OPENCONSOLE_NEW_HOLD_ON_EXIT")
          (λ value c. record c { hold_window_on_exit = parse_bool value }) preferred in
      let passed =
        by_variable (codes "OPENCONSOLE_NEW_ALLOW_EMBEDDING_PASSTHROUGH")
          (λ value c. record c { allow_embedding_passthrough = parse_bool value }) held in
      let legacy =
        by_variable (codes "OPENCONSOLE_NEW_ENABLE_LEGACY_PATH")
          (λ value c. record c { enable_legacy_conhost_path = parse_bool value }) passed in
      by_variable (codes "OPENCONSOLE_NEW_EMBEDDING_WAIT_MS")
        (λ value c. record c {
          embedding_wait_timeout_ms = parse_dword_or_default value c.embedding_wait_timeout_ms;
        })
        legacy

module _ (read_environment : Text → Option Text)
    (read_config_file : Text → Expected ConfigError Text) where
  abbrev pub is_missing_file_error : ℕ → Bool
  is_missing_file_error code = (code == 2) || (code == 3)

  unfoldable pub load_config_file_into : AppConfig → Text → Bool → Expected ConfigError AppConfig
  load_config_file_into config path allow_missing_file = elim (read_config_file path) [
    | unexpected e ↦
        if allow_missing_file && is_missing_file_error e.win32_error
        then expected config
        else unexpected e
    | expected text ↦ parse_text text
  ]

  -- The file of the user, if there is one.
  unfoldable pub load_user_config : Expected ConfigError AppConfig
  load_user_config = elim (resolve_default_user_config_path read_environment) [
    | none ↦ expected default_config
    | some path ↦ load_config_file_into default_config path true
  ]

  -- The file that OPENCONSOLE_NEW_CONFIG names, if it does.
  unfoldable pub load_explicit_config : AppConfig → Expected ConfigError AppConfig
  load_explicit_config config = elim (read_environment (codes "OPENCONSOLE_NEW_CONFIG")) [
    | none ↦ expected config
    | some path ↦ load_config_file_into config path false
  ]

  unfoldable pub load : Expected ConfigError AppConfig
  load = load_user_config >>= λ user. load_explicit_config user >>= λ config.
      expected (apply_environment_overrides read_environment config)
