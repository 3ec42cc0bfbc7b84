-- ===== src/Config/Sources.antt =====
-- What the sources of `ConfigLoader::load` (src/config/app_config.cpp) leave of a configuration, one key
-- at a time.
use conhost.Prelude.{
  ◌⊎◌, inl, inr, ◌||◌, Bool-cases, Option-cases, ap, ℕ, ◌==◌, ◌≡◌, refl, arith, Bool, true, false,
  not, Option, none, some, length, Text, codes,
}
use conhost.Prelude.Result.{Expected, expected, unexpected, Expected-cases}
use conhost.Config.{
  ConfigError, AppConfig, default_config, trim, parse_log_level, parse_bool, parse_dword_or_default,
  set_log_directory, parse_text,
}
use conhost.Config.Load.{
  resolve_default_user_config_path, directory_from_path, override_log_directory,
  apply_environment_overrides, overridden, load_config_file_into, load_user_config,
  load_explicit_config, load,
}

-- What a variable says if it is set, or else what the configuration says.
abbrev pub or_else {ℓ} : {A : Type ℓ} → Option Text → (Text → A) → A → A
or_else none f a = a
or_else (some value) f a = f value

-- A path that is not empty turns the logging to a file on.
abbrev pub is_path : Text → Bool
is_path path = not (length path == 0)

-- Every key by itself: its variable, if that is set, or else the configuration. Two keys have a variable
-- more: the directory of the log, which also decides whether there is one.
abbrev pub environment_over : (Text → Option Text) → AppConfig → AppConfig
environment_over env config = record {
  locale_override = or_else (env (codes "OPENCONSOLE_NEW_LOCALE")) (λ v. v) config.locale_override;
  dry_run = or_else (env (codes "OPENCONSOLE_NEW_DRY_RUN")) parse_bool config.dry_run;
  minimum_log_level =
      or_else (env (codes "OPENCONSOLE_NEW_LOG_LEVEL")) parse_log_level config.minimum_log_level;
  log_directory_path = or_else (env (codes "OPENCONSOLE_NEW_LOG_DIR")) trim (
      or_else (env (codes "OPENCONSOLE_NEW_LOG_FILE")) directory_from_path
        config.log_directory_path);
  enable_file_logging = or_else (env (codes "OPENCONSOLE_NEW_ENABLE_FILE_LOGGING")) parse_bool (
      or_else (env (codes "OPENCONSOLE_NEW_LOG_DIR")) (λ v. is_path (trim v))
        (or_else (env (codes "OPENCONSOLE_NEW_LOG_FILE")) (λ v. is_path (directory_from_path v))
          config.enable_file_logging));
  break_on_start =
      or_else (env (codes "OPENCONSOLE_NEW_BREAK_ON_START")) parse_bool config.break_on_start;
  enable_debug_sink =
      or_else (env (codes "OPENCONSOLE_NEW_DEBUG_SINK")) parse_bool config.enable_debug_sink;
  prefer_pseudoconsole =
      or_else (env (codes "OPENCONSOLE_NEW_PREFER_PTY")) parse_bool config.prefer_pseudoconsole;
  hold_window_on_exit =
      or_else (env (codes "OPENCONSOLE_NEW_HOLD_ON_EXIT")) parse_bool config.hold_window_on_exit;
  allow_embedding_passthrough =
      or_else (env (codes "OPENCONSOLE_NEW_ALLOW_EMBEDDING_PASSTHROUGH")) parse_bool
        config.allow_embedding_passthrough;
  enable_legacy_conhost_path =
      or_else (env (codes "OPENCONSOLE_NEW_ENABLE_LEGACY_PATH")) parse_bool
        config.enable_legacy_conhost_path;
  embedding_wait_timeout_ms =
      or_else (env (codes "OPENCONSOLE_NEW_EMBEDDING_WAIT_MS"))
        (λ v. parse_dword_or_default v config.embedding_wait_timeout_ms)
        config.embedding_wait_timeout_ms;
}

-- Each override, for whatever its variable holds.
module _ (o : Option Text) (c : AppConfig) where
  by_locale :
      overridden o (λ value c. record c { locale_override = value }) c
      ≡ record c { locale_override = or_else o (λ v. v) c.locale_override }
  by_locale = ground arith

  by_dry_run :
      overridden o (λ value c. record c { dry_run = parse_bool value }) c
      ≡ record c { dry_run = or_else o parse_bool c.dry_run }
  by_dry_run = ground arith

  by_log_level :
      overridden o (λ value c. record c { minimum_log_level = parse_log_level value }) c
      ≡ record c { minimum_log_level = or_else o parse_log_level c.minimum_log_level }
  by_log_level = ground arith

  by_file_logging :
      overridden o (λ value c. record c { enable_file_logging = parse_bool value }) c
      ≡ record c { enable_file_logging = or_else o parse_bool c.enable_file_logging }
  by_file_logging = ground arith

  by_break :
      overridden o (λ value c. record c { break_on_start = parse_bool value }) c
      ≡ record c { break_on_start = or_else o parse_bool c.break_on_start }
  by_break = ground arith

  by_sink :
      overridden o (λ value c. record c { enable_debug_sink = parse_bool value }) c
      ≡ record c { enable_debug_sink = or_else o parse_bool c.enable_debug_sink }
  by_sink = ground arith

  by_pty :
      overridden o (λ value c. record c { prefer_pseudoconsole = parse_bool value }) c
      ≡ record c { prefer_pseudoconsole = or_else o parse_bool c.prefer_pseudoconsole }
  by_pty = ground arith

  by_hold :
      overridden o (λ value c. record c { hold_window_on_exit = parse_bool value }) c
      ≡ record c { hold_window_on_exit = or_else o parse_bool c.hold_window_on_exit }
  by_hold = ground arith

  by_passthrough :
      overridden o (λ value c. record c { allow_embedding_passthrough = parse_bool value }) c
      ≡ record c {
        allow_embedding_passthrough = or_else o parse_bool c.allow_embedding_passthrough;
      }
  by_passthrough = ground arith

  by_legacy :
      overridden o (λ value c. record c { enable_legacy_conhost_path = parse_bool value }) c
      ≡ record c { enable_legacy_conhost_path = or_else o parse_bool c.enable_legacy_conhost_path }
  by_legacy = ground arith

  by_wait :
      overridden o
        (λ value c. record c {
          embedding_wait_timeout_ms = parse_dword_or_default value c.embedding_wait_timeout_ms;
        })
        c
      ≡ record c {
        embedding_wait_timeout_ms =
            or_else o
              (λ v. parse_dword_or_default v c.embedding_wait_timeout_ms)
              c.embedding_wait_timeout_ms;
      }
  by_wait = ground arith

by_log :
    (env : Text → Option Text) (c : AppConfig)
    → override_log_directory env c ≡ record c {
      log_directory_path = (environment_over env c).log_directory_path;
      enable_file_logging =
          or_else
            (env (codes "OPENCONSOLE_NEW_LOG_DIR"))
            (λ v. is_path (trim v))
            (or_else
              (env (codes "OPENCONSOLE_NEW_LOG_FILE"))
              (λ v. is_path (directory_from_path v))
              c.enable_file_logging);
    }
unfolding override_log_directory set_log_directory
by_log env c = ground arith

apply_environment_overrides-environment_over :
    (env : Text → Option Text) (c : AppConfig)
    → apply_environment_overrides env c ≡ environment_over env c
unfolding apply_environment_overrides
apply_environment_overrides-environment_over env c =
    simp
      (
        by_log, by_locale, by_dry_run, by_log_level, by_file_logging, by_break, by_sink, by_pty,
        by_hold, by_passthrough, by_legacy, by_wait,
      )
      refl

module _ (env : Text → Option Text) (files : Text → Expected ConfigError Text) where
  -- A configuration that a file gives, and an error that it gives instead.
  abbrev pub IsOfFile : Text → AppConfig → Type 0
  IsOfFile path c = (text : Text) × (files path ≡ expected text) × (parse_text text ≡ expected c)

  abbrev pub FailsIn : Text → ConfigError → Type 0
  FailsIn path e =
      (files path ≡ unexpected e)
      ⊎ ((text : Text) × (files path ≡ expected text) × (parse_text text ≡ unexpected e))

  -- No file of the user: no path for it, or nothing there.
  abbrev pub IsMissing : Type 0
  IsMissing =
      (resolve_default_user_config_path env ≡ none)
      ⊎ ((path : Text) × (e : ConfigError) × (resolve_default_user_config_path env ≡ some path)
          × (files path ≡ unexpected e)
          × ((e.win32_error ≡ 2) ⊎ (e.win32_error ≡ 3)))

  abbrev pub IsOfUser : AppConfig → Type 0
  IsOfUser c =
      ((path : Text) × (resolve_default_user_config_path env ≡ some path) × IsOfFile path c)
      ⊎ (IsMissing × (c ≡ default_config))

  abbrev Outcome :
      Expected ConfigError AppConfig → (AppConfig → Type 0) → (ConfigError → Type 0) → Type 0
  Outcome r P Q =
      ((c : AppConfig) × (r ≡ expected c) × P c) ⊎ ((e : ConfigError) × (r ≡ unexpected e) × Q e)

  missing_cases : (n : ℕ) → (((n == 2) || (n == 3)) ≡ true) → (n ≡ 2) ⊎ (n ≡ 3)
  missing_cases n h = ground arith

  parsed_cases :
      (path text : Text) (config : AppConfig) (allow : Bool)
      → files path ≡ expected text
      → Outcome (load_config_file_into env files config path allow) (IsOfFile path) (FailsIn path)
  unfolding load_config_file_into
  parsed_cases path text config allow f = elim (Expected-cases (parse_text text)) [
    | inl (e, p) ↦ inr (e, rw (f, load_config_file_into) p, inr (text, f, p))
    | inr (c, p) ↦ inl (c, rw (f, load_config_file_into) p, (text, f, p))
  ]

  -- What `load` makes of the file that OPENCONSOLE_NEW_CONFIG names, if it does.
  abbrev pub IsNamed : AppConfig → AppConfig → Type 0
  IsNamed user c =
      ((path : Text) × (env (codes "OPENCONSOLE_NEW_CONFIG") ≡ some path) × IsOfFile path c)
      ⊎ ((env (codes "OPENCONSOLE_NEW_CONFIG") ≡ none) × (c ≡ user))

  abbrev pub UserFails : ConfigError → Type 0
  UserFails e = (path : Text) × (resolve_default_user_config_path env ≡ some path) × FailsIn path e

  abbrev pub NamedFails : ConfigError → Type 0
  NamedFails e = (path : Text) × (env (codes "OPENCONSOLE_NEW_CONFIG") ≡ some path) × FailsIn path e

  file_cases :
      (path : Text) (config : AppConfig)
      → Outcome (load_config_file_into env files config path false) (IsOfFile path) (FailsIn path)
  unfolding load_config_file_into
  file_cases path config = elim (Expected-cases (files path)) [
    | inl (e, f) ↦ inr (e, rw (f, load_config_file_into) refl, inl f)
    | inr (text, f) ↦ parsed_cases path text config false f
  ]

  explicit_cases :
      (user : AppConfig) → Outcome (load_explicit_config env files user) (IsNamed user) NamedFails
  unfolding load_explicit_config
  explicit_cases user = elim (Option-cases (env (codes "OPENCONSOLE_NEW_CONFIG"))) [
    | inl n ↦ inl (user, rw (n, load_explicit_config) refl, inr (n, refl))
    | inr (path, n) ↦ elim (file_cases path user) [
      | inl (c, made, of_file) ↦ inl (c, rw (n, load_explicit_config) made, inl (path, n, of_file))
      | inr (e, made, fails) ↦ inr (e, rw (n, load_explicit_config) made, (path, n, fails))
    ]
  ]

  user_cases : Outcome (load_user_config env files) IsOfUser UserFails
  unfolding load_user_config load_config_file_into
  user_cases = elim (Option-cases (resolve_default_user_config_path env)) [
    | inl n ↦ inl (default_config, rw (n, load_user_config) refl, inr (inl n, refl))
    | inr (path, n) ↦ elim (Expected-cases (files path)) [
      | inl (e, f) ↦ elim (Bool-cases ((e.win32_error == 2) || (e.win32_error == 3))) [
        | inl missing ↦ inl (
          default_config,
          rw (n, load_user_config, load_config_file_into, f, missing) refl,
          inr (inr (path, e, n, f, missing_cases e.win32_error missing), refl),
        )
        | inr broken ↦
            inr
              (e, rw (n, load_user_config, load_config_file_into, f, broken) refl, (path, n, inl f))
      ]
      | inr (text, f) ↦ elim (parsed_cases path text default_config true f) [
        | inl (c, made, of_file) ↦ inl (c, rw (n, load_user_config) made, inl (path, n, of_file))
        | inr (e, made, fails) ↦ inr (e, rw (n, load_user_config) made, (path, n, fails))
      ]
    ]
  ]

  -- `load` either gives a configuration, or fails with the error of a file. One that it gives comes from
  -- one source and the environment over it: each key is what its variable says, if that is set, and
  -- otherwise what the source says, which is the file that OPENCONSOLE_NEW_CONFIG names; or, if it names
  -- none, the file of the user; or, if there is none, the defaults. The keys of the log have more than
  -- one variable: OPENCONSOLE_NEW_LOG_DIR comes before OPENCONSOLE_NEW_LOG_FILE. So nothing of the
  -- user's file is left where one is named: it can only make `load` fail.
  pub load-environment_over :
      ((c : AppConfig) × (user : AppConfig) × (load env files ≡ expected (environment_over env c))
        × IsOfUser user
        × IsNamed user c)
      ⊎ ((e : ConfigError) × (load env files ≡ unexpected e) × (UserFails e ⊎ NamedFails e))
  unfolding load
  load-environment_over = elim user_cases [
    | inr (e, made, fails) ↦ inr (e, rw (made, load) refl, inl fails)
    | inl (user, made, of_user) ↦ elim (explicit_cases user) [
      | inr (e, named, fails) ↦ inr (e, rw (made, load) (rw named refl), inr fails)
      | inl (c, named, of_name) ↦ inl (
        c,
        user,
        rw (made, load)
            (rw named (ap expected (apply_environment_overrides-environment_over env c))),
        of_user,
        of_name,
      )
    ]
  ]
