-- ===== src/Config/Tests.antt =====
-- A configuration from two files and the environment.
use conhost.Prelude.{
  ◌≡◌, ◌⊎◌, refl, if◌then◌else◌, Option, none, some, ◌∷◌, ◌++◌, true, Text, codes, equal,
  starts_with,
}
use conhost.Prelude.Result.{Expected, expected, unexpected}
use conhost.Config.{
  ConfigError, AppConfig, default_config, debug, parse_text, apply_lines, lines_of, apply_line,
  trim_start, trim_end, split_at_equals, apply_key_value, apply_trimmed, parse_bool,
  parse_log_level,
}
use conhost.Config.Load.{append_path_component, directory_from_path, before_separator, load}
use conhost.Config.Sources.{
  environment_over, IsOfUser, IsNamed, UserFails, NamedFails, load-environment_over,
}

abbrev environment : Text → Option Text
environment name =
    if equal name (codes "OPENCONSOLE_NEW_CONFIG")
    then some (codes "named")
    else if equal name (codes "USERPROFILE")
    then some (codes "C:")
    else none

abbrev named : Text
named = codes "# a comment" ++ 10 ∷ codes " dry_run = on" ++ 13 ∷ 10 ∷ codes "log_level=debug"

-- The file of the user, which sets another key, and the one that is named.
abbrev files : Text → Expected ConfigError Text
files path = expected (if equal path (codes "named") then named else codes "locale=de")

abbrev expected_config : AppConfig
expected_config = record default_config { dry_run = true; minimum_log_level = debug }

named_parsed : parse_text named ≡ expected expected_config
unfolding parse_text apply_lines lines_of apply_line trim_start trim_end split_at_equals
    apply_key_value apply_trimmed parse_bool parse_log_level equal starts_with
named_parsed = refl

load-environment_over_example :
    ((c : AppConfig) × (user : AppConfig) × (load environment files
        ≡ expected (environment_over environment c))
      × IsOfUser environment files user
      × IsNamed environment files user c)
    ⊎ ((e : ConfigError) × (load environment files ≡ unexpected e)
        × (UserFails environment files e ⊎ NamedFails environment files e))
load-environment_over_example = load-environment_over environment files

log_directory : directory_from_path (codes " C:/logs/a.txt ") ≡ codes "C:/logs"
unfolding directory_from_path before_separator trim_start trim_end
log_directory = refl

user_file : append_path_component (codes "C:/me") (codes ".conhost") ≡ codes "C:/me\\.conhost"
unfolding append_path_component
user_file = refl
