-- ===== src/CommandLine.antt =====
-- The parser of the command line: `ConsoleArguments` of src/cli/console_arguments.cpp. A character is a
-- UTF-16 code unit. The tokens are what CommandLineToArgvW, a parameter, makes of the command line.
pub mod Tokens
pub mod Escape
pub mod Consumed
pub mod Tests
use conhost.Prelude.{
  ℕ, zero, suc, ◌+◌, ltb, ◌==◌, if◌then◌else◌, Bool, true, false, not, ◌&&◌, ◌||◌, Option, none,
  some, List, [], ◌∷◌, ◌++◌, length, replicate, drop, Text, codes, equal, starts_with,
}
use conhost.Prelude.Int.{ℤ, pos}
use conhost.Prelude.Result.{Expected, expected, unexpected, ◌>>=◌}
use conhost.Number.{parse_i16, parse_hex_u64, u64_max}

pub record ParseError : Type 0 where
  pub message : Text

abbrev pub failed {ℓ} : {A : Type ℓ} → Text → Expected ParseError A
failed message = unexpected (record { message = message })

-- A handle is its number. The two VT handles are those that the constructor is given.
pub record ConsoleArguments : Type 0 where
  pub command_line : Text
  pub client_command_line : Text
  pub vt_in_handle : ℕ
  pub vt_out_handle : ℕ
  pub text_measurement : Text
  pub force_no_handoff : Bool
  pub force_v1 : Bool
  pub vt_mode_requested : Bool
  pub headless : Bool
  pub width : ℤ
  pub height : ℤ
  pub run_as_com_server : Bool
  pub delegated_window : Bool
  pub create_server_handle : Bool
  pub server_handle : ℕ
  pub signal_handle : ℕ
  pub inherit_cursor : Bool

abbrev pub constructed : Text → ℕ → ℕ → ConsoleArguments
constructed command_line std_in std_out = record {
  command_line = command_line;
  client_command_line = [];
  vt_in_handle = std_in;
  vt_out_handle = std_out;
  text_measurement = [];
  force_no_handoff = false;
  force_v1 = false;
  vt_mode_requested = false;
  headless = false;
  width = pos 0;
  height = pos 0;
  run_as_com_server = false;
  delegated_window = false;
  create_server_handle = true;
  server_handle = 0;
  signal_handle = 0;
  inherit_cursor = false;
}

-- `escape_argument`: by how much the first loop raises the size, and whether it meets a space.
unfoldable pub added_size : Text → ℕ
added_size [] = 0
added_size (ch ∷ text) =
    if (ch == b'"') || (ch == 92) then suc (added_size text) else added_size text

abbrev pub is_space : ℕ → Bool
is_space ch = (ch == b' ') || (ch == 9)

unfoldable pub has_space : Text → Bool
has_space [] = false
has_space (ch ∷ text) = is_space ch || has_space text

-- The second loop, behind `slash_count` backslashes, and what closes the quotes.
unfoldable pub escape_loop : Bool → ℕ → Text → Text
escape_loop quoted slash_count [] = if quoted then replicate slash_count 92 ++ b'"' ∷ [] else []
escape_loop quoted slash_count (ch ∷ text) =
    let rest = escape_loop quoted (if ch == 92 then suc slash_count else 0) text in
    if ch == 92
    then 92 ∷ rest
    else if ch == b'"'
    then replicate slash_count 92 ++ 92 ∷ b'"' ∷ rest
    else ch ∷ rest

unfoldable pub escape_argument : Text → Text
escape_argument [] = b'"' ∷ b'"' ∷ []
escape_argument (ch ∷ text) =
    let arg = ch ∷ text in
    let quoted = has_space arg in
    if (added_size arg + (if quoted then 2 else 0)) == 0
    then arg
    else if quoted
    then b'"' ∷ escape_loop true 0 arg
    else escape_loop false 0 arg

-- `set_client_command_line`: the tokens, escaped, with a space between any two.
unfoldable pub join_escaped : List Text → Text
join_escaped [] = []
join_escaped (arg ∷ []) = escape_argument arg
join_escaped (arg ∷ args) = escape_argument arg ++ b' ' ∷ join_escaped args
