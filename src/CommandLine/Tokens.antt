-- ===== src/CommandLine/Tokens.antt =====
-- `parse_tokens` and `parse` of src/cli/console_arguments.cpp.
use conhost.Prelude.{
  ℕ, zero, suc, ltb, ◌==◌, if◌then◌else◌, Bool, true, false, not, ◌&&◌, ◌||◌, Option, none, some,
  List, [], ◌∷◌, ◌++◌, length, drop, Text, codes, equal, starts_with,
}
use conhost.Prelude.Int.{ℤ}
use conhost.Prelude.Result.{Expected, expected, unexpected, ◌>>=◌}
use conhost.Number.{parse_i16, parse_hex_u64, u64_max}
use conhost.CommandLine.{ParseError, failed, ConsoleArguments, constructed, join_escaped}

-- One turn of the loop: whether it goes on, the tokens that are left, and the arguments.
pub record Turn : Type 0 where
  pub again : Bool
  pub left : List Text
  pub arguments : ConsoleArguments

abbrev pub goes_on : List Text → ConsoleArguments → Expected ParseError Turn
goes_on left a = expected (record { again = true; left = left; arguments = a })

-- `get_string_argument`, and what is done with the value.
abbrev pub with_value :
    List Text → (Text → Expected ParseError ConsoleArguments) → Expected ParseError Turn
with_value [] use_value = failed (codes "Expected value after argument")
with_value (value ∷ rest) use_value = use_value value >>= goes_on rest

-- `parse_handle_arg`, on the handle that was set so far.
unfoldable pub parse_handle_arg : Text → ℕ → Expected ParseError ℕ
parse_handle_arg text handle =
    if not (handle == 0)
    then failed (codes "Handle value was already set")
    else elim (parse_hex_u64 text true) [
      | unexpected e ↦ failed (codes "Invalid handle value")
      | expected value ↦
          if value == 0
          then failed (codes "Invalid handle value")
          else if ltb u64_max value
          then failed (codes "Handle value was out of range")
          else expected value
    ]

unfoldable pub set_server_handle : ConsoleArguments → Text → Expected ParseError ConsoleArguments
set_server_handle a text = parse_handle_arg text a.server_handle >>= λ handle.
    expected (record a { server_handle = handle; create_server_handle = false })

unfoldable pub set_signal_handle : ConsoleArguments → Text → Expected ParseError ConsoleArguments
set_signal_handle a text = parse_handle_arg text a.signal_handle >>= λ handle.
    expected (record a { signal_handle = handle })

-- `get_short_argument`, behind its `get_string_argument`.
unfoldable pub short_argument : Text → Expected ParseError ℤ
short_argument text = elim (parse_i16 text) [
  | unexpected e ↦ failed (codes "Short argument was out of range or malformed")
  | expected value ↦ expected value
]

-- `handle_feature_value`, behind its `get_string_argument`.
unfoldable pub handle_feature_value : ConsoleArguments → Text → Expected ParseError ConsoleArguments
handle_feature_value a value =
    if equal value (codes "pty") then expected a else failed (codes "Unsupported --feature value")

unfoldable pub set_client_command_line :
    ConsoleArguments → List Text → Bool → Expected ParseError Turn
set_client_command_line a [] skip_first_token =
    failed (codes "Client command line index out of range")
set_client_command_line a (arg ∷ rest) skip_first_token =
    if skip_first_token && not (equal arg (codes "--"))
    then failed (codes "Expected -- token for explicit client command line")
    else expected (record {
      again = false;
      left = [];
      arguments = record a {
        client_command_line = join_escaped (if skip_first_token then rest else arg ∷ rest);
      };
    })

-- The switches that only set a flag: what they set, if `arg` is one.
unfoldable pub flag : Text → ConsoleArguments → Option ConsoleArguments
flag arg a =
    if equal arg (codes "-ForceV1")
    then some (record a { force_v1 = true })
    else if equal arg (codes "-ForceNoHandoff")
    then some (record a { force_no_handoff = true })
    else if equal arg (codes "-Embedding") || equal arg (codes "/Embedding")
    then some (record a { run_as_com_server = true })
    else if equal arg (codes "--delegated-window")
    then some (record a { delegated_window = true })
    else if starts_with arg (92 ∷ codes "??" ++ 92 ∷ [])
    then some a
    else if equal arg (codes "--headless")
    then some (record a { headless = true })
    else if equal arg (codes "--vtmode")
    then some (record a { vt_mode_requested = true })
    else if equal arg (codes "--inheritcursor")
    then some (record a { inherit_cursor = true })
    else none

-- The switches that take a value, and those that begin the client's command line.
unfoldable pub valued : Text → List Text → ConsoleArguments → Expected ParseError Turn
valued arg rest a =
    if equal arg (codes "--width")
    then with_value rest
        (λ value. short_argument value >>= λ width. expected (record a { width = width }))
    else if equal arg (codes "--height")
    then with_value rest
        (λ value. short_argument value >>= λ height. expected (record a { height = height }))
    else if equal arg (codes "--feature")
    then with_value rest (handle_feature_value a)
    else if equal arg (codes "--textMeasurement")
    then with_value rest (λ value. expected (record a { text_measurement = value }))
    else set_client_command_line a (arg ∷ rest) (equal arg (codes "--"))

-- The body of the loop of `parse_tokens`. The texts that it compares with differ, so the order of the
-- tests behind the handles does not matter.
unfoldable pub parse_turn : Text → List Text → ConsoleArguments → Expected ParseError Turn
parse_turn arg rest a =
    if starts_with arg (codes "0x")
    then set_server_handle a arg >>= goes_on rest
    else if equal arg (codes "--server")
    then with_value rest (set_server_handle a)
    else if equal arg (codes "--signal")
    then with_value rest (set_signal_handle a)
    else elim (flag arg a) [ some set ↦ goes_on rest set | none ↦ valued arg rest a ]

-- `parse_tokens`, on fuel: the tokens that are left, and the arguments.
unfoldable pub parse_tokens :
    ℕ → List Text → ConsoleArguments → Expected ParseError (List Text × ConsoleArguments)
parse_tokens zero args a = expected (args, a)
parse_tokens (suc fuel) [] a = expected ([], a)
parse_tokens (suc fuel) (arg ∷ rest) a = parse_turn arg rest a >>= λ turn.
    if turn.again
    then parse_tokens fuel turn.left turn.arguments
    else expected (turn.left, turn.arguments)

-- `parse`. What CommandLineToArgvW makes of the command line is a parameter: nothing, or the tokens
-- with the program's name in front.
module _ (argv : Text → Option (List Text)) where
  unfoldable pub parse : Text → ℕ → ℕ → Expected ParseError ConsoleArguments
  parse command_line std_in std_out =
      let result = constructed command_line std_in std_out in
      if length command_line == 0 then expected result else elim (argv command_line) [
        | none ↦ failed (codes "CommandLineToArgvW failed")
        | some values ↦
            let args = drop 1 values in
            parse_tokens (length args) args result >>= λ done. elim (done.0) [
              | [] ↦ expected (done.1)
              | _ ∷ _ ↦ failed (codes "Unexpected tokens remaining after parse")
            ]
      ]

-- The accessors that compute. `HandleView::valid` of src/core/handle_view.hpp refuses 0 and -1.
abbrev pub is_valid_handle : ℕ → Bool
is_valid_handle handle = not (handle == 0) && not (handle == u64_max)

abbrev pub has_vt_handles : ConsoleArguments → Bool
has_vt_handles a = is_valid_handle a.vt_in_handle && is_valid_handle a.vt_out_handle

abbrev pub in_conpty_mode : ConsoleArguments → Bool
in_conpty_mode a =
    is_valid_handle a.vt_in_handle
    || (is_valid_handle a.vt_out_handle || is_valid_handle a.signal_handle)
