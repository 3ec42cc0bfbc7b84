-- ===== src/VtOutput/Parser.antt =====
-- `VtOutputParseState` (src/condrv/condrv_server.hpp): the parser of escape sequences, whose state outlives
-- a call, and where a character leads it in each phase.
use conhost.Prelude.{
  ℕ, ◌+◌, ◌-◌, ◌*◌, ltb, leb, ◌==◌, if◌then◌else◌, Bool, true, false, ◌&&◌, ◌||◌, List, [], ◌∷◌,
  ◌++◌, length, within,
}
use conhost.VtOutput.{Output}
use conhost.VtOutput.Csi.{VtCsiSequence}

pub data Phase : Type 0 where
  ground : Phase
  escape : Phase
  esc_dispatch : Phase
  csi : Phase
  osc : Phase
  osc_escape : Phase
  string : Phase
  string_escape : Phase

-- An array with a count is the list of its first elements.
pub record VtOutputParseState : Type 0 where
  pub phase : Phase
  pub esc_intermediates : List ℕ
  pub esc_length : ℕ
  pub csi : VtCsiSequence
  pub csi_current : ℕ
  pub csi_have_digits : Bool
  pub csi_last_was_separator : Bool
  pub csi_length : ℕ
  pub osc_param : ℕ
  pub osc_param_have_digits : Bool
  pub osc_in_param : Bool
  pub osc_action : ℕ
  pub osc_capture_payload : Bool
  pub osc_payload : List ℕ

abbrev pub empty_csi : VtCsiSequence
empty_csi = record { final = 0; private_marker = false; exclamation_marker = false; params = [] }

abbrev pub initial_parse : VtOutputParseState
initial_parse = record {
  phase = ground;
  esc_intermediates = [];
  esc_length = 0;
  csi = empty_csi;
  csi_current = 0;
  csi_have_digits = false;
  csi_last_was_separator = false;
  csi_length = 0;
  osc_param = 0;
  osc_param_have_digits = false;
  osc_in_param = true;
  osc_action = 0;
  osc_capture_payload = false;
  osc_payload = [];
}

-- The parser and the variables of the call.
abbrev pub State : Type 0
State = VtOutputParseState × Output

abbrev pub in_phase : Phase → VtOutputParseState → VtOutputParseState
in_phase phase p = record p { phase = phase }

-- Into or out of a CSI sequence, an OSC sequence, and an ESC sequence with intermediates.
abbrev pub reset_csi : Phase → VtOutputParseState → VtOutputParseState
reset_csi phase p = record p {
  phase = phase;
  csi = empty_csi;
  csi_current = 0;
  csi_have_digits = false;
  csi_last_was_separator = false;
  csi_length = 0;
}

abbrev pub reset_osc : Phase → VtOutputParseState → VtOutputParseState
reset_osc phase p = record p {
  phase = phase;
  osc_param = 0;
  osc_param_have_digits = false;
  osc_in_param = true;
  osc_action = 0;
  osc_capture_payload = false;
  osc_payload = [];
}

abbrev pub reset_esc : VtOutputParseState → VtOutputParseState
reset_esc p = record p { phase = ground; esc_intermediates = []; esc_length = 0 }

-- `constexpr` bounds and array sizes.
abbrev pub max_params : ℕ
max_params = 16

abbrev pub max_intermediates : ℕ
max_intermediates = 8

abbrev pub max_payload : ℕ
max_payload = 4096

abbrev pub max_number : ℕ
max_number = 1000000

-- `array[count++] = value`, if that is in range.
abbrev pub push_below : ℕ → ℕ → List ℕ → List ℕ
push_below bound value values = if ltb (length values) bound then values ++ value ∷ [] else values

abbrev pub push_digit_below : ℕ → ℕ → ℕ
push_digit_below n ch = if leb n max_number then n * 10 + (ch - b'0') else n

-- And where it leads the parser.
unfoldable pub escape_parse : ℕ → VtOutputParseState → VtOutputParseState
escape_parse ch before =
    let p = reset_esc before in
    if ch == b'['
    then reset_csi csi p
    else if ch == b']'
    then reset_osc osc p
    else if ((ch == b'P') || (ch == b'^')) || ((ch == b'_') || (ch == b'X'))
    then in_phase string p
    else if within 32 47 ch
    then record p { phase = esc_dispatch; esc_length = 1; esc_intermediates = ch ∷ [] }
    else p

-- The phase `esc_dispatch`.
unfoldable pub dispatch_parse : ℕ → VtOutputParseState → VtOutputParseState
dispatch_parse ch p =
    if within 32 47 ch
    then (if leb 16 (p.esc_length + 1) then reset_esc p else record p {
      esc_intermediates = push_below max_intermediates ch p.esc_intermediates;
      esc_length = p.esc_length + 1;
    })
    else reset_esc p

-- The phase `csi`, up to the final character.
unfoldable pub csi_parse : ℕ → VtOutputParseState → VtOutputParseState
csi_parse ch before =
    let p = record before { csi_length = before.csi_length + 1 } in
    let number = if p.csi_have_digits then p.csi_current else 0 in
    if within b'0' b'9' ch
    then record p {
      csi_have_digits = true;
      csi_last_was_separator = false;
      csi_current = push_digit_below p.csi_current ch;
    }
    else if ch == b'?'
    then record p { csi = record p.csi { private_marker = true } }
    else if ch == b'!'
    then record p { csi = record p.csi { exclamation_marker = true } }
    else if ch == b';'
    then record p {
      csi_last_was_separator = true;
      csi = record p.csi { params = push_below max_params number p.csi.params };
      csi_current = 0;
      csi_have_digits = false;
    }
    else p

-- The sequence that a final character completes.
unfoldable pub complete_csi : ℕ → VtOutputParseState → VtCsiSequence
complete_csi ch p =
    let number = if p.csi_have_digits then p.csi_current else 0 in
    let params =
      if p.csi_have_digits || p.csi_last_was_separator
      then push_below max_params number p.csi.params
      else p.csi.params in
    record p.csi {
      final = ch;
      params = if (ch == b'm') && (length params == 0) then params ++ 0 ∷ [] else params;
    }

-- `vt_state.csi_length++ >= max_sequence_length`, and the final characters.
abbrev pub is_too_long : VtOutputParseState → Bool
is_too_long p = leb 128 p.csi_length

-- The parameters of an OSC sequence that sets the title.
abbrev pub is_title_action : ℕ → Bool
is_title_action action = ((action == 0) || (action == 1)) || ((action == 2) || (action == 21))

-- The phase `osc`, in its parameter.
unfoldable pub osc_parse : ℕ → VtOutputParseState → VtOutputParseState
osc_parse ch p =
    let action = if p.osc_param_have_digits then p.osc_param else 0 in
    if within b'0' b'9' ch
    then record p { osc_param_have_digits = true; osc_param = push_digit_below p.osc_param ch }
    else if ch == b';'
    then record p {
      osc_action = action;
      osc_capture_payload = is_title_action action;
      osc_in_param = false;
      osc_payload = [];
    }
    else reset_osc ground p

unfoldable pub string_parse : ℕ → VtOutputParseState → VtOutputParseState
string_parse ch p =
    if ch == 156 then in_phase ground p else if ch == 27 then in_phase string_escape p else p

unfoldable pub string_escape_parse : ℕ → VtOutputParseState → VtOutputParseState
string_escape_parse ch p =
    if ch == 92 then in_phase ground p else string_parse ch (in_phase string p)
