-- ===== src/VtOutput/Machine.antt =====
-- The loop of `apply_text_to_screen_buffer` (src/condrv/condrv_server.hpp): what each character does in
-- each phase of the parser.
use conhost.Prelude.{ℕ, ◌-◌, ◌%◌, ◌==◌, if◌then◌else◌, ◌&&◌, ◌||◌, some, [], ◌∷◌, Text, within}
use conhost.Prelude.Int.{pos, ◌-ℤ◌, ltb_ℤ}
use conhost.Screen.{Coord, to_size}
use conhost.VtOutput.{Call, Output, line_feed, move_to_column, write_printable, write_spaces}
use conhost.VtOutput.Dispatch.{apply_csi}
use conhost.VtOutput.Parser.{
  is_title_action, Phase, ground, escape, esc_dispatch, csi, osc, osc_escape, string, string_escape,
  VtOutputParseState, State, in_phase, reset_csi, reset_osc, max_payload, push_below, escape_parse,
  dispatch_parse, csi_parse, complete_csi, is_too_long, osc_parse, string_parse,
  string_escape_parse,
}
use conhost.VtOutput.Reset.{escape_effect, dispatch_effect}

unfoldable pub csi_char : Call → ℕ → State → State
csi_char c ch (p, o) =
    if is_too_long p
    then (reset_csi ground p, o)
    else if within 64 126 ch
    then (reset_csi ground p, apply_csi c (complete_csi ch p) o)
    else (csi_parse ch p, o)

-- The end of an OSC sequence. Without a `ServerState` the call ignores the title.
unfoldable pub set_title : VtOutputParseState → Output → Output
set_title p o =
    if p.osc_capture_payload && is_title_action p.osc_action
    then record o { title = some p.osc_payload }
    else o

unfoldable pub osc_char : ℕ → State → State
osc_char ch (p, o) =
    if p.osc_in_param
    then (osc_parse ch p, o)
    else if (ch == 7) || (ch == 156)
    then (reset_osc ground p, set_title p o)
    else if ch == 27
    then (in_phase osc_escape p, o)
    else if p.osc_capture_payload
    then (record p { osc_payload = push_below max_payload ch p.osc_payload }, o)
    else (p, o)

-- A character that is not a backslash is read again, in the phase `osc`.
unfoldable pub osc_escape_char : ℕ → State → State
osc_escape_char ch (p, o) =
    if ch == 92 then (reset_osc ground p, set_title p o) else osc_char ch (in_phase osc p, o)

-- `tab_width - tab_offset`.
unfoldable pub tab_spaces : Coord → ℕ
tab_spaces cursor = 8 - (if ltb_ℤ cursor.x (pos 0) then 0 else to_size cursor.x % 8)

-- A character that no sequence takes: the control characters, and all others.
unfoldable pub plain_char : Call → ℕ → Output → Output
plain_char c ch o =
    if c.processed_output && (ch == 13)
    then move_to_column (pos 0) o
    else if c.processed_output && (ch == 10)
    then line_feed c (if c.disable_newline_auto_return then o else move_to_column (pos 0) o)
    else if c.processed_output && (ch == 8)
    then (if ltb_ℤ (pos 0) o.cursor.x then move_to_column (o.cursor.x -ℤ pos 1) o else o)
    else if c.processed_output && (ch == 9)
    then write_spaces c (tab_spaces o.cursor) o
    else write_printable c ch o

-- The phase `ground`.
unfoldable pub ground_char : Call → ℕ → State → State
ground_char c ch (p, o) =
    if ch == 27
    then (in_phase escape p, o)
    else if ch == 155
    then (reset_csi csi p, o)
    else if ch == 157
    then (reset_osc osc p, o)
    else if ch == 156
    then (p, o)
    else if ((ch == 144) || (ch == 152)) || ((ch == 158) || (ch == 159))
    then (in_phase string p, o)
    else (p, plain_char c ch o)

unfoldable pub phase_char : Phase → Call → ℕ → State → State
phase_char ground c ch s = ground_char c ch s
phase_char escape c ch (p, o) = (escape_parse ch p, escape_effect c ch o)
phase_char esc_dispatch c ch (p, o) = (dispatch_parse ch p, dispatch_effect c ch p o)
phase_char csi c ch s = csi_char c ch s
phase_char osc c ch s = osc_char ch s
phase_char osc_escape c ch s = osc_escape_char ch s
phase_char string c ch (p, o) = (string_parse ch p, o)
phase_char string_escape c ch (p, o) = (string_escape_parse ch p, o)

-- One turn of the loop, which takes one character.
unfoldable pub step : Call → ℕ → State → State
step c ch (p, o) =
    if c.vt_processing then phase_char p.phase c ch (p, o) else (p, plain_char c ch o)

unfoldable pub run : Call → Text → State → State
run c [] s = s
run c (ch ∷ text) s = run c text (step c ch s)
