-- ===== src/VtOutput/Tests.antt =====
-- Texts on a small screen buffer, and the theorems at concrete inputs.
use conhost.Prelude.{
  ◌≡◌, List, ℕ, refl, [], ◌∷◌, true, false, none, length, replicate, arith, ◌≤◌, Text,
}
use conhost.Prelude.Int.{◌-ℤ◌, pos}
use conhost.Screen.{Coord, ScreenBuffer}
use conhost.Screen.Window.{CursorInWindow}
use conhost.VtOutput.{Call, Output, last_column, last_row}
use conhost.VtOutput.Sgr.{apply_sgr, sgr_loop, sgr_step, set_foreground}
use conhost.VtOutput.Position.{position_text, up_to, run-position_text}
use conhost.VtOutput.Print.{Prints, Printed, run-Printed}
use conhost.VtOutput.Attributes.{
  Sgr, bold, foreground, palette, color, params_of, perform_all, apply_sgr-perform_all,
}
use conhost.VtOutput.Machine.{run}
use conhost.VtOutput.Parser.{
  VtOutputParseState, csi, reset_csi, reset_esc, initial_parse, complete_csi,
}
use conhost.VtOutput.Apply.{apply_text_to_screen_buffer}
use conhost.VtOutput.Sound.{IsSound}
use conhost.VtOutput.Invariant.{apply_text_to_screen_buffer-IsSound}
use conhost.VtOutput.Bounds.{
  IsBounded, run-gives_up, initial_parse-IsBounded, apply_text_to_screen_buffer-IsBounded,
}

abbrev at : ℕ → ℕ → Coord
at x y = record { x = pos x; y = pos y }

-- Four columns and three rows, the cursor in the last row.
abbrev screen : ScreenBuffer
screen = record {
  buffer_size = at 4 3;
  cursor_position = at 1 2;
  window_rect = record { left = pos 0; top = pos 0; right = pos 3; bottom = pos 1 };
  maximum_window_size = at 4 3;
  text_attributes = 7;
  default_text_attributes = 7;
  cursor_size = 25;
  cursor_visible = true;
  color_table = [];
  saved_cursor_state = none;
  vt_vertical_margins = none;
  vt_main_backup = none;
  vt_autowrap_enabled = true;
  vt_delayed_wrap_position = none;
  vt_origin_mode_enabled = false;
  vt_insert_mode_enabled = false;
  cells = replicate 12 (record { character = 46; attributes = 7 });
  revision = 0;
}

-- `A`, a line feed that scrolls, CSI 2;3 H, the alternate buffer, and `B`.
abbrev text : Text
text =
    b'A' ∷ 13 ∷ 10 ∷ 27 ∷ b'[' ∷ b'2' ∷ b';' ∷ b'3' ∷ b'H' ∷ 27 ∷ b'[' ∷ b'?' ∷ b'1' ∷ b'0' ∷ b'4'
    ∷ b'9' ∷ b'h' ∷ b'B' ∷ []

screen-IsSound : IsSound (at 4 3) screen
screen-IsSound = record {
  sized = refl;
  full = refl;
  cursor = (omega arith, omega arith, omega arith, omega arith);
  across = (omega arith, omega arith, omega arith);
  down = (omega arith, omega arith, omega arith);
  backup = tt;
}

apply_text_to_screen_buffer-IsSound_example :
    IsSound (at 4 3) (apply_text_to_screen_buffer 15 true true text initial_parse screen).screen
    × CursorInWindow (apply_text_to_screen_buffer 15 true true text initial_parse screen).screen
apply_text_to_screen_buffer-IsSound_example =
    apply_text_to_screen_buffer-IsSound 15 true true text initial_parse screen
      (omega arith, omega arith) (omega arith, omega arith) screen-IsSound

apply_text_to_screen_buffer-IsBounded_example :
    IsBounded (apply_text_to_screen_buffer 15 true true text initial_parse screen).parse
    × (length
          (complete_csi b'm'
            (apply_text_to_screen_buffer 15 true true text initial_parse screen).parse).params
        ≤ 16)
apply_text_to_screen_buffer-IsBounded_example =
    apply_text_to_screen_buffer-IsBounded 15 true true text initial_parse screen b'm'
      initial_parse-IsBounded

abbrev call : Call
call = record {
  size = at 4 3;
  default_attributes = 7;
  processed_output = true;
  wrap_at_eol_output_mode = true;
  vt_processing = true;
  disable_newline_auto_return = false;
  answers_queries = true;
  allocated = true;
}

-- The text has moved the cursor since the call began.
abbrev output : Output
output = record {
  screen = screen;
  cursor = at 0 1;
  attributes = 14;
  vertical_margins = none;
  autowrap = true;
  delayed_wrap = none;
  origin_mode = false;
  insert_mode = false;
  title = none;
  injected = [];
}

run-position_text_example : run call (position_text 2 30) (initial_parse, output) ≡ (
  reset_csi initial_parse.phase (reset_esc initial_parse),
  record output {
    cursor = record { x = up_to (last_column call) 29; y = up_to (last_row call) 1 };
  },
)
run-position_text_example =
    run-position_text call initial_parse output 2 30 refl refl refl (omega arith, omega arith)
      (omega arith, omega arith) (omega arith) (omega arith) (omega arith) (omega arith)

at_last_column : (up_to (last_column call) 29 ≡ pos 3) × (up_to (last_row call) 1 ≡ pos 1)
unfolding ◌-ℤ◌
at_last_column = (refl, refl)

output-Prints : Prints call output 0 1
output-Prints = record {
  sized = refl;
  full = refl;
  wide = (omega arith, omega arith);
  row = omega arith;
  column = refl;
  line = refl;
  unwrapped = refl;
  overwrites = refl;
}

run-Printed_example :
    Printed call 0 1
      (b'o' ∷ b'k' ∷ [])
      initial_parse
      output
      (run call (b'o' ∷ b'k' ∷ []) (initial_parse, output))
run-Printed_example =
    run-Printed call 0 1 (b'o' ∷ b'k' ∷ []) initial_parse output refl refl (refl, (refl, tt))
      output-Prints (omega arith)

-- Dark red on the default background, a color by its components, a color of the palette, and bold.
abbrev commands : List Sgr
commands = foreground false 1 (omega arith) ∷ color true 10 20 30 ∷ palette false 9 ∷ bold ∷ []

commands_params : params_of commands ≡ 31 ∷ 38 ∷ 2 ∷ 10 ∷ 20 ∷ 30 ∷ 48 ∷ 5 ∷ 9 ∷ 1 ∷ []
commands_params = refl

apply_sgr-perform_all_example : apply_sgr [] 7 (params_of commands) 7 ≡ perform_all [] 7 commands 7
apply_sgr-perform_all_example = apply_sgr-perform_all [] 7 commands 7

-- A sequence of which 126 characters have been read.
abbrev long_sequence : VtOutputParseState
long_sequence = record initial_parse { phase = csi; csi_length = 126 }

run-gives_up_example :
    run call (b';' ∷ b'1' ∷ b';' ∷ []) (long_sequence, output)
    ≡ (reset_csi initial_parse.phase long_sequence, output)
run-gives_up_example =
    run-gives_up call (b';' ∷ b'1' ∷ b';' ∷ []) long_sequence output refl refl
      (refl, (refl, (refl, tt))) (omega arith) (omega arith)

-- SGR 31;1 on the default colors: bright red.
bright_red : apply_sgr [] 7 (31 ∷ 1 ∷ []) 7 ≡ 12
unfolding apply_sgr sgr_loop sgr_step set_foreground
bright_red = refl
