-- ===== src/VtOutput/Apply.antt =====
-- A call of `apply_text_to_screen_buffer` (src/condrv/condrv_server.hpp): what it reads at its start and
-- stores at its end.
use Prim.Native.Nat.{bit_and}
use conhost.Prelude.{ℕ, ◌==◌, if◌then◌else◌, Bool, not, Option, none, List, [], Text}
use conhost.Screen.{ScreenBuffer, is_degenerate, set_cursor_position, snap_window_to_cursor}
use conhost.Screen.Cursor.{
  set_text_attributes, set_vt_autowrap_enabled, set_vt_origin_mode_enabled,
  set_vt_insert_mode_enabled, set_vt_delayed_wrap_position, same_bool,
}
use conhost.VtOutput.{Call, Output}
use conhost.VtOutput.Parser.{VtOutputParseState, initial_parse, State}
use conhost.VtOutput.Machine.{run}

-- The bits of the output mode.
abbrev pub has_mode : ℕ → ℕ → Bool
has_mode flag mode = not (bit_and mode flag == 0)

-- The variables at the start of the call.
unfoldable pub call_of : ℕ → Bool → Bool → ScreenBuffer → Call
call_of mode answers_queries allocated b = record {
  size = b.buffer_size;
  default_attributes = b.default_text_attributes;
  processed_output = has_mode 1 mode;
  wrap_at_eol_output_mode = has_mode 2 mode;
  vt_processing = has_mode 4 mode;
  disable_newline_auto_return = has_mode 8 mode;
  answers_queries = answers_queries;
  allocated = allocated;
}

unfoldable pub begin : Call → VtOutputParseState → ScreenBuffer → State
begin c p b = (
  if c.vt_processing then p else initial_parse,
  record {
    screen = b;
    cursor = b.cursor_position;
    attributes = b.text_attributes;
    vertical_margins = b.vt_vertical_margins;
    autowrap = b.vt_autowrap_enabled;
    delayed_wrap = if c.vt_processing then b.vt_delayed_wrap_position else none;
    origin_mode = b.vt_origin_mode_enabled;
    insert_mode = b.vt_insert_mode_enabled;
    title = none;
    injected = [];
  },
)

-- What is stored at the end; `before` is the buffer at the start.
unfoldable pub finish : ScreenBuffer → Output → ScreenBuffer
finish before o =
    let a =
      if same_bool o.autowrap before.vt_autowrap_enabled
      then o.screen
      else set_vt_autowrap_enabled o.autowrap o.screen in
    let b =
      if same_bool o.origin_mode before.vt_origin_mode_enabled
      then a
      else set_vt_origin_mode_enabled o.origin_mode a in
    let d =
      if same_bool o.insert_mode before.vt_insert_mode_enabled
      then b
      else set_vt_insert_mode_enabled o.insert_mode b in
    snap_window_to_cursor (
      set_text_attributes o.attributes
        (set_cursor_position o.cursor (set_vt_delayed_wrap_position o.delayed_wrap d)))

-- What a call leaves: the parser, the buffer, the title, and the injected input.
pub record Applied : Type 0 where
  pub parse : VtOutputParseState
  pub screen : ScreenBuffer
  pub title : Option Text
  pub injected : List Text

-- The call. A buffer without a size is left alone.
unfoldable pub apply_text_to_screen_buffer :
    ℕ → Bool → Bool → Text → VtOutputParseState → ScreenBuffer → Applied
apply_text_to_screen_buffer mode answers_queries allocated text parse b =
    let c = call_of mode answers_queries allocated b in
    let done = run c text (begin c parse b) in
    if is_degenerate b.buffer_size
    then record { parse = parse; screen = b; title = none; injected = [] }
    else record {
      parse = done.0;
      screen = finish b (done.1);
      title = (done.1).title;
      injected = (done.1).injected;
    }
