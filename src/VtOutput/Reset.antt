-- ===== src/VtOutput/Reset.antt =====
-- What a character behind ESC does in `apply_text_to_screen_buffer`
-- (src/condrv/condrv_server.hpp): RIS, DECALN and the rest.
use conhost.Prelude.{
  ℕ, ◌+◌, ◌*◌, ◌==◌, if◌then◌else◌, Bool, true, false, ◌&&◌, none, some, List, [], ◌∷◌, length,
  get_or,
}
use conhost.Prelude.Int.{pos}
use conhost.Screen.{origin, to_size}
use conhost.Screen.Cells.{fill_output_characters, fill_output_attributes}
use conhost.Screen.Cursor.{
  set_cursor_info, set_color_table, set_vt_vertical_margins, save_cursor_state,
}
use conhost.Screen.Alternate.{set_vt_using_alternate_screen_buffer}
use conhost.VtOutput.{Call, Output, erase, line_feed, reverse_line_feed, move_to_column, blank}
use conhost.VtOutput.Sgr.{clear, reverse_video, underscore}
use conhost.VtOutput.Modes.{save_cursor, restore_cursor}
use conhost.VtOutput.Parser.{VtOutputParseState}

abbrev pub default_color_table : List ℕ
default_color_table =
    0 ∷ 8388608 ∷ 32768 ∷ 8421376 ∷ 128 ∷ 8388736 ∷ 32896 ∷ 12632256 ∷ 8421504 ∷ 16711680 ∷ 65280
    ∷ 16776960 ∷ 255 ∷ 16711935 ∷ 65535 ∷ 16777215 ∷ []

-- What ESC c reads back when it leaves the alternate buffer.
unfoldable pub leave_alternate : Call → Output → Output
leave_alternate c o = elim o.screen.vt_main_backup [
  | none ↦ o
  | some backup ↦
      let b = (set_vt_using_alternate_screen_buffer c.allocated false (blank o) o.screen).0 in
      record o {
        screen = b;
        cursor = b.cursor_position;
        attributes = b.text_attributes;
        vertical_margins = b.vt_vertical_margins;
        origin_mode = b.vt_origin_mode_enabled;
        insert_mode = b.vt_insert_mode_enabled;
        delayed_wrap = b.vt_delayed_wrap_position;
      }
]

-- `buffer_size.X * buffer_size.Y`.
abbrev pub total : Call → ℕ
total c = to_size c.size.x * to_size c.size.y

-- ESC c.
unfoldable pub hard_reset : Call → Output → Output
hard_reset c left =
    let o = leave_alternate c left in
    let colored = set_color_table default_color_table o.screen in
    let shown = set_cursor_info colored.cursor_size true colored in
    erase origin (total c) (record o {
      screen =
          set_vt_vertical_margins none
            (save_cursor_state origin c.default_attributes false false shown);
      autowrap = true;
      origin_mode = false;
      insert_mode = false;
      delayed_wrap = none;
      vertical_margins = none;
      attributes = c.default_attributes;
      cursor = origin;
    })

-- ESC # 8.
unfoldable pub alignment_pattern : Call → Output → Output
alignment_pattern c o =
    let lettered = (fill_output_characters origin b'E' (total c) o.screen).0 in
    let filled = (fill_output_attributes origin c.default_attributes (total c) lettered).0 in
    record o {
      delayed_wrap = none;
      attributes = clear (reverse_video + underscore) o.attributes;
      origin_mode = false;
      vertical_margins = none;
      screen = set_vt_vertical_margins none filled;
      cursor = origin;
    }

-- The character behind ESC: what it does to the variables of the call.
unfoldable pub escape_effect : Call → ℕ → Output → Output
escape_effect c ch o =
    if ch == b'7'
    then save_cursor o
    else if ch == b'8'
    then restore_cursor c o
    else if ch == b'D'
    then line_feed c o
    else if ch == b'M'
    then reverse_line_feed c o
    else if ch == b'E'
    then line_feed c (move_to_column (pos 0) o)
    else if ch == b'c'
    then hard_reset c o
    else o

abbrev pub is_alignment : ℕ → VtOutputParseState → Bool
is_alignment ch p =
    (ch == b'8') && ((length p.esc_intermediates == 1) && (get_or p.esc_intermediates 0 0 == b'#'))

unfoldable pub dispatch_effect : Call → ℕ → VtOutputParseState → Output → Output
dispatch_effect c ch p o = if is_alignment ch p then alignment_pattern c o else o
