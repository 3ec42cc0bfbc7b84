-- ===== src/Dispatch/Buffers.antt =====
-- The messages on the screen buffer of an output handle.
use conhost.Prelude.{ℕ, ltb, if◌then◌else◌, Bool, false, ◌||◌}
use conhost.Prelude.Int.{pos, ◌+ℤ◌, ◌-ℤ◌, ltb_ℤ, leb_ℤ, to_i16}
use conhost.Screen.{
  Coord, ScreenBuffer, is_degenerate, set_cursor_position, scroll_position, set_window_rect,
  snap_window_to_cursor, SmallRect,
}
use conhost.Screen.Cursor.{
  set_cursor_info, set_text_attributes, set_default_text_attributes, set_color_table,
}
use conhost.Screen.Size.{set_screen_buffer_size}
use conhost.Dispatch.{
  status_invalid_parameter, status_no_memory, ScreenBufferInfo, nothing, a_size, cursor_info,
  screen_buffer_info, Reply, answer, reject, accepted_or, succeed,
}

abbrev pub get_cursor_info : ScreenBuffer → ScreenBuffer × Reply
get_cursor_info b = (b, answer (cursor_info b.cursor_size b.cursor_visible))

unfoldable pub set_cursor_info_message : ℕ → Bool → ScreenBuffer → ScreenBuffer × Reply
set_cursor_info_message size visible b =
    if ltb size 1 || ltb 100 size
    then (b, reject status_invalid_parameter)
    else (set_cursor_info size visible b, answer nothing)

unfoldable pub get_screen_buffer_info : ScreenBuffer → ScreenBuffer × Reply
get_screen_buffer_info b = (
  b,
  answer (
      screen_buffer_info (record {
        size = b.buffer_size;
        cursor_position = b.cursor_position;
        scroll_position = scroll_position b;
        attributes = b.text_attributes;
        current_window_size = record {
          x = to_i16 (b.window_rect.right -ℤ b.window_rect.left);
          y = to_i16 (b.window_rect.bottom -ℤ b.window_rect.top);
        };
        maximum_window_size = b.maximum_window_size;
        popup_attributes = b.text_attributes;
        fullscreen_supported = false;
        color_table = b.color_table;
      })),
)

-- `X < 0 || Y < 0 || X >= size.X || Y >= size.Y`.
abbrev pub is_outside : Coord → Coord → Bool
is_outside c size = ltb_ℤ c.x (pos 0) || ltb_ℤ c.y (pos 0) || leb_ℤ size.x c.x || leb_ℤ size.y c.y

-- The window as cast for `set_window_rect`.
abbrev pub info_window : ScreenBufferInfo → SmallRect
info_window info = record {
  left = to_i16 info.scroll_position.x;
  top = to_i16 info.scroll_position.y;
  right = to_i16 (info.scroll_position.x +ℤ info.current_window_size.x);
  bottom = to_i16 (info.scroll_position.y +ℤ info.current_window_size.y);
}

-- Its three guards: a negative corner or extent, an end before the start, a corner outside.
abbrev pub is_negative : ScreenBufferInfo → Bool
is_negative info =
    ltb_ℤ info.scroll_position.x (pos 0)
    || ltb_ℤ info.scroll_position.y (pos 0)
    || ltb_ℤ info.current_window_size.x (pos 0)
    || ltb_ℤ info.current_window_size.y (pos 0)

abbrev pub is_reversed : ScreenBufferInfo → Bool
is_reversed info =
    ltb_ℤ (info.scroll_position.x +ℤ info.current_window_size.x) info.scroll_position.x
    || ltb_ℤ (info.scroll_position.y +ℤ info.current_window_size.y) info.scroll_position.y

abbrev pub is_beyond : ScreenBufferInfo → Coord → Bool
is_beyond info size =
    leb_ℤ size.x info.scroll_position.x
    || leb_ℤ size.y info.scroll_position.y
    || leb_ℤ size.x (info.scroll_position.x +ℤ info.current_window_size.x)
    || leb_ℤ size.y (info.scroll_position.y +ℤ info.current_window_size.y)

-- The end of `SetScreenBufferInfo`: the window.
unfoldable pub apply_window : ScreenBufferInfo → ScreenBuffer → ScreenBuffer × Reply
unfolding set_window_rect accepted_or succeed
apply_window info b =
    if is_negative info
    then (b, reject status_invalid_parameter)
    else if is_reversed info
    then (b, reject status_invalid_parameter)
    else if is_beyond info b.buffer_size
    then (b, reject status_invalid_parameter)
    else accepted_or status_invalid_parameter succeed (set_window_rect (info_window info) b)

-- `SetScreenBufferInfo` once the buffer has its size: what was set before an error stays set.
unfoldable pub apply_info : ScreenBufferInfo → ScreenBuffer → ScreenBuffer × Reply
unfolding apply_window
apply_info info b =
    let placed = set_cursor_position info.cursor_position b in
    let colored =
      set_default_text_attributes info.attributes (set_text_attributes info.attributes placed) in
    if is_outside info.cursor_position info.size
    then (b, reject status_invalid_parameter)
    else apply_window info (set_color_table info.color_table colored)

-- Whether a resize gets its memory is the first argument here and below.
unfoldable pub set_screen_buffer_info :
    Bool → ScreenBufferInfo → ScreenBuffer → ScreenBuffer × Reply
unfolding set_screen_buffer_size apply_info accepted_or
set_screen_buffer_info allocated info b =
    if is_degenerate info.size
    then (b, reject status_invalid_parameter)
    else accepted_or status_no_memory (apply_info info)
        (set_screen_buffer_size allocated info.size b)

unfoldable pub set_screen_buffer_size_message : Bool → Coord → ScreenBuffer → ScreenBuffer × Reply
unfolding set_screen_buffer_size accepted_or succeed
set_screen_buffer_size_message allocated requested b =
    if is_degenerate requested
    then (b, reject status_invalid_parameter)
    else accepted_or status_no_memory succeed (set_screen_buffer_size allocated requested b)

unfoldable pub set_cursor_position_message : Coord → ScreenBuffer → ScreenBuffer × Reply
unfolding snap_window_to_cursor
set_cursor_position_message position b =
    if is_outside position b.buffer_size
    then (b, reject status_invalid_parameter)
    else (snap_window_to_cursor (set_cursor_position position b), answer nothing)

abbrev pub get_largest_window_size : ScreenBuffer → ScreenBuffer × Reply
get_largest_window_size b = (b, answer (a_size b.maximum_window_size))
