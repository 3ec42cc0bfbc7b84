-- ===== src/Dispatch/Calls.antt =====
-- The messages on a screen buffer as one function: `dispatch_message` by the number of the message.
use conhost.Prelude.{ℕ, Bool}
use conhost.Screen.{Coord, SmallRect, ScreenBuffer}
use conhost.Dispatch.{Reply, ScreenBufferInfo}
use conhost.Dispatch.Buffers.{
  get_cursor_info, set_cursor_info_message, get_screen_buffer_info, set_screen_buffer_info,
  set_screen_buffer_size_message, set_cursor_position_message, get_largest_window_size,
}
use conhost.Dispatch.Cells.{
  ScrollMessage, scroll_message, set_text_attribute, set_window_info, ElementType,
  fill_console_output, set_display_mode, char_type,
}

pub data BufferMessage : Type 0 where
  consolep_get_cursor_info : BufferMessage
  consolep_set_cursor_info : ℕ → Bool → BufferMessage
  consolep_get_screen_buffer_info : BufferMessage
  consolep_set_screen_buffer_info : ScreenBufferInfo → BufferMessage
  consolep_set_screen_buffer_size : Coord → BufferMessage
  consolep_set_cursor_position : Coord → BufferMessage
  consolep_get_largest_window_size : BufferMessage
  consolep_scroll_screen_buffer : ScrollMessage → BufferMessage
  consolep_set_text_attribute : ℕ → BufferMessage
  consolep_set_window_info : Bool → SmallRect → BufferMessage
  consolep_fill_console_output : ElementType → Coord → ℕ → ℕ → BufferMessage
  consolep_set_display_mode : BufferMessage
  consolep_char_type : Coord → BufferMessage

-- Whether a resize or a scroll gets its memory is the first argument.
unfoldable pub call : Bool → BufferMessage → ScreenBuffer → ScreenBuffer × Reply
unfolding set_cursor_info_message get_screen_buffer_info set_screen_buffer_info
    set_screen_buffer_size_message set_cursor_position_message scroll_message set_window_info
    fill_console_output char_type
call allocated consolep_get_cursor_info b = get_cursor_info b
call allocated (consolep_set_cursor_info size visible) b = set_cursor_info_message size visible b
call allocated consolep_get_screen_buffer_info b = get_screen_buffer_info b
call allocated (consolep_set_screen_buffer_info info) b = set_screen_buffer_info allocated info b
call allocated (consolep_set_screen_buffer_size size) b =
    set_screen_buffer_size_message allocated size b
call allocated (consolep_set_cursor_position position) b = set_cursor_position_message position b
call allocated consolep_get_largest_window_size b = get_largest_window_size b
call allocated (consolep_scroll_screen_buffer body) b = scroll_message allocated body b
call allocated (consolep_set_text_attribute attributes) b = set_text_attribute attributes b
call allocated (consolep_set_window_info absolute window) b = set_window_info absolute window b
call allocated (consolep_fill_console_output type at element n) b =
    fill_console_output type at element n b
call allocated consolep_set_display_mode b = set_display_mode b
call allocated (consolep_char_type check) b = char_type check b
