-- ===== src/Dispatch/Cells.antt =====
-- The messages on the screen buffer of an output handle that move its cells or its window, or fill it.
use conhost.Prelude.{ℕ, ◌%◌, ◌^◌, if◌then◌else◌, Bool, not, ◌&&◌, ◌||◌}
use conhost.Prelude.Int.{ℤ, pos, ◌+ℤ◌, ◌-ℤ◌, ltb_ℤ, to_i16}
use conhost.Screen.{
  Coord, SmallRect, ScreenCell, ScreenBuffer, is_degenerate, set_window_rect, at_least, at_most,
}
use conhost.Screen.Cells.{fill_output_characters, fill_output_attributes}
use conhost.Screen.Cursor.{set_text_attributes}
use conhost.Screen.Scroll.{scroll_screen_buffer}
use conhost.Dispatch.Buffers.{is_outside}
use conhost.Dispatch.{
  Status, status_invalid_parameter, status_no_memory, nothing, a_number, a_size, Reply, answer,
  reject, accepted_or, succeed,
}

-- `CONSOLE_SCROLLSCREENBUFFER_MSG`; without `clip` its clip rectangle is not read.
pub record ScrollMessage : Type 0 where
  pub scroll_rectangle : SmallRect
  pub clip_rectangle : SmallRect
  pub clip : Bool
  pub unicode : Bool
  pub destination_origin : Coord
  pub fill : ScreenCell

abbrev pub is_disordered : SmallRect → Bool
is_disordered rect = ltb_ℤ rect.right rect.left || ltb_ℤ rect.bottom rect.top

-- A rectangle clipped to the buffer.
abbrev pub clipped : ℤ → ℤ → SmallRect → SmallRect
clipped max_x max_y rect = record {
  left = at_least (pos 0) rect.left;
  top = at_least (pos 0) rect.top;
  right = at_most max_x rect.right;
  bottom = at_most max_y rect.bottom;
}

-- An `AsciiChar` is the low byte of the cell's character.
abbrev pub fill_cell : Bool → ScreenCell → ScreenCell
fill_cell unicode cell =
    if unicode then cell else record cell { character = cell.character % 2 ^ 8 }

-- The last column and the last row of the buffer.
abbrev pub max_x : ScreenBuffer → ℤ
max_x b = to_i16 (b.buffer_size.x -ℤ pos 1)

abbrev pub max_y : ScreenBuffer → ℤ
max_y b = to_i16 (b.buffer_size.y -ℤ pos 1)

abbrev pub whole_buffer : ScreenBuffer → SmallRect
whole_buffer b = record { left = pos 0; top = pos 0; right = max_x b; bottom = max_y b }

abbrev pub scrolled_rect : ScrollMessage → ScreenBuffer → SmallRect
scrolled_rect body b = clipped (max_x b) (max_y b) body.scroll_rectangle

abbrev pub scroll_clip : ScrollMessage → ScreenBuffer → SmallRect
scroll_clip body b =
    if body.clip then clipped (max_x b) (max_y b) body.clip_rectangle else whole_buffer b

-- `ScrollScreenBuffer` once it is known what part of the buffer moves.
unfoldable pub scroll_within : Bool → ScrollMessage → ScreenBuffer → ScreenBuffer × Reply
unfolding scroll_screen_buffer accepted_or succeed
scroll_within allocated body b =
    if body.clip && is_disordered body.clip_rectangle
    then (b, reject status_invalid_parameter)
    else if body.clip && is_disordered (scroll_clip body b)
    then (b, answer nothing)
    else accepted_or status_no_memory succeed (
        scroll_screen_buffer allocated (scrolled_rect body b) (scroll_clip body b)
          body.destination_origin (fill_cell body.unicode body.fill) b)

unfoldable pub scroll_message : Bool → ScrollMessage → ScreenBuffer → ScreenBuffer × Reply
unfolding scroll_within
scroll_message allocated body b =
    if is_degenerate b.buffer_size
    then (b, reject status_no_memory)
    else if is_disordered body.scroll_rectangle
    then (b, reject status_invalid_parameter)
    else if is_disordered (scrolled_rect body b)
    then (b, answer nothing)
    else scroll_within allocated body b

abbrev pub set_text_attribute : ℕ → ScreenBuffer → ScreenBuffer × Reply
set_text_attribute attributes b = (set_text_attributes attributes b, answer nothing)

-- `current` moved by `delta`; `right < left` and `left < 0` are tested before the cast.
abbrev pub moved_edges : SmallRect → SmallRect → SmallRect
moved_edges current delta = record {
  left = current.left +ℤ delta.left;
  top = current.top +ℤ delta.top;
  right = current.right +ℤ delta.right;
  bottom = current.bottom +ℤ delta.bottom;
}

abbrev pub leaves_buffer : SmallRect → Coord → Bool
leaves_buffer rect size =
    is_outside (record { x = rect.left; y = rect.top }) size
    || is_outside (record { x = rect.right; y = rect.bottom }) size

abbrev pub cast_rect : SmallRect → SmallRect
cast_rect rect = record {
  left = to_i16 rect.left;
  top = to_i16 rect.top;
  right = to_i16 rect.right;
  bottom = to_i16 rect.bottom;
}

abbrev pub desired_window : Bool → SmallRect → ScreenBuffer → SmallRect
desired_window absolute window b =
    if absolute then window else cast_rect (moved_edges b.window_rect window)

unfoldable pub set_window_info : Bool → SmallRect → ScreenBuffer → ScreenBuffer × Reply
unfolding set_window_rect accepted_or succeed
set_window_info absolute window b =
    let moved = moved_edges b.window_rect window in
    if not absolute && is_disordered moved
    then (b, reject status_invalid_parameter)
    else if not absolute && leaves_buffer moved b.buffer_size
    then (b, reject status_invalid_parameter)
    else accepted_or status_invalid_parameter succeed
        (set_window_rect (desired_window absolute window b) b)

pub data ElementType : Type 0 where
  console_ascii : ElementType
  console_real_unicode : ElementType
  console_attribute : ElementType
  console_false_unicode : ElementType
  other_type : ElementType

abbrev pub filled : ScreenBuffer × ℕ → ScreenBuffer × Reply
filled (b, written) = (b, answer (a_number (written % 2 ^ 32)))

-- `body.Length = 0`, which an error leaves.
abbrev pub nothing_filled : Status → Reply
nothing_filled status = record (reject status) { body = a_number 0 }

-- The `switch` of `FillConsoleOutput`.
unfoldable pub fill_elements : ElementType → Coord → ℕ → ℕ → ScreenBuffer → ScreenBuffer × Reply
fill_elements console_attribute origin element n b =
    filled (fill_output_attributes origin element n b)
fill_elements console_real_unicode origin element n b =
    filled (fill_output_characters origin element n b)
fill_elements console_false_unicode origin element n b =
    filled (fill_output_characters origin element n b)
fill_elements console_ascii origin element n b =
    filled (fill_output_characters origin (element % 2 ^ 8) n b)
fill_elements other_type origin element n b = (b, nothing_filled status_invalid_parameter)

unfoldable pub fill_console_output :
    ElementType → Coord → ℕ → ℕ → ScreenBuffer → ScreenBuffer × Reply
unfolding fill_elements
fill_console_output type write_coord element requested b =
    if is_degenerate b.buffer_size
    then (b, nothing_filled status_no_memory)
    else if is_outside write_coord b.buffer_size
    then (b, nothing_filled status_invalid_parameter)
    else fill_elements type write_coord element requested b

abbrev pub set_display_mode : ScreenBuffer → ScreenBuffer × Reply
set_display_mode b = (b, answer (a_size b.buffer_size))

-- `CHAR_TYPE_SBCS`.
unfoldable pub char_type : Coord → ScreenBuffer → ScreenBuffer × Reply
char_type check b =
    if is_outside check b.buffer_size
    then (b, reject status_invalid_parameter)
    else (b, answer (a_number 0))
