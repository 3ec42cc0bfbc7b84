-- ===== src/Screen.antt =====
-- `ScreenBuffer` of src/condrv/condrv_server.hpp and condrv_server.cpp: its state and settings, the
-- constructor, the window, the cursor, and the VT modes. The operations on cells are in Screen/Cells.
-- A `SHORT` is an integer, a `long` computed from it is exact, and the cast back is written out.
pub mod Cells
pub mod Window
pub mod Place
pub mod Cursor
pub mod Alternate
pub mod Size
pub mod Resized
pub mod Copied
pub mod Loops
pub mod Output
pub mod Insert
pub mod Scroll
pub mod Tests
use conhost.Prelude.{
  ℕ, zero, suc, ◌+◌, ◌-◌, ◌*◌, ◌%◌, ◌^◌, ltb, ◌==◌, if◌then◌else◌, Bool, true, false, not, ◌&&◌,
  ◌||◌, List, [], ◌∷◌, length, replicate, Option, none, some,
}
use conhost.Prelude.Int.{ℤ, pos, negsuc, ◌+ℤ◌, ◌-ℤ◌, ltb_ℤ, leb_ℤ, to_i16}

-- `COORD`.
pub record Coord : Type 0 where
  pub x : ℤ
  pub y : ℤ

-- `SMALL_RECT`, with both ends included.
pub record SmallRect : Type 0 where
  pub left : ℤ
  pub top : ℤ
  pub right : ℤ
  pub bottom : ℤ

pub record ScreenCell : Type 0 where
  pub character : ℕ
  pub attributes : ℕ

pub record SavedCursorState : Type 0 where
  pub position : Coord
  pub attributes : ℕ
  pub delayed_eol_wrap : Bool
  pub origin_mode_enabled : Bool

pub record VtVerticalMargins : Type 0 where
  pub top : ℤ
  pub bottom : ℤ

pub record Settings : Type 0 where
  pub buffer_size : Coord
  pub cursor_position : Coord
  pub scroll_position : Coord
  pub window_size : Coord
  pub maximum_window_size : Coord
  pub text_attributes : ℕ
  pub cursor_size : ℕ
  pub cursor_visible : Bool
  pub color_table : List ℕ

pub record VtAlternateBufferBackup : Type 0 where
  pub cells : List ScreenCell
  pub cursor_position : Coord
  pub text_attributes : ℕ
  pub default_text_attributes : ℕ
  pub cursor_size : ℕ
  pub cursor_visible : Bool
  pub saved_cursor_state : Option SavedCursorState
  pub vt_vertical_margins : Option VtVerticalMargins
  pub vt_delayed_wrap_position : Option Coord
  pub vt_origin_mode_enabled : Bool

-- The fields of `ScreenBuffer`, but for the state of the VT output parser.
pub record ScreenBuffer : Type 0 where
  pub buffer_size : Coord
  pub cursor_position : Coord
  pub window_rect : SmallRect
  pub maximum_window_size : Coord
  pub text_attributes : ℕ
  pub default_text_attributes : ℕ
  pub cursor_size : ℕ
  pub cursor_visible : Bool
  pub color_table : List ℕ
  pub saved_cursor_state : Option SavedCursorState
  pub vt_vertical_margins : Option VtVerticalMargins
  pub vt_main_backup : Option VtAlternateBufferBackup
  pub vt_autowrap_enabled : Bool
  pub vt_delayed_wrap_position : Option Coord
  pub vt_origin_mode_enabled : Bool
  pub vt_insert_mode_enabled : Bool
  pub cells : List ScreenCell
  pub revision : ℕ

abbrev pub origin : Coord
origin = record { x = pos 0; y = pos 0 }

-- `size.X <= 0 || size.Y <= 0`.
abbrev pub is_degenerate : Coord → Bool
is_degenerate size = leb_ℤ size.x (pos 0) || leb_ℤ size.y (pos 0)

-- `++_revision`, in `uint64_t`.
abbrev pub touch : ScreenBuffer → ScreenBuffer
touch b = record b { revision = (b.revision + 1) % 2 ^ 64 }

-- `if (v < low) v = low;` and `if (v > high) v = high;`.
abbrev pub at_least : ℤ → ℤ → ℤ
at_least low v = if ltb_ℤ v low then low else v

abbrev pub at_most : ℤ → ℤ → ℤ
at_most high v = if ltb_ℤ high v then high else v

-- `static_cast<size_t>` of a `SHORT`.
abbrev pub to_size : ℤ → ℕ
to_size (pos n) = n
to_size (negsuc n) = 2 ^ 64 - 1 - n

-- The constructor on one axis: the extent of the window, and its first row or column.
unfoldable pub initial_extent : ℤ → ℤ → ℤ
initial_extent desired buffer =
    let extent = at_most buffer (if leb_ℤ desired (pos 0) then buffer else desired) in
    if leb_ℤ extent (pos 0) then pos 1 else extent

unfoldable pub initial_start : ℤ → ℤ → ℤ → ℤ
initial_start scroll extent buffer =
    at_least (pos 0) (at_most (buffer -ℤ extent) (if ltb_ℤ scroll (pos 0) then pos 0 else scroll))

-- `start + extent - 1`.
abbrev pub last_of : ℤ → ℤ → ℤ
last_of start extent = start +ℤ extent -ℤ pos 1

-- The cursor of the constructor on one axis.
unfoldable pub initial_cursor : ℤ → ℤ → ℤ
initial_cursor cursor buffer =
    let inside = at_least (pos 0) cursor in
    if leb_ℤ buffer inside then to_i16 (buffer -ℤ pos 1) else inside

unfoldable pub initial_window : Settings → Coord → SmallRect
unfolding initial_extent initial_start
initial_window s desired =
    let width = initial_extent desired.x s.buffer_size.x in
    let height = initial_extent desired.y s.buffer_size.y in
    let left = initial_start s.scroll_position.x width s.buffer_size.x in
    let top = initial_start s.scroll_position.y height s.buffer_size.y in
    record {
      left = to_i16 left;
      top = to_i16 top;
      right = to_i16 (last_of left width);
      bottom = to_i16 (last_of top height);
    }

-- The members that the constructor sets before its body.
abbrev pub unsized : Settings → ScreenBuffer
unsized s = record {
  buffer_size = origin;
  cursor_position = origin;
  window_rect = record { left = pos 0; top = pos 0; right = pos 0; bottom = pos 0 };
  maximum_window_size = origin;
  text_attributes = s.text_attributes;
  default_text_attributes = s.text_attributes;
  cursor_size = s.cursor_size;
  cursor_visible = s.cursor_visible;
  color_table = s.color_table;
  saved_cursor_state = none;
  vt_vertical_margins = none;
  vt_main_backup = none;
  vt_autowrap_enabled = true;
  vt_delayed_wrap_position = none;
  vt_origin_mode_enabled = false;
  vt_insert_mode_enabled = false;
  cells = [];
  revision = 0;
}

-- `ScreenBuffer::ScreenBuffer`.
unfoldable pub construct : Settings → ScreenBuffer
unfolding initial_window initial_cursor
construct s =
    let size = s.buffer_size in
    let desired = if is_degenerate s.window_size then size else s.window_size in
    let maximum = if is_degenerate s.maximum_window_size then size else s.maximum_window_size in
    if is_degenerate size then unsized s else record (unsized s) {
      buffer_size = size;
      cursor_position = record {
        x = initial_cursor s.cursor_position.x size.x;
        y = initial_cursor s.cursor_position.y size.y;
      };
      window_rect = initial_window s desired;
      maximum_window_size = record { x = at_least size.x maximum.x; y = at_least size.y maximum.y };
      cells =
          replicate (to_size size.x * to_size size.y)
            (record { character = b' '; attributes = s.text_attributes });
    }

abbrev pub set_cursor_position : Coord → ScreenBuffer → ScreenBuffer
set_cursor_position position b = touch (record b { cursor_position = position })

abbrev pub scroll_position : ScreenBuffer → Coord
scroll_position b = record { x = b.window_rect.left; y = b.window_rect.top }

unfoldable pub set_window_rect : SmallRect → ScreenBuffer → ScreenBuffer × Bool
set_window_rect rect b =
    if is_degenerate b.buffer_size
    then (b, false)
    else if ltb_ℤ rect.right rect.left || ltb_ℤ rect.bottom rect.top
    then (b, false)
    else if ltb_ℤ rect.left (pos 0) || ltb_ℤ rect.top (pos 0)
    then (b, false)
    else if ltb_ℤ rect.right (pos 0) || ltb_ℤ rect.bottom (pos 0)
    then (b, false)
    else if leb_ℤ b.buffer_size.x rect.right || leb_ℤ b.buffer_size.y rect.bottom
    then (b, false)
    else (touch (record b { window_rect = rect }), true)

-- `right - left + 1`.
abbrev pub extent_of : ℤ → ℤ → ℤ
extent_of first last = last -ℤ first +ℤ pos 1

unfoldable pub window_size : ScreenBuffer → Coord
window_size b =
    let width = extent_of b.window_rect.left b.window_rect.right in
    let height = extent_of b.window_rect.top b.window_rect.bottom in
    if leb_ℤ width (pos 0) || leb_ℤ height (pos 0)
    then origin
    else record { x = at_most (pos 32767) width; y = at_most (pos 32767) height }

unfoldable pub set_window_size : Coord → ScreenBuffer → ScreenBuffer × Bool
set_window_size size b =
    let right = last_of b.window_rect.left size.x in
    let bottom = last_of b.window_rect.top size.y in
    if is_degenerate b.buffer_size
    then (b, false)
    else if is_degenerate size
    then (b, false)
    else if ltb_ℤ b.buffer_size.x size.x || ltb_ℤ b.buffer_size.y size.y
    then (b, false)
    else if ltb_ℤ b.window_rect.left (pos 0) || ltb_ℤ b.window_rect.top (pos 0)
    then (b, false)
    else if leb_ℤ b.buffer_size.x right || leb_ℤ b.buffer_size.y bottom
    then (b, false)
    else (
      touch (record b {
        window_rect = record {
          left = to_i16 b.window_rect.left;
          top = to_i16 b.window_rect.top;
          right = to_i16 right;
          bottom = to_i16 bottom;
        };
      }),
      true,
    )

-- `snap_window_to_cursor` on one axis: the new first row or column of the window.
unfoldable pub snap_start : ℤ → ℤ → ℤ → ℤ → ℤ → ℤ
snap_start first last cursor extent buffer = at_most (buffer -ℤ extent) (
    at_least (pos 0) (
      if ltb_ℤ cursor first
      then cursor
      else if ltb_ℤ last cursor
      then cursor -ℤ (extent -ℤ pos 1)
      else first))

unfoldable pub snap_window_to_cursor : ScreenBuffer → ScreenBuffer
unfolding window_size snap_start
snap_window_to_cursor b =
    let size = window_size b in
    let w = b.window_rect in
    let left = snap_start w.left w.right b.cursor_position.x size.x b.buffer_size.x in
    let top = snap_start w.top w.bottom b.cursor_position.y size.y b.buffer_size.y in
    if is_degenerate b.buffer_size
    then b
    else if is_degenerate size
    then b
    else touch (record b {
      window_rect = record {
        left = to_i16 left;
        top = to_i16 top;
        right = to_i16 (last_of left size.x);
        bottom = to_i16 (last_of top size.y);
      };
    })
