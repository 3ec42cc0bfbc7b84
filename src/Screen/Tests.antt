-- ===== src/Screen/Tests.antt =====
-- Runs of a small screen buffer, and the theorems at concrete inputs.
use conhost.Prelude.{
  ℕ, ◌≡◌, ◌↔◌, refl, [], ◌∷◌, true, false, some, none, length, replicate, arith, get_elem?,
  if◌then◌else◌,
}
use conhost.Prelude.Int.{pos, to_i16, ◌+ℤ◌, ◌-ℤ◌}
use conhost.Screen.{
  Coord, SmallRect, Settings, ScreenBuffer, ScreenCell, SavedCursorState, construct,
  set_window_rect, window_size, snap_window_to_cursor, initial_window, initial_extent,
  initial_start, initial_cursor, snap_start, touch,
}
use conhost.Screen.Window.{
  IsWindowed, CursorInBuffer, CursorInWindow, IsInside, snap_window_to_cursor-CursorInWindow,
}
use conhost.Screen.Place.{set_window_rect-IsWindowed, construct-IsWindowed}
use conhost.Screen.Alternate.{
  set_vt_using_alternate_screen_buffer, main_view, besides,
  set_vt_using_alternate_screen_buffer-main_view,
}
use conhost.Screen.Cells.{
  coord_in_range, linear_index, insert_cell, move_right, write_loop, read_loop, write_output,
  read_output, write_output_characters, read_output_characters, fill_output_characters,
  write_output_attributes, fill_output_attributes, read_output_ascii,
}
use conhost.Screen.Output.{
  WritesAndReads, read_output_characters-write_output_characters, fill_output-write_output,
}
use conhost.Screen.Size.{
  set_screen_buffer_size, resize, resize_cells, copy_rows, copy_row, resize_backup, resize_margins,
  resized_window, resized_extent, resized_start, blank_of,
}
use conhost.Screen.Resized.{set_screen_buffer_size-IsSound}
use conhost.Screen.Copied.{set_screen_buffer_size-get_elem?}
use conhost.Screen.Insert.{IsFilled, insert_cell-get_elem?}

abbrev at : ℕ → ℕ → Coord
at x y = record { x = pos x; y = pos y }

-- Four columns and three rows, seen through two columns and two rows.
abbrev small : Settings
small = record {
  buffer_size = at 4 3;
  cursor_position = at 9 1;
  scroll_position = at 3 0;
  window_size = at 2 2;
  maximum_window_size = at 2 2;
  text_attributes = 7;
  cursor_size = 25;
  cursor_visible = true;
  color_table = [];
}

abbrev screen : ScreenBuffer
screen = record {
  buffer_size = at 4 3;
  cursor_position = at 3 2;
  window_rect = record { left = pos 0; top = pos 0; right = pos 1; bottom = pos 1 };
  maximum_window_size = at 4 3;
  text_attributes = 7;
  default_text_attributes = 7;
  cursor_size = 25;
  cursor_visible = true;
  color_table = [];
  saved_cursor_state = none;
  vt_vertical_margins = none;
  vt_main_backup = none;
  vt_autowrap_enabled = true;
  vt_delayed_wrap_position = none;
  vt_origin_mode_enabled = false;
  vt_insert_mode_enabled = false;
  cells = replicate 12 (record { character = 32; attributes = 7 });
  revision = 0;
}

constructed :
    ((construct small).window_rect
      ≡ record { left = pos 2; top = pos 0; right = pos 3; bottom = pos 1 })
    × ((construct small).cursor_position ≡ at 3 1)
    × ((construct small).maximum_window_size ≡ at 4 3)
unfolding construct initial_window initial_extent initial_start initial_cursor to_i16 ◌+ℤ◌ ◌-ℤ◌
constructed = (refl, refl, refl)

snapped :
    (snap_window_to_cursor screen).window_rect
    ≡ record { left = pos 2; top = pos 1; right = pos 3; bottom = pos 2 }
unfolding snap_window_to_cursor window_size snap_start to_i16 ◌+ℤ◌ ◌-ℤ◌
snapped = refl

-- `abcd` written, then `x` inserted at the second column: the `d` is dropped.
abbrev written : ScreenBuffer
written = (write_output_characters (at 0 0) (97 ∷ 98 ∷ 99 ∷ 100 ∷ 101 ∷ []) screen).0

inserted :
    read_output_characters (at 0 0) 6 ((insert_cell (at 1 0) 120 7 written).0)
    ≡ 97 ∷ 120 ∷ 98 ∷ 99 ∷ 101 ∷ 32 ∷ []
unfolding insert_cell write_output_characters write_output write_loop read_output_characters
    read_output read_loop coord_in_range linear_index move_right
inserted = refl

ascii :
    read_output_ascii (at 2 2) 9 ((write_output_characters (at 2 2) (256 ∷ 65 ∷ 66 ∷ []) screen).0)
    ≡ 63 ∷ 65 ∷ []
unfolding read_output_ascii write_output_characters write_output write_loop read_output read_loop
    coord_in_range linear_index
ascii = refl

abbrev screen-IsWindowed : IsWindowed screen
screen-IsWindowed = record {
  wide = (omega arith, omega arith);
  high = (omega arith, omega arith);
  across = (omega arith, omega arith, omega arith);
  down = (omega arith, omega arith, omega arith);
}

snap_window_to_cursor-CursorInWindow_example :
    CursorInWindow (snap_window_to_cursor screen)
    × IsWindowed (snap_window_to_cursor screen)
    × (window_size (snap_window_to_cursor screen) ≡ window_size screen)
    × ((snap_window_to_cursor screen).cursor_position ≡ screen.cursor_position)
    × ((snap_window_to_cursor screen).buffer_size ≡ screen.buffer_size)
    × ((snap_window_to_cursor screen).cells ≡ screen.cells)
snap_window_to_cursor-CursorInWindow_example =
    snap_window_to_cursor-CursorInWindow screen screen-IsWindowed
      (omega arith, omega arith, omega arith, omega arith)

abbrev middle : SmallRect
middle = record { left = pos 1; top = pos 0; right = pos 2; bottom = pos 2 }

set_window_rect-IsWindowed_example :
    IsWindowed (set_window_rect middle screen).0
    × (((set_window_rect middle screen).1 ≡ true)
        ↔ (IsInside (pos 1) (pos 2) (pos 4) × IsInside (pos 0) (pos 2) (pos 3)))
    × ((set_window_rect middle screen).0 ≡ (
        if (set_window_rect middle screen).1
        then touch (record screen { window_rect = middle })
        else screen))
set_window_rect-IsWindowed_example = set_window_rect-IsWindowed middle screen screen-IsWindowed

construct-IsWindowed_example :
    IsWindowed (construct small)
    × CursorInBuffer (construct small)
    × ((construct small).buffer_size ≡ at 4 3)
    × (length (construct small).cells ≡ 12)
construct-IsWindowed_example =
    construct-IsWindowed small (omega arith, omega arith) (omega arith, omega arith) refl

-- A cursor that was saved in a larger buffer.
abbrev far : SavedCursorState
far = record {
  position = at 9 1;
  attributes = 12;
  delayed_eol_wrap = true;
  origin_mode_enabled = false;
}

abbrev blank : ScreenCell
blank = record { character = 32; attributes = 0 }

set_vt_using_alternate_screen_buffer-main_view_example :
    (main_view (set_vt_using_alternate_screen_buffer true true blank screen).0 ≡ main_view screen)
    × (besides (set_vt_using_alternate_screen_buffer true true blank screen).0 ≡ besides screen)
set_vt_using_alternate_screen_buffer-main_view_example =
    set_vt_using_alternate_screen_buffer-main_view true true blank screen

read_output_characters-write_output_characters_example :
    WritesAndReads read_output_characters
      (λ cell. cell.attributes)
      (at 2 2)
      (97 ∷ 98 ∷ 99 ∷ [])
      screen
      (write_output_characters (at 2 2) (97 ∷ 98 ∷ 99 ∷ []) screen)
read_output_characters-write_output_characters_example =
    read_output_characters-write_output_characters (at 2 2) (97 ∷ 98 ∷ 99 ∷ []) screen

fill_output-write_output_example :
    (fill_output_characters (at 2 2) 97 5 screen
      ≡ write_output_characters (at 2 2) (97 ∷ 97 ∷ 97 ∷ 97 ∷ 97 ∷ []) screen)
    × (fill_output_attributes (at 2 2) 97 5 screen
        ≡ write_output_attributes (at 2 2) (97 ∷ 97 ∷ 97 ∷ 97 ∷ 97 ∷ []) screen)
fill_output-write_output_example = fill_output-write_output (at 2 2) 97 5 screen

first_in_range : coord_in_range (at 1 1) screen ≡ true
unfolding coord_in_range
first_in_range = refl

second_in_range : coord_in_range (at 2 1) screen ≡ true
unfolding coord_in_range
second_in_range = refl

insert_cell-get_elem?_example :
    get_elem? ((insert_cell (at 1 1) 120 3 screen).0).cells 6 ≡ get_elem? screen.cells 5
unfolding linear_index
insert_cell-get_elem?_example =
    insert_cell-get_elem? (at 1 1) 120 3 6 screen refl first_in_range (omega arith)

abbrev resized : ScreenBuffer
resized = (set_screen_buffer_size true (at 2 4) written).0

-- The first two columns are kept, a row is added, and the cursor and the window follow.
shrunk :
    (read_output_characters (at 0 0) 20 resized ≡ 97 ∷ 98 ∷ 101 ∷ 32 ∷ 32 ∷ 32 ∷ 32 ∷ 32 ∷ [])
    × (resized.cursor_position ≡ at 1 2)
    × (resized.window_rect ≡ record { left = pos 0; top = pos 1; right = pos 1; bottom = pos 2 })
unfolding set_screen_buffer_size resize resize_cells copy_rows copy_row resize_backup resize_margins
    resized_window resized_extent resized_start snap_window_to_cursor window_size snap_start
    write_output_characters write_output write_loop read_output_characters read_output read_loop
    coord_in_range linear_index to_i16 ◌+ℤ◌ ◌-ℤ◌
shrunk = (refl, refl, refl)

margins :
    (resize_margins (pos 3) (some (record { top = pos 1; bottom = pos 5 }))
      ≡ some (record { top = pos 1; bottom = pos 2 }))
    × (resize_margins (pos 2) (some (record { top = pos 1; bottom = pos 5 })) ≡ none)
unfolding resize_margins to_i16 ◌-ℤ◌
margins = (refl, refl)

set_screen_buffer_size-IsSound_example :
    IsWindowed (set_screen_buffer_size true (at 2 4) screen).0
    × CursorInWindow (set_screen_buffer_size true (at 2 4) screen).0
    × CursorInBuffer (set_screen_buffer_size true (at 2 4) screen).0
    × IsFilled (set_screen_buffer_size true (at 2 4) screen).0
    × ((set_screen_buffer_size true (at 2 4) screen).0.buffer_size ≡ at 2 4)
set_screen_buffer_size-IsSound_example =
    set_screen_buffer_size-IsSound (at 2 4) screen (omega arith, omega arith)
      (omega arith, omega arith) refl (omega arith) (omega arith)

set_screen_buffer_size-get_elem?_example :
    get_elem? ((set_screen_buffer_size true (at 2 4) screen).0).cells 3 ≡ (
      if coord_in_range (at 1 1) screen
      then get_elem? screen.cells (linear_index (at 1 1) screen)
      else some (blank_of 7))
set_screen_buffer_size-get_elem?_example =
    set_screen_buffer_size-get_elem? (at 2 4) (at 1 1) screen refl refl refl (omega arith)
      (omega arith) (omega arith) (omega arith)
