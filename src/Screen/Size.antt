-- ===== src/Screen/Size.antt =====
-- The resize of a screen buffer: `ScreenBuffer::set_screen_buffer_size` of
-- src/condrv/condrv_server.cpp.
use conhost.Prelude.{
  ℕ, zero, suc, ◌+◌, ◌*◌, ◌==◌, if◌then◌else◌, Bool, true, false, ◌||◌, Option, none, some, List,
  length, get_elem?, set, replicate, min,
}
use conhost.Prelude.Int.{ℤ, pos, ◌-ℤ◌, ltb_ℤ, leb_ℤ, to_i16}
use conhost.Screen.{
  Coord, SmallRect, ScreenCell, ScreenBuffer, VtVerticalMargins, VtAlternateBufferBackup, at_least,
  at_most, is_degenerate, to_size, last_of, extent_of, touch, snap_window_to_cursor,
}

-- `new_cells[to] = _cells[from]`.
abbrev pub put_from : List ScreenCell → ℕ → ℕ → List ScreenCell → List ScreenCell
put_from old from to new = elim (get_elem? old from) [ none ↦ new | some cell ↦ set new to cell ]

-- The loop over `x`, with `n` cells of the row `y` to go.
unfoldable pub copy_row : ℕ → ℕ → ℕ → ℕ → ℕ → List ScreenCell → List ScreenCell → List ScreenCell
copy_row old_width new_width y x zero old new = new
copy_row old_width new_width y x (suc n) old new =
    copy_row old_width new_width y (suc x) n old
      (put_from old (y * old_width + x) (y * new_width + x) new)

-- The loop over `y`, with `n` rows to go.
unfoldable pub copy_rows : ℕ → ℕ → ℕ → ℕ → ℕ → List ScreenCell → List ScreenCell → List ScreenCell
copy_rows old_width new_width copy_width y zero old new = new
copy_rows old_width new_width copy_width y (suc n) old new =
    copy_rows old_width new_width copy_width (suc y) n old
      (copy_row old_width new_width y 0 copy_width old new)

-- `assign` and the two loops, for the cells of the buffer and for those of the backup.
unfoldable pub resize_cells : ℕ → ℕ → ℕ → ℕ → ScreenCell → List ScreenCell → List ScreenCell
resize_cells old_width old_height new_width new_height fill old =
    let new = replicate (new_width * new_height) fill in
    if (length old == 0) || (old_width == 0) || (old_height == 0)
    then new
    else copy_rows old_width new_width (min old_width new_width) 0 (min old_height new_height) old
        new

-- `_buffer_size.X > 0 ? static_cast<size_t>(_buffer_size.X) : 0`.
abbrev pub old_extent : ℤ → ℕ
old_extent size = if ltb_ℤ (pos 0) size then to_size size else 0

-- The window on one axis: its extent, and its first row or column.
unfoldable pub resized_extent : ℤ → ℤ → ℤ
resized_extent window buffer =
    let extent = at_most buffer window in if leb_ℤ extent (pos 0) then pos 1 else extent

unfoldable pub resized_start : ℤ → ℤ → ℤ → ℤ
resized_start first extent buffer =
    at_least (pos 0) (at_most (buffer -ℤ extent) (at_least (pos 0) first))

unfoldable pub resized_window : SmallRect → Coord → SmallRect
resized_window w size =
    let window_w = extent_of w.left w.right in
    let window_h = extent_of w.top w.bottom in
    let none_shown = leb_ℤ window_w (pos 0) || leb_ℤ window_h (pos 0) in
    let width = resized_extent (if none_shown then size.x else window_w) size.x in
    let height = resized_extent (if none_shown then size.y else window_h) size.y in
    let left = resized_start w.left width size.x in
    let top = resized_start w.top height size.y in
    record {
      left = to_i16 left;
      top = to_i16 top;
      right = to_i16 (last_of left width);
      bottom = to_i16 (last_of top height);
    }

-- `if (v >= size) v = size > 0 ? size - 1 : 0;`.
abbrev pub clip_to : ℤ → ℤ → ℤ
clip_to size v =
    if leb_ℤ size v then to_i16 (if ltb_ℤ (pos 0) size then size -ℤ pos 1 else pos 0) else v

abbrev pub clip_cursor : Coord → Coord → Coord
clip_cursor size c = record { x = clip_to size.x c.x; y = clip_to size.y c.y }

-- The margins that are left of `margins` in a buffer of `height` rows.
unfoldable pub resize_margins : ℤ → Option VtVerticalMargins → Option VtVerticalMargins
resize_margins height none = none
resize_margins height (some m) =
    let raised = at_least (pos 0) m.top in
    let top = if leb_ℤ height raised then to_i16 (height -ℤ pos 1) else raised in
    let bottom = if leb_ℤ height m.bottom then to_i16 (height -ℤ pos 1) else m.bottom in
    if ltb_ℤ m.bottom (pos 0)
    then none
    else if leb_ℤ bottom top
    then none
    else some (record { top = top; bottom = bottom })

abbrev pub blank_of : ℕ → ScreenCell
blank_of attributes = record { character = b' '; attributes = attributes }

unfoldable pub resize_backup :
    Coord → Coord → Option VtAlternateBufferBackup → Option VtAlternateBufferBackup
resize_backup old size none = none
resize_backup old size (some backup) = some (record backup {
  cells =
      resize_cells (old_extent old.x) (old_extent old.y) (to_size size.x) (to_size size.y)
        (blank_of backup.text_attributes) backup.cells;
  cursor_position = clip_cursor size backup.cursor_position;
  vt_vertical_margins = resize_margins size.y backup.vt_vertical_margins;
  vt_delayed_wrap_position = none;
})

-- What `set_screen_buffer_size` does ahead of `touch` and `snap_window_to_cursor`.
unfoldable pub resize : Coord → ScreenBuffer → ScreenBuffer
resize size b = record b {
  cells =
      resize_cells (old_extent b.buffer_size.x) (old_extent b.buffer_size.y) (to_size size.x)
        (to_size size.y) (blank_of b.text_attributes) b.cells;
  vt_main_backup = resize_backup b.buffer_size size b.vt_main_backup;
  buffer_size = size;
  maximum_window_size = record {
    x = at_least size.x b.maximum_window_size.x;
    y = at_least size.y b.maximum_window_size.y;
  };
  window_rect = resized_window b.window_rect size;
  cursor_position = clip_cursor size b.cursor_position;
  vt_vertical_margins = resize_margins size.y b.vt_vertical_margins;
  vt_delayed_wrap_position = none;
}

-- Whether the new cells are allocated is the first argument.
unfoldable pub set_screen_buffer_size : Bool → Coord → ScreenBuffer → ScreenBuffer × Bool
set_screen_buffer_size allocated size b =
    if is_degenerate size
    then (b, false)
    else if allocated
    then (snap_window_to_cursor (touch (resize size b)), true)
    else (b, false)
