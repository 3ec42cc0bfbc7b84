-- ===== src/VtOutput/Edit.antt =====
-- `apply_csi` of `apply_text_to_screen_buffer` (src/condrv/condrv_server.hpp): the sequences that insert,
-- delete, erase and scroll.
use conhost.Prelude.{
  ℕ, zero, suc, ◌+◌, ◌-◌, ◌*◌, ltb, leb, ◌==◌, if◌then◌else◌, Bool, not, ◌&&◌, ◌||◌, [], ◌∷◌,
}
use conhost.Prelude.Int.{ℤ, pos, pos_part, ◌+ℤ◌, ◌-ℤ◌, ltb_ℤ, leb_ℤ, to_i16}
use conhost.Screen.{Coord, ScreenCell, origin, to_size}
use conhost.Screen.Cells.{write_cell, read_output_characters, read_output_attributes}
use conhost.VtOutput.{
  Call, Output, with_screen, region, in_region, erase, blank, scroll_rows, scroll_region_up,
  scroll_region_down, reset_delayed_wrap,
}
use conhost.VtOutput.Csi.{VtCsiSequence, param_or, count_of}

-- The cell of the cursor's row at column `x`, or a blank where there is none.
unfoldable pub cell_in_row : ℤ → Output → ScreenCell
cell_in_row x o =
    let place : Coord = record { x = x; y = o.cursor.y } in
    elim (read_output_characters place 1 o.screen) [
      | [] ↦ blank o
      | character ∷ _ ↦ elim (read_output_attributes place 1 o.screen) [
        | [] ↦ blank o
        | attributes ∷ _ ↦ record { character = character; attributes = attributes }
      ]
    ]

abbrev pub write_in_row : ℤ → ScreenCell → Output → Output
write_in_row x cell o =
    with_screen o
      ((write_cell (record { x = x; y = o.cursor.y }) cell.character cell.attributes o.screen).0)

-- `n` blanks from column `x` on.
unfoldable pub blank_row : ℤ → ℕ → Output → Output
blank_row x zero o = o
blank_row x (suc n) o = blank_row (x +ℤ pos 1) n (write_in_row x (blank o) o)

-- The loop of CSI @ that copies from `count` columns to the left, from the right, down to `x`.
unfoldable pub shift_right : ℤ → ℕ → ℕ → Output → Output
shift_right x count zero o = o
shift_right x count (suc n) o =
    shift_right x count n (write_in_row (x +ℤ pos n) (cell_in_row (x +ℤ pos n -ℤ pos count) o) o)

-- The loop of CSI P that copies from `count` columns to the right, from column `x` on.
unfoldable pub shift_left : ℤ → ℕ → ℕ → Output → Output
shift_left x count zero o = o
shift_left x count (suc n) o =
    shift_left (x +ℤ pos 1) count n (write_in_row x (cell_in_row (x +ℤ pos count) o) o)

-- The test of CSI @, P and X, and `remaining`, the columns from the cursor on.
abbrev pub is_cursor_in_row : Call → Output → Bool
is_cursor_in_row c o =
    (ltb_ℤ (pos 0) c.size.x && leb_ℤ (pos 0) o.cursor.x)
    && ((leb_ℤ (pos 0) o.cursor.y && ltb_ℤ o.cursor.y c.size.y) && ltb_ℤ o.cursor.x c.size.x)

abbrev pub remaining : Call → Output → ℕ
remaining c o = pos_part (c.size.x -ℤ o.cursor.x)

abbrev pub count_in_row : Call → VtCsiSequence → Output → ℕ
count_in_row c csi o = if ltb (remaining c o) (count_of csi) then remaining c o else count_of csi

-- CSI @.
unfoldable pub insert_characters : Call → VtCsiSequence → Output → Output
insert_characters c csi o =
    let count = count_in_row c csi o in
    reset_delayed_wrap (
      if is_cursor_in_row c o
      then blank_row o.cursor.x count
          (shift_right (o.cursor.x +ℤ pos count) count (remaining c o - count) o)
      else o)

-- CSI P.
unfoldable pub delete_characters : Call → VtCsiSequence → Output → Output
delete_characters c csi o =
    let count = count_in_row c csi o in
    reset_delayed_wrap (
      if is_cursor_in_row c o
      then blank_row (c.size.x -ℤ pos count) count
          (shift_left o.cursor.x count (remaining c o - count) o)
      else o)

-- CSI X.
unfoldable pub erase_characters : Call → VtCsiSequence → Output → Output
erase_characters c csi o =
    reset_delayed_wrap
      (if is_cursor_in_row c o then blank_row o.cursor.x (count_in_row c csi o) o else o)

-- CSI S and CSI T.
unfoldable pub scroll_lines : Call → Bool → VtCsiSequence → Output → Output
scroll_lines c up csi o =
    let r = region c o in
    if up
    then scroll_region_up c (r.0) (r.1) (count_of csi) o
    else scroll_region_down c (r.0) (r.1) (count_of csi) o

-- CSI L and CSI M.
unfoldable pub insert_lines : Call → Bool → VtCsiSequence → Output → Output
insert_lines c inserted csi o =
    let r = region c o in
    let y = o.cursor.y in
    let count = count_of csi in
    let height = pos_part (r.1 -ℤ y +ℤ pos 1) in
    if not (in_region r y)
    then o
    else if leb height count
    then erase (record { x = pos 0; y = y }) (to_size c.size.x * height) o
    else if inserted
    then scroll_rows c y (to_i16 (r.1 -ℤ pos count)) y (r.1) (to_i16 (y +ℤ pos count)) o
    else scroll_rows c (to_i16 (y +ℤ pos count)) (r.1) y (r.1) y o

-- Where CSI J starts, and how many cells it erases.
unfoldable pub erased_in_display : Call → ℕ → Coord → Coord × ℕ
erased_in_display c mode cursor =
    let total = to_size c.size.x * to_size c.size.y in
    let index = to_size cursor.y * to_size c.size.x + to_size cursor.x in
    if mode == 0
    then (cursor, if ltb index total then total - index else 0)
    else if mode == 1
    then (origin, if ltb index total then index + 1 else total)
    else if mode == 2 || mode == 3
    then (origin, total)
    else (origin, 0)

-- The same for CSI K.
unfoldable pub erased_in_line : Call → ℕ → Coord → Coord × ℕ
erased_in_line c mode cursor =
    let width = to_size c.size.x in
    let start : Coord = record { x = pos 0; y = cursor.y } in
    if mode == 0
    then (cursor, if ltb_ℤ cursor.x c.size.x then width - to_size cursor.x else 0)
    else if mode == 1
    then (start, if ltb_ℤ cursor.x c.size.x then to_size cursor.x + 1 else width)
    else if mode == 2
    then (start, width)
    else (origin, 0)

abbrev pub erase_unless_empty : Coord × ℕ → Output → Output
erase_unless_empty e o = if e.1 == 0 then o else erase (e.0) (e.1) o

-- CSI J.
unfoldable pub erase_in_display : Call → VtCsiSequence → Output → Output
erase_in_display c csi o =
    reset_delayed_wrap (erase_unless_empty (erased_in_display c (param_or csi 0 0) o.cursor) o)

-- CSI K.
unfoldable pub erase_in_line : Call → VtCsiSequence → Output → Output
erase_in_line c csi o = reset_delayed_wrap (
    if ltb_ℤ (pos 0) c.size.x
    then erase_unless_empty (erased_in_line c (param_or csi 0 0) o.cursor) o
    else o)
