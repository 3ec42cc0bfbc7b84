-- ===== src/VtOutput/Steady.antt =====
-- The operations on the variables of a call (VtOutput and VtOutput/Csi) that leave the cursor and the
-- shape of the buffer alone (src/condrv/condrv_server.hpp).
use conhost.Prelude.{
  ℕ, zero, suc, ◌-◌, ◌≡◌, refl, ◌∙◌, leb, ◌==◌, if◌then◌else◌, Bool, true, false, not, ◌&&◌,
  Bool-cases, inl, inr,
}
use conhost.Prelude.Int.{ℤ, pos, ◌+ℤ◌, ◌-ℤ◌, ltb_ℤ, pos_part}
use conhost.Screen.{Coord, ScreenCell, ScreenBuffer, to_size, extent_of, is_degenerate}
use conhost.Screen.Cells.{fill_output_characters}
use conhost.Screen.Cursor.{save_cursor_state}
use conhost.VtOutput.{
  Call, Output, erase, scroll_rows, scroll_region_up, scroll_region_down, put, blank, region,
  in_region, is_no_region, at_least_one,
}
use conhost.VtOutput.Csi.{VtCsiSequence, count_of, param_or}
use conhost.VtOutput.Edit.{
  write_in_row, cell_in_row, blank_row, shift_right, shift_left, insert_characters,
  delete_characters, erase_characters, count_in_row, remaining, is_cursor_in_row, insert_lines,
  scroll_lines, erase_unless_empty, erased_in_display, erased_in_line, erase_in_display,
  erase_in_line,
}
use conhost.VtOutput.Modes.{save_cursor}
use conhost.VtOutput.Keeps.{
  Like, Like-refl, Like-trans, write_cell-Like, insert_cell-Like, scroll_screen_buffer-Like,
  fill_output_characters-Like, fill_output_attributes-Like,
}

erase-Like : (p : Coord) (n : ℕ) (o : Output) → Like o.screen (erase p n o).screen
unfolding erase
erase-Like p n o =
    Like-trans o.screen ((fill_output_characters p b' ' n o.screen).0) _
      (fill_output_characters-Like p b' ' n o.screen)
      (fill_output_attributes-Like p o.attributes n ((fill_output_characters p b' ' n o.screen).0))

-- Variables of a call that differ in neither the shape of the buffer nor the cursor.
pub record Steady (a b : Output) : Type 0 where
  pub like : Like a.screen b.screen
  pub still : b.cursor ≡ a.cursor

pub Steady-refl : (o : Output) → Steady o o
Steady-refl o = record { like = Like-refl o.screen; still = refl }

pub Steady-trans : (a b c : Output) → Steady a b → Steady b c → Steady a c
Steady-trans a b c p q = record {
  like = Like-trans a.screen b.screen c.screen p.like q.like;
  still = q.still ∙ p.still;
}

pub Steady-if :
    (o : Output) (t : Bool) (x y : Output) → Steady o x → Steady o y → Steady o (if t then x else y)
Steady-if o true x y p q = p
Steady-if o false x y p q = q

pub erase-Steady : (p : Coord) (n : ℕ) (o : Output) → Steady o (erase p n o)
unfolding erase
erase-Steady p n o = record { like = erase-Like p n o; still = refl }

pub scroll_rows-Steady :
    (c : Call) (first last top bottom dest : ℤ) (o : Output)
    → Steady o (scroll_rows c first last top bottom dest o)
unfolding scroll_rows
scroll_rows-Steady c first last top bottom dest o = record {
  like = scroll_screen_buffer-Like c.allocated _ _ _ (blank o) o.screen;
  still = refl;
}

pub scroll_region_up-Steady :
    (c : Call) (top bottom : ℤ) (n : ℕ) (o : Output) → Steady o (scroll_region_up c top bottom n o)
unfolding scroll_region_up
scroll_region_up-Steady c top bottom n o =
    Steady-if o (is_no_region c top bottom) _ _ (Steady-refl o) (
      Steady-if o (leb (to_size (extent_of top bottom)) 1) _ _ (Steady-refl o) (
        Steady-if o (leb (to_size (extent_of top bottom)) (at_least_one n)) _ _ (erase-Steady _ _ o)
          (scroll_rows-Steady c _ _ _ _ _ o)))

pub scroll_region_down-Steady :
    (c : Call) (top bottom : ℤ) (n : ℕ) (o : Output)
    → Steady o (scroll_region_down c top bottom n o)
unfolding scroll_region_down
scroll_region_down-Steady c top bottom n o =
    Steady-if o (is_no_region c top bottom) _ _ (Steady-refl o) (
      Steady-if o (leb (to_size (extent_of top bottom)) 1) _ _ (Steady-refl o) (
        Steady-if o (leb (to_size (extent_of top bottom)) (at_least_one n)) _ _ (erase-Steady _ _ o)
          (scroll_rows-Steady c _ _ _ _ _ o)))

pub put-Steady : (c : Call) (value : ℕ) (o : Output) → Steady o (put c value o)
unfolding put
put-Steady c value o = elim (Bool-cases (c.vt_processing && o.insert_mode)) [
  | inl h ↦
      rw h (record { like = insert_cell-Like o.cursor value o.attributes o.screen; still = refl })
  | inr h ↦
      rw h (record { like = write_cell-Like o.cursor value o.attributes o.screen; still = refl })
]

write_in_row-Steady : (x : ℤ) (cell : ScreenCell) (o : Output) → Steady o (write_in_row x cell o)
write_in_row-Steady x cell o = record {
  like = write_cell-Like _ cell.character cell.attributes o.screen;
  still = refl;
}

pub blank_row-Steady : (x : ℤ) (n : ℕ) (o : Output) → Steady o (blank_row x n o)
unfolding blank_row
blank_row-Steady x zero o = Steady-refl o
blank_row-Steady x (suc n) o =
    Steady-trans o (write_in_row x (blank o) o) _ (write_in_row-Steady x (blank o) o)
      (blank_row-Steady (x +ℤ pos 1) n (write_in_row x (blank o) o))

pub shift_right-Steady : (x : ℤ) (count n : ℕ) (o : Output) → Steady o (shift_right x count n o)
unfolding shift_right
shift_right-Steady x count zero o = Steady-refl o
shift_right-Steady x count (suc n) o =
    let cell = cell_in_row (x +ℤ pos n -ℤ pos count) o in
    let written = write_in_row (x +ℤ pos n) cell o in
    Steady-trans o written _ (write_in_row-Steady (x +ℤ pos n) cell o)
      (shift_right-Steady x count n written)

pub shift_left-Steady : (x : ℤ) (count n : ℕ) (o : Output) → Steady o (shift_left x count n o)
unfolding shift_left
shift_left-Steady x count zero o = Steady-refl o
shift_left-Steady x count (suc n) o =
    let cell = cell_in_row (x +ℤ pos count) o in
    let written = write_in_row x cell o in
    Steady-trans o written _ (write_in_row-Steady x cell o)
      (shift_left-Steady (x +ℤ pos 1) count n written)

-- The characters and lines that CSI @, P, X, L and M insert, delete and erase.
pub insert_characters-Steady :
    (c : Call) (csi : VtCsiSequence) (o : Output) → Steady o (insert_characters c csi o)
unfolding insert_characters
insert_characters-Steady c csi o =
    let count = count_in_row c csi o in
    let shifted = shift_right (o.cursor.x +ℤ pos count) count (remaining c o - count) o in
    let all =
      Steady-if o (is_cursor_in_row c o) _ _
        (Steady-trans o shifted (blank_row o.cursor.x count shifted)
          (shift_right-Steady (o.cursor.x +ℤ pos count) count (remaining c o - count) o)
          (blank_row-Steady o.cursor.x count shifted))
        (Steady-refl o) in
    record { like = all.like; still = all.still }

pub delete_characters-Steady :
    (c : Call) (csi : VtCsiSequence) (o : Output) → Steady o (delete_characters c csi o)
unfolding delete_characters
delete_characters-Steady c csi o =
    let count = count_in_row c csi o in
    let shifted = shift_left o.cursor.x count (remaining c o - count) o in
    let all =
      Steady-if o (is_cursor_in_row c o) _ _
        (Steady-trans o shifted (blank_row (c.size.x -ℤ pos count) count shifted)
          (shift_left-Steady o.cursor.x count (remaining c o - count) o)
          (blank_row-Steady (c.size.x -ℤ pos count) count shifted))
        (Steady-refl o) in
    record { like = all.like; still = all.still }

pub erase_characters-Steady :
    (c : Call) (csi : VtCsiSequence) (o : Output) → Steady o (erase_characters c csi o)
unfolding erase_characters
erase_characters-Steady c csi o =
    let all =
      Steady-if o (is_cursor_in_row c o) _ _ (blank_row-Steady o.cursor.x (count_in_row c csi o) o)
        (Steady-refl o) in
    record { like = all.like; still = all.still }

pub insert_lines-Steady :
    (c : Call) (inserted : Bool) (csi : VtCsiSequence) (o : Output)
    → Steady o (insert_lines c inserted csi o)
unfolding insert_lines
insert_lines-Steady c inserted csi o =
    let r = region c o in
    let y = o.cursor.y in
    Steady-if o (not (in_region r y)) _ _ (Steady-refl o) (
      Steady-if o (leb (pos_part (r.1 -ℤ y +ℤ pos 1)) (count_of csi)) _ _ (erase-Steady _ _ o) (
        Steady-if o inserted _ _ (scroll_rows-Steady c _ _ _ _ _ o)
          (scroll_rows-Steady c _ _ _ _ _ o)))

pub scroll_lines-Steady :
    (c : Call) (up : Bool) (csi : VtCsiSequence) (o : Output) → Steady o (scroll_lines c up csi o)
unfolding scroll_lines
scroll_lines-Steady c up csi o =
    Steady-if o up _ _ (scroll_region_up-Steady c _ _ _ o) (scroll_region_down-Steady c _ _ _ o)

erase_unless_empty-Steady : (e : Coord × ℕ) (o : Output) → Steady o (erase_unless_empty e o)
erase_unless_empty-Steady e o =
    Steady-if o (e.1 == 0) _ _ (Steady-refl o) (erase-Steady (e.0) (e.1) o)

pub erase_in_display-Steady :
    (c : Call) (csi : VtCsiSequence) (o : Output) → Steady o (erase_in_display c csi o)
unfolding erase_in_display
erase_in_display-Steady c csi o =
    let all = erase_unless_empty-Steady (erased_in_display c (param_or csi 0 0) o.cursor) o in
    record { like = all.like; still = all.still }

pub erase_in_line-Steady :
    (c : Call) (csi : VtCsiSequence) (o : Output) → Steady o (erase_in_line c csi o)
unfolding erase_in_line
erase_in_line-Steady c csi o =
    let all =
      Steady-if o (ltb_ℤ (pos 0) c.size.x) _ _
        (erase_unless_empty-Steady (erased_in_line c (param_or csi 0 0) o.cursor) o)
        (Steady-refl o) in
    record { like = all.like; still = all.still }

-- The setters that the shape of a buffer does not depend on.
pub Like-save_cursor_state :
    (p : Coord) (attributes : ℕ) (delayed mode : Bool) (b : ScreenBuffer)
    → Like b (save_cursor_state p attributes delayed mode b)
unfolding save_cursor_state
Like-save_cursor_state p attributes delayed mode b =
    elim (Bool-cases (is_degenerate b.buffer_size)) [
      | inl h ↦ rw h (record {
        same_size = refl;
        same_length = refl;
        same_cursor = refl;
        same_window = refl;
        same_backup = refl;
      })
      | inr h ↦ rw h (record {
        same_size = refl;
        same_length = refl;
        same_cursor = refl;
        same_window = refl;
        same_backup = refl;
      })
    ]

pub save_cursor-Steady : (o : Output) → Steady o (save_cursor o)
unfolding save_cursor
save_cursor-Steady o = record {
  like = Like-save_cursor_state o.cursor o.attributes _ o.origin_mode o.screen;
  still = refl;
}
