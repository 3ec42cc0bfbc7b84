-- ===== src/VtOutput/Dispatch.antt =====
-- `apply_csi` of `apply_text_to_screen_buffer` (src/condrv/condrv_server.hpp): the answers to queries,
-- and the choice by the final character.
use conhost.Prelude.{ℕ, ◌==◌, if◌then◌else◌, Bool, not, ◌&&◌, ◌||◌, [], ◌∷◌, ◌++◌, length, Text}
use conhost.Prelude.Int.{ℤ, pos, pos_part, ◌+ℤ◌, ◌-ℤ◌, ltb_ℤ}
use conhost.Number.{decimal}
use conhost.VtOutput.{Call, Output, region}
use conhost.VtOutput.Sgr.{apply_sgr}
use conhost.VtOutput.Csi.{
  VtCsiSequence, param_or, cursor_position, horizontal_absolute, vertical_absolute, next_line,
  move_cursor,
}
use conhost.VtOutput.Edit.{
  insert_characters, delete_characters, erase_characters, scroll_lines, insert_lines,
  erase_in_display, erase_in_line,
}
use conhost.VtOutput.Modes.{soft_reset, set_margins, save_cursor, restore_cursor, set_modes}

-- `row < 1 ? 1 : row`, as the number that is printed.
abbrev pub report_of : ℤ → ℕ
report_of v = if ltb_ℤ v (pos 1) then 1 else pos_part v

-- The answer to CSI 6 n.
unfoldable pub cursor_report : Call → Bool → Output → Text
cursor_report c private_marker o =
    let top = if o.origin_mode then (region c o).0 else o.screen.window_rect.top in
    let row = report_of (o.cursor.y -ℤ top +ℤ pos 1) in
    let column = report_of (o.cursor.x -ℤ o.screen.window_rect.left +ℤ pos 1) in
    let end : Text = if private_marker then b';' ∷ b'1' ∷ b'R' ∷ [] else b'R' ∷ [] in
    let numbers = decimal row (b';' ∷ decimal column end) in
    27 ∷ b'[' ∷ (if private_marker then b'?' ∷ numbers else numbers)

-- CSI n. The answer has at most 32 characters, the size of its buffer.
unfoldable pub report : Call → VtCsiSequence → Output → Output
report c csi o =
    let id = param_or csi 0 0 in
    if not c.answers_queries
    then o
    else if id == 5
    then record o { injected = o.injected ++ (27 ∷ b'[' ∷ b'0' ∷ b'n' ∷ []) ∷ [] }
    else if id == 6
    then record o { injected = o.injected ++ cursor_report c csi.private_marker o ∷ [] }
    else o

unfoldable pub apply_csi : Call → VtCsiSequence → Output → Output
apply_csi c csi o =
    let final = csi.final in
    if final == b'm'
    then record o {
      attributes = apply_sgr o.screen.color_table c.default_attributes csi.params o.attributes;
    }
    else if final == b'n'
    then report c csi o
    else if (final == b'H') || (final == b'f')
    then cursor_position c csi o
    else if (final == b'p') && csi.exclamation_marker
    then soft_reset c o
    else if (final == b'G') || (final == 96)
    then horizontal_absolute c csi o
    else if final == b'd'
    then vertical_absolute c csi o
    else if (final == b'E') || (final == b'F')
    then next_line c (final == b'E') csi o
    else if ((final == b'A') || (final == b'B')) || ((final == b'C') || (final == b'D'))
    then move_cursor c csi o
    else if final == b'@'
    then insert_characters c csi o
    else if final == b'P'
    then delete_characters c csi o
    else if final == b'X'
    then erase_characters c csi o
    else if final == b'r'
    then set_margins c csi o
    else if (final == b'S') || (final == b'T')
    then scroll_lines c (final == b'S') csi o
    else if (final == b'L') || (final == b'M')
    then insert_lines c (final == b'L') csi o
    else if final == b'J'
    then erase_in_display c csi o
    else if final == b'K'
    then erase_in_line c csi o
    else if final == b's'
    then (if length csi.params == 0 then save_cursor o else o)
    else if final == b'u'
    then restore_cursor c o
    else if (final == b'h') || (final == b'l')
    then set_modes c csi.private_marker (final == b'h') csi.params o
    else o
