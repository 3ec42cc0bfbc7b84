-- ===== src/VtOutput/Effects.antt =====
-- What a complete sequence or a plain character does in `apply_text_to_screen_buffer`
-- (src/condrv/condrv_server.hpp) keeps the invariant of a call.
use conhost.Prelude.{
  ℕ, ◌≡◌, refl, arith, ◌==◌, if◌then◌else◌, Bool, true, false, not, ◌&&◌, ◌||◌, Option, none, some,
  List, length,
}
use conhost.Prelude.Int.{ℤ, pos, ◌-ℤ◌, ◌≤ℤ◌, ◌<ℤ◌, ltb_ℤ, -ℤ_parts}
use conhost.Screen.{ScreenBuffer, VtAlternateBufferBackup, origin}
use conhost.Screen.Window.{IsSize}
use conhost.Screen.Cursor.{
  InBuffer, set_cursor_info, set_vt_vertical_margins, save_cursor_state, set_color_table,
}
use conhost.Screen.Cells.{fill_output_characters, fill_output_attributes}
use conhost.Screen.Alternate.{set_vt_using_alternate_screen_buffer}
use conhost.VtOutput.{Call, Output, move_to_column, blank}
use conhost.VtOutput.Csi.{VtCsiSequence, param_or}
use conhost.VtOutput.Dispatch.{report, apply_csi}
use conhost.VtOutput.Parser.{VtOutputParseState}
use conhost.VtOutput.Reset.{
  leave_alternate, total, hard_reset, default_color_table, alignment_pattern, escape_effect,
  is_alignment, dispatch_effect,
}
use conhost.VtOutput.Machine.{tab_spaces, plain_char}
use conhost.VtOutput.Keeps.{
  Like, Like-trans, fill_output_characters-Like, fill_output_attributes-Like,
}
use conhost.VtOutput.Steady.{
  Like-save_cursor_state, save_cursor-Steady, insert_characters-Steady, delete_characters-Steady,
  erase_characters-Steady, insert_lines-Steady, scroll_lines-Steady, erase_in_display-Steady,
  erase_in_line-Steady, erase-Steady,
}
use conhost.VtOutput.Sound.{IsSound, IsSound-Like, Holds, Holds-Steady}
use conhost.VtOutput.Lines.{
  Holds-if, move_to_column-Holds, home_column-Holds, line_feed-Holds, reverse_line_feed-Holds,
  write_printable-Holds, write_spaces-Holds,
}
use conhost.VtOutput.Sequences.{
  cursor_position-Holds, horizontal_absolute-Holds, vertical_absolute-Holds, next_line-Holds,
  move_cursor-Holds, soft_reset-Holds, set_margins-Holds, restore_cursor-Holds,
  set_cursor_info-Like, set_vt_vertical_margins-Like,
}
use conhost.VtOutput.Switches.{set_modes-Holds, alternate-IsSound}

report-Holds : (c : Call) (csi : VtCsiSequence) (o : Output) → Holds c o → Holds c (report c csi o)
unfolding report
report-Holds c csi o h =
    Holds-if c (not c.answers_queries) _ _ (λ _. h)
      (λ _.
        Holds-if c (param_or csi 0 0 == 5) _ _
          (λ _. record { wide = h.wide; high = h.high; screen = h.screen; inside = h.inside })
          (λ _.
            Holds-if c (param_or csi 0 0 == 6) _ _
              (λ _. record { wide = h.wide; high = h.high; screen = h.screen; inside = h.inside })
              (λ _. h)))

-- One branch of a handler that chooses by tests.
pub Holds-else :
    (c : Call) (t : Bool) {x y : Output} → Holds c x → Holds c y → Holds c (if t then x else y)
Holds-else c true p q = p
Holds-else c false p q = q

-- A complete CSI sequence, whatever its final character and its parameters.
pub apply_csi-Holds :
    (c : Call) (csi : VtCsiSequence) (o : Output) → Holds c o → Holds c (apply_csi c csi o)
unfolding apply_csi
apply_csi-Holds c csi o h =
    let final = csi.final in
    let modes =
      Holds-else c ((final == b'h') || (final == b'l'))
        (set_modes-Holds c csi.private_marker (final == b'h') csi.params o h) h in
    let restored = Holds-else c (final == b'u') (restore_cursor-Holds c o h) modes in
    let saved =
      Holds-else c (final == b's')
        (Holds-else c (length csi.params == 0) (Holds-Steady c o _ (save_cursor-Steady o) h) h)
        restored in
    let line =
      Holds-else c (final == b'K') (Holds-Steady c o _ (erase_in_line-Steady c csi o) h) saved in
    let cleared =
      Holds-else c (final == b'J') (Holds-Steady c o _ (erase_in_display-Steady c csi o) h) line in
    let shifted =
      Holds-else c ((final == b'L') || (final == b'M'))
        (Holds-Steady c o _ (insert_lines-Steady c (final == b'L') csi o) h) cleared in
    let scrolled =
      Holds-else c ((final == b'S') || (final == b'T'))
        (Holds-Steady c o _ (scroll_lines-Steady c (final == b'S') csi o) h) shifted in
    let margins = Holds-else c (final == b'r') (set_margins-Holds c csi o h) scrolled in
    let erased =
      Holds-else c (final == b'X') (Holds-Steady c o _ (erase_characters-Steady c csi o) h)
        margins in
    let deleted =
      Holds-else c (final == b'P') (Holds-Steady c o _ (delete_characters-Steady c csi o) h)
        erased in
    let inserted =
      Holds-else c (final == b'@') (Holds-Steady c o _ (insert_characters-Steady c csi o) h)
        deleted in
    let moved =
      Holds-else c (((final == b'A') || (final == b'B')) || ((final == b'C') || (final == b'D')))
        (move_cursor-Holds c csi o h) inserted in
    let lines =
      Holds-else c ((final == b'E') || (final == b'F')) (next_line-Holds c (final == b'E') csi o h)
        moved in
    let down = Holds-else c (final == b'd') (vertical_absolute-Holds c csi o h) lines in
    let across =
      Holds-else c ((final == b'G') || (final == 96)) (horizontal_absolute-Holds c csi o h) down in
    let reset_softly =
      Holds-else c ((final == b'p') && csi.exclamation_marker) (soft_reset-Holds c o h) across in
    let placed =
      Holds-else c ((final == b'H') || (final == b'f')) (cursor_position-Holds c csi o h)
        reset_softly in
    let reported = Holds-else c (final == b'n') (report-Holds c csi o h) placed in
    Holds-else c (final == b'm')
      (record { wide = h.wide; high = h.high; screen = h.screen; inside = h.inside }) reported

leave_alternate-Holds : (c : Call) (o : Output) → Holds c o → Holds c (leave_alternate c o)
unfolding leave_alternate
leave_alternate-Holds c o h = left o.screen.vt_main_backup
  where
    sound :
        IsSound c.size (set_vt_using_alternate_screen_buffer c.allocated false (blank o) o.screen).0
    sound = alternate-IsSound c.size c.allocated false (blank o) o.screen h.wide h.high h.screen

    left :
        (m : Option VtAlternateBufferBackup)
        → Holds c (elim m [
          | none ↦ o
          | some backup ↦
              let b =
                (set_vt_using_alternate_screen_buffer c.allocated false (blank o) o.screen).0 in
              record o {
                screen = b;
                cursor = b.cursor_position;
                attributes = b.text_attributes;
                vertical_margins = b.vt_vertical_margins;
                origin_mode = b.vt_origin_mode_enabled;
                insert_mode = b.vt_insert_mode_enabled;
                delayed_wrap = b.vt_delayed_wrap_position;
              }
        ])
    left none = h
    left (some backup) = record {
      wide = h.wide;
      high = h.high;
      screen = sound;
      inside = sound.cursor;
    }

set_color_table-Like : (table : List ℕ) (b : ScreenBuffer) → Like b (set_color_table table b)
set_color_table-Like table b = record {
  same_size = refl;
  same_length = refl;
  same_cursor = refl;
  same_window = refl;
  same_backup = refl;
}

origin_inside : (c : Call) → IsSize c.size.x → IsSize c.size.y → InBuffer origin c.size
origin_inside c x y = (omega arith, omega arith, omega arith, omega arith)

-- The buffer that RIS erases.
reset_screen-Like :
    (attributes : ℕ) (b : ScreenBuffer)
    → Like b (
        set_vt_vertical_margins none (
          save_cursor_state origin attributes false false
            (set_cursor_info b.cursor_size true (set_color_table default_color_table b))))
reset_screen-Like attributes b =
    let colored = set_color_table default_color_table b in
    let shown = set_cursor_info b.cursor_size true colored in
    let saved = save_cursor_state origin attributes false false shown in
    Like-trans b colored _ (set_color_table-Like default_color_table b) (
      Like-trans colored shown _ (set_cursor_info-Like b.cursor_size true colored) (
        Like-trans shown saved _ (Like-save_cursor_state origin attributes false false shown)
          (set_vt_vertical_margins-Like none saved)))

hard_reset-Holds : (c : Call) (o : Output) → Holds c o → Holds c (hard_reset c o)
unfolding hard_reset
hard_reset-Holds c left before =
    let o = leave_alternate c left in
    let h = leave_alternate-Holds c left before in
    Holds-Steady c _ _ (erase-Steady origin (total c) _) (record {
      wide = h.wide;
      high = h.high;
      screen =
          IsSound-Like c.size o.screen _ (reset_screen-Like c.default_attributes o.screen) h.screen;
      inside = origin_inside c h.wide h.high;
    })

alignment_pattern-Holds : (c : Call) (o : Output) → Holds c o → Holds c (alignment_pattern c o)
unfolding alignment_pattern
alignment_pattern-Holds c o h =
    let lettered = (fill_output_characters origin b'E' (total c) o.screen).0 in
    let filled = (fill_output_attributes origin c.default_attributes (total c) lettered).0 in
    let like =
      Like-trans o.screen lettered _ (fill_output_characters-Like origin b'E' (total c) o.screen) (
        Like-trans lettered filled _
          (fill_output_attributes-Like origin c.default_attributes (total c) lettered)
          (set_vt_vertical_margins-Like none filled)) in
    record {
      wide = h.wide;
      high = h.high;
      screen = IsSound-Like c.size o.screen _ like h.screen;
      inside = origin_inside c h.wide h.high;
    }

pub escape_effect-Holds :
    (c : Call) (ch : ℕ) (o : Output) → Holds c o → Holds c (escape_effect c ch o)
unfolding escape_effect
escape_effect-Holds c ch o h =
    let reset = Holds-else c (ch == b'c') (hard_reset-Holds c o h) h in
    let next =
      Holds-else c (ch == b'E')
        (line_feed-Holds c (move_to_column (pos 0) o) (home_column-Holds c o h)) reset in
    let up = Holds-else c (ch == b'M') (reverse_line_feed-Holds c o h) next in
    let down = Holds-else c (ch == b'D') (line_feed-Holds c o h) up in
    let restored = Holds-else c (ch == b'8') (restore_cursor-Holds c o h) down in
    Holds-else c (ch == b'7') (Holds-Steady c o _ (save_cursor-Steady o) h) restored

pub dispatch_effect-Holds :
    (c : Call) (ch : ℕ) (p : VtOutputParseState) (o : Output)
    → Holds c o
    → Holds c (dispatch_effect c ch p o)
unfolding dispatch_effect
dispatch_effect-Holds c ch p o h =
    Holds-else c (is_alignment ch p) (alignment_pattern-Holds c o h) h

column_before :
    (x size : ℤ) → x <ℤ size → ltb_ℤ (pos 0) x ≡ true → (pos 0 ≤ℤ x -ℤ pos 1) × (x -ℤ pos 1 <ℤ size)
column_before x size p e = ground (arith, -ℤ_parts x (pos 1))

back_space-Holds :
    (c : Call) (o : Output)
    → Holds c o
    → Holds c (if ltb_ℤ (pos 0) o.cursor.x then move_to_column (o.cursor.x -ℤ pos 1) o else o)
back_space-Holds c o h =
    Holds-if c (ltb_ℤ (pos 0) o.cursor.x) _ _
      (λ e.
        move_to_column-Holds c (o.cursor.x -ℤ pos 1) o
          (column_before o.cursor.x c.size.x (h.inside.1) e) h)
      (λ _. h)

pub plain_char-Holds : (c : Call) (ch : ℕ) (o : Output) → Holds c o → Holds c (plain_char c ch o)
unfolding plain_char
plain_char-Holds c ch o h =
    let home = home_column-Holds c o h in
    let tabbed =
      Holds-else c (c.processed_output && (ch == 9))
        (write_spaces-Holds c (tab_spaces o.cursor) o h) (write_printable-Holds c ch o h) in
    let back = Holds-else c (c.processed_output && (ch == 8)) (back_space-Holds c o h) tabbed in
    let fed =
      Holds-else c (c.processed_output && (ch == 10))
        (line_feed-Holds c _ (Holds-else c c.disable_newline_auto_return h home)) back in
    Holds-else c (c.processed_output && (ch == 13)) home fed
