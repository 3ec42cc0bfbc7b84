-- ===== src/VtOutput/Sequences.antt =====
-- The CSI sequences that move the cursor or set margins (src/condrv/condrv_server.hpp) keep the invariant
-- of a call.
use conhost.Prelude.{
  ℕ, ◌-◌, refl, arith, ltb, leb, ◌==◌, if◌then◌else◌, Bool, true, false, ◌&&◌, Option, none, some,
}
use conhost.Prelude.Int.{ℤ, pos, ◌+ℤ◌, ◌-ℤ◌, ◌≤ℤ◌, ◌<ℤ◌, int_laws, to_i16}
use conhost.Screen.{ScreenBuffer, SavedCursorState, VtVerticalMargins, origin, to_size}
use conhost.Screen.Window.{IsSize}
use conhost.Screen.Cursor.{set_cursor_info, set_vt_vertical_margins, restore_cursor_state}
use conhost.VtOutput.{Call, Output, region, at_least_one}
use conhost.VtOutput.Csi.{
  VtCsiSequence, clamp_row, row_range, absolute_row, cursor_position, horizontal_absolute,
  vertical_absolute, is_in_margins, next_line, move_cursor, param_or, count_of,
}
use conhost.VtOutput.Modes.{soft_reset, set_margins, restore_from, restore_cursor}
use conhost.VtOutput.Keeps.{Like}
use conhost.VtOutput.Steady.{Like-save_cursor_state}
use conhost.VtOutput.Sound.{
  IsSound-Like, Holds, IsRange, region-IsRange, clamp_column-inside, clamp_row-inside,
}
use conhost.VtOutput.Lines.{Holds-if, move_to_row-Holds, move_to_column-Holds, home_column-Holds}

row_range-IsRange :
    (c : Call) (o : Output) (inside : Bool) → IsSize c.size.y → IsRange c (row_range c o inside)
row_range-IsRange c o true h = region-IsRange c o.vertical_margins h
row_range-IsRange c o false h = (omega int_laws, omega int_laws, omega int_laws)

absolute_row-inside :
    (c : Call) (row : ℕ) (o : Output)
    → IsSize c.size.y
    → (pos 0 ≤ℤ absolute_row c row o) × (absolute_row c row o <ℤ c.size.y)
unfolding absolute_row
absolute_row-inside c row o h =
    clamp_row-inside c (row_range c o o.origin_mode)
      (pos (at_least_one row - 1) +ℤ (if o.origin_mode then (region c o).0 else pos 0)) h
      (row_range-IsRange c o o.origin_mode h)

pub cursor_position-Holds :
    (c : Call) (csi : VtCsiSequence) (o : Output) → Holds c o → Holds c (cursor_position c csi o)
unfolding cursor_position
cursor_position-Holds c csi o h =
    let x = clamp_column-inside c (pos (at_least_one (param_or csi 1 1) - 1)) h.wide in
    let y = absolute_row-inside c (param_or csi 0 1) o h.high in
    record { wide = h.wide; high = h.high; screen = h.screen; inside = (x.0, x.1, y.0, y.1) }

pub horizontal_absolute-Holds :
    (c : Call) (csi : VtCsiSequence) (o : Output)
    → Holds c o
    → Holds c (horizontal_absolute c csi o)
unfolding horizontal_absolute
horizontal_absolute-Holds c csi o h =
    move_to_column-Holds c _ o (clamp_column-inside c (pos (count_of csi - 1)) h.wide) h

pub vertical_absolute-Holds :
    (c : Call) (csi : VtCsiSequence) (o : Output) → Holds c o → Holds c (vertical_absolute c csi o)
unfolding vertical_absolute
vertical_absolute-Holds c csi o h =
    move_to_row-Holds c _ o (absolute_row-inside c (param_or csi 0 1) o h.high) h

reachable_row :
    (c : Call) (o : Output) (y : ℤ)
    → IsSize c.size.y
    → (pos 0 ≤ℤ clamp_row (row_range c o (is_in_margins c o)) y)
      × (clamp_row (row_range c o (is_in_margins c o)) y <ℤ c.size.y)
reachable_row c o y h =
    clamp_row-inside c (row_range c o (is_in_margins c o)) y h
      (row_range-IsRange c o (is_in_margins c o) h)

pub next_line-Holds :
    (c : Call) (down : Bool) (csi : VtCsiSequence) (o : Output)
    → Holds c o
    → Holds c (next_line c down csi o)
unfolding next_line
next_line-Holds c down csi o h =
    let delta = pos (count_of csi) in
    let y = if down then o.cursor.y +ℤ delta else o.cursor.y -ℤ delta in
    home_column-Holds c _ (move_to_row-Holds c _ o (reachable_row c o y h.high) h)

pub move_cursor-Holds :
    (c : Call) (csi : VtCsiSequence) (o : Output) → Holds c o → Holds c (move_cursor c csi o)
unfolding move_cursor
move_cursor-Holds c csi o h =
    let delta = pos (count_of csi) in
    let vertical =
      if csi.final == b'A'
      then o.cursor.y -ℤ delta
      else if csi.final == b'B'
      then o.cursor.y +ℤ delta
      else o.cursor.y in
    let horizontal =
      if csi.final == b'C'
      then o.cursor.x +ℤ delta
      else if csi.final == b'D'
      then o.cursor.x -ℤ delta
      else o.cursor.x in
    let x = clamp_column-inside c horizontal h.wide in
    let y = reachable_row c o vertical h.high in
    record { wide = h.wide; high = h.high; screen = h.screen; inside = (x.0, x.1, y.0, y.1) }

-- The setters on the way to DECSTR, RIS and DECALN.
pub set_cursor_info-Like :
    (size : ℕ) (visible : Bool) (b : ScreenBuffer) → Like b (set_cursor_info size visible b)
set_cursor_info-Like size visible b = record {
  same_size = refl;
  same_length = refl;
  same_cursor = refl;
  same_window = refl;
  same_backup = refl;
}

pub set_vt_vertical_margins-Like :
    (m : Option VtVerticalMargins) (b : ScreenBuffer) → Like b (set_vt_vertical_margins m b)
set_vt_vertical_margins-Like m b = record {
  same_size = refl;
  same_length = refl;
  same_cursor = refl;
  same_window = refl;
  same_backup = refl;
}

pub soft_reset-Holds : (c : Call) (o : Output) → Holds c o → Holds c (soft_reset c o)
unfolding soft_reset
soft_reset-Holds c o h =
    let shown = set_cursor_info o.screen.cursor_size true o.screen in
    let wide = set_vt_vertical_margins none shown in
    record {
      wide = h.wide;
      high = h.high;
      screen =
          IsSound-Like c.size wide _
            (Like-save_cursor_state origin c.default_attributes false false wide)
            (IsSound-Like c.size shown wide (set_vt_vertical_margins-Like none shown)
              (IsSound-Like c.size o.screen shown (set_cursor_info-Like _ true o.screen) h.screen));
      inside = h.inside;
    }

pub region_top :
    (c : Call) (o : Output) (t : Bool)
    → IsSize c.size.y
    → (pos 0 ≤ℤ (if t then (region c o).0 else pos 0))
      × ((if t then (region c o).0 else pos 0) <ℤ c.size.y)
region_top c o true h = let r = region-IsRange c o.vertical_margins h in (r.0, omega arith)
region_top c o false h = (omega arith, omega arith)

-- The first column, with a row of the buffer.
pub home-Holds :
    (c : Call) (y : ℤ) (o : Output)
    → (pos 0 ≤ℤ y) × (y <ℤ c.size.y)
    → Holds c o
    → Holds c (record o { cursor = record { x = pos 0; y = y } })
home-Holds c y o p h = record {
  wide = h.wide;
  high = h.high;
  screen = h.screen;
  inside = (omega arith, omega arith, p.0, p.1);
}

margins_set-Holds :
    (c : Call) (m : Option VtVerticalMargins) (o : Output)
    → Holds c o
    → Holds c (record o { vertical_margins = m; screen = set_vt_vertical_margins m o.screen })
margins_set-Holds c m o h = record {
  wide = h.wide;
  high = h.high;
  screen = IsSound-Like c.size o.screen _ (set_vt_vertical_margins-Like m o.screen) h.screen;
  inside = h.inside;
}

pub set_margins-Holds :
    (c : Call) (csi : VtCsiSequence) (o : Output) → Holds c o → Holds c (set_margins c csi o)
unfolding set_margins
set_margins-Holds c csi o h =
    let height = to_size c.size.y in
    let top = at_least_one (param_or csi 0 0) in
    let bottom = if param_or csi 1 0 == 0 then height else param_or csi 1 0 in
    let margins : Option VtVerticalMargins =
      if top == 1 && bottom == height
      then none
      else some (record { top = to_i16 (pos (top - 1)); bottom = to_i16 (pos (bottom - 1)) }) in
    let set = record o {
      vertical_margins = margins;
      screen = set_vt_vertical_margins margins o.screen;
    } in
    Holds-if c (ltb top bottom && leb bottom height) _ _
      (λ _.
        home-Holds c (if o.origin_mode then (region c set).0 else pos 0) set
          (region_top c set o.origin_mode h.high) (margins_set-Holds c margins o h))
      (λ _. h)

pub restore_cursor-Holds : (c : Call) (o : Output) → Holds c o → Holds c (restore_cursor c o)
unfolding restore_cursor restore_from
restore_cursor-Holds c o h = restored (restore_cursor_state o.screen)
  where
    restored :
        (saved : Option SavedCursorState)
        → Holds c (elim saved [ none ↦ o | some s ↦ restore_from c s o ])
    restored none = h
    restored (some s) =
        let moded = record o { origin_mode = s.origin_mode_enabled } in
        let x = clamp_column-inside c s.position.x h.wide in
        let y =
          clamp_row-inside c (row_range c moded s.origin_mode_enabled) s.position.y h.high
            (row_range-IsRange c moded s.origin_mode_enabled h.high) in
        record { wide = h.wide; high = h.high; screen = h.screen; inside = (x.0, x.1, y.0, y.1) }
