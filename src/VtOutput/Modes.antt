-- ===== src/VtOutput/Modes.antt =====
-- `apply_csi` of `apply_text_to_screen_buffer` (src/condrv/condrv_server.hpp): margins, the saved cursor
-- and the modes.
use conhost.Prelude.{
  ℕ, ◌-◌, ltb, leb, ◌==◌, if◌then◌else◌, Bool, true, false, not, ◌&&◌, Option, none, some, List, [],
  ◌∷◌,
}
use conhost.Prelude.Int.{pos, to_i16}
use conhost.Screen.{Coord, ScreenBuffer, SavedCursorState, VtVerticalMargins, origin, to_size}
use conhost.Screen.Cursor.{
  set_cursor_info, set_vt_vertical_margins, save_cursor_state, restore_cursor_state,
}
use conhost.Screen.Alternate.{set_vt_using_alternate_screen_buffer}
use conhost.VtOutput.{Call, Output, with_screen, region, at_least_one, blank, same_place}
use conhost.VtOutput.Csi.{VtCsiSequence, param_or, row_range, clamp_column, clamp_row}

-- CSI ! p.
unfoldable pub soft_reset : Call → Output → Output
soft_reset c o =
    let shown = set_cursor_info o.screen.cursor_size true o.screen in
    record o {
      autowrap = true;
      origin_mode = false;
      insert_mode = false;
      delayed_wrap = none;
      vertical_margins = none;
      attributes = c.default_attributes;
      screen =
          save_cursor_state origin c.default_attributes false false
            (set_vt_vertical_margins none shown);
    }

-- CSI r, the margins that the parameters ask for.
unfoldable pub set_margins : Call → VtCsiSequence → Output → Output
set_margins c csi o =
    let height = to_size c.size.y in
    let top = at_least_one (param_or csi 0 0) in
    let bottom = if param_or csi 1 0 == 0 then height else param_or csi 1 0 in
    let margins : Option VtVerticalMargins =
      if top == 1 && bottom == height
      then none
      else some (record { top = to_i16 (pos (top - 1)); bottom = to_i16 (pos (bottom - 1)) }) in
    let set = record o {
      vertical_margins = margins;
      screen = set_vt_vertical_margins margins o.screen;
    } in
    if ltb top bottom && leb bottom height
    then record set {
      cursor = record { x = pos 0; y = if o.origin_mode then (region c set).0 else pos 0 };
    }
    else o

-- ESC 7, and CSI s without parameters.
unfoldable pub save_cursor : Output → Output
save_cursor o =
    let delayed : Bool = elim o.delayed_wrap [
      | none ↦ false
      | some place ↦ same_place place o.cursor
    ] in
    with_screen o (save_cursor_state o.cursor o.attributes delayed o.origin_mode o.screen)

-- ESC 8, and CSI u: what follows when a state was saved.
unfoldable pub restore_from : Call → SavedCursorState → Output → Output
restore_from c saved o =
    let moded = record o { origin_mode = saved.origin_mode_enabled } in
    let cursor : Coord = record {
      x = clamp_column c saved.position.x;
      y = clamp_row (row_range c moded saved.origin_mode_enabled) saved.position.y;
    } in
    record moded {
      cursor = cursor;
      attributes = saved.attributes;
      delayed_wrap = if saved.delayed_eol_wrap then some cursor else none;
    }

unfoldable pub restore_cursor : Call → Output → Output
restore_cursor c o = elim (restore_cursor_state o.screen) [
  | none ↦ o
  | some saved ↦ restore_from c saved o
]

-- What a switch of the alternate buffer that succeeds reads back from the buffer.
unfoldable pub read_back : ScreenBuffer → Output → Output
read_back b o = record o {
  screen = b;
  cursor = b.cursor_position;
  attributes = b.text_attributes;
  vertical_margins = b.vt_vertical_margins;
  origin_mode = b.vt_origin_mode_enabled;
  delayed_wrap = none;
}

unfoldable pub switch_buffer : Call → Bool → Output → Output
switch_buffer c enable o =
    let done = set_vt_using_alternate_screen_buffer c.allocated enable (blank o) o.screen in
    if done.1 then read_back (done.0) o else with_screen o (done.0)

-- One parameter of CSI h or CSI l.
unfoldable pub set_mode : Call → Bool → Bool → ℕ → Output → Output
set_mode c private_marker enable param o =
    if not private_marker && (param == 4)
    then record o { insert_mode = enable }
    else if param == 25
    then with_screen o (set_cursor_info o.screen.cursor_size enable o.screen)
    else if param == 6
    then record o {
      origin_mode = enable;
      cursor = record { x = pos 0; y = if enable then (region c o).0 else pos 0 };
      delayed_wrap = none;
    }
    else if param == 7
    then record o { autowrap = enable; delayed_wrap = none }
    else if param == 1049
    then switch_buffer c enable o
    else o

-- CSI h and CSI l.
unfoldable pub set_modes : Call → Bool → Bool → List ℕ → Output → Output
set_modes c private_marker enable [] o = o
set_modes c private_marker enable (param ∷ params) o =
    set_modes c private_marker enable params (set_mode c private_marker enable param o)
