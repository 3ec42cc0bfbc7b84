-- ===== src/VtOutput/Csi.antt =====
-- `VtCsiSequence` and `apply_csi` of `apply_text_to_screen_buffer` (src/condrv/condrv_server.hpp): the
-- sequences that move the cursor, one function for each final character, or for the two that share a
-- branch.
use conhost.Prelude.{ℕ, ◌-◌, ◌==◌, if◌then◌else◌, Bool, false, ◌||◌, none, some, List, get_or}
use conhost.Prelude.Int.{ℤ, pos, ◌+ℤ◌, ◌-ℤ◌, ltb_ℤ, to_i16}
use conhost.VtOutput.{
  Call, Output, last_column, last_row, region, in_region, at_least_one, move_to_row, move_to_column,
}

pub record VtCsiSequence : Type 0 where
  pub final : ℕ
  pub private_marker : Bool
  pub exclamation_marker : Bool
  pub params : List ℕ

-- `csi.param_count > i ? csi.params[i] : fallback`.
abbrev pub param_or : VtCsiSequence → ℕ → ℕ → ℕ
param_or csi i fallback = get_or csi.params i fallback

-- A count, where 0 stands for 1.
abbrev pub count_of : VtCsiSequence → ℕ
count_of csi = at_least_one (param_or csi 0 1)

-- `std::clamp`.
abbrev pub clamp : ℤ → ℤ → ℤ → ℤ
clamp low high v = if ltb_ℤ v low then low else if ltb_ℤ high v then high else v

-- The rows that the cursor can reach, where `inside` holds or the margins do not bound it.
abbrev pub row_range : Call → Output → Bool → ℤ × ℤ
row_range c o inside = if inside then region c o else (pos 0, last_row c)

abbrev pub clamp_column : Call → ℤ → ℤ
clamp_column c x = to_i16 (clamp (pos 0) (last_column c) x)

abbrev pub clamp_row : ℤ × ℤ → ℤ → ℤ
clamp_row rows y = to_i16 (clamp (rows.0) (rows.1) y)

-- The row of a 1-based parameter, in origin mode relative to the region.
unfoldable pub absolute_row : Call → ℕ → Output → ℤ
absolute_row c row o =
    let offset = if o.origin_mode then (region c o).0 else pos 0 in
    clamp_row (row_range c o o.origin_mode) (pos (at_least_one row - 1) +ℤ offset)

-- CSI H and CSI f.
unfoldable pub cursor_position : Call → VtCsiSequence → Output → Output
cursor_position c csi o = record o {
  cursor = record {
    x = clamp_column c (pos (at_least_one (param_or csi 1 1) - 1));
    y = absolute_row c (param_or csi 0 1) o;
  };
}

-- CSI G and CSI `.
unfoldable pub horizontal_absolute : Call → VtCsiSequence → Output → Output
horizontal_absolute c csi o = move_to_column (clamp_column c (pos (count_of csi - 1))) o

-- CSI d.
unfoldable pub vertical_absolute : Call → VtCsiSequence → Output → Output
vertical_absolute c csi o = move_to_row (absolute_row c (param_or csi 0 1) o) o

-- `clamp_to_margins`.
abbrev pub is_in_margins : Call → Output → Bool
is_in_margins c o =
    o.origin_mode
    || elim o.vertical_margins [ none ↦ false | some m ↦ in_region (region c o) o.cursor.y ]

abbrev pub move_vertically : Call → ℤ → Output → Output
move_vertically c y o = move_to_row (clamp_row (row_range c o (is_in_margins c o)) y) o

-- CSI E and CSI F.
unfoldable pub next_line : Call → Bool → VtCsiSequence → Output → Output
next_line c down csi o =
    let delta = pos (count_of csi) in
    let y = if down then o.cursor.y +ℤ delta else o.cursor.y -ℤ delta in
    move_to_column (pos 0) (move_vertically c y o)

-- CSI A, B, C and D.
unfoldable pub move_cursor : Call → VtCsiSequence → Output → Output
move_cursor c csi o =
    let delta = pos (count_of csi) in
    let y =
      if csi.final == b'A'
      then o.cursor.y -ℤ delta
      else if csi.final == b'B'
      then o.cursor.y +ℤ delta
      else o.cursor.y in
    let x =
      if csi.final == b'C'
      then o.cursor.x +ℤ delta
      else if csi.final == b'D'
      then o.cursor.x -ℤ delta
      else o.cursor.x in
    record o {
      cursor = record { x = clamp_column c x; y = clamp_row (row_range c o (is_in_margins c o)) y };
    }
