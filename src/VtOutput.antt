-- ===== src/VtOutput.antt =====
-- `apply_text_to_screen_buffer` of src/condrv/condrv_server.hpp: what a text does to a screen buffer.
-- Here are the variables of a call, its constants, and the helpers on lines and characters.
pub mod Sgr
pub mod Csi
pub mod Edit
pub mod Modes
pub mod Dispatch
pub mod Parser
pub mod Reset
pub mod Machine
pub mod Apply
pub mod Keeps
pub mod Steady
pub mod Sound
pub mod Lines
pub mod Sequences
pub mod Switches
pub mod Effects
pub mod Stored
pub mod Invariant
pub mod Bounds
pub mod Position
pub mod Print
pub mod Alternate
pub mod Attributes
pub mod Tests
use conhost.Prelude.{
  ℕ, zero, suc, ◌+◌, ◌-◌, ◌*◌, ltb, leb, ◌==◌, if◌then◌else◌, Bool, true, false, not, ◌&&◌, ◌||◌,
  Option, none, some, List, [], ◌∷◌, Text,
}
use conhost.Prelude.Int.{ℤ, pos, ◌+ℤ◌, ◌-ℤ◌, ltb_ℤ, leb_ℤ, eqb_ℤ, to_i16}
use conhost.Screen.{
  Coord, SmallRect, ScreenCell, ScreenBuffer, VtVerticalMargins, origin, to_size, extent_of,
}
use conhost.Screen.Cells.{write_cell, insert_cell, fill_output_characters, fill_output_attributes}
use conhost.Screen.Scroll.{scroll_screen_buffer}

-- What stays the same in a call: the size and the default attributes that are read at its start, the
-- bits of the output mode, whether the host answers queries, and whether memory is found.
pub record Call : Type 0 where
  pub size : Coord
  pub default_attributes : ℕ
  pub processed_output : Bool
  pub wrap_at_eol_output_mode : Bool
  pub vt_processing : Bool
  pub disable_newline_auto_return : Bool
  pub answers_queries : Bool
  pub allocated : Bool

-- The local variables, the buffer, the title that was set last, and the input that was injected.
pub record Output : Type 0 where
  pub screen : ScreenBuffer
  pub cursor : Coord
  pub attributes : ℕ
  pub vertical_margins : Option VtVerticalMargins
  pub autowrap : Bool
  pub delayed_wrap : Option Coord
  pub origin_mode : Bool
  pub insert_mode : Bool
  pub title : Option Text
  pub injected : List Text

abbrev pub with_screen : Output → ScreenBuffer → Output
with_screen o b = record o { screen = b }

abbrev pub last_column : Call → ℤ
last_column c = c.size.x -ℤ pos 1

abbrev pub last_row : Call → ℤ
last_row c = c.size.y -ℤ pos 1

-- `resolve_vertical_region`.
unfoldable pub resolve_vertical_region : Call → Option VtVerticalMargins → ℤ × ℤ
resolve_vertical_region c none = (pos 0, to_i16 (last_row c))
resolve_vertical_region c (some m) =
    if leb_ℤ (pos 0) m.top && (leb_ℤ m.top m.bottom && ltb_ℤ m.bottom c.size.y)
    then (m.top, m.bottom)
    else (pos 0, to_i16 (last_row c))

abbrev pub region : Call → Output → ℤ × ℤ
region c o = resolve_vertical_region c o.vertical_margins

-- `fill_output_characters` with a space and `fill_output_attributes`.
unfoldable pub erase : Coord → ℕ → Output → Output
erase from n o = with_screen o (
    (fill_output_attributes from o.attributes n
      ((fill_output_characters from b' ' n o.screen).0)).0)

-- `count == 0 ? 1 : count`.
abbrev pub at_least_one : ℕ → ℕ
at_least_one count = if count == 0 then 1 else count

abbrev pub in_region : ℤ × ℤ → ℤ → Bool
in_region r y = leb_ℤ (r.0) y && leb_ℤ y (r.1)

abbrev pub blank : Output → ScreenCell
blank o = record { character = b' '; attributes = o.attributes }

-- The call of `scroll_screen_buffer` that moves the whole rows from `first` to `last` to `dest`, with
-- the rows from `top` to `bottom` as the clip.
unfoldable pub scroll_rows : Call → ℤ → ℤ → ℤ → ℤ → ℤ → Output → Output
scroll_rows c first last top bottom dest o = with_screen o (
    (scroll_screen_buffer c.allocated
      (record { left = pos 0; top = first; right = to_i16 (last_column c); bottom = last })
      (record { left = pos 0; top = top; right = to_i16 (last_column c); bottom = bottom })
      (record { x = pos 0; y = dest }) (blank o) o.screen).0)

-- The tests that `scroll_region_up` and `scroll_region_down` begin with.
abbrev pub is_no_region : Call → ℤ → ℤ → Bool
is_no_region c top bottom =
    (leb_ℤ c.size.x (pos 0) || leb_ℤ c.size.y (pos 1))
    || ((ltb_ℤ top (pos 0) || ltb_ℤ bottom top) || leb_ℤ c.size.y bottom)

unfoldable pub scroll_region_up : Call → ℤ → ℤ → ℕ → Output → Output
scroll_region_up c top bottom n o =
    let count = at_least_one n in
    let height = to_size (extent_of top bottom) in
    if is_no_region c top bottom
    then o
    else if leb height 1
    then o
    else if leb height count
    then erase (record { x = pos 0; y = top }) (to_size c.size.x * height) o
    else scroll_rows c (to_i16 (top +ℤ pos count)) bottom top bottom top o

unfoldable pub scroll_region_down : Call → ℤ → ℤ → ℕ → Output → Output
scroll_region_down c top bottom n o =
    let count = at_least_one n in
    let height = to_size (extent_of top bottom) in
    if is_no_region c top bottom
    then o
    else if leb height 1
    then o
    else if leb height count
    then erase (record { x = pos 0; y = top }) (to_size c.size.x * height) o
    else scroll_rows c top (to_i16 (bottom -ℤ pos count)) top bottom (to_i16 (top +ℤ pos count)) o

abbrev pub move_to_row : ℤ → Output → Output
move_to_row y o = record o { cursor = record { x = o.cursor.x; y = y } }

abbrev pub move_to_column : ℤ → Output → Output
move_to_column x o = record o { cursor = record { x = x; y = o.cursor.y } }

unfoldable pub line_feed : Call → Output → Output
line_feed c o =
    let r = region c o in
    let next = o.cursor.y +ℤ pos 1 in
    if in_region r o.cursor.y
    then (if eqb_ℤ o.cursor.y (r.1) then scroll_region_up c (r.0) (r.1) 1 o else move_to_row next o)
    else if leb_ℤ c.size.y next
    then move_to_row (to_i16 (last_row c))
        (scroll_region_up c (pos 0) (to_i16 (last_row c)) 1 (move_to_row next o))
    else move_to_row next o

unfoldable pub reverse_line_feed : Call → Output → Output
reverse_line_feed c o =
    let r = region c o in
    let previous = o.cursor.y -ℤ pos 1 in
    if in_region r o.cursor.y
    then (if eqb_ℤ o.cursor.y (r.0)
        then scroll_region_down c (r.0) (r.1) 1 o
        else move_to_row previous o)
    else if ltb_ℤ (pos 0) o.cursor.y
    then move_to_row previous o
    else scroll_region_down c (pos 0) (to_i16 (last_row c)) 1 o

unfoldable pub advance_line : Call → Output → Output
advance_line c o = line_feed c (move_to_column (pos 0) o)

abbrev pub same_place : Coord → Coord → Bool
same_place p q = eqb_ℤ p.x q.x && eqb_ℤ p.y q.y

abbrev pub reset_delayed_wrap : Output → Output
reset_delayed_wrap o = record o { delayed_wrap = none }

unfoldable pub maybe_apply_delayed_wrap : Call → Output → Output
maybe_apply_delayed_wrap c o = if not c.vt_processing then o else elim o.delayed_wrap [
  | none ↦ o
  | some place ↦
      reset_delayed_wrap (if o.autowrap && same_place place o.cursor then advance_line c o else o)
]

-- The cell that `write_printable` writes at the cursor.
unfoldable pub put : Call → ℕ → Output → Output
put c value o = with_screen o (
    if c.vt_processing && o.insert_mode
    then (insert_cell o.cursor value o.attributes o.screen).0
    else (write_cell o.cursor value o.attributes o.screen).0)

-- How `write_printable` moves the cursor.
unfoldable pub advance : Call → Output → Output
advance c o =
    let next = o.cursor.x +ℤ pos 1 in
    if c.vt_processing
    then (if leb_ℤ (to_i16 (last_column c)) o.cursor.x
        then (let stopped = move_to_column (to_i16 (last_column c)) o in
            if o.autowrap then record stopped { delayed_wrap = some stopped.cursor } else stopped)
        else move_to_column next o)
    else if leb_ℤ c.size.x next
    then (if c.wrap_at_eol_output_mode
        then advance_line c (move_to_column next o)
        else move_to_column (to_i16 (last_column c)) o)
    else move_to_column next o

unfoldable pub write_printable : Call → ℕ → Output → Output
write_printable c value o = advance c (put c value (maybe_apply_delayed_wrap c o))

unfoldable pub write_spaces : Call → ℕ → Output → Output
write_spaces c zero o = o
write_spaces c (suc n) o = write_spaces c n (write_printable c b' ' o)
