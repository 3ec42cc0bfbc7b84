-- ===== src/Screen/Alternate.antt =====
-- The alternate screen buffer: `set_vt_using_alternate_screen_buffer` of
-- src/condrv/condrv_server.cpp.
use conhost.Prelude.{arith, ◌≡◌, refl, Bool, true, false, none, some, [], length, replicate}
use conhost.Screen.{ScreenBuffer, ScreenCell, VtAlternateBufferBackup, origin, touch}

abbrev pub backup_of : ScreenBuffer → VtAlternateBufferBackup
backup_of b = record {
  cells = b.cells;
  cursor_position = b.cursor_position;
  text_attributes = b.text_attributes;
  default_text_attributes = b.default_text_attributes;
  cursor_size = b.cursor_size;
  cursor_visible = b.cursor_visible;
  saved_cursor_state = b.saved_cursor_state;
  vt_vertical_margins = b.vt_vertical_margins;
  vt_delayed_wrap_position = b.vt_delayed_wrap_position;
  vt_origin_mode_enabled = b.vt_origin_mode_enabled;
}

-- The branch of `set_vt_using_alternate_screen_buffer` that enables. Whether the cells of the
-- alternate buffer are allocated is the first argument.
unfoldable pub enable_alternate : Bool → ScreenCell → ScreenBuffer → ScreenBuffer × Bool
enable_alternate allocated fill b = elim b.vt_main_backup [
  | some backup ↦ (b, true)
  | none ↦ elim allocated [
    | false ↦ (b, false)
    | true ↦ (
      touch (record b {
        vt_main_backup = some (backup_of b);
        cells = replicate (length b.cells) fill;
        cursor_position = origin;
        saved_cursor_state = none;
        vt_vertical_margins = none;
        vt_delayed_wrap_position = none;
      }),
      true,
    )
  ]
]

-- The branch that disables.
unfoldable pub disable_alternate : ScreenBuffer → ScreenBuffer × Bool
disable_alternate b = elim b.vt_main_backup [
  | none ↦ (b, true)
  | some backup ↦ (
    touch (record b {
      vt_main_backup = none;
      cells = backup.cells;
      cursor_position = backup.cursor_position;
      text_attributes = backup.text_attributes;
      default_text_attributes = backup.default_text_attributes;
      cursor_size = backup.cursor_size;
      cursor_visible = backup.cursor_visible;
      saved_cursor_state = backup.saved_cursor_state;
      vt_vertical_margins = backup.vt_vertical_margins;
      vt_delayed_wrap_position = backup.vt_delayed_wrap_position;
      vt_origin_mode_enabled = backup.vt_origin_mode_enabled;
    }),
    true,
  )
]

unfoldable pub set_vt_using_alternate_screen_buffer :
    Bool → Bool → ScreenCell → ScreenBuffer → ScreenBuffer × Bool
unfolding enable_alternate disable_alternate
set_vt_using_alternate_screen_buffer allocated true fill b = enable_alternate allocated fill b
set_vt_using_alternate_screen_buffer allocated false fill b = disable_alternate b

-- What the main screen shows: all that a visit to the alternate buffer must leave alone.
abbrev pub main_view : ScreenBuffer → VtAlternateBufferBackup
main_view b = elim b.vt_main_backup [ none ↦ backup_of b | some backup ↦ backup ]

-- The rest of the buffer: all but what a switch exchanges, and the revision.
abbrev pub besides : ScreenBuffer → ScreenBuffer
besides b = record b {
  vt_main_backup = none;
  cells = [];
  cursor_position = origin;
  text_attributes = 0;
  default_text_attributes = 0;
  cursor_size = 0;
  cursor_visible = false;
  saved_cursor_state = none;
  vt_vertical_margins = none;
  vt_delayed_wrap_position = none;
  vt_origin_mode_enabled = false;
  revision = 0;
}

-- Every switch, to either buffer, allocated or not, leaves the main screen as it was: its cells, its
-- cursor, its attributes, its saved cursor, its margins, its delayed wrap and its origin mode. And it
-- changes nothing else of the buffer but the revision: its size, its window, its colors, the autowrap
-- and the insert mode are those from before.
pub set_vt_using_alternate_screen_buffer-main_view :
    (allocated enable : Bool) (fill : ScreenCell) (b : ScreenBuffer)
    → (main_view ((set_vt_using_alternate_screen_buffer allocated enable fill b).0) ≡ main_view b)
      × (besides ((set_vt_using_alternate_screen_buffer allocated enable fill b).0) ≡ besides b)
unfolding set_vt_using_alternate_screen_buffer
set_vt_using_alternate_screen_buffer-main_view allocated enable fill b =
    (ground arith, ground arith)

-- A client that enters the alternate buffer, changes it in any way `w` that keeps the backup, and
-- leaves it again finds the main screen as it was when it entered.
disable_alternate-enable_alternate :
    (fill : ScreenCell) (w : ScreenBuffer → ScreenBuffer) (b : ScreenBuffer)
    → ((c : ScreenBuffer) → (w c).vt_main_backup ≡ c.vt_main_backup)
    → b.vt_main_backup ≡ none
    → backup_of (
        (set_vt_using_alternate_screen_buffer true false fill
          (w ((set_vt_using_alternate_screen_buffer true true fill b).0))).0)
      ≡ backup_of b
unfolding set_vt_using_alternate_screen_buffer
disable_alternate-enable_alternate fill w b keeps e = rw e (
    rw
      (keeps (
        touch (record b {
          vt_main_backup = some (backup_of b);
          cells = replicate (length b.cells) fill;
          cursor_position = origin;
          saved_cursor_state = none;
          vt_vertical_margins = none;
          vt_delayed_wrap_position = none;
        })))
      refl)
