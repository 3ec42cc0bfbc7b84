-- ===== src/VtOutput/Sound.antt =====
-- The invariant of a call of `apply_text_to_screen_buffer` (src/condrv/condrv_server.hpp): the shape of
-- the buffer and of its backup, and the cursor inside the buffer, through every step of the loop.
use conhost.Prelude.{◌*◌, ◌≡◌, ◌∙◌, arith, Option, none, some, List, length}
use conhost.Prelude.Int.{ℤ, pos, ◌≤ℤ◌, ◌<ℤ◌, int_laws, to_i16, to_i16_exact, -ℤ_parts}
use conhost.Screen.{
  Coord, ScreenCell, ScreenBuffer, VtVerticalMargins, VtAlternateBufferBackup, to_size,
}
use conhost.Screen.Window.{IsInside, IsSize}
use conhost.Screen.Cursor.{InBuffer}
use conhost.VtOutput.{Call, Output, resolve_vertical_region, last_row, last_column}
use conhost.VtOutput.Csi.{clamp, clamp_column, clamp_row}
use conhost.VtOutput.Keeps.{Like}
use conhost.VtOutput.Steady.{Steady}

-- The cells that a buffer of this size has, and its backup if it has one.
abbrev pub IsFull : Coord → List ScreenCell → Type 0
IsFull size cells = length cells ≡ to_size size.y * to_size size.x

abbrev pub IsBackup : Coord → Option VtAlternateBufferBackup → Type 0
IsBackup size none = Unit
IsBackup size (some backup) = IsFull size backup.cells × InBuffer backup.cursor_position size

pub record IsSound (size : Coord) (b : ScreenBuffer) : Type 0 where
  pub sized : b.buffer_size ≡ size
  pub full : IsFull size b.cells
  pub cursor : InBuffer b.cursor_position size
  pub across : IsInside b.window_rect.left b.window_rect.right size.x
  pub down : IsInside b.window_rect.top b.window_rect.bottom size.y
  pub backup : IsBackup size b.vt_main_backup

pub IsSound-Like : (size : Coord) (a b : ScreenBuffer) → Like a b → IsSound size a → IsSound size b
IsSound-Like size a b l s = record {
  sized = l.same_size ∙ s.sized;
  full = l.same_length ∙ s.full;
  cursor = rw l.same_cursor s.cursor;
  across = rw l.same_window s.across;
  down = rw l.same_window s.down;
  backup = rw l.same_backup s.backup;
}

pub record Holds (c : Call) (o : Output) : Type 0 where
  pub wide : IsSize c.size.x
  pub high : IsSize c.size.y
  pub screen : IsSound c.size o.screen
  pub inside : InBuffer o.cursor c.size

pub Holds-Steady : (c : Call) (a b : Output) → Steady a b → Holds c a → Holds c b
Holds-Steady c a b s h = record {
  wide = h.wide;
  high = h.high;
  screen = IsSound-Like c.size a.screen b.screen s.like h.screen;
  inside = rw s.still h.inside;
}

-- The rows of a range lie in the buffer.
abbrev pub IsRange : Call → ℤ × ℤ → Type 0
IsRange c r = (pos 0 ≤ℤ r.0) × (r.0 ≤ℤ r.1) × (r.1 <ℤ c.size.y)

pub last_row_exact : (c : Call) → IsSize c.size.y → to_i16 (last_row c) ≡ last_row c
last_row_exact c h = to_i16_exact (last_row c) (omega int_laws)

pub last_column_exact : (c : Call) → IsSize c.size.x → to_i16 (last_column c) ≡ last_column c
last_column_exact c h = to_i16_exact (last_column c) (omega int_laws)

pub region-IsRange :
    (c : Call) (m : Option VtVerticalMargins)
    → IsSize c.size.y
    → IsRange c (resolve_vertical_region c m)
unfolding resolve_vertical_region
region-IsRange c none h = rw (last_row_exact c h) (omega int_laws, omega int_laws, omega int_laws)
region-IsRange c (some m) h = rw (last_row_exact c h) (ground (arith, -ℤ_parts c.size.y (pos 1)))

pub clamp_bounds :
    (low high v : ℤ) → low ≤ℤ high → (low ≤ℤ clamp low high v) × (clamp low high v ≤ℤ high)
clamp_bounds low high v h = ground arith

pub clamp_column-inside :
    (c : Call) (x : ℤ)
    → IsSize c.size.x
    → (pos 0 ≤ℤ clamp_column c x) × (clamp_column c x <ℤ c.size.x)
clamp_column-inside c x h =
    let bounds = clamp_bounds (pos 0) (last_column c) x (omega int_laws) in
    rw (to_i16_exact (clamp (pos 0) (last_column c) x) (omega int_laws))
      (omega int_laws, omega int_laws)

pub clamp_row-inside :
    (c : Call) (rows : ℤ × ℤ) (y : ℤ)
    → IsSize c.size.y
    → IsRange c rows
    → (pos 0 ≤ℤ clamp_row rows y) × (clamp_row rows y <ℤ c.size.y)
clamp_row-inside c rows y h r =
    let bounds = clamp_bounds (rows.0) (rows.1) y (r.1) in
    rw (to_i16_exact (clamp (rows.0) (rows.1) y) (omega int_laws)) (omega int_laws, omega int_laws)
