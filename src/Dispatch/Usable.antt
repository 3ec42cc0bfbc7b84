-- ===== src/Dispatch/Usable.antt =====
-- Every message on a screen buffer keeps the buffer sound: a cell for each position, the cursor and
-- the window inside it.
use conhost.Prelude.{◌≡◌, sym, ◌∙◌, arith, false, Bool-cases, inl, inr}
use conhost.Screen.{
  Coord, SmallRect, ScreenBuffer, set_cursor_position, set_window_rect, snap_window_to_cursor,
}
use conhost.Screen.Window.{IsSize, IsWindowed, CursorInWindow, snap_window_to_cursor-CursorInWindow}
use conhost.Screen.Cursor.{InBuffer}
use conhost.Screen.Place.{set_window_rect-true, set_window_rect-false}
use conhost.VtOutput.Keeps.{Like}
use conhost.VtOutput.Sound.{IsSound, IsSound-Like}
use conhost.VtOutput.Stored.{snap-backup}
use conhost.Dispatch.Buffers.{is_outside}

-- A sound buffer of a size that is positive on both axes.
pub record IsUsable (size : Coord) (b : ScreenBuffer) : Type 0 where
  pub wide : IsSize size.x
  pub high : IsSize size.y
  pub sound : IsSound size b

pub IsUsable-Like :
    (size : Coord) (a b : ScreenBuffer) → Like a b → IsUsable size a → IsUsable size b
IsUsable-Like size a b l u = record {
  wide = u.wide;
  high = u.high;
  sound = IsSound-Like size a b l u.sound;
}

pub is_inside : (c size : Coord) → is_outside c size ≡ false → InBuffer c size
is_inside c size e = ground arith

pub set_cursor_position-IsUsable :
    (size p : Coord) (b : ScreenBuffer)
    → InBuffer p size
    → IsUsable size b
    → IsUsable size (set_cursor_position p b)
set_cursor_position-IsUsable size p b inside u = record {
  wide = u.wide;
  high = u.high;
  sound = record {
    sized = u.sound.sized;
    full = u.sound.full;
    cursor = inside;
    across = u.sound.across;
    down = u.sound.down;
    backup = u.sound.backup;
  };
}

pub snap-IsUsable :
    (size : Coord) (b : ScreenBuffer)
    → IsUsable size b
    → IsUsable size (snap_window_to_cursor b) × CursorInWindow (snap_window_to_cursor b)
snap-IsUsable size b u =
    let windowed : IsWindowed b = record {
      wide = rw u.sound.sized u.wide;
      high = rw u.sound.sized u.high;
      across = rw u.sound.sized u.sound.across;
      down = rw u.sound.sized u.sound.down;
    } in
    let (shown, w, extent, same_cursor, same_size, same_cells) =
      snap_window_to_cursor-CursorInWindow b windowed (rw u.sound.sized u.sound.cursor) in
    let sized = same_size ∙ u.sound.sized in
    (
      record {
        wide = u.wide;
        high = u.high;
        sound = record {
          sized = sized;
          full = rw same_cells u.sound.full;
          cursor = rw same_cursor u.sound.cursor;
          across = rw (sym sized) w.across;
          down = rw (sym sized) w.down;
          backup = rw (snap-backup b) u.sound.backup;
        };
      },
      shown,
    )

pub set_window_rect-IsUsable :
    (size : Coord) (rect : SmallRect) (b : ScreenBuffer)
    → IsUsable size b
    → IsUsable size (set_window_rect rect b).0
set_window_rect-IsUsable size rect b u = elim (Bool-cases (set_window_rect rect b).1) [
  | inr no' ↦ rw (set_window_rect-false rect b no') u
  | inl yes' ↦
      let (across, down, e) = set_window_rect-true rect b yes' in
      rw e (record {
        wide = u.wide;
        high = u.high;
        sound = record {
          sized = u.sound.sized;
          full = u.sound.full;
          cursor = u.sound.cursor;
          across = rw (sym u.sound.sized) across;
          down = rw (sym u.sound.sized) down;
          backup = u.sound.backup;
        };
      })
]
