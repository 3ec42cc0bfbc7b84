-- ===== src/VtOutput/Stored.antt =====
-- The end of `apply_text_to_screen_buffer` (src/condrv/condrv_server.hpp), which stores the variables of
-- the call in the buffer and moves the window to the cursor.
use conhost.Prelude.{◌≡◌, refl, ap, ◌∙◌, arith, if◌then◌else◌, Bool, true, false, length}
use conhost.Screen.{ScreenBuffer, set_cursor_position, snap_window_to_cursor}
use conhost.Screen.Window.{IsWindowed, CursorInWindow, snap_window_to_cursor-CursorInWindow}
use conhost.Screen.Cursor.{
  set_text_attributes, set_vt_autowrap_enabled, set_vt_origin_mode_enabled,
  set_vt_insert_mode_enabled, set_vt_delayed_wrap_position, same_bool,
}
use conhost.VtOutput.{Call, Output}
use conhost.VtOutput.Apply.{finish}
use conhost.VtOutput.Keeps.{Like, Like-refl, Like-trans}
use conhost.VtOutput.Sound.{IsSound, IsSound-Like, Holds}

-- The setters of the end of the call.
Like-else :
    (b : ScreenBuffer) (t : Bool) (x y : ScreenBuffer)
    → Like b x
    → Like b y
    → Like b (if t then x else y)
Like-else b true x y p q = p
Like-else b false x y p q = q

autowrap-Like : (enabled : Bool) (b : ScreenBuffer) → Like b (set_vt_autowrap_enabled enabled b)
autowrap-Like enabled b = record {
  same_size = refl;
  same_length = refl;
  same_cursor = refl;
  same_window = refl;
  same_backup = refl;
}

origin_mode-Like :
    (enabled : Bool) (b : ScreenBuffer) → Like b (set_vt_origin_mode_enabled enabled b)
origin_mode-Like enabled b = record {
  same_size = refl;
  same_length = refl;
  same_cursor = refl;
  same_window = refl;
  same_backup = refl;
}

insert_mode-Like :
    (enabled : Bool) (b : ScreenBuffer) → Like b (set_vt_insert_mode_enabled enabled b)
unfolding set_vt_insert_mode_enabled
insert_mode-Like enabled b =
    Like-else b (same_bool b.vt_insert_mode_enabled enabled) _ _ (Like-refl b) (record {
      same_size = refl;
      same_length = refl;
      same_cursor = refl;
      same_window = refl;
      same_backup = refl;
    })

pub snap-backup : (b : ScreenBuffer) → (snap_window_to_cursor b).vt_main_backup ≡ b.vt_main_backup
unfolding snap_window_to_cursor
snap-backup b = ground arith

-- The cursor is stored, and the window follows it.
stored :
    (c : Call) (o : Output) (b : ScreenBuffer)
    → Holds c o
    → IsSound c.size b
    → IsSound c.size (
        snap_window_to_cursor (
          set_text_attributes o.attributes
            (set_cursor_position o.cursor (set_vt_delayed_wrap_position o.delayed_wrap b))))
      × CursorInWindow (
          snap_window_to_cursor (
            set_text_attributes o.attributes
              (set_cursor_position o.cursor (set_vt_delayed_wrap_position o.delayed_wrap b))))
stored c o b h s =
    let a =
      set_text_attributes o.attributes
        (set_cursor_position o.cursor (set_vt_delayed_wrap_position o.delayed_wrap b)) in
    let windowed : IsWindowed a =
      rw s.sized (record { wide = h.wide; high = h.high; across = s.across; down = s.down }) in
    let r = snap_window_to_cursor-CursorInWindow a windowed (rw s.sized h.inside) in
    (
      record {
        sized = r.4 ∙ s.sized;
        full = ap length (r.5) ∙ s.full;
        cursor = rw (r.3) h.inside;
        across = rw⁻¹ (r.4 ∙ s.sized) (r.1).across;
        down = rw⁻¹ (r.4 ∙ s.sized) (r.1).down;
        backup = rw (snap-backup a) s.backup;
      },
      r.0,
    )

-- What is stored is sound, and the window shows the cursor.
pub finish-IsSound :
    (c : Call) (before : ScreenBuffer) (o : Output)
    → Holds c o
    → IsSound c.size (finish before o) × CursorInWindow (finish before o)
unfolding finish
finish-IsSound c before o h =
    let wrap = same_bool o.autowrap before.vt_autowrap_enabled in
    let a = if wrap then o.screen else set_vt_autowrap_enabled o.autowrap o.screen in
    let mode = same_bool o.origin_mode before.vt_origin_mode_enabled in
    let b = if mode then a else set_vt_origin_mode_enabled o.origin_mode a in
    let inserts = same_bool o.insert_mode before.vt_insert_mode_enabled in
    let d = if inserts then b else set_vt_insert_mode_enabled o.insert_mode b in
    let like =
      Like-trans o.screen a d
        (Like-else o.screen wrap _ _ (Like-refl o.screen) (autowrap-Like o.autowrap o.screen))
        (Like-trans a b d (Like-else a mode _ _ (Like-refl a) (origin_mode-Like o.origin_mode a))
          (Like-else b inserts _ _ (Like-refl b) (insert_mode-Like o.insert_mode b))) in
    stored c o d h (IsSound-Like c.size o.screen d like h.screen)
