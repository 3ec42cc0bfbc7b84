-- ===== src/Screen/Cursor.antt =====
-- The cursor state that DECSC saves and DECRC restores, and the setters of `ScreenBuffer`
-- (src/condrv/condrv_server.cpp).
use conhost.Prelude.{
  ℕ, ◌≡◌, refl, arith, if◌then◌else◌, Bool, true, false, not, ◌&&◌, Option, none, some, List,
}
use conhost.Prelude.Int.{
  ℤ, pos, ◌-ℤ◌, ◌≤ℤ◌, ◌<ℤ◌, ltb_ℤ, leb_ℤ, eqb_ℤ, ltb_ℤ-false, leb_ℤ-false, int_laws, to_i16,
  to_i16_exact, -ℤ_parts,
}
use conhost.Screen.{
  Coord, ScreenBuffer, SavedCursorState, VtVerticalMargins, is_degenerate, origin, touch,
}
use conhost.Screen.Window.{IsSize}

abbrev pub set_text_attributes : ℕ → ScreenBuffer → ScreenBuffer
set_text_attributes attributes b = touch (record b { text_attributes = attributes })

abbrev pub set_default_text_attributes : ℕ → ScreenBuffer → ScreenBuffer
set_default_text_attributes attributes b = touch (record b { default_text_attributes = attributes })

abbrev pub set_cursor_info : ℕ → Bool → ScreenBuffer → ScreenBuffer
set_cursor_info size visible b = touch (record b { cursor_size = size; cursor_visible = visible })

abbrev pub set_vt_autowrap_enabled : Bool → ScreenBuffer → ScreenBuffer
set_vt_autowrap_enabled enabled b =
    touch (record b { vt_autowrap_enabled = enabled; vt_delayed_wrap_position = none })

abbrev pub set_vt_delayed_wrap_position : Option Coord → ScreenBuffer → ScreenBuffer
set_vt_delayed_wrap_position position b = record b { vt_delayed_wrap_position = position }

abbrev pub set_vt_origin_mode_enabled : Bool → ScreenBuffer → ScreenBuffer
set_vt_origin_mode_enabled enabled b = touch (record b { vt_origin_mode_enabled = enabled })

abbrev pub same_bool : Bool → Bool → Bool
same_bool true b = b
same_bool false b = not b

unfoldable pub set_vt_insert_mode_enabled : Bool → ScreenBuffer → ScreenBuffer
set_vt_insert_mode_enabled enabled b =
    if same_bool b.vt_insert_mode_enabled enabled
    then b
    else touch (record b { vt_insert_mode_enabled = enabled })

-- The margins that the assertions of the source admit are the caller's business.
abbrev pub set_vt_vertical_margins : Option VtVerticalMargins → ScreenBuffer → ScreenBuffer
set_vt_vertical_margins margins b = touch (record b { vt_vertical_margins = margins })

abbrev pub set_color_table : List ℕ → ScreenBuffer → ScreenBuffer
set_color_table table b = touch (record b { color_table = table })

-- `clamp_component` of `save_cursor_state`.
abbrev pub clamp_component : ℤ → ℤ → ℤ
clamp_component value max_value =
    if ltb_ℤ value (pos 0) then pos 0 else if ltb_ℤ max_value value then max_value else value

unfoldable pub save_cursor_state : Coord → ℕ → Bool → Bool → ScreenBuffer → ScreenBuffer
save_cursor_state position attributes delayed_eol_wrap origin_mode_enabled b =
    let x = clamp_component position.x (to_i16 (b.buffer_size.x -ℤ pos 1)) in
    let y = clamp_component position.y (to_i16 (b.buffer_size.y -ℤ pos 1)) in
    if is_degenerate b.buffer_size
    then record (touch b) {
      saved_cursor_state = some (record {
        position = origin;
        attributes = attributes;
        delayed_eol_wrap = false;
        origin_mode_enabled = origin_mode_enabled;
      });
    }
    else record (touch b) {
      saved_cursor_state = some (record {
        position = record { x = x; y = y };
        attributes = attributes;
        delayed_eol_wrap = delayed_eol_wrap && eqb_ℤ x position.x && eqb_ℤ y position.y;
        origin_mode_enabled = origin_mode_enabled;
      });
    }

-- The clamp of `restore_cursor_state` on one axis.
abbrev pub restore_component : ℤ → ℤ → ℤ
restore_component value size =
    if ltb_ℤ value (pos 0)
    then pos 0
    else if leb_ℤ size value
    then to_i16 (size -ℤ pos 1)
    else value

-- What `restore_cursor_state` writes through its references; `none` is its answer `false`.
unfoldable pub restore_cursor_state : ScreenBuffer → Option SavedCursorState
restore_cursor_state b = elim b.saved_cursor_state [
  | none ↦ none
  | some s ↦
      if is_degenerate b.buffer_size
      then some (record s { position = origin })
      else some (record s {
        position = record {
          x = restore_component s.position.x b.buffer_size.x;
          y = restore_component s.position.y b.buffer_size.y;
        };
      })
]

-- A position inside the buffer.
abbrev pub InBuffer : Coord → Coord → Type 0
InBuffer p size = (pos 0 ≤ℤ p.x) × (p.x <ℤ size.x) × (pos 0 ≤ℤ p.y) × (p.y <ℤ size.y)

pub not_degenerate : (c : Coord) → IsSize c.x → IsSize c.y → is_degenerate c ≡ false
not_degenerate c p q =
    rw (leb_ℤ-false c.x (pos 0) (omega arith), leb_ℤ-false c.y (pos 0) (omega arith))

restore_component_bounds :
    (value size : ℤ)
    → IsSize size
    → (pos 0 ≤ℤ restore_component value size) × (restore_component value size <ℤ size)
restore_component_bounds value size s =
    rw (to_i16_exact (size -ℤ pos 1) (omega int_laws)) (ground (arith, -ℤ_parts size (pos 1)))

-- Whatever was saved, and however the buffer was resized since then, the position that is restored in
-- a buffer that has a size is inside it; the attributes and the modes are those saved.
restore_cursor_state-InBuffer :
    (b : ScreenBuffer) (saved restored : SavedCursorState)
    → IsSize b.buffer_size.x
    → IsSize b.buffer_size.y
    → b.saved_cursor_state ≡ some saved
    → restore_cursor_state b ≡ some restored
    → InBuffer restored.position b.buffer_size
      × (restored.attributes ≡ saved.attributes)
      × (restored.delayed_eol_wrap ≡ saved.delayed_eol_wrap)
      × (restored.origin_mode_enabled ≡ saved.origin_mode_enabled)
unfolding restore_cursor_state
restore_cursor_state-InBuffer b saved restored w h e r = ground (
  arith,
  not_degenerate b.buffer_size w h,
  restore_component_bounds saved.position.x b.buffer_size.x w,
  restore_component_bounds saved.position.y b.buffer_size.y h,
)

clamp_component_inside :
    (v size : ℤ)
    → IsSize size
    → pos 0 ≤ℤ v
    → v <ℤ size
    → clamp_component v (to_i16 (size -ℤ pos 1)) ≡ v
clamp_component_inside v size s p q =
    rw
      (
        to_i16_exact (size -ℤ pos 1) (omega int_laws),
        ltb_ℤ-false v (pos 0) (omega int_laws),
        ltb_ℤ-false (size -ℤ pos 1) v (omega int_laws),
      )
      refl

and_true : (a : Bool) → ((a && true) && true) ≡ a
and_true true = refl
and_true false = refl

eqb_ℤ-self : (z : ℤ) → eqb_ℤ z z ≡ true
eqb_ℤ-self z = ground arith

restore_component_inside : (v size : ℤ) → pos 0 ≤ℤ v → v <ℤ size → restore_component v size ≡ v
restore_component_inside v size p q =
    rw (ltb_ℤ-false v (pos 0) (omega int_laws), leb_ℤ-false size v (omega int_laws)) refl

-- Saving the cursor and restoring it gives back a position inside the buffer, with its attributes, its
-- delayed wrap and its origin mode.
restore_cursor_state-save_cursor_state :
    (p : Coord) (attributes : ℕ) (delayed mode : Bool) (b : ScreenBuffer)
    → IsSize b.buffer_size.x
    → IsSize b.buffer_size.y
    → InBuffer p b.buffer_size
    → restore_cursor_state (save_cursor_state p attributes delayed mode b)
      ≡ some (record {
        position = p;
        attributes = attributes;
        delayed_eol_wrap = delayed;
        origin_mode_enabled = mode;
      })
unfolding restore_cursor_state save_cursor_state
restore_cursor_state-save_cursor_state p attributes delayed mode b w h (px, qx, py, qy) =
    rw
      (
        not_degenerate b.buffer_size w h,
        clamp_component_inside p.x b.buffer_size.x w px qx,
        clamp_component_inside p.y b.buffer_size.y h py qy,
        restore_component_inside p.x b.buffer_size.x px qx,
        restore_component_inside p.y b.buffer_size.y py qy,
        eqb_ℤ-self p.x,
        eqb_ℤ-self p.y,
        and_true delayed,
      )
      (rw (not_degenerate b.buffer_size w h) refl)
