-- ===== src/Screen/Resized.antt =====
-- What a resize leaves: the invariants of the buffer, and the cells of its main and its saved screen
-- (`set_screen_buffer_size` of src/condrv/condrv_server.cpp).
use conhost.Prelude.{
  ℕ, zero, suc, ◌+◌, ◌*◌, ◌≡◌, refl, ◌∙◌, arith, ◌==◌, if◌then◌else◌, true, false, ◌||◌, Bool-cases,
  Option-cases, inl, inr, List, length, get_elem?, replicate, min, length-set, length-replicate,
}
use conhost.Prelude.Int.{
  ℤ, pos, ◌+ℤ◌, ◌-ℤ◌, ◌≤ℤ◌, ◌<ℤ◌, leb_ℤ, ltb_ℤ-cases, int_laws, to_i16, to_i16_exact, IsShort,
  -ℤ_parts,
}
use conhost.Screen.{
  Coord, SmallRect, ScreenCell, ScreenBuffer, is_degenerate, at_least, to_size, last_of, extent_of,
  touch, snap_window_to_cursor,
}
use conhost.Screen.Window.{
  IsInside, IsSize, IsWindowed, CursorInBuffer, CursorInWindow,
  snap_window_to_cursor-CursorInWindow,
}
use conhost.Screen.Place.{clamp_bounds, positive}
use conhost.Screen.Insert.{IsFilled}
use conhost.Screen.Size.{
  put_from, copy_row, copy_rows, resize_cells, old_extent, resized_extent, resized_start,
  resized_window, clip_to, resize, blank_of, set_screen_buffer_size,
}

resized_extent_bounds :
    (window size : ℤ)
    → IsSize size
    → (pos 1 ≤ℤ resized_extent window size) × (resized_extent window size ≤ℤ size)
unfolding resized_extent
resized_extent_bounds window size s = ground arith

resized_start_bounds :
    (first e size : ℤ)
    → e ≤ℤ size
    → (pos 0 ≤ℤ resized_start first e size) × (resized_start first e size +ℤ e ≤ℤ size)
unfolding resized_start
resized_start_bounds first e size h = clamp_bounds (at_least (pos 0) first) e size h (ground arith)

pub clip_to_bounds :
    (size v : ℤ) → IsSize size → pos 0 ≤ℤ v → (pos 0 ≤ℤ clip_to size v) × (clip_to size v <ℤ size)
clip_to_bounds size v s h = elim (ltb_ℤ-cases (pos 0) size) [
  | inl (t, lt) ↦
      rw (t, to_i16_exact (size -ℤ pos 1) (omega int_laws)) (ground (arith, -ℤ_parts size (pos 1)))
  | inr (t, le) ↦ ground arith
]

window_inside :
    (first extent size : ℤ)
    → IsSize size
    → extent ≤ℤ size
    → pos 1 ≤ℤ extent
    → IsInside
        (to_i16 (resized_start first extent size))
        (to_i16 (last_of (resized_start first extent size) extent))
        size
window_inside first e size s h k =
    let bounds = resized_start_bounds first e size h in
    let start = resized_start first e size in
    rw (to_i16_exact start (omega int_laws), to_i16_exact (last_of start e) (omega int_laws))
      (omega int_laws, omega int_laws, omega int_laws)

resized_window_inside :
    (w : SmallRect) (size : Coord)
    → IsSize size.x
    → IsSize size.y
    → IsInside (resized_window w size).left (resized_window w size).right size.x
      × IsInside (resized_window w size).top (resized_window w size).bottom size.y
unfolding resized_window
resized_window_inside w size x y =
    let window_w = extent_of w.left w.right in
    let window_h = extent_of w.top w.bottom in
    let none_shown = leb_ℤ window_w (pos 0) || leb_ℤ window_h (pos 0) in
    let wb = resized_extent_bounds (if none_shown then size.x else window_w) size.x x in
    let hb = resized_extent_bounds (if none_shown then size.y else window_h) size.y y in
    (
      window_inside w.left (resized_extent (if none_shown then size.x else window_w) size.x) size.x
          x (wb.1) (wb.0),
      window_inside w.top (resized_extent (if none_shown then size.y else window_h) size.y) size.y y
          (hb.1) (hb.0),
    )

pub length-put_from :
    (old : List ScreenCell) (i j : ℕ) (new : List ScreenCell)
    → length (put_from old i j new) ≡ length new
length-put_from old i j new = elim (Option-cases (get_elem? old i)) [
  | inl e ↦ rw (put_from, e) refl
  | inr (c, e) ↦ rw (put_from, e) (length-set new j c)
]

pub length-copy_row :
    (ow nw y x n : ℕ) (old new : List ScreenCell)
    → length (copy_row ow nw y x n old new) ≡ length new
unfolding copy_row
length-copy_row ow nw y x zero old new = refl
length-copy_row ow nw y x (suc n) old new =
    length-copy_row ow nw y (suc x) n old (put_from old (y * ow + x) (y * nw + x) new)
    ∙ length-put_from old (y * ow + x) (y * nw + x) new

length-copy_rows :
    (ow nw w y n : ℕ) (old new : List ScreenCell)
    → length (copy_rows ow nw w y n old new) ≡ length new
unfolding copy_rows
length-copy_rows ow nw w y zero old new = refl
length-copy_rows ow nw w y (suc n) old new =
    length-copy_rows ow nw w (suc y) n old (copy_row ow nw y 0 w old new)
    ∙ length-copy_row ow nw y 0 w old new

pub length-resize_cells :
    (ow oh nw nh : ℕ) (fill : ScreenCell) (old : List ScreenCell)
    → length (resize_cells ow oh nw nh fill old) ≡ nw * nh
unfolding resize_cells
length-resize_cells ow oh nw nh fill old =
    elim (Bool-cases ((length old == 0) || (ow == 0) || (oh == 0))) [
      | inl e ↦ rw (resize_cells, e) (length-replicate (nw * nh) fill)
      | inr e ↦
          rw (resize_cells, e)
            (length-copy_rows ow nw (min ow nw) 0 (min oh nh) old (replicate (nw * nh) fill)
              ∙ length-replicate (nw * nh) fill)
    ]

pub resize_placed :
    (size : Coord) (b : ScreenBuffer)
    → IsSize size.x
    → IsSize size.y
    → pos 0 ≤ℤ b.cursor_position.x
    → pos 0 ≤ℤ b.cursor_position.y
    → IsWindowed (touch (resize size b)) × CursorInBuffer (touch (resize size b))
unfolding resize
resize_placed size b x y p q =
    let inside = resized_window_inside b.window_rect size x y in
    let cx = clip_to_bounds size.x b.cursor_position.x x p in
    let cy = clip_to_bounds size.y b.cursor_position.y y q in
    (record { wide = x; high = y; across = inside.0; down = inside.1 }, (cx.0, cx.1, cy.0, cy.1))

pub resize-IsFilled : (size : Coord) (b : ScreenBuffer) → IsFilled (touch (resize size b))
unfolding resize
resize-IsFilled size b =
    length-resize_cells (old_extent b.buffer_size.x) (old_extent b.buffer_size.y) (to_size size.x)
      (to_size size.y) (blank_of b.text_attributes) b.cells
    ∙ omega arith

resize-buffer_size : (size : Coord) (b : ScreenBuffer) → (resize size b).buffer_size ≡ size
unfolding resize
resize-buffer_size size b = refl

-- A snap keeps what a resize has established, and brings the cursor into the window.
sound_behind_snap :
    (c : ScreenBuffer) (size : Coord)
    → IsWindowed c
    → CursorInBuffer c
    → IsFilled c
    → c.buffer_size ≡ size
    → IsWindowed (snap_window_to_cursor c)
      × CursorInWindow (snap_window_to_cursor c)
      × CursorInBuffer (snap_window_to_cursor c)
      × IsFilled (snap_window_to_cursor c)
      × ((snap_window_to_cursor c).buffer_size ≡ size)
sound_behind_snap c size placed cursor filled e =
    let (shown, windowed, extent, same_cursor, same_size, same_cells) =
      snap_window_to_cursor-CursorInWindow c placed cursor in
    (
      windowed,
      shown,
      rw (same_cursor, same_size) cursor,
      rw (same_cells, same_size) filled,
      same_size ∙ e,
    )

pub set_screen_buffer_size_accepts :
    (size : Coord) (b : ScreenBuffer)
    → is_degenerate size ≡ false
    → set_screen_buffer_size true size b ≡ (snap_window_to_cursor (touch (resize size b)), true)
unfolding set_screen_buffer_size
set_screen_buffer_size_accepts size b ok = rw ok refl

-- A resize that is given a size positive on both axes, and its memory, takes that size, whatever the
-- window was: then every position of the buffer has its cell, the window is inside the buffer, and the
-- cursor is inside the window, if the cursor's position was not negative.
pub set_screen_buffer_size-IsSound :
    (size : Coord) (b : ScreenBuffer)
    → IsShort size.x
    → IsShort size.y
    → is_degenerate size ≡ false
    → pos 0 ≤ℤ b.cursor_position.x
    → pos 0 ≤ℤ b.cursor_position.y
    → IsWindowed (set_screen_buffer_size true size b).0
      × CursorInWindow (set_screen_buffer_size true size b).0
      × CursorInBuffer (set_screen_buffer_size true size b).0
      × IsFilled (set_screen_buffer_size true size b).0
      × ((set_screen_buffer_size true size b).0.buffer_size ≡ size)
set_screen_buffer_size-IsSound size b x y ok p q =
    let (px, py) = positive size ok in
    let (placed, cursor) =
      resize_placed size b (omega arith, omega arith) (omega arith, omega arith) p q in
    rw (set_screen_buffer_size_accepts size b ok) (
      sound_behind_snap (touch (resize size b)) size placed cursor (resize-IsFilled size b)
        (resize-buffer_size size b))
