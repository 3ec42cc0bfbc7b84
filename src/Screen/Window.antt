-- ===== src/Screen/Window.antt =====
-- The window of a screen buffer: its invariant under the constructor and under every operation that
-- moves or sizes it, and where it stands behind a snap to the cursor.
use conhost.Prelude.{◌≡◌, refl, sym, ◌∙◌, arith, if◌then◌else◌, false, inl, inr}
use conhost.Prelude.Int.{
  ℤ, pos, ◌+ℤ◌, ◌-ℤ◌, ◌≤ℤ◌, ◌<ℤ◌, ltb_ℤ, ltb_ℤ-cases, ltb_ℤ-false, leb_ℤ-false, int_laws,
  to_i16_exact,
}
use conhost.Screen.{
  Coord, SmallRect, ScreenBuffer, last_of, extent_of, snap_start, snap_window_to_cursor,
  window_size, is_degenerate, at_least, at_most, touch,
}

-- On one axis: a window from `first` to `last` inside a buffer of `size` rows or columns.
abbrev pub IsInside : ℤ → ℤ → ℤ → Type 0
IsInside first last size = (pos 0 ≤ℤ first) × (first ≤ℤ last) × (last <ℤ size)

-- A size that is positive and a `SHORT`.
abbrev pub IsSize : ℤ → Type 0
IsSize size = (pos 1 ≤ℤ size) × (size ≤ℤ pos 32767)

-- The cursor `c` stands in the `e` rows or columns from `first` on.
abbrev pub Holds : ℤ → ℤ → ℤ → Type 0
Holds first e c = (first ≤ℤ c) × (c <ℤ first +ℤ e)

towards_cursor :
    (first last c : ℤ)
    → first ≤ℤ last
    → Holds
        (if ltb_ℤ c first
          then c
          else if ltb_ℤ last c
          then c -ℤ (extent_of first last -ℤ pos 1)
          else first)
        (extent_of first last)
        c
towards_cursor first last c h = elim (ltb_ℤ-cases c first) [
  | inl (t, lt) ↦ rw t (omega int_laws)
  | inr (t, le) ↦ rw t (elim (ltb_ℤ-cases last c) [
    | inl (t', lt') ↦ rw t' (omega int_laws)
    | inr (t', le') ↦ rw t' (omega int_laws)
  ])
]

Holds-at_least :
    (first e c : ℤ)
    → pos 0 ≤ℤ c
    → Holds first e c
    → Holds (at_least (pos 0) first) e c × (pos 0 ≤ℤ at_least (pos 0) first)
Holds-at_least first e c p h = elim (ltb_ℤ-cases first (pos 0)) [
  | inl (t, lt) ↦ rw t (omega int_laws)
  | inr (t, le) ↦ rw t (omega int_laws)
]

Holds-at_most :
    (first e c size : ℤ)
    → c <ℤ size
    → e ≤ℤ size
    → pos 0 ≤ℤ first
    → Holds first e c
    → Holds (at_most (size -ℤ e) first) e c
      × (pos 0 ≤ℤ at_most (size -ℤ e) first)
      × (at_most (size -ℤ e) first +ℤ e ≤ℤ size)
Holds-at_most first e c size p q z h = elim (ltb_ℤ-cases (size -ℤ e) first) [
  | inl (t, lt) ↦ rw t (omega int_laws)
  | inr (t, le) ↦ rw t (omega int_laws)
]

-- What a snap gives on one axis, when the window and the cursor are inside the buffer.
snap_start-Holds :
    (first last c size : ℤ)
    → IsInside first last size
    → pos 0 ≤ℤ c
    → c <ℤ size
    → Holds (snap_start first last c (extent_of first last) size) (extent_of first last) c
      × (pos 0 ≤ℤ snap_start first last c (extent_of first last) size)
      × (snap_start first last c (extent_of first last) size +ℤ extent_of first last ≤ℤ size)
unfolding snap_start
snap_start-Holds first last c size w p q =
    let e = extent_of first last in
    let raw = if ltb_ℤ c first then c else if ltb_ℤ last c then c -ℤ (e -ℤ pos 1) else first in
    let (low, nonneg) = Holds-at_least raw e c p (towards_cursor first last c w.1) in
    Holds-at_most (at_least (pos 0) raw) e c size q (omega int_laws) nonneg low

-- The buffer has a size, and its window is inside it.
pub record IsWindowed (b : ScreenBuffer) : Type 0 where
  pub wide : IsSize b.buffer_size.x
  pub high : IsSize b.buffer_size.y
  pub across : IsInside b.window_rect.left b.window_rect.right b.buffer_size.x
  pub down : IsInside b.window_rect.top b.window_rect.bottom b.buffer_size.y

not_degenerate : (c : Coord) → pos 0 <ℤ c.x → pos 0 <ℤ c.y → is_degenerate c ≡ false
not_degenerate c p q = rw (leb_ℤ-false c.x (pos 0) p, leb_ℤ-false c.y (pos 0) q)

pub window_size_exact :
    (b : ScreenBuffer)
    → IsWindowed b
    → window_size b ≡ record {
      x = extent_of b.window_rect.left b.window_rect.right;
      y = extent_of b.window_rect.top b.window_rect.bottom;
    }
unfolding window_size
window_size_exact b v =
    let w = extent_of b.window_rect.left b.window_rect.right in
    let h = extent_of b.window_rect.top b.window_rect.bottom in
    rw (
      leb_ℤ-false w (pos 0) (omega int_laws),
      leb_ℤ-false h (pos 0) (omega int_laws),
      ltb_ℤ-false (pos 32767) w (omega int_laws),
      ltb_ℤ-false (pos 32767) h (omega int_laws),
    )

-- The cursor is inside the buffer.
abbrev pub CursorInBuffer : ScreenBuffer → Type 0
CursorInBuffer b =
    (pos 0 ≤ℤ b.cursor_position.x)
    × (b.cursor_position.x <ℤ b.buffer_size.x)
    × (pos 0 ≤ℤ b.cursor_position.y)
    × (b.cursor_position.y <ℤ b.buffer_size.y)

-- The cursor is inside the window.
abbrev pub CursorInWindow : ScreenBuffer → Type 0
CursorInWindow b =
    (b.window_rect.left ≤ℤ b.cursor_position.x)
    × (b.cursor_position.x ≤ℤ b.window_rect.right)
    × (b.window_rect.top ≤ℤ b.cursor_position.y)
    × (b.cursor_position.y ≤ℤ b.window_rect.bottom)

abbrev width_of : ScreenBuffer → ℤ
width_of b = extent_of b.window_rect.left b.window_rect.right

abbrev height_of : ScreenBuffer → ℤ
height_of b = extent_of b.window_rect.top b.window_rect.bottom

abbrev snapped_left : ScreenBuffer → ℤ
snapped_left b =
    snap_start b.window_rect.left b.window_rect.right b.cursor_position.x (width_of b)
      b.buffer_size.x

abbrev snapped_top : ScreenBuffer → ℤ
snapped_top b =
    snap_start b.window_rect.top b.window_rect.bottom b.cursor_position.y (height_of b)
      b.buffer_size.y

-- The window behind a snap, with no casts.
abbrev snapped_window : ScreenBuffer → SmallRect
snapped_window b = record {
  left = snapped_left b;
  top = snapped_top b;
  right = last_of (snapped_left b) (width_of b);
  bottom = last_of (snapped_top b) (height_of b);
}

snap_exact :
    (b : ScreenBuffer)
    → IsWindowed b
    → CursorInBuffer b
    → snap_window_to_cursor b ≡ touch (record b { window_rect = snapped_window b })
unfolding snap_window_to_cursor
snap_exact b v (x0, x1, y0, y1) =
    let (hx, zx, ex) = snap_start-Holds _ _ b.cursor_position.x _ v.across x0 x1 in
    let (hy, zy, ey) = snap_start-Holds _ _ b.cursor_position.y _ v.down y0 y1 in
    rw (
      window_size_exact b v,
      not_degenerate b.buffer_size (omega arith) (omega arith),
      not_degenerate (record { x = width_of b; y = height_of b }) (omega int_laws) (omega int_laws),
      to_i16_exact (snapped_left b) (omega int_laws),
      to_i16_exact (snapped_top b) (omega int_laws),
      to_i16_exact (last_of (snapped_left b) (width_of b)) (omega int_laws),
      to_i16_exact (last_of (snapped_top b) (height_of b)) (omega int_laws),
    )

-- With its window and its cursor inside the buffer, a snap moves the window so that the cursor is
-- inside it: the window keeps its size and stays inside the buffer, and the cursor, the buffer's size
-- and its cells are unchanged.
pub snap_window_to_cursor-CursorInWindow :
    (b : ScreenBuffer)
    → IsWindowed b
    → CursorInBuffer b
    → CursorInWindow (snap_window_to_cursor b)
      × IsWindowed (snap_window_to_cursor b)
      × (window_size (snap_window_to_cursor b) ≡ window_size b)
      × ((snap_window_to_cursor b).cursor_position ≡ b.cursor_position)
      × ((snap_window_to_cursor b).buffer_size ≡ b.buffer_size)
      × ((snap_window_to_cursor b).cells ≡ b.cells)
snap_window_to_cursor-CursorInWindow b v (x0, x1, y0, y1) =
    let (hx, zx, ex) = snap_start-Holds _ _ b.cursor_position.x _ v.across x0 x1 in
    let (hy, zy, ey) = snap_start-Holds _ _ b.cursor_position.y _ v.down y0 y1 in
    let after = touch (record b { window_rect = snapped_window b }) in
    let inside : IsWindowed after = record {
      wide = v.wide;
      high = v.high;
      across = omega int_laws;
      down = omega int_laws;
    } in
    rw (snap_exact b v (x0, x1, y0, y1)) (
      omega int_laws,
      inside,
      window_size_exact after inside
          ∙ same_size (omega int_laws) (omega int_laws)
          ∙ sym (window_size_exact b v),
      refl,
      refl,
      refl,
    )
  where
    same_size :
        {w w' h h' : ℤ}
        → w ≡ w'
        → h ≡ h'
        → ◌≡◌ {A = Coord} (record { x = w; y = h }) (record { x = w'; y = h' })
    same_size p q = cc
