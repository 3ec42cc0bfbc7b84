-- ===== src/Screen/Place.antt =====
-- The window where the program places it: the constructor, `set_window_rect`, `set_window_size`.
use conhost.Prelude.{
  ◌*◌, ◌≡◌, ◌↔◌, refl, ◌∙◌, arith, if◌then◌else◌, true, false, Bool-cases, inl, inr, length,
  length-replicate,
}
use conhost.Prelude.Int.{
  ℤ, pos, ◌+ℤ◌, ◌-ℤ◌, ◌≤ℤ◌, ◌<ℤ◌, ltb_ℤ, ltb_ℤ-cases, ltb_ℤ-false, int_laws, to_i16, to_i16_exact,
  IsShort, -ℤ_parts,
}
use conhost.Screen.{
  Coord, SmallRect, Settings, ScreenBuffer, initial_extent, initial_start, initial_cursor,
  initial_window, construct, last_of, set_window_rect, set_window_size, window_size,
  scroll_position, is_degenerate, at_least, at_most, touch, to_size,
}
use conhost.Screen.Window.{IsInside, IsSize, IsWindowed, CursorInBuffer, window_size_exact}

pub set_window_rect-true :
    (rect : SmallRect) (b : ScreenBuffer)
    → (set_window_rect rect b).1 ≡ true
    → IsInside rect.left rect.right b.buffer_size.x
      × IsInside rect.top rect.bottom b.buffer_size.y
      × ((set_window_rect rect b).0 ≡ touch (record b { window_rect = rect }))
unfolding set_window_rect
set_window_rect-true rect b e = ground arith

pub set_window_rect-false :
    (rect : SmallRect) (b : ScreenBuffer)
    → (set_window_rect rect b).1 ≡ false
    → (set_window_rect rect b).0 ≡ b
unfolding set_window_rect
set_window_rect-false rect b e = ground arith

set_window_rect-accepts :
    (rect : SmallRect) (b : ScreenBuffer)
    → IsInside rect.left rect.right b.buffer_size.x
    → IsInside rect.top rect.bottom b.buffer_size.y
    → (set_window_rect rect b).1 ≡ true
unfolding set_window_rect
set_window_rect-accepts rect b p q = ground arith

-- `set_window_rect` accepts exactly the rectangles that are in order and inside the buffer. One that it
-- accepts becomes the window, and nothing but the revision changes with it; when it refuses nothing
-- changes.
pub set_window_rect-IsWindowed :
    (rect : SmallRect) (b : ScreenBuffer)
    → IsWindowed b
    → IsWindowed (set_window_rect rect b).0
      × (((set_window_rect rect b).1 ≡ true) ↔ (
          IsInside rect.left rect.right b.buffer_size.x
          × IsInside rect.top rect.bottom b.buffer_size.y))
      × ((set_window_rect rect b).0
          ≡ (if (set_window_rect rect b).1 then touch (record b { window_rect = rect }) else b))
set_window_rect-IsWindowed rect b v = (
  elim (Bool-cases (set_window_rect rect b).1) [
    | inl yes' ↦
        let (p, q, e) = set_window_rect-true rect b yes' in
        rw e (record { wide = v.wide; high = v.high; across = p; down = q })
    | inr no' ↦ rw (set_window_rect-false rect b no') v
  ],
  (
    (λ e. let r = set_window_rect-true rect b e in (r.0, r.1)),
    λ r. set_window_rect-accepts rect b r.0 r.1,
  ),
  elim (Bool-cases (set_window_rect rect b).1) [
    | inl yes' ↦ rw yes' ((set_window_rect-true rect b yes').2)
    | inr no' ↦ rw no' (set_window_rect-false rect b no')
  ],
)

set_window_size-true :
    (size : Coord) (b : ScreenBuffer)
    → (set_window_size size b).1 ≡ true
    → (pos 0 <ℤ size.x)
      × (pos 0 <ℤ size.y)
      × (pos 0 ≤ℤ b.window_rect.left)
      × (pos 0 ≤ℤ b.window_rect.top)
      × (last_of b.window_rect.left size.x <ℤ b.buffer_size.x)
      × (last_of b.window_rect.top size.y <ℤ b.buffer_size.y)
      × ((set_window_size size b).0
          ≡ touch (record b {
            window_rect = record {
              left = to_i16 b.window_rect.left;
              top = to_i16 b.window_rect.top;
              right = to_i16 (last_of b.window_rect.left size.x);
              bottom = to_i16 (last_of b.window_rect.top size.y);
            };
          }))
unfolding set_window_size
set_window_size-true size b e = ground arith

set_window_size-false :
    (size : Coord) (b : ScreenBuffer)
    → (set_window_size size b).1 ≡ false
    → (set_window_size size b).0 ≡ b
unfolding set_window_size
set_window_size-false size b e = ground arith

-- A window that `set_window_size` accepts keeps its top left corner, has the size asked for, and is
-- inside the buffer, and nothing else changes but the revision; when it refuses nothing changes.
set_window_size-IsWindowed :
    (size : Coord) (b : ScreenBuffer)
    → IsWindowed b
    → IsWindowed (set_window_size size b).0
      × (window_size (set_window_size size b).0
          ≡ (if (set_window_size size b).1 then size else window_size b))
      × (scroll_position (set_window_size size b).0 ≡ scroll_position b)
      × ((set_window_size size b).0 ≡ (
          if (set_window_size size b).1
          then touch (record b { window_rect = (set_window_size size b).0.window_rect })
          else b))
set_window_size-IsWindowed size b v = elim (Bool-cases (set_window_size size b).1) [
  | inl yes' ↦
      let (inside, sized, placed_at) = placed yes' in
      let same = (set_window_size-true size b yes').6 in
      (inside, rw yes' sized, placed_at, rw (yes', same) refl)
  | inr no' ↦ rw (no', set_window_size-false size b no') (v, refl, refl, refl)
]
  where
    coords :
        {x x' y y' : ℤ}
        → x ≡ x'
        → y ≡ y'
        → ◌≡◌ {A = Coord} (record { x = x; y = y }) (record { x = x'; y = y' })
    coords p q = cc

    placed :
        (set_window_size size b).1 ≡ true
        → IsWindowed (set_window_size size b).0
          × (window_size (set_window_size size b).0 ≡ size)
          × (scroll_position (set_window_size size b).0 ≡ scroll_position b)
    placed e =
        let (px, py, l, t, r, m, same) = set_window_size-true size b e in
        let w = b.window_rect in
        let after = touch (record b {
          window_rect = record {
            left = w.left;
            top = w.top;
            right = last_of w.left size.x;
            bottom = last_of w.top size.y;
          };
        }) in
        let inside : IsWindowed after = record {
          wide = v.wide;
          high = v.high;
          across = omega int_laws;
          down = omega int_laws;
        } in
        rw
          (
            same,
            to_i16_exact w.left (omega int_laws),
            to_i16_exact w.top (omega int_laws),
            to_i16_exact (last_of w.left size.x) (omega int_laws),
            to_i16_exact (last_of w.top size.y) (omega int_laws),
          )
          (inside, window_size_exact after inside ∙ coords (omega int_laws) (omega int_laws), refl)

-- One axis of the constructor's window.
initial_extent_bounds :
    (desired size : ℤ)
    → IsSize size
    → (pos 1 ≤ℤ initial_extent desired size) × (initial_extent desired size ≤ℤ size)
unfolding initial_extent
initial_extent_bounds desired size s = ground arith

pub clamp_bounds :
    (raw e size : ℤ)
    → e ≤ℤ size
    → pos 0 ≤ℤ raw
    → (pos 0 ≤ℤ at_least (pos 0) (at_most (size -ℤ e) raw))
      × (at_least (pos 0) (at_most (size -ℤ e) raw) +ℤ e ≤ℤ size)
clamp_bounds raw e size h z = elim (ltb_ℤ-cases (size -ℤ e) raw) [
  | inl (t, lt) ↦ rw t (rw (ltb_ℤ-false (size -ℤ e) (pos 0) (omega int_laws)) (omega int_laws))
  | inr (t, le) ↦ rw t (rw (ltb_ℤ-false raw (pos 0) z) (omega int_laws))
]

initial_start_bounds :
    (scroll e size : ℤ)
    → e ≤ℤ size
    → (pos 0 ≤ℤ initial_start scroll e size) × (initial_start scroll e size +ℤ e ≤ℤ size)
unfolding initial_start
initial_start_bounds scroll e size h =
    clamp_bounds (if ltb_ℤ scroll (pos 0) then pos 0 else scroll) e size h (ground arith)

initial_cursor_bounds :
    (cursor size : ℤ)
    → IsSize size
    → (pos 0 ≤ℤ initial_cursor cursor size) × (initial_cursor cursor size <ℤ size)
unfolding initial_cursor
initial_cursor_bounds cursor size s =
    rw (to_i16_exact (size -ℤ pos 1) (omega int_laws)) (ground (arith, -ℤ_parts size (pos 1)))

pub positive : (c : Coord) → is_degenerate c ≡ false → (pos 0 <ℤ c.x) × (pos 0 <ℤ c.y)
positive c h = ground arith

-- Whatever else the settings hold, the constructor of a buffer whose size is positive on both axes
-- puts the window and the cursor inside the buffer and gives it a cell for each row and column.
pub construct-IsWindowed :
    (s : Settings)
    → IsShort s.buffer_size.x
    → IsShort s.buffer_size.y
    → is_degenerate s.buffer_size ≡ false
    → IsWindowed (construct s)
      × CursorInBuffer (construct s)
      × ((construct s).buffer_size ≡ s.buffer_size)
      × (length (construct s).cells ≡ to_size s.buffer_size.x * to_size s.buffer_size.y)
unfolding construct initial_window
construct-IsWindowed s x y ok =
    let size = s.buffer_size in
    let desired = if is_degenerate s.window_size then size else s.window_size in
    let (px, py) = positive size ok in
    let w = initial_extent desired.x size.x in
    let h = initial_extent desired.y size.y in
    let left = initial_start s.scroll_position.x w size.x in
    let top = initial_start s.scroll_position.y h size.y in
    let wb = initial_extent_bounds desired.x size.x (omega arith) in
    let hb = initial_extent_bounds desired.y size.y (omega arith) in
    let lb = initial_start_bounds s.scroll_position.x w size.x wb.1 in
    let tb = initial_start_bounds s.scroll_position.y h size.y hb.1 in
    let cx = initial_cursor_bounds s.cursor_position.x size.x (omega arith) in
    let cy = initial_cursor_bounds s.cursor_position.y size.y (omega arith) in
    rw
      (
        ok,
        to_i16_exact left (omega int_laws),
        to_i16_exact top (omega int_laws),
        to_i16_exact (last_of left w) (omega int_laws),
        to_i16_exact (last_of top h) (omega int_laws),
      )
      (
        record {
          wide = omega arith;
          high = omega arith;
          across = omega int_laws;
          down = omega int_laws;
        },
        (cx.0, cx.1, cy.0, cy.1),
        refl,
        length-replicate (to_size size.x * to_size size.y)
            (record { character = b' '; attributes = s.text_attributes }),
      )
