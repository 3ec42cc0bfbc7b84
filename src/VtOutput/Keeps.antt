-- ===== src/VtOutput/Keeps.antt =====
-- The operations on cells that leave the shape of the buffer alone (src/condrv/condrv_server.cpp).
use conhost.Prelude.{
  ℕ, zero, suc, ◌+◌, ◌-◌, ◌*◌, ◌≡◌, refl, ◌∙◌, arith, ◌==◌, if◌then◌else◌, Bool, true, false, not,
  ◌||◌, Bool-cases, Option-cases, inl, inr, List, [], ◌∷◌, length, length-set, get_elem?, set, take,
  drop,
}
use conhost.Prelude.Int.{ℤ, pos, ◌-ℤ◌, ltb_ℤ, leb_ℤ}
use conhost.Screen.{Coord, SmallRect, ScreenCell, ScreenBuffer, to_size, touch, extent_of}
use conhost.Screen.Cells.{
  coord_in_range, linear_index, write_cell, insert_cell, move_right, fill_output, fill_loop,
  put_character, put_attributes, fill_output_characters, fill_output_attributes,
}
use conhost.Screen.Insert.{length-move_right}
use conhost.Screen.Scroll.{
  save_row, save_rows, place_row, place_rows, scroll_screen_buffer, clip_contains, at, is_placed,
  moved,
}

-- Two buffers of the same shape: only their cells, and what the shape does not hold, may differ.
pub record Like (a b : ScreenBuffer) : Type 0 where
  pub same_size : b.buffer_size ≡ a.buffer_size
  pub same_length : length b.cells ≡ length a.cells
  pub same_cursor : b.cursor_position ≡ a.cursor_position
  pub same_window : b.window_rect ≡ a.window_rect
  pub same_backup : b.vt_main_backup ≡ a.vt_main_backup

pub Like-refl : (a : ScreenBuffer) → Like a a
Like-refl a = record {
  same_size = refl;
  same_length = refl;
  same_cursor = refl;
  same_window = refl;
  same_backup = refl;
}

pub Like-trans : (a b c : ScreenBuffer) → Like a b → Like b c → Like a c
Like-trans a b c p q = record {
  same_size = q.same_size ∙ p.same_size;
  same_length = q.same_length ∙ p.same_length;
  same_cursor = q.same_cursor ∙ p.same_cursor;
  same_window = q.same_window ∙ p.same_window;
  same_backup = q.same_backup ∙ p.same_backup;
}

pub Like-cells :
    (b : ScreenBuffer) (cells : List ScreenCell)
    → length cells ≡ length b.cells
    → Like b (touch (record b { cells = cells }))
Like-cells b cells e = record {
  same_size = refl;
  same_length = e;
  same_cursor = refl;
  same_window = refl;
  same_backup = refl;
}

pub write_cell-Like :
    (p : Coord) (character attributes : ℕ) (b : ScreenBuffer)
    → Like b (write_cell p character attributes b).0
unfolding write_cell
write_cell-Like p character attributes b = elim (Bool-cases (coord_in_range p b)) [
  | inl h ↦ rw h (
      Like-cells b
        (set b.cells (linear_index p b) (record { character = character; attributes = attributes }))
        (length-set b.cells (linear_index p b)
          (record { character = character; attributes = attributes })))
  | inr h ↦ rw h (Like-refl b)
]

-- A result whose buffer is like the one before, and a choice of two such results.
pub record Leaves (b : ScreenBuffer) (r : ScreenBuffer × Bool) : Type 0 where
  pub like : Like b r.0

Leaves-if :
    (b : ScreenBuffer) (t : Bool) (x y : ScreenBuffer × Bool)
    → Leaves b x
    → Leaves b y
    → Leaves b (if t then x else y)
Leaves-if b true x y p q = p
Leaves-if b false x y p q = q

unchanged : (b : ScreenBuffer) (t : Bool) → Leaves b (b, t)
unchanged b t = record { like = Like-refl b }

kept :
    (b : ScreenBuffer) (cells : List ScreenCell) (t : Bool)
    → length cells ≡ length b.cells
    → Leaves b (touch (record b { cells = cells }), t)
kept b cells t e = record { like = Like-cells b cells e }

insert_cell-Leaves :
    (p : Coord) (character attributes : ℕ) (b : ScreenBuffer)
    → Leaves b (insert_cell p character attributes b)
unfolding insert_cell
insert_cell-Leaves p character attributes b =
    let width = to_size b.buffer_size.x in
    let base = to_size p.y * width in
    let start = base + to_size p.x in
    let cell : ScreenCell = record { character = character; attributes = attributes } in
    let shifted = move_right start (base + width - 1 - start) b.cells in
    Leaves-if b (not (coord_in_range p b)) _ _ (unchanged b false) (
      Leaves-if b (leb_ℤ b.buffer_size.x (pos 1)) _ _
        (Leaves-if b (not (coord_in_range p b)) _ _ (unchanged b false) (
          kept b (set b.cells (linear_index p b) cell) true
            (length-set b.cells (linear_index p b) cell)))
        (kept b (set shifted start cell) true (
          length-set shifted start cell
          ∙ length-move_right start (base + width - 1 - start) b.cells)))

pub insert_cell-Like :
    (p : Coord) (character attributes : ℕ) (b : ScreenBuffer)
    → Like b (insert_cell p character attributes b).0
insert_cell-Like p character attributes b = (insert_cell-Leaves p character attributes b).like

length-fill_loop :
    (put : ℕ → ScreenCell → ScreenCell) (i value n : ℕ) (cells : List ScreenCell)
    → length ((fill_loop put i value n cells).0) ≡ length cells
unfolding fill_loop
length-fill_loop put i value zero cells = refl
length-fill_loop put i value (suc n) cells = elim (Option-cases (get_elem? cells i)) [
  | inl e ↦ ground (arith, e)
  | inr (v, e) ↦ ground (
    arith,
    e,
    length-fill_loop put (suc i) value n (set cells i (put value v)),
    length-set cells i (put value v),
  )
]

fill_output-Like :
    (put : ℕ → ScreenCell → ScreenCell) (p : Coord) (value n : ℕ) (b : ScreenBuffer)
    → Like b (fill_output put p value n b).0
unfolding fill_output
fill_output-Like put p value n b = elim (Bool-cases (not (coord_in_range p b) || (n == 0))) [
  | inl h ↦ rw h (Like-refl b)
  | inr h ↦ rw h (
      Like-cells b ((fill_loop put (linear_index p b) value n b.cells).0)
        (length-fill_loop put (linear_index p b) value n b.cells))
]

pub fill_output_characters-Like :
    (p : Coord) (value n : ℕ) (b : ScreenBuffer) → Like b (fill_output_characters p value n b).0
unfolding fill_output_characters
fill_output_characters-Like = fill_output-Like put_character

pub fill_output_attributes-Like :
    (p : Coord) (value n : ℕ) (b : ScreenBuffer) → Like b (fill_output_attributes p value n b).0
unfolding fill_output_attributes
fill_output_attributes-Like = fill_output-Like put_attributes

module _ (clip : SmallRect) (fill : ScreenCell) (W : ℕ) where
  length-save_row :
      (y x n : ℕ) (cells : List ScreenCell)
      → length ((save_row clip fill W y x n cells).1) ≡ length cells
  unfolding save_row
  length-save_row y x zero cells = refl
  length-save_row y x (suc n) cells = elim (Bool-cases (clip_contains clip (at x y))) [
    | inl h ↦ rw h (
        length-save_row y (suc x) n (set cells (y * W + x) fill)
        ∙ length-set cells (y * W + x) fill)
    | inr h ↦ rw h (length-save_row y (suc x) n cells)
  ]

  length-save_rows :
      (x w y n : ℕ) (cells : List ScreenCell)
      → length ((save_rows clip fill W x w y n cells).1) ≡ length cells
  unfolding save_rows
  length-save_rows x w y zero cells = refl
  length-save_rows x w y (suc n) cells =
      length-save_rows x w (suc y) n ((save_row clip fill W y x w cells).1)
      ∙ length-save_row y x w cells

module _ (clip : SmallRect) (size : Coord) (dx dy : ℤ) where
  length-place_row :
      (y x : ℕ) (saved cells : List ScreenCell)
      → length (place_row clip size dx dy y x saved cells) ≡ length cells
  unfolding place_row
  length-place_row y x [] cells = refl
  length-place_row y x (cell ∷ saved) cells =
      let i =
        to_size (moved clip size dx dy x y).y * to_size size.x
        + to_size (moved clip size dx dy x y).x in
      elim (Bool-cases (is_placed clip size dx dy (moved clip size dx dy x y))) [
        | inl h ↦
            rw h (length-place_row y (suc x) saved (set cells i cell) ∙ length-set cells i cell)
        | inr h ↦ rw h (length-place_row y (suc x) saved cells)
      ]

  length-place_rows :
      (x w y n : ℕ) (saved cells : List ScreenCell)
      → length (place_rows clip size dx dy x w y n saved cells) ≡ length cells
  unfolding place_rows
  length-place_rows x w y zero saved cells = refl
  length-place_rows x w y (suc n) saved cells =
      length-place_rows x w (suc y) n (drop w saved)
        (place_row clip size dx dy y x (take w saved) cells)
      ∙ length-place_row y x (take w saved) cells

scroll_screen_buffer-Leaves :
    (allocated : Bool) (rect clip : SmallRect) (dest : Coord) (fill : ScreenCell) (b : ScreenBuffer)
    → Leaves b (scroll_screen_buffer allocated rect clip dest fill b)
unfolding scroll_screen_buffer
scroll_screen_buffer-Leaves allocated rect clip dest fill b =
    let W = to_size b.buffer_size.x in
    let x = to_size rect.left in
    let y = to_size rect.top in
    let w = to_size (extent_of rect.left rect.right) in
    let h = to_size (extent_of rect.top rect.bottom) in
    let done = save_rows clip fill W x w y h b.cells in
    let dx = dest.x -ℤ rect.left in
    let dy = dest.y -ℤ rect.top in
    let placed = place_rows clip b.buffer_size dx dy x w y h (done.0) (done.1) in
    Leaves-if b (length b.cells == 0) _ _ (unchanged b false) (
      Leaves-if b (ltb_ℤ rect.right rect.left || ltb_ℤ rect.bottom rect.top) _ _ (unchanged b true)
        (Leaves-if b
          (not (coord_in_range (record { x = rect.left; y = rect.top }) b)
            || not (coord_in_range (record { x = rect.right; y = rect.bottom }) b))
          _ _ (unchanged b true)
          (Leaves-if b
            (leb_ℤ (extent_of rect.left rect.right) (pos 0)
              || leb_ℤ (extent_of rect.top rect.bottom) (pos 0))
            _ _ (unchanged b true)
            (Leaves-if b allocated _ _
              (kept b placed true (
                length-place_rows clip b.buffer_size dx dy x w y h (done.0) (done.1)
                ∙ length-save_rows clip fill W x w y h b.cells))
              (kept b b.cells false refl)))))

pub scroll_screen_buffer-Like :
    (allocated : Bool) (rect clip : SmallRect) (dest : Coord) (fill : ScreenCell) (b : ScreenBuffer)
    → Like b (scroll_screen_buffer allocated rect clip dest fill b).0
scroll_screen_buffer-Like allocated rect clip dest fill b =
    (scroll_screen_buffer-Leaves allocated rect clip dest fill b).like
