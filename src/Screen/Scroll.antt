-- ===== src/Screen/Scroll.antt =====
-- `ScreenBuffer::scroll_screen_buffer` of src/condrv/condrv_server.cpp: a rectangle is saved and filled,
-- then put down elsewhere, and a clip rectangle bounds what either changes.
use conhost.Prelude.{
  ℕ, zero, suc, ◌+◌, ◌*◌, ◌==◌, if◌then◌else◌, Bool, true, false, not, ◌&&◌, ◌||◌, List, [], ◌∷◌,
  ◌++◌, length, get_or, set, drop, take,
}
use conhost.Prelude.Int.{ℤ, pos, ◌+ℤ◌, ◌-ℤ◌, ltb_ℤ, leb_ℤ}
use conhost.Screen.{Coord, SmallRect, ScreenCell, ScreenBuffer, to_size, extent_of, touch}
use conhost.Screen.Cells.{coord_in_range}

abbrev pub clip_contains : SmallRect → Coord → Bool
clip_contains clip c =
    (leb_ℤ clip.left c.x && leb_ℤ c.x clip.right) && (leb_ℤ clip.top c.y && leb_ℤ c.y clip.bottom)

abbrev pub at : ℕ → ℕ → Coord
at x y = record { x = pos x; y = pos y }

module _ (clip : SmallRect) (fill : ScreenCell) (W : ℕ) where
  -- The inner loop that saves and fills, `n` cells of row `y` from column `x` on: what it saves, and
  -- the cells.
  unfoldable pub save_row : ℕ → ℕ → ℕ → List ScreenCell → List ScreenCell × List ScreenCell
  save_row y x zero cells = ([], cells)
  save_row y x (suc n) cells =
      let filled = if clip_contains clip (at x y) then set cells (y * W + x) fill else cells in
      let rest = save_row y (suc x) n filled in (get_or cells (y * W + x) fill ∷ rest.0, rest.1)

  -- The outer loop, over `n` rows of `w` cells from row `y` on.
  unfoldable pub save_rows : ℕ → ℕ → ℕ → ℕ → List ScreenCell → List ScreenCell × List ScreenCell
  save_rows x w y zero cells = ([], cells)
  save_rows x w y (suc n) cells =
      let row = save_row y x w cells in
      let rest = save_rows x w (suc y) n (row.1) in (row.0 ++ rest.0, rest.1)

module _ (clip : SmallRect) (size : Coord) (dx dy : ℤ) where
  -- Whether a saved cell is put down at this place.
  abbrev pub is_placed : Coord → Bool
  is_placed dest =
      not (
        ((ltb_ℤ dest.x (pos 0) || ltb_ℤ dest.y (pos 0))
          || (ltb_ℤ (size.x -ℤ pos 1) dest.x || ltb_ℤ (size.y -ℤ pos 1) dest.y)))
      && clip_contains clip dest

  abbrev pub moved : ℕ → ℕ → Coord
  moved x y = record { x = pos x +ℤ dx; y = pos y +ℤ dy }

  -- The loops that put the saved cells down; the list of saved cells is at the one for `x` and `y`.
  unfoldable pub place_row : ℕ → ℕ → List ScreenCell → List ScreenCell → List ScreenCell
  place_row y x [] cells = cells
  place_row y x (cell ∷ saved) cells = place_row y (suc x) saved (
      if is_placed (moved x y)
      then set cells (to_size (moved x y).y * to_size size.x + to_size (moved x y).x) cell
      else cells)

  unfoldable pub place_rows : ℕ → ℕ → ℕ → ℕ → List ScreenCell → List ScreenCell → List ScreenCell
  place_rows x w y zero saved cells = cells
  place_rows x w y (suc n) saved cells =
      place_rows x w (suc y) n (drop w saved) (place_row y x (take w saved) cells)

-- Whether the saved cells are allocated is the first argument.
unfoldable pub scroll_screen_buffer :
    Bool → SmallRect → SmallRect → Coord → ScreenCell → ScreenBuffer → ScreenBuffer × Bool
scroll_screen_buffer allocated rect clip dest fill b =
    let W = to_size b.buffer_size.x in
    let x = to_size rect.left in
    let y = to_size rect.top in
    let w = to_size (extent_of rect.left rect.right) in
    let h = to_size (extent_of rect.top rect.bottom) in
    let done = save_rows clip fill W x w y h b.cells in
    if length b.cells == 0
    then (b, false)
    else if ltb_ℤ rect.right rect.left || ltb_ℤ rect.bottom rect.top
    then (b, true)
    else if not (coord_in_range (record { x = rect.left; y = rect.top }) b)
        || not (coord_in_range (record { x = rect.right; y = rect.bottom }) b)
    then (b, true)
    else if leb_ℤ (extent_of rect.left rect.right) (pos 0)
        || leb_ℤ (extent_of rect.top rect.bottom) (pos 0)
    then (b, true)
    else if allocated
    then (
      touch (record b {
        cells =
            place_rows clip b.buffer_size (dest.x -ℤ rect.left) (dest.y -ℤ rect.top) x w y h
              (done.0) (done.1);
      }),
      true,
    )
    else (touch b, false)
