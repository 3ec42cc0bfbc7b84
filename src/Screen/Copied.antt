-- ===== src/Screen/Copied.antt =====
-- The cells behind a resize: the two copying loops of `set_screen_buffer_size`
-- (src/condrv/condrv_server.cpp), cell by cell.
use conhost.Prelude.{
  ℕ, zero, suc, ◌+◌, ◌*◌, ◌≤◌, ◌<◌, ◌≡◌, refl, ap, ◌∙◌, arith, ltb, leb, ◌==◌, if◌then◌else◌, true,
  false, ◌&&◌, ◌||◌, Bool-cases, Option-cases, inl, inr, some, List, length, get_elem?, replicate,
  min, length-replicate, get_elem?-set_same, get_elem?-set_other,
}
use conhost.Prelude.Int.{pos, ◌≤ℤ◌, ◌<ℤ◌}
use native.Mathlib.Nat.{mul-le-mul_left}
use conhost.Screen.{
  Coord, ScreenCell, ScreenBuffer, is_degenerate, to_size, touch, snap_window_to_cursor,
}
use conhost.Screen.Cells.{linear_index, coord_in_range}
use conhost.Screen.Loops.{get_elem?-none}
use conhost.Screen.Insert.{IsFilled, earlier_row, same_row, below_size}
use conhost.Screen.Place.{positive}
use conhost.Screen.Size.{
  put_from, copy_row, copy_rows, resize_cells, old_extent, resize, blank_of, set_screen_buffer_size,
}
use conhost.Screen.Resized.{length-put_from, length-copy_row, set_screen_buffer_size_accepts}

put_from-get_elem? :
    (old : List ScreenCell) (from to : ℕ) (new : List ScreenCell) (j : ℕ)
    → from < length old
    → to < length new
    → get_elem? (put_from old from to new) j
      ≡ (if j == to then get_elem? old from else get_elem? new j)
put_from-get_elem? old from to new j h k = elim (Option-cases (get_elem? old from)) [
  | inl e ↦ ground (arith, get_elem?-none old from e)
  | inr (v, e) ↦
      rw e (ground (arith, get_elem?-set_same new to v k, get_elem?-set_other new to j v))
]

position_eqb :
    (y' y X x' x : ℕ) → x' < X → x < X → ((y' * X + x') == (y * X + x)) ≡ ((y' == y) && (x' == x))
position_eqb y' y X x' x h k =
    ground (arith, same_row y' y X x' x h k, λ (e : y' ≡ y). ap (λ r. r * X) e)

-- Cell (x', y') after the cells of row `y` from column `x` on were copied, `n` of them.
copy_row-get_elem? :
    (ow nw y x n : ℕ) (old new : List ScreenCell) (x' y' : ℕ)
    → x + n ≤ nw
    → y * ow + (x + n) ≤ length old
    → y * nw + (x + n) ≤ length new
    → x' < nw
    → get_elem? (copy_row ow nw y x n old new) (y' * nw + x') ≡ (
        if (y' == y) && (leb x x' && ltb x' (x + n))
        then get_elem? old (y * ow + x')
        else get_elem? new (y' * nw + x'))
unfolding copy_row
copy_row-get_elem? ow nw y x zero old new x' y' a b c h = ground arith
copy_row-get_elem? ow nw y x (suc n) old new x' y' a b c h =
    let put = put_from old (y * ow + x) (y * nw + x) new in
    copy_row-get_elem? ow nw y (suc x) n old put x' y' (omega arith) (omega arith)
      (omega (arith, length-put_from old (y * ow + x) (y * nw + x) new)) h
    ∙ ground (
      arith,
      put_from-get_elem? old (y * ow + x) (y * nw + x) new (y' * nw + x') (omega arith)
          (omega arith),
      position_eqb y' y nw x' x h (omega arith),
    )

-- Cell (x', y') after `n` rows from row `y` on were copied, `w` cells of each.
copy_rows-get_elem? :
    (ow nw w y n : ℕ) (old new : List ScreenCell) (x' y' : ℕ)
    → w ≤ ow
    → w ≤ nw
    → (y + n) * ow ≤ length old
    → (y + n) * nw ≤ length new
    → x' < nw
    → get_elem? (copy_rows ow nw w y n old new) (y' * nw + x') ≡ (
        if (leb y y' && ltb y' (y + n)) && ltb x' w
        then get_elem? old (y' * ow + x')
        else get_elem? new (y' * nw + x'))
unfolding copy_rows
copy_rows-get_elem? ow nw w y zero old new x' y' a b c d h = ground arith
copy_rows-get_elem? ow nw w y (suc n) old new x' y' a b c d h =
    let row = copy_row ow nw y 0 w old new in
    copy_rows-get_elem? ow nw w (suc y) n old row x' y' a b (omega arith)
      (omega (arith, length-copy_row ow nw y 0 w old new)) h
    ∙ ground (
      arith,
      copy_row-get_elem? ow nw y 0 w old new x' y' (omega arith) (omega arith) (omega arith) h,
      λ (e : y' ≡ y). ap (λ r. r * ow) e,
    )

get_elem?-replicate : (n i : ℕ) (v : ScreenCell) → i < n → get_elem? (replicate n v) i ≡ some v
get_elem?-replicate zero i v h = ground arith
get_elem?-replicate (suc n) zero v h = refl
get_elem?-replicate (suc n) (suc i) v h = get_elem?-replicate n i v (omega arith)

-- Cell (x, y) of the new cells.
resize_cells-get_elem? :
    (ow oh nw nh : ℕ) (fill : ScreenCell) (old : List ScreenCell) (x y : ℕ)
    → length old ≡ oh * ow
    → x < nw
    → y < nh
    → get_elem? (resize_cells ow oh nw nh fill old) (y * nw + x)
      ≡ (if ltb x ow && ltb y oh then get_elem? old (y * ow + x) else some fill)
unfolding resize_cells
resize_cells-get_elem? ow oh nw nh fill old x y e h k =
    let blank =
      get_elem?-replicate (nw * nh) (y * nw + x) fill (omega (arith, earlier_row y nh nw x k h)) in
    elim (Bool-cases ((length old == 0) || (ow == 0) || (oh == 0))) [
      | inl t ↦ rw (resize_cells, t) (ground (arith, blank, earlier_row y oh ow x))
      | inr t ↦
          rw (resize_cells, t)
            (copy_rows-get_elem? ow nw (min ow nw) 0 (min oh nh) old (replicate (nw * nh) fill) x y
                (omega arith) (omega arith)
                (omega (arith, e, mul-le-mul_left {m = min oh nh} {n = oh} ow (omega arith)))
                (omega (
                  arith,
                  length-replicate (nw * nh) fill,
                  mul-le-mul_left {m = min oh nh} {n = nh} nw (omega arith),
                ))
                h
              ∙ ground (arith, blank))
    ]

snap_cells : (c : ScreenBuffer) → (snap_window_to_cursor c).cells ≡ c.cells
unfolding snap_window_to_cursor
snap_cells c = ground arith

extents :
    (c : Coord)
    → is_degenerate c ≡ false
    → (old_extent c.x ≡ to_size c.x) × (old_extent c.y ≡ to_size c.y)
extents c ok = ground arith

positions :
    (d : Coord) (b : ScreenBuffer)
    → IsFilled b
    → is_degenerate b.buffer_size ≡ false
    → pos 0 ≤ℤ d.x
    → pos 0 ≤ℤ d.y
    → (ltb (to_size d.x) (old_extent b.buffer_size.x)
        && ltb (to_size d.y) (old_extent b.buffer_size.y))
      ≡ coord_in_range d b
unfolding coord_in_range
positions d b f ok x y =
    let (px, py) = positive b.buffer_size ok in
    let (ex, ey) = extents b.buffer_size ok in
    let X = to_size b.buffer_size.x in
    let Y = to_size b.buffer_size.y in
    let some_row : 0 < Y = below_size (pos 0) b.buffer_size.y (omega arith) py in
    let some_column : 0 < X = below_size (pos 0) b.buffer_size.x (omega arith) px in
    let filled : (length b.cells == 0) ≡ false =
      ground (arith, earlier_row 0 Y X 0 some_row some_column) in
    rw (filled, ok, ex, ey) (ground arith)

-- The cells of a buffer that is resized, behind the snap to the cursor.
resized_view :
    (size : Coord) (b : ScreenBuffer) (i : ℕ)
    → is_degenerate size ≡ false
    → get_elem? ((set_screen_buffer_size true size b).0).cells i
      ≡ get_elem?
          (resize_cells
            (old_extent b.buffer_size.x)
            (old_extent b.buffer_size.y)
            (to_size size.x)
            (to_size size.y)
            (blank_of b.text_attributes)
            b.cells)
          i
unfolding resize
resized_view size b i ok =
    rw (set_screen_buffer_size_accepts size b ok, snap_cells (touch (resize size b))) refl

-- The cell of a position in the new buffer, by that position and no index: a resize that succeeds
-- keeps the cell of every position that the old buffer has too, and a position that it has not is
-- blank, in the buffer's attributes.
pub set_screen_buffer_size-get_elem? :
    (size d : Coord) (b : ScreenBuffer)
    → IsFilled b
    → is_degenerate b.buffer_size ≡ false
    → is_degenerate size ≡ false
    → pos 0 ≤ℤ d.x
    → pos 0 ≤ℤ d.y
    → d.x <ℤ size.x
    → d.y <ℤ size.y
    → get_elem?
        ((set_screen_buffer_size true size b).0).cells
        (to_size d.y * to_size size.x + to_size d.x)
      ≡ (if coord_in_range d b
          then get_elem? b.cells (linear_index d b)
          else some (blank_of b.text_attributes))
unfolding linear_index
set_screen_buffer_size-get_elem? size d b f old_ok ok x y w h =
    let (ex, ey) = extents b.buffer_size old_ok in
    resized_view size b (to_size d.y * to_size size.x + to_size d.x) ok
    ∙ resize_cells-get_elem? (old_extent b.buffer_size.x) (old_extent b.buffer_size.y)
        (to_size size.x) (to_size size.y) (blank_of b.text_attributes) b.cells (to_size d.x)
        (to_size d.y) (rw (ex, ey) f) (below_size d.x size.x x w) (below_size d.y size.y y h)
    ∙ rw (positions d b f old_ok x y, ex) refl
