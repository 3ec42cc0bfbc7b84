-- ===== src/Screen/Insert.antt =====
-- The cell that a position names, and what `write_cell` and `insert_cell` of
-- src/condrv/condrv_server.cpp leave in every cell.
use conhost.Prelude.{
  ℕ, zero, suc, ◌+◌, ◌-◌, ◌*◌, ◌<◌, ◌≡◌, ◌≢◌, refl, ap, ◌∙◌, arith, ltb, leb, ◌==◌, if◌then◌else◌,
  true, false, ◌&&◌, Option, some, List, length, get_elem?, length-set, get_elem?-set_same,
  get_elem?-set_other, Option-cases, Bool-cases, ◌⊎◌, inl, inr,
}
use conhost.Prelude.Int.{ℤ, pos, pos_part, neg_part, ◌≤ℤ◌, ◌<ℤ◌, leb_ℤ-false, eqb_ℤ, eq_of_parts}
use native.Mathlib.Nat.{mul-le-mul_left}
use conhost.Screen.{Coord, ScreenCell, ScreenBuffer, to_size}
use conhost.Screen.Cells.{
  coord_in_range, linear_index, write_cell, copy_cell, move_right, insert_cell,
}
use conhost.Screen.Loops.{get_elem?-none}

-- The buffer holds one cell for every position.
abbrev pub IsFilled : ScreenBuffer → Type 0
IsFilled b = length b.cells ≡ to_size b.buffer_size.y * to_size b.buffer_size.x

pub earlier_row : (y y' X x : ℕ) → y < y' → x < X → y * X + x < y' * X
earlier_row y y' X x h k = omega (arith, mul-le-mul_left X h)

-- The facts that a position in range carries.
abbrev pub InRange : Coord → ScreenBuffer → Type 0
InRange c b = (to_size c.x < to_size b.buffer_size.x) × (to_size c.y < to_size b.buffer_size.y)

pub below_size : (v size : ℤ) → pos 0 ≤ℤ v → v <ℤ size → to_size v < to_size size
below_size v size p q = ground arith

coord_in_range_bounds : (c : Coord) (b : ScreenBuffer) → coord_in_range c b ≡ true → InRange c b
unfolding coord_in_range
coord_in_range_bounds c b h =
    ground (arith, below_size c.x b.buffer_size.x, below_size c.y b.buffer_size.y)

-- A position in range names a cell of the buffer.
pub linear_index_bound :
    (c : Coord) (b : ScreenBuffer)
    → IsFilled b
    → coord_in_range c b ≡ true
    → linear_index c b < length b.cells
unfolding linear_index
linear_index_bound c b f h =
    let bounds = coord_in_range_bounds c b h in
    omega (
      arith,
      earlier_row (to_size c.y) (to_size b.buffer_size.y) (to_size b.buffer_size.x) (to_size c.x)
          (bounds.1) (bounds.0),
    )

pub same_row : (y y' X x x' : ℕ) → x < X → x' < X → y * X + x ≡ y' * X + x' → y ≡ y'
same_row y y' X x x' h h' e = ground (arith, earlier_row y y' X x, earlier_row y' y X x')

to_size_unique : (a b : ℤ) → pos 0 ≤ℤ a → pos 0 ≤ℤ b → to_size a ≡ to_size b → a ≡ b
to_size_unique a b p q e = ground arith

coord_in_range_signs :
    (c : Coord) (b : ScreenBuffer) → coord_in_range c b ≡ true → (pos 0 ≤ℤ c.x) × (pos 0 ≤ℤ c.y)
unfolding coord_in_range
coord_in_range_signs c b h = ground arith

coord_eq : (c d : Coord) → c.x ≡ d.x → c.y ≡ d.y → c ≡ d
coord_eq c d p q = λ i. record { x = p i; y = q i }

-- Two positions in range that name the same cell are the same.
pub linear_index_unique :
    (c d : Coord) (b : ScreenBuffer)
    → coord_in_range c b ≡ true
    → coord_in_range d b ≡ true
    → linear_index c b ≡ linear_index d b
    → c ≡ d
unfolding linear_index
linear_index_unique c d b h k e =
    let hb = coord_in_range_bounds c b h in
    let kb = coord_in_range_bounds d b k in
    let hs = coord_in_range_signs c b h in
    let ks = coord_in_range_signs d b k in
    let X = to_size b.buffer_size.x in
    let rows = same_row (to_size c.y) (to_size d.y) X (to_size c.x) (to_size d.x) (hb.0) (kb.0) e in
    let columns : to_size c.x ≡ to_size d.x = omega (arith, ap (λ y. y * X) rows) in
    coord_eq c d (to_size_unique c.x d.x (hs.0) (ks.0) columns)
      (to_size_unique c.y d.y (hs.1) (ks.1) rows)

same_coord-cases :
    (c d : Coord)
    → (((eqb_ℤ c.x d.x && eqb_ℤ c.y d.y) ≡ true) × (c ≡ d))
      ⊎ (((eqb_ℤ c.x d.x && eqb_ℤ c.y d.y) ≡ false) × (c ≢ d))
same_coord-cases c d = elim (Bool-cases (eqb_ℤ c.x d.x && eqb_ℤ c.y d.y)) [
  | inl t ↦
      inl
        (t, coord_eq c d (eq_of_parts c.x d.x (ground arith)) (eq_of_parts c.y d.y (ground arith)))
  | inr t ↦ inr (
    t,
    λ e. ground (
      arith,
      ap (λ (z : Coord). pos_part z.x) e,
      ap (λ (z : Coord). neg_part z.x) e,
      ap (λ (z : Coord). pos_part z.y) e,
      ap (λ (z : Coord). neg_part z.y) e,
    ),
  )
]

-- Writing a cell in range changes the cell that its position names, and no cell that another position
-- in range names.
write_cell-get_elem? :
    (c d : Coord) (character attributes : ℕ) (b : ScreenBuffer)
    → IsFilled b
    → coord_in_range c b ≡ true
    → coord_in_range d b ≡ true
    → get_elem? ((write_cell c character attributes b).0).cells (linear_index d b) ≡ (
        if eqb_ℤ c.x d.x && eqb_ℤ c.y d.y
        then some (record { character = character; attributes = attributes })
        else get_elem? b.cells (linear_index d b))
unfolding write_cell
write_cell-get_elem? c d character attributes b f h k =
    let cell : ScreenCell = record { character = character; attributes = attributes } in
    rw h (elim (same_coord-cases c d) [
      | inl (t, e) ↦
          rw (t, e)
            (get_elem?-set_same b.cells (linear_index d b) cell (linear_index_bound d b f k))
      | inr (t, n) ↦ rw t (
          get_elem?-set_other b.cells (linear_index c b) (linear_index d b) cell
            (λ e. n (linear_index_unique c d b h k e)))
    ])

copy_cell-get_elem? :
    (from to j : ℕ) (cells : List ScreenCell)
    → from < length cells
    → to < length cells
    → get_elem? (copy_cell from to cells) j
      ≡ (if j == to then get_elem? cells from else get_elem? cells j)
copy_cell-get_elem? from to j cells h k = elim (Option-cases (get_elem? cells from)) [
  | inl e ↦ ground (arith, get_elem?-none cells from e)
  | inr (v, e) ↦
      rw e (ground (arith, get_elem?-set_same cells to v k, get_elem?-set_other cells to j v))
]

length-copy_cell :
    (from to : ℕ) (cells : List ScreenCell) → length (copy_cell from to cells) ≡ length cells
length-copy_cell from to cells = elim (Option-cases (get_elem? cells from)) [
  | inl e ↦ rw (copy_cell, e) refl
  | inr (v, e) ↦ rw (copy_cell, e) (length-set cells to v)
]

-- Cell `j` after the `n` cells from `first` on have moved one to the right.
abbrev moved : ℕ → ℕ → List ScreenCell → ℕ → Option ScreenCell
moved first n cells j =
    if ltb first j && leb j (first + n) then get_elem? cells (j - 1) else get_elem? cells j

move_right-get_elem? :
    (first n j : ℕ) (cells : List ScreenCell)
    → first + n < length cells
    → get_elem? (move_right first n cells) j ≡ moved first n cells j
unfolding move_right
move_right-get_elem? first zero j cells h = ground arith
move_right-get_elem? first (suc n) j cells h =
    let copied = copy_cell (first + n) (suc (first + n)) cells in
    move_right-get_elem? first n j copied
      (omega (arith, length-copy_cell (first + n) (suc (first + n)) cells))
    ∙ ground (
      arith,
      copy_cell-get_elem? (first + n) (suc (first + n)) j cells (omega arith) (omega arith),
      copy_cell-get_elem? (first + n) (suc (first + n)) (j - 1) cells (omega arith) (omega arith),
    )

pub length-move_right :
    (first n : ℕ) (cells : List ScreenCell) → length (move_right first n cells) ≡ length cells
unfolding move_right
length-move_right first zero cells = refl
length-move_right first (suc n) cells =
    length-move_right first n (copy_cell (first + n) (suc (first + n)) cells)
    ∙ length-copy_cell (first + n) (suc (first + n)) cells

-- In a buffer of more than one column, inserting a cell in range puts it at its position, moves the
-- cells from there to the end of the row one column to the right, drops the last cell of the row, and
-- changes no cell before the position and none of a later row.
pub insert_cell-get_elem? :
    (c : Coord) (character attributes j : ℕ) (b : ScreenBuffer)
    → IsFilled b
    → coord_in_range c b ≡ true
    → pos 1 <ℤ b.buffer_size.x
    → get_elem? ((insert_cell c character attributes b).0).cells j ≡ (
        if j == linear_index c b
        then some (record { character = character; attributes = attributes })
        else if ltb (linear_index c b) j
            && ltb j (to_size c.y * to_size b.buffer_size.x + to_size b.buffer_size.x)
        then get_elem? b.cells (j - 1)
        else get_elem? b.cells j)
unfolding insert_cell linear_index
insert_cell-get_elem? c character attributes j b f h w =
    let width = to_size b.buffer_size.x in
    let base = to_size c.y * width in
    let start = base + to_size c.x in
    let n = base + width - 1 - start in
    let bounds = coord_in_range_bounds c b h in
    let cell : ScreenCell = record { character = character; attributes = attributes } in
    let fits : start + n < length b.cells = omega (
      arith,
      f,
      earlier_row (to_size c.y) (to_size b.buffer_size.y) width (width - 1) (bounds.1)
          (omega arith),
    ) in
    rw (h, leb_ℤ-false b.buffer_size.x (pos 1) w)
      (ground (
        arith,
        get_elem?-set_same (move_right start n b.cells) start cell,
        get_elem?-set_other (move_right start n b.cells) start j cell,
        length-move_right start n b.cells,
        move_right-get_elem? start n j b.cells fits,
      ))
