-- ===== src/Screen/Cells.antt =====
-- The cells of a screen buffer: the operations of `ScreenBuffer` (src/condrv/condrv_server.cpp) that
-- read and write them by position, and the loops that they share.
use conhost.Prelude.{
  ℕ, zero, suc, ◌+◌, ◌-◌, ◌*◌, leb, ◌==◌, if◌then◌else◌, Bool, true, false, not, ◌&&◌, ◌||◌, none,
  some, List, [], ◌∷◌, length, get_elem?, set,
}
use conhost.Prelude.Int.{pos, ltb_ℤ, leb_ℤ}
use conhost.Screen.{Coord, ScreenCell, ScreenBuffer, is_degenerate, to_size, touch}

unfoldable pub coord_in_range : Coord → ScreenBuffer → Bool
coord_in_range c b =
    if length b.cells == 0
    then false
    else if is_degenerate b.buffer_size
    then false
    else if ltb_ℤ c.x (pos 0) || ltb_ℤ c.y (pos 0)
    then false
    else ltb_ℤ c.x b.buffer_size.x && ltb_ℤ c.y b.buffer_size.y

unfoldable pub linear_index : Coord → ScreenBuffer → ℕ
linear_index c b = to_size c.y * to_size b.buffer_size.x + to_size c.x

unfoldable pub write_cell : Coord → ℕ → ℕ → ScreenBuffer → ScreenBuffer × Bool
write_cell c character attributes b = if not (coord_in_range c b) then (b, false) else (
  touch (record b {
    cells =
        set b.cells (linear_index c b) (record { character = character; attributes = attributes });
  }),
  true,
)

-- `_cells[to] = _cells[from]`.
abbrev pub copy_cell : ℕ → ℕ → List ScreenCell → List ScreenCell
copy_cell from to cells = elim (get_elem? cells from) [
  | none ↦ cells
  | some cell ↦ set cells to cell
]

-- `std::move_backward` of the `n` cells from `first` on, to one cell further: the last goes first.
unfoldable pub move_right : ℕ → ℕ → List ScreenCell → List ScreenCell
move_right first zero cells = cells
move_right first (suc n) cells = move_right first n (copy_cell (first + n) (suc (first + n)) cells)

unfoldable pub insert_cell : Coord → ℕ → ℕ → ScreenBuffer → ScreenBuffer × Bool
unfolding write_cell move_right
insert_cell c character attributes b =
    let width = to_size b.buffer_size.x in
    let base = to_size c.y * width in
    let start = base + to_size c.x in
    if not (coord_in_range c b)
    then (b, false)
    else if leb_ℤ b.buffer_size.x (pos 1)
    then write_cell c character attributes b
    else (
      touch (record b {
        cells =
            set (move_right start (base + width - 1 - start) b.cells) start
              (record { character = character; attributes = attributes });
      }),
      true,
    )

abbrev pub put_character : ℕ → ScreenCell → ScreenCell
put_character value cell = record cell { character = value }

abbrev pub put_attributes : ℕ → ScreenCell → ScreenCell
put_attributes value cell = record cell { attributes = value }

module _ {ℓ} {A : Type ℓ} (put : A → ScreenCell → ScreenCell) where
  -- `while (written < values.size() && index < _cells.size())`: the cells, and `written`.
  unfoldable pub write_loop : ℕ → List A → List ScreenCell → List ScreenCell × ℕ
  write_loop index [] cells = (cells, 0)
  write_loop index (value ∷ values) cells = elim (get_elem? cells index) [
    | none ↦ (cells, 0)
    | some cell ↦
        let rest = write_loop (suc index) values (set cells index (put value cell)) in
        (rest.0, suc (rest.1))
  ]

  -- `while (written < length && index < _cells.size())`, with one value.
  unfoldable pub fill_loop : ℕ → A → ℕ → List ScreenCell → List ScreenCell × ℕ
  fill_loop index value zero cells = (cells, 0)
  fill_loop index value (suc n) cells = elim (get_elem? cells index) [
    | none ↦ (cells, 0)
    | some cell ↦
        let rest = fill_loop (suc index) value n (set cells index (put value cell)) in
        (rest.0, suc (rest.1))
  ]

  unfoldable pub write_output : Coord → List A → ScreenBuffer → ScreenBuffer × ℕ
  unfolding write_loop
  write_output c values b =
      let done = write_loop (linear_index c b) values b.cells in
      if not (coord_in_range c b) || (length values == 0)
      then (b, 0)
      else (touch (record b { cells = done.0 }), done.1)

  unfoldable pub fill_output : Coord → A → ℕ → ScreenBuffer → ScreenBuffer × ℕ
  unfolding fill_loop
  fill_output c value n b =
      let done = fill_loop (linear_index c b) value n b.cells in
      if not (coord_in_range c b) || (n == 0)
      then (b, 0)
      else (touch (record b { cells = done.0 }), done.1)

module _ {ℓ} {A : Type ℓ} (get : ScreenCell → A) where
  -- `while (read < dest.size() && index < _cells.size())`: what is written to `dest`, whose length is
  -- `read`.
  unfoldable pub read_loop : ℕ → ℕ → List ScreenCell → List A
  read_loop index zero cells = []
  read_loop index (suc n) cells = elim (get_elem? cells index) [
    | none ↦ []
    | some cell ↦ get cell ∷ read_loop (suc index) n cells
  ]

  unfoldable pub read_output : Coord → ℕ → ScreenBuffer → List A
  unfolding read_loop
  read_output c n b =
      if not (coord_in_range c b) || (n == 0) then [] else read_loop (linear_index c b) n b.cells

unfoldable pub fill_output_characters : Coord → ℕ → ℕ → ScreenBuffer → ScreenBuffer × ℕ
unfolding fill_output
fill_output_characters = fill_output put_character

unfoldable pub fill_output_attributes : Coord → ℕ → ℕ → ScreenBuffer → ScreenBuffer × ℕ
unfolding fill_output
fill_output_attributes = fill_output put_attributes

unfoldable pub write_output_characters : Coord → List ℕ → ScreenBuffer → ScreenBuffer × ℕ
unfolding write_output
write_output_characters = write_output put_character

unfoldable pub write_output_attributes : Coord → List ℕ → ScreenBuffer → ScreenBuffer × ℕ
unfolding write_output
write_output_attributes = write_output put_attributes

-- A byte becomes the character of the same number.
unfoldable pub write_output_ascii : Coord → List ℕ → ScreenBuffer → ScreenBuffer × ℕ
unfolding write_output
write_output_ascii = write_output put_character

unfoldable pub read_output_characters : Coord → ℕ → ScreenBuffer → List ℕ
unfolding read_output
read_output_characters = read_output (λ cell. cell.character)

unfoldable pub read_output_attributes : Coord → ℕ → ScreenBuffer → List ℕ
unfolding read_output
read_output_attributes = read_output (λ cell. cell.attributes)

abbrev pub narrowed : ScreenCell → ℕ
narrowed cell = if leb cell.character 255 then cell.character else b'?'

unfoldable pub read_output_ascii : Coord → ℕ → ScreenBuffer → List ℕ
unfolding read_output
read_output_ascii = read_output narrowed
