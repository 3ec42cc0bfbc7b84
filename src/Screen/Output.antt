-- ===== src/Screen/Output.antt =====
-- Reading back what was written to the cells of a screen buffer, and filling as writing
-- (src/condrv/condrv_server.cpp).
use conhost.Prelude.{
  ℕ, zero, suc, ◌-◌, ◌≡◌, refl, ◌∙◌, arith, ◌==◌, if◌then◌else◌, true, false, List, [], ◌∷◌, map,
  length, get_elem?, set, take, min, Option-cases, Bool-cases, inl, inr, replicate,
  length-replicate,
}
use conhost.Screen.{Coord, ScreenCell, ScreenBuffer, touch}
use conhost.Screen.Cells.{
  coord_in_range, linear_index, write_loop, fill_loop, write_output, fill_output, read_loop,
  read_output, put_character, put_attributes, write_output_characters, write_output_attributes,
  read_output_characters, read_output_attributes, fill_output_characters, fill_output_attributes,
}
use conhost.Screen.Loops.{length-write_loop, write_loop_count, read_loop-write_loop, map-write_loop}

pub coord_in_range-cells :
    (c : Coord) (b : ScreenBuffer) (cells : List ScreenCell)
    → length cells ≡ length b.cells
    → coord_in_range c (touch (record b { cells = cells })) ≡ coord_in_range c b
unfolding coord_in_range
coord_in_range-cells c b cells e = rw e refl

-- What a write answers, what reading as much back gives, and what it leaves alone.
abbrev pub WritesAndReads :
    (Coord → ℕ → ScreenBuffer → List ℕ)
    → (ScreenCell → ℕ)
    → Coord
    → List ℕ
    → ScreenBuffer
    → ScreenBuffer × ℕ
    → Type 0
WritesAndReads read other c values b done =
    (read c (done.1) (done.0) ≡ take (done.1) values)
    × (done.1 ≡ (
        if coord_in_range c b then min (length values) (length b.cells - linear_index c b) else 0))
    × (map other (done.0).cells ≡ map other b.cells)

suc_eqb : (n : ℕ) → (suc n == 0) ≡ false
suc_eqb n = ground arith

read_output_zero :
    (get : ScreenCell → ℕ) (c : Coord) (b : ScreenBuffer) → read_output get c 0 b ≡ []
unfolding read_output
read_output_zero get c b = elim (Bool-cases (coord_in_range c b)) [
  | inl h ↦ rw h refl
  | inr h ↦ rw h refl
]

read_output_in_range :
    (get : ScreenCell → ℕ) (c : Coord) (n : ℕ) (b : ScreenBuffer)
    → coord_in_range c b ≡ true
    → read_output get c n b ≡ read_loop get (linear_index c b) n b.cells
unfolding read_output
read_output_in_range get c zero b h = rw h refl
read_output_in_range get c (suc n) b h = rw (h, suc_eqb n) refl

module _ (put : ℕ → ScreenCell → ScreenCell) where
  write_output_in_range :
      (c : Coord) (v : ℕ) (values : List ℕ) (b : ScreenBuffer)
      → coord_in_range c b ≡ true
      → write_output put c (v ∷ values) b ≡ (
        touch (record b { cells = (write_loop put (linear_index c b) (v ∷ values) b.cells).0 }),
        (write_loop put (linear_index c b) (v ∷ values) b.cells).1,
      )
  unfolding write_output
  write_output_in_range c v values b h = rw (h, suc_eqb (length values)) refl

  write_output_refused :
      (c : Coord) (values : List ℕ) (b : ScreenBuffer)
      → coord_in_range c b ≡ false
      → write_output put c values b ≡ (b, 0)
  unfolding write_output
  write_output_refused c values b h = rw h refl

  write_output_empty : (c : Coord) (b : ScreenBuffer) → write_output put c [] b ≡ (b, 0)
  unfolding write_output
  write_output_empty c b = elim (Bool-cases (coord_in_range c b)) [
    | inl h ↦ rw h refl
    | inr h ↦ rw h refl
  ]

  module _ (get : ScreenCell → ℕ) (other : ScreenCell → ℕ)
      (reads : (v : ℕ) (c : ScreenCell) → get (put v c) ≡ v)
      (keeps : (v : ℕ) (c : ScreenCell) → other (put v c) ≡ other c) where
    write_output_lem :
        (c : Coord) (values : List ℕ) (b : ScreenBuffer)
        → WritesAndReads (read_output get) other c values b (write_output put c values b)
    unfolding linear_index
    write_output_lem c [] b = rw (write_output_empty c b) (
      read_output_zero get c b,
      elim (Bool-cases (coord_in_range c b)) [ inl h ↦ rw h (omega arith) | inr h ↦ rw h refl ],
      refl,
    )
    write_output_lem c (v ∷ values) b = elim (Bool-cases (coord_in_range c b)) [
      | inl h ↦ rw (write_output_in_range c v values b h) (
        read_output_in_range get c ((write_loop put (linear_index c b) (v ∷ values) b.cells).1)
              (touch
                (record b { cells = (write_loop put (linear_index c b) (v ∷ values) b.cells).0 }))
              (coord_in_range-cells c b ((write_loop put (linear_index c b) (v ∷ values) b.cells).0)
                  (length-write_loop put (linear_index c b) (v ∷ values) b.cells)
                ∙ h)
            ∙ read_loop-write_loop put get reads (linear_index c b) (v ∷ values) b.cells,
        rw h (write_loop_count put (linear_index c b) (v ∷ values) b.cells),
        map-write_loop put other keeps (linear_index c b) (v ∷ values) b.cells,
      )
      | inr h ↦
          rw (write_output_refused c (v ∷ values) b h) (read_output_zero get c b, rw h refl, refl)
    ]

-- Of the characters written from a position, as many are written as the buffer has cells from there
-- on, and none from a position outside it; reading that many back gives what was written; and no
-- attribute of any cell has changed.
pub read_output_characters-write_output_characters :
    (c : Coord) (text : List ℕ) (b : ScreenBuffer)
    → WritesAndReads read_output_characters
        (λ cell. cell.attributes)
        c
        text
        b
        (write_output_characters c text b)
unfolding write_output_characters read_output_characters
read_output_characters-write_output_characters =
    write_output_lem put_character (λ cell. cell.character) (λ cell. cell.attributes) (λ v c. refl)
      (λ v c. refl)

-- Of the attributes written from a position, as many are written as the buffer has cells from there
-- on, and none from a position outside it; reading that many back gives what was written; and no
-- character of any cell has changed.
read_output_attributes-write_output_attributes :
    (c : Coord) (attributes : List ℕ) (b : ScreenBuffer)
    → WritesAndReads read_output_attributes
        (λ cell. cell.character)
        c
        attributes
        b
        (write_output_attributes c attributes b)
unfolding write_output_attributes read_output_attributes
read_output_attributes-write_output_attributes =
    write_output_lem put_attributes (λ cell. cell.attributes) (λ cell. cell.character) (λ v c. refl)
      (λ v c. refl)

fill_loop_lem :
    (put : ℕ → ScreenCell → ScreenCell) (i value n : ℕ) (cells : List ScreenCell)
    → fill_loop put i value n cells ≡ write_loop put i (replicate n value) cells
unfolding fill_loop write_loop
fill_loop_lem put i value zero cells = refl
fill_loop_lem put i value (suc n) cells = elim (Option-cases (get_elem? cells i)) [
  | inl e ↦ ground (arith, e)
  | inr (c, e) ↦ ground (arith, e, fill_loop_lem put (suc i) value n (set cells i (put value c)))
]

fill_output_lem :
    (put : ℕ → ScreenCell → ScreenCell) (c : Coord) (value n : ℕ) (b : ScreenBuffer)
    → fill_output put c value n b ≡ write_output put c (replicate n value) b
unfolding fill_output write_output
fill_output_lem put c value n b =
    rw (fill_loop_lem put (linear_index c b) value n b.cells, length-replicate n value) refl

-- Filling with one character, or one attribute, writes what a list of as many copies of it writes, and
-- answers the same count.
pub fill_output-write_output :
    (c : Coord) (value n : ℕ) (b : ScreenBuffer)
    → (fill_output_characters c value n b ≡ write_output_characters c (replicate n value) b)
      × (fill_output_attributes c value n b ≡ write_output_attributes c (replicate n value) b)
unfolding fill_output_characters fill_output_attributes write_output_characters
    write_output_attributes
fill_output-write_output c value n b =
    (fill_output_lem put_character c value n b, fill_output_lem put_attributes c value n b)
