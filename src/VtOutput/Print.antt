-- ===== src/VtOutput/Print.antt =====
-- Plain text through `apply_text_to_screen_buffer` (src/condrv/condrv_server.hpp): what it leaves in
-- the cells of its row.
use conhost.Prelude.{
  ℕ, zero, suc, ◌+◌, ◌*◌, ◌<◌, ◌≡◌, refl, sym, ap, ◌∙◌, arith, leb, Bool, true, false, not, ◌&&◌,
  none, List, [], ◌∷◌, ◌++◌, map, length, set, take, drop, take-append-drop, Text, within, All,
}
use conhost.Prelude.Int.{ℤ, pos, ◌+ℤ◌, leb_ℤ, ◌<ℤ◌, to_i16, -ℤ_parts}
use conhost.Screen.{Coord, ScreenBuffer, ScreenCell, to_size}
use conhost.Screen.Window.{IsSize}
use conhost.Screen.Cells.{coord_in_range, linear_index, write_cell}
use conhost.VtOutput.{
  Call, Output, with_screen, last_column, maybe_apply_delayed_wrap, put, advance, write_printable,
  move_to_column,
}
use conhost.VtOutput.Parser.{initial_parse, VtOutputParseState, State}
use conhost.VtOutput.Machine.{phase_char, step, run, ground_char, plain_char}
use conhost.Screen.Insert.{earlier_row}
use conhost.VtOutput.Keeps.{write_cell-Like}
use conhost.VtOutput.Sound.{IsFull, last_column_exact}

-- The list `xs` with `vs` in place of its elements from `i` on.
abbrev pub overwrite {ℓ} : {A : Type ℓ} → ℕ → List A → List A → List A
overwrite i vs xs = take i xs ++ (vs ++ drop (length vs) (drop i xs))

overwrite-set {ℓ} :
    {A : Type ℓ} (i : ℕ) (v : A) (vs xs : List A)
    → i < length xs
    → overwrite (suc i) vs (set xs i v) ≡ overwrite i (v ∷ vs) xs
overwrite-set i v vs [] h = ground arith
overwrite-set zero v vs (x ∷ xs) h = refl
overwrite-set (suc i) v vs (x ∷ xs) h = ap (◌∷◌ x) (overwrite-set i v vs xs (omega arith))

-- A character that no control and no sequence takes.
abbrev pub is_graphic : ℕ → Bool
is_graphic ch = leb 32 ch && not (within 128 159 ch)

-- The cursor stands at column `x` and row `y`, and neither a wrap is due nor are characters inserted.
pub record Prints (c : Call) (o : Output) (x y : ℕ) : Type 0 where
  pub sized : o.screen.buffer_size ≡ c.size
  pub full : IsFull c.size o.screen.cells
  pub wide : IsSize c.size.x
  pub row : pos y <ℤ c.size.y
  pub column : o.cursor.x ≡ pos x
  pub line : o.cursor.y ≡ pos y
  pub unwrapped : o.delayed_wrap ≡ none
  pub overwrites : o.insert_mode ≡ false

-- The variables behind a character.
abbrev pub printed : ℕ → ℕ → Output → Output
printed x ch o = record o {
  screen = (write_cell o.cursor ch o.attributes o.screen).0;
  cursor = record { x = pos (suc x); y = o.cursor.y };
}

step-graphic :
    (c : Call) (ch : ℕ) (p : VtOutputParseState) (o : Output)
    → c.vt_processing ≡ true
    → p.phase ≡ initial_parse.phase
    → is_graphic ch ≡ true
    → step c ch (p, o) ≡ (p, write_printable c ch o)
unfolding step phase_char ground_char plain_char
step-graphic c ch p o vt e g = simp (vt, e) (ground arith)

wrap_not_due : (c : Call) (o : Output) → o.delayed_wrap ≡ none → maybe_apply_delayed_wrap c o ≡ o
unfolding maybe_apply_delayed_wrap
wrap_not_due c o u = ground (arith, u)

put_overwrites :
    (c : Call) (ch : ℕ) (o : Output)
    → o.insert_mode ≡ false
    → put c ch o ≡ with_screen o (write_cell o.cursor ch o.attributes o.screen).0
unfolding put
put_overwrites c ch o u = ground (arith, u)

not_last :
    (c : Call) (x : ℕ) (v : ℤ)
    → IsSize c.size.x
    → v ≡ pos x
    → pos (suc x) <ℤ c.size.x
    → leb_ℤ (to_i16 (last_column c)) v ≡ false
not_last c x v w e h = rw (last_column_exact c w, e) (ground (arith, -ℤ_parts c.size.x (pos 1)))

plus_one : (x : ℕ) (v : ℤ) → v ≡ pos x → v +ℤ pos 1 ≡ pos (suc x)
unfolding ◌+ℤ◌
plus_one x v e = rw e (ground arith)

advance_inside :
    (c : Call) (x : ℕ) (o : Output)
    → c.vt_processing ≡ true
    → IsSize c.size.x
    → o.cursor.x ≡ pos x
    → pos (suc x) <ℤ c.size.x
    → advance c o ≡ move_to_column (pos (suc x)) o
unfolding advance
advance_inside c x o vt w e h =
    ground (arith, not_last c x o.cursor.x w e h, plus_one x o.cursor.x e)

pub step-printed :
    (c : Call) (ch x y : ℕ) (p : VtOutputParseState) (o : Output)
    → c.vt_processing ≡ true
    → p.phase ≡ initial_parse.phase
    → is_graphic ch ≡ true
    → Prints c o x y
    → pos (suc x) <ℤ c.size.x
    → step c ch (p, o) ≡ (p, printed x ch o)
unfolding write_printable
step-printed c ch x y p o vt e g h next =
    step-graphic c ch p o vt e g
    ∙ ap (λ (after : Output). (p, advance c (put c ch after))) (wrap_not_due c o h.unwrapped)
    ∙ ap (λ (after : Output). (p, advance c after)) (put_overwrites c ch o h.overwrites)
    ∙ ap (λ (after : Output). (p, after))
        (advance_inside c x (with_screen o (write_cell o.cursor ch o.attributes o.screen).0) vt
          h.wide h.column next)

pub printed-Prints :
    (c : Call) (ch x y : ℕ) (o : Output) → Prints c o x y → Prints c (printed x ch o) (suc x) y
printed-Prints c ch x y o h =
    let like = write_cell-Like o.cursor ch o.attributes o.screen in
    record {
      sized = like.same_size ∙ h.sized;
      full = like.same_length ∙ h.full;
      wide = h.wide;
      row = h.row;
      column = refl;
      line = h.line;
      unwrapped = h.unwrapped;
      overwrites = h.overwrites;
    }

-- The index of a cell.
abbrev pub index : Call → ℕ → ℕ → ℕ
index c x y = y * to_size c.size.x + x

abbrev pub cell_of : ℕ → ℕ → ScreenCell
cell_of attributes ch = record { character = ch; attributes = attributes }

below : (v : ℕ) (size : ℤ) → pos v <ℤ size → v < to_size size
below v size h = ground arith

index_below :
    (c : Call) (x y : ℕ) (o : Output)
    → Prints c o x y
    → pos x <ℤ c.size.x
    → index c x y < length o.screen.cells
index_below c x y o h inside = rw h.full (
    earlier_row y (to_size c.size.y) (to_size c.size.x) x (below y c.size.y h.row)
      (below x c.size.x inside))

in_range :
    (b : ScreenBuffer) (p : Coord) (x y n : ℕ)
    → p.x ≡ pos x
    → p.y ≡ pos y
    → n < length b.cells
    → pos x <ℤ b.buffer_size.x
    → pos y <ℤ b.buffer_size.y
    → coord_in_range p b ≡ true
unfolding coord_in_range
in_range b p x y n e f some_cells h k = ground arith

at_index :
    (c : Call) (x y : ℕ) (o : Output)
    → Prints c o x y
    → linear_index o.cursor o.screen ≡ index c x y
unfolding linear_index
at_index c x y o h =
    ap (λ (v : ℤ). to_size v * to_size o.screen.buffer_size.x + to_size o.cursor.x) h.line
    ∙ ap (λ (v : ℤ). y * to_size o.screen.buffer_size.x + to_size v) h.column
    ∙ ap (λ (size : Coord). y * to_size size.x + x) h.sized

written_cells :
    (p : Coord) (ch attributes : ℕ) (b : ScreenBuffer)
    → coord_in_range p b ≡ true
    → (write_cell p ch attributes b).0.cells
      ≡ set b.cells (linear_index p b) (cell_of attributes ch)
unfolding write_cell
written_cells p ch attributes b h = ground (arith, h)

cells-printed :
    (c : Call) (ch x y : ℕ) (o : Output)
    → Prints c o x y
    → pos x <ℤ c.size.x
    → (printed x ch o).screen.cells ≡ set o.screen.cells (index c x y) (cell_of o.attributes ch)
cells-printed c ch x y o h inside =
    written_cells o.cursor ch o.attributes o.screen (
      in_range o.screen o.cursor x y (index c x y) h.column h.line (index_below c x y o h inside)
        (rw h.sized inside) (rw h.sized h.row))
    ∙ ap (λ (i : ℕ). set o.screen.cells i (cell_of o.attributes ch)) (at_index c x y o h)

-- What a text leaves: the parser where it was, the cells, and the cursor behind the text.
pub record Printed (c : Call) (x y : ℕ) (text : Text) (p : VtOutputParseState) (o : Output)
    (s : State) : Type 0 where
  pub parse : s.0 ≡ p
  pub cells :
      (s.1).screen.cells ≡ overwrite (index c x y) (map (cell_of o.attributes) text) o.screen.cells
  pub cursor : (s.1).cursor ≡ record { x = pos (x + length text); y = pos y }
  pub attributes : (s.1).attributes ≡ o.attributes

place : (p : Coord) (x y : ℕ) → p.x ≡ pos x → p.y ≡ pos y → p ≡ record { x = pos x; y = pos y }
place p x y e f = rw (e, f) refl

nil-Printed :
    (c : Call) (x y : ℕ) (p : VtOutputParseState) (o : Output)
    → Prints c o x y
    → Printed c x y [] p o (p, o)
nil-Printed c x y p o h = record {
  parse = refl;
  cells = sym (take-append-drop (index c x y) o.screen.cells);
  cursor =
      place o.cursor x y h.column h.line
      ∙ ap (λ (n : ℕ). record { x = pos n; y = pos y }) (omega arith);
  attributes = refl;
}

index_suc : (c : Call) (x y : ℕ) → index c (suc x) y ≡ suc (index c x y)
index_suc c x y = omega arith

-- A character in front of a text.
cons-Printed :
    (c : Call) (ch x y : ℕ) (text : Text) (p : VtOutputParseState) (o : Output) (s : State)
    → Prints c o x y
    → pos x <ℤ c.size.x
    → Printed c (suc x) y text p (printed x ch o) s
    → Printed c x y (ch ∷ text) p o s
cons-Printed c ch x y text p o s h inside r =
    let cells = map (cell_of o.attributes) text in
    let i = index c x y in
    record {
      parse = r.parse;
      cells =
          r.cells
          ∙ ap (overwrite (index c (suc x) y) cells) (cells-printed c ch x y o h inside)
          ∙ ap (λ (n : ℕ). overwrite n cells (set o.screen.cells i (cell_of o.attributes ch)))
              (index_suc c x y)
          ∙ overwrite-set i (cell_of o.attributes ch) cells o.screen.cells
              (index_below c x y o h inside);
      cursor = r.cursor ∙ ap (λ (n : ℕ). record { x = pos n; y = pos y }) (omega arith);
      attributes = r.attributes;
    }

-- Plain text that ends in front of the last column replaces the cells of its row from the cursor on,
-- in the current attributes, and no other cell; the cursor ends behind it, and the parser is where it
-- was. VT processing is on, the parser is outside of any sequence, the cursor is in the buffer with no
-- wrap due, and the insert mode is off.
pub run-Printed :
    (c : Call) (x y : ℕ) (text : Text) (p : VtOutputParseState) (o : Output)
    → c.vt_processing ≡ true
    → p.phase ≡ initial_parse.phase
    → All (λ ch. is_graphic ch ≡ true) text
    → Prints c o x y
    → pos (x + length text) <ℤ c.size.x
    → Printed c x y text p o (run c text (p, o))
unfolding run
run-Printed c x y [] p o vt e g h fits = nil-Printed c x y p o h
run-Printed c x y (ch ∷ text) p o vt e (g, gs) h fits =
    let rest =
      run-Printed c (suc x) y text p (printed x ch o) vt e gs (printed-Prints c ch x y o h)
        (omega arith) in
    rw (step-printed c ch x y p o vt e g h (omega arith))
      (cons-Printed c ch x y text p o (run c text (p, printed x ch o)) h (omega arith) rest)
