-- ===== src/VtOutput/Lines.antt =====
-- Line feeds, printed characters and the delayed wrap of `apply_text_to_screen_buffer`
-- (src/condrv/condrv_server.hpp) keep the invariant of a call.
use conhost.Prelude.{
  ℕ, zero, suc, ◌≡◌, refl, sym, ap, ◌∙◌, arith, if◌then◌else◌, Bool, true, false, not, ◌&&◌, Option,
  none, some,
}
use conhost.Prelude.Int.{
  ℤ, pos, ◌+ℤ◌, ◌-ℤ◌, ◌≤ℤ◌, ◌<ℤ◌, ltb_ℤ, leb_ℤ, eqb_ℤ, int_laws, to_i16, +ℤ_parts, -ℤ_parts,
}
use conhost.Screen.{Coord}
use conhost.Screen.Window.{IsSize}
use conhost.VtOutput.{
  Call, Output, region, in_region, last_row, last_column, move_to_row, move_to_column, line_feed,
  reverse_line_feed, advance_line, scroll_region_up, scroll_region_down, maybe_apply_delayed_wrap,
  put, advance, write_printable, write_spaces, same_place, reset_delayed_wrap,
}
use conhost.VtOutput.Steady.{scroll_region_up-Steady, scroll_region_down-Steady, put-Steady}
use conhost.VtOutput.Sound.{
  IsSound-Like, Holds, Holds-Steady, IsRange, region-IsRange, last_row_exact, last_column_exact,
}

-- A choice, where a side may use what its test says.
pub Holds-if :
    (c : Call) (t : Bool) (x y : Output)
    → (t ≡ true → Holds c x)
    → (t ≡ false → Holds c y)
    → Holds c (if t then x else y)
Holds-if c true x y p q = p refl
Holds-if c false x y p q = q refl

pub move_to_row-Holds :
    (c : Call) (y : ℤ) (o : Output)
    → (pos 0 ≤ℤ y) × (y <ℤ c.size.y)
    → Holds c o
    → Holds c (move_to_row y o)
move_to_row-Holds c y o p h = record {
  wide = h.wide;
  high = h.high;
  screen = h.screen;
  inside = (h.inside.0, h.inside.1, p.0, p.1);
}

pub move_to_column-Holds :
    (c : Call) (x : ℤ) (o : Output)
    → (pos 0 ≤ℤ x) × (x <ℤ c.size.x)
    → Holds c o
    → Holds c (move_to_column x o)
move_to_column-Holds c x o p h = record {
  wide = h.wide;
  high = h.high;
  screen = h.screen;
  inside = (p.0, p.1, h.inside.2, h.inside.3);
}

scroll_region_up-Holds :
    (c : Call) (top bottom : ℤ) (n : ℕ) (o : Output)
    → Holds c o
    → Holds c (scroll_region_up c top bottom n o)
scroll_region_up-Holds c top bottom n o h =
    Holds-Steady c o _ (scroll_region_up-Steady c top bottom n o) h

scroll_region_down-Holds :
    (c : Call) (top bottom : ℤ) (n : ℕ) (o : Output)
    → Holds c o
    → Holds c (scroll_region_down c top bottom n o)
scroll_region_down-Holds c top bottom n o h =
    Holds-Steady c o _ (scroll_region_down-Steady c top bottom n o) h

-- The row below one of the region but its last, and the row above one but its first.
row_below :
    (c : Call) (r : ℤ × ℤ) (y : ℤ)
    → IsRange c r
    → in_region r y ≡ true
    → eqb_ℤ y (r.1) ≡ false
    → (pos 0 ≤ℤ y +ℤ pos 1) × (y +ℤ pos 1 <ℤ c.size.y)
row_below c r y b t e = ground (arith, +ℤ_parts y (pos 1))

row_above :
    (c : Call) (r : ℤ × ℤ) (y : ℤ)
    → IsRange c r
    → in_region r y ≡ true
    → eqb_ℤ y (r.0) ≡ false
    → (pos 0 ≤ℤ y -ℤ pos 1) × (y -ℤ pos 1 <ℤ c.size.y)
row_above c r y b t e = ground (arith, -ℤ_parts y (pos 1))

last_row_inside :
    (c : Call)
    → IsSize c.size.y
    → (pos 0 ≤ℤ to_i16 (last_row c)) × (to_i16 (last_row c) <ℤ c.size.y)
last_row_inside c h = rw (last_row_exact c h) (omega int_laws, omega int_laws)

last_column_inside :
    (c : Call)
    → IsSize c.size.x
    → (pos 0 ≤ℤ to_i16 (last_column c)) × (to_i16 (last_column c) <ℤ c.size.x)
last_column_inside c h = rw (last_column_exact c h) (omega int_laws, omega int_laws)

next_inside :
    (v size : ℤ)
    → pos 0 ≤ℤ v
    → leb_ℤ size (v +ℤ pos 1) ≡ false
    → (pos 0 ≤ℤ v +ℤ pos 1) × (v +ℤ pos 1 <ℤ size)
next_inside v size p e = ground (arith, +ℤ_parts v (pos 1))

previous_inside :
    (v size : ℤ) → v <ℤ size → ltb_ℤ (pos 0) v ≡ true → (pos 0 ≤ℤ v -ℤ pos 1) × (v -ℤ pos 1 <ℤ size)
previous_inside v size p e = ground (arith, -ℤ_parts v (pos 1))

-- Below the last row, the cursor stays on it and the buffer scrolls.
scrolled_line :
    (c : Call) (y : ℤ) (o : Output)
    → Holds c o
    → Holds c (
        move_to_row
          (to_i16 (last_row c))
          (scroll_region_up c (pos 0) (to_i16 (last_row c)) 1 (move_to_row y o)))
scrolled_line c y o h =
    let s = scroll_region_up-Steady c (pos 0) (to_i16 (last_row c)) 1 (move_to_row y o) in
    let column = ap (λ (p : Coord). p.x) s.still in
    let row = last_row_inside c h.high in
    record {
      wide = h.wide;
      high = h.high;
      screen = IsSound-Like c.size o.screen _ s.like h.screen;
      inside = (rw column (h.inside.0), rw column (h.inside.1), row.0, row.1);
    }

pub line_feed-Holds : (c : Call) (o : Output) → Holds c o → Holds c (line_feed c o)
unfolding line_feed
line_feed-Holds c o h =
    let r = region c o in
    let y = o.cursor.y in
    let range = region-IsRange c o.vertical_margins h.high in
    Holds-if c (in_region r y) _ _
      (λ t.
        Holds-if c (eqb_ℤ y (r.1)) _ _ (λ _. scroll_region_up-Holds c (r.0) (r.1) 1 o h)
          (λ e. move_to_row-Holds c (y +ℤ pos 1) o (row_below c r y range t e) h))
      (λ t.
        Holds-if c (leb_ℤ c.size.y (y +ℤ pos 1)) _ _ (λ _. scrolled_line c (y +ℤ pos 1) o h)
          (λ e. move_to_row-Holds c (y +ℤ pos 1) o (next_inside y c.size.y (h.inside.2) e) h))

pub reverse_line_feed-Holds : (c : Call) (o : Output) → Holds c o → Holds c (reverse_line_feed c o)
unfolding reverse_line_feed
reverse_line_feed-Holds c o h =
    let r = region c o in
    let y = o.cursor.y in
    let range = region-IsRange c o.vertical_margins h.high in
    Holds-if c (in_region r y) _ _
      (λ t.
        Holds-if c (eqb_ℤ y (r.0)) _ _ (λ _. scroll_region_down-Holds c (r.0) (r.1) 1 o h)
          (λ e. move_to_row-Holds c (y -ℤ pos 1) o (row_above c r y range t e) h))
      (λ t.
        Holds-if c (ltb_ℤ (pos 0) y) _ _
          (λ e. move_to_row-Holds c (y -ℤ pos 1) o (previous_inside y c.size.y (h.inside.3) e) h)
          (λ _. scroll_region_down-Holds c (pos 0) (to_i16 (last_row c)) 1 o h))

first_column : (c : Call) → IsSize c.size.x → (pos 0 ≤ℤ pos 0) × (pos 0 <ℤ c.size.x)
first_column c h = (omega arith, omega arith)

pub home_column-Holds : (c : Call) (o : Output) → Holds c o → Holds c (move_to_column (pos 0) o)
home_column-Holds c o h = move_to_column-Holds c (pos 0) o (first_column c h.wide) h

pub advance_line-Holds : (c : Call) (o : Output) → Holds c o → Holds c (advance_line c o)
unfolding advance_line
advance_line-Holds c o h = line_feed-Holds c (move_to_column (pos 0) o) (home_column-Holds c o h)

-- The column that a line is advanced from does not matter.
advance_line_from :
    (c : Call) (x : ℤ) (o : Output) → Holds c o → Holds c (advance_line c (move_to_column x o))
unfolding advance_line
advance_line_from c x o h = line_feed-Holds c (move_to_column (pos 0) o) (home_column-Holds c o h)

next_column :
    (c : Call) (x : ℤ)
    → IsSize c.size.x
    → pos 0 ≤ℤ x
    → leb_ℤ (to_i16 (last_column c)) x ≡ false
    → (pos 0 ≤ℤ x +ℤ pos 1) × (x +ℤ pos 1 <ℤ c.size.x)
next_column c x h p e =
    let before : leb_ℤ (last_column c) x ≡ false =
      sym (ap (λ z. leb_ℤ z x) (last_column_exact c h)) ∙ e in
    ground (arith, +ℤ_parts x (pos 1), -ℤ_parts c.size.x (pos 1))

pub reset_delayed_wrap-Holds : (c : Call) (o : Output) → Holds c o → Holds c (reset_delayed_wrap o)
reset_delayed_wrap-Holds c o h = record {
  wide = h.wide;
  high = h.high;
  screen = h.screen;
  inside = h.inside;
}

maybe_apply_delayed_wrap-Holds :
    (c : Call) (o : Output) → Holds c o → Holds c (maybe_apply_delayed_wrap c o)
unfolding maybe_apply_delayed_wrap
maybe_apply_delayed_wrap-Holds c o h =
    Holds-if c (not c.vt_processing) _ _ (λ _. h) (λ _. wrapped o.delayed_wrap)
  where
    wrapped :
        (place : Option Coord)
        → Holds c (elim place [
          | none ↦ o
          | some p ↦
              reset_delayed_wrap
                (if o.autowrap && same_place p o.cursor then advance_line c o else o)
        ])
    wrapped none = h
    wrapped (some p) = reset_delayed_wrap-Holds c _ (
        Holds-if c (o.autowrap && same_place p o.cursor) _ _ (λ _. advance_line-Holds c o h)
          (λ _. h))

advance-Holds : (c : Call) (o : Output) → Holds c o → Holds c (advance c o)
unfolding advance
advance-Holds c o h =
    let next = o.cursor.x +ℤ pos 1 in
    let last = to_i16 (last_column c) in
    let stopped = move_to_column last o in
    let stops = move_to_column-Holds c last o (last_column_inside c h.wide) h in
    Holds-if c c.vt_processing _ _
      (λ _.
        Holds-if c (leb_ℤ last o.cursor.x) _ _
          (λ _.
            Holds-if c o.autowrap _ _
              (λ _. record {
                wide = h.wide;
                high = h.high;
                screen = h.screen;
                inside = stops.inside;
              })
              (λ _. stops))
          (λ e. move_to_column-Holds c next o (next_column c o.cursor.x h.wide (h.inside.0) e) h))
      (λ _.
        Holds-if c (leb_ℤ c.size.x next) _ _
          (λ _.
            Holds-if c c.wrap_at_eol_output_mode _ _ (λ _. advance_line_from c next o h)
              (λ _. stops))
          (λ e. move_to_column-Holds c next o (next_inside o.cursor.x c.size.x (h.inside.0) e) h))

pub write_printable-Holds :
    (c : Call) (value : ℕ) (o : Output) → Holds c o → Holds c (write_printable c value o)
unfolding write_printable
write_printable-Holds c value o h =
    let wrapped = maybe_apply_delayed_wrap c o in
    advance-Holds c (put c value wrapped) (
      Holds-Steady c wrapped (put c value wrapped) (put-Steady c value wrapped)
        (maybe_apply_delayed_wrap-Holds c o h))

pub write_spaces-Holds : (c : Call) (n : ℕ) (o : Output) → Holds c o → Holds c (write_spaces c n o)
unfolding write_spaces
write_spaces-Holds c zero o h = h
write_spaces-Holds c (suc n) o h =
    write_spaces-Holds c n (write_printable c b' ' o) (write_printable-Holds c b' ' o h)
