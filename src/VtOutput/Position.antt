-- ===== src/VtOutput/Position.antt =====
-- CSI H through the whole parser of `apply_text_to_screen_buffer` (src/condrv/condrv_server.hpp): from
-- the decimal digits of a row and a column to the cursor.
use conhost.Prelude.{
  ℕ, suc, ◌+◌, ◌-◌, ◌*◌, ◌/◌, ◌%◌, ◌≤◌, ◌<◌, ◌≡◌, refl, ap, ◌∙◌, arith, if◌then◌else◌, Bool, true,
  false, List, [], ◌∷◌, length, Text,
}
use conhost.Prelude.Int.{ℤ, pos, ◌+ℤ◌, ltb_ℤ, ◌≤ℤ◌, to_i16, to_i16_exact, int_laws}
use conhost.Number.{decimal}
use conhost.Number.Decimal.{
  decimal_last, decimal_more, decimal_induction, width, length-decimal-width, length-decimal,
}
use conhost.Screen.Window.{IsSize}
use conhost.VtOutput.{Call, Output, at_least_one, last_column, last_row}
use conhost.VtOutput.Dispatch.{apply_csi}
use conhost.VtOutput.Csi.{cursor_position, absolute_row, clamp}
use conhost.VtOutput.Parser.{
  Phase, initial_parse, escape, csi, VtOutputParseState, State, empty_csi, csi_parse, complete_csi,
  reset_csi, reset_esc, in_phase, escape_parse,
}
use conhost.VtOutput.Machine.{csi_char, phase_char, step, run, ground_char}
use conhost.VtOutput.Reset.{escape_effect}

-- In a CSI sequence: the number that is being read, whether it has digits, whether a `;` was the last
-- character, the length of the sequence, and the parameters so far.
abbrev pub in_csi : VtOutputParseState → ℕ → Bool → Bool → ℕ → List ℕ → VtOutputParseState
in_csi p number digits separator n params = record p {
  phase = csi;
  csi = record empty_csi { params = params };
  csi_current = number;
  csi_have_digits = digits;
  csi_last_was_separator = separator;
  csi_length = n;
}

pub step-phase :
    (phase : Phase) (c : Call) (ch : ℕ) (p : VtOutputParseState) (o : Output)
    → c.vt_processing ≡ true
    → p.phase ≡ phase
    → step c ch (p, o) ≡ phase_char phase c ch (p, o)
unfolding step
step-phase phase c ch p o vt e = simp (vt, e)

digit_step :
    (c : Call) (d number n : ℕ) (digits separator : Bool) (params : List ℕ) (p : VtOutputParseState)
    (o : Output)
    → c.vt_processing ≡ true
    → d ≤ 9
    → number ≤ 1000000
    → n < 128
    → step c (48 + d) (in_csi p number digits separator n params, o)
      ≡ (in_csi p (number * 10 + d) true false (suc n) params, o)
unfolding csi_char csi_parse phase_char
digit_step c d number n digits separator params p o vt h k l =
    step-phase csi c (48 + d) (in_csi p number digits separator n params) o vt refl ∙ ground arith

separator_step :
    (c : Call) (number n : ℕ) (p : VtOutputParseState) (o : Output)
    → c.vt_processing ≡ true
    → n < 128
    → step c b';' (in_csi p number true false n [], o)
      ≡ (in_csi p 0 false true (suc n) (number ∷ []), o)
unfolding csi_char csi_parse phase_char
separator_step c number n p o vt l =
    step-phase csi c b';' (in_csi p number true false n []) o vt refl ∙ ground arith

final_step :
    (c : Call) (number n row : ℕ) (p : VtOutputParseState) (o : Output)
    → c.vt_processing ≡ true
    → n < 128
    → step c b'H' (in_csi p number true false n (row ∷ []), o) ≡ (
      reset_csi initial_parse.phase p,
      cursor_position c (record empty_csi { final = b'H'; params = row ∷ number ∷ [] }) o,
    )
unfolding csi_char complete_csi apply_csi phase_char
final_step c number n row p o vt l =
    step-phase csi c b'H' (in_csi p number true false n (row ∷ [])) o vt refl ∙ ground arith

pub run-step :
    (c : Call) (ch : ℕ) (text : Text) (s t : State)
    → step c ch s ≡ t
    → run c (ch ∷ text) s ≡ run c text t
unfolding run
run-step c ch text s t e = ap (run c text) e

width-more : (n : ℕ) → 9 < n → width n ≡ suc (width (n / 10))
width-more n h =
    ap length (decimal_more n [] h)
    ∙ length-decimal-width (n / 10) ((b'0' + n % 10) ∷ [])
    ∙ omega arith

-- One digit, the last of a number, behind the number so far.
run-digit :
    (c : Call) (p : VtOutputParseState) (o : Output) (d number value k n : ℕ)
    (digits separator : Bool) (params : List ℕ) (rest : Text)
    → c.vt_processing ≡ true
    → d ≤ 9
    → number ≤ 1000000
    → k < 128
    → number * 10 + d ≡ value
    → suc k ≡ n
    → run c ((48 + d) ∷ rest) (in_csi p number digits separator k params, o)
      ≡ run c rest (in_csi p value true false n params, o)
run-digit c p o d number value k n digits separator params rest vt h l m e f =
    run-step c (48 + d) rest _ _ (digit_step c d number k digits separator params p o vt h l m)
    ∙ ap (λ (v : ℕ). run c rest (in_csi p v true false (suc k) params, o)) e
    ∙ ap (λ (v : ℕ). run c rest (in_csi p value true false v params, o)) f

-- The digits of a number leave it behind, whatever follows.
run-decimal :
    (c : Call) (p : VtOutputParseState) (o : Output)
    → c.vt_processing ≡ true
    → (n : ℕ) (k : ℕ) (separator : Bool) (params : List ℕ) (rest : Text) → n ≤ 10000009
    → k + width n ≤ 128
    → run c (decimal n rest) (in_csi p 0 false separator k params, o)
      ≡ run c rest (in_csi p n true false (k + width n) params, o)
run-decimal c p o vt =
    decimal_induction
      (λ n.
        (k : ℕ) (separator : Bool) (params : List ℕ) (rest : Text)
        → n ≤ 10000009
        → k + width n ≤ 128
        → run c (decimal n rest) (in_csi p 0 false separator k params, o)
          ≡ run c rest (in_csi p n true false (k + width n) params, o))
      (λ n h k separator params rest small fits.
        let one : width n ≡ 1 = ap length (decimal_last n [] h) in
        ap (λ (text : Text). run c text (in_csi p 0 false separator k params, o))
          (decimal_last n rest h)
        ∙ run-digit c p o n 0 n k (k + width n) false separator params rest vt (omega arith)
            (omega arith) (omega (arith, one)) (omega arith) (omega (arith, one)))
      (λ n h ih k separator params rest small fits.
        let more = width-more n h in
        let last = b'0' + n % 10 in
        ap (λ (text : Text). run c text (in_csi p 0 false separator k params, o))
          (decimal_more n rest h)
        ∙ ih k separator params (last ∷ rest) (omega arith) (omega (arith, more))
        ∙ run-digit c p o (n % 10) (n / 10) n (k + width (n / 10)) (k + width n) true false params
            rest vt (omega arith) (omega arith) (omega (arith, more)) (omega arith)
            (omega (arith, more)))

pub enter_csi :
    (c : Call) (p : VtOutputParseState) (o : Output) (rest : Text)
    → c.vt_processing ≡ true
    → p.phase ≡ initial_parse.phase
    → run c (27 ∷ b'[' ∷ rest) (p, o) ≡ run c rest (in_csi (reset_esc p) 0 false false 0 [], o)
unfolding phase_char ground_char escape_parse escape_effect
enter_csi c p o rest vt e =
    run-step c 27 (b'[' ∷ rest) (p, o) (in_phase escape p, o)
      (step-phase initial_parse.phase c 27 p o vt e)
    ∙ run-step c b'[' rest _ _ (step-phase escape c b'[' (in_phase escape p) o vt refl)

-- CSI row ; column H.
abbrev pub position_text : ℕ → ℕ → Text
position_text row column = 27 ∷ b'[' ∷ decimal row (b';' ∷ decimal column (b'H' ∷ []))

-- A number from 0, or the last one that there is.
abbrev pub up_to : ℤ → ℕ → ℤ
up_to last n = if ltb_ℤ last (pos n) then last else pos n

short_width : (n : ℕ) → n ≤ 10000009 → width n ≤ 8
short_width n h = omega (arith, length-decimal 7 n [] (omega arith))

run-position :
    (c : Call) (p : VtOutputParseState) (o : Output) (row column : ℕ)
    → c.vt_processing ≡ true
    → p.phase ≡ initial_parse.phase
    → row ≤ 10000009
    → column ≤ 10000009
    → run c (position_text row column) (p, o) ≡ (
      reset_csi initial_parse.phase (reset_esc p),
      cursor_position c (record empty_csi { final = b'H'; params = row ∷ column ∷ [] }) o,
    )
unfolding run
run-position c p o row column vt e r k =
    let q = reset_esc p in
    let end : Text = b'H' ∷ [] in
    let rows = short_width row r in
    let columns = short_width column k in
    enter_csi c p o (decimal row (b';' ∷ decimal column end)) vt e
    ∙ run-decimal c q o vt row 0 false [] (b';' ∷ decimal column end) r (omega arith)
    ∙ run-step c b';' (decimal column end) _ _
        (separator_step c row (0 + width row) q o vt (omega arith))
    ∙ run-decimal c q o vt column (suc (0 + width row)) true (row ∷ []) end k (omega arith)
    ∙ run-step c b'H' [] _ _
        (final_step c column (suc (0 + width row) + width column) row q o vt (omega arith))

clamped :
    (last : ℤ) (n : ℕ)
    → pos 0 ≤ℤ last
    → 1 ≤ n
    → clamp (pos 0) last (pos (at_least_one n - 1)) ≡ up_to last (n - 1)
clamped last n l k = ground arith

-- The numbers that are counted from 1, as a row and as a column.
placed :
    (last : ℤ) (n : ℕ)
    → pos 0 ≤ℤ last
    → last ≤ℤ pos 32766
    → 1 ≤ n
    → to_i16 (clamp (pos 0) last (pos (at_least_one n - 1))) ≡ up_to last (n - 1)
placed last n l h k =
    ap to_i16 (clamped last n l k) ∙ to_i16_exact (up_to last (n - 1)) (ground arith)

column_placed :
    (c : Call) (column : ℕ)
    → IsSize c.size.x
    → 1 ≤ column
    → to_i16 (clamp (pos 0) (last_column c) (pos (at_least_one column - 1)))
      ≡ up_to (last_column c) (column - 1)
column_placed c column w k = placed (last_column c) column (omega int_laws) (omega int_laws) k

plus_zero : (n : ℕ) → pos n +ℤ pos 0 ≡ pos n
unfolding ◌+ℤ◌
plus_zero n = ground arith

row_placed :
    (c : Call) (o : Output) (row : ℕ)
    → o.origin_mode ≡ false
    → IsSize c.size.y
    → 1 ≤ row
    → absolute_row c row o ≡ up_to (last_row c) (row - 1)
unfolding absolute_row
row_placed c o row m h k = simp m (
    rw (plus_zero (at_least_one row - 1))
      (placed (last_row c) row (omega int_laws) (omega int_laws) k))

-- `CSI row ; column H`, its numbers in decimal digits, puts the cursor at that row and column, counted
-- from 1, or at the last ones where the buffer has fewer: the parser reads the digits back, is behind
-- the sequence where it was before, and nothing else changes. The origin mode is off, and a number
-- is at most 10000009.
pub run-position_text :
    (c : Call) (p : VtOutputParseState) (o : Output) (row column : ℕ)
    → c.vt_processing ≡ true
    → p.phase ≡ initial_parse.phase
    → o.origin_mode ≡ false
    → IsSize c.size.x
    → IsSize c.size.y
    → 1 ≤ row
    → row ≤ 10000009
    → 1 ≤ column
    → column ≤ 10000009
    → run c (position_text row column) (p, o) ≡ (
      reset_csi initial_parse.phase (reset_esc p),
      record o {
        cursor = record {
          x = up_to (last_column c) (column - 1);
          y = up_to (last_row c) (row - 1);
        };
      },
    )
unfolding cursor_position
run-position_text c p o row column vt e m w h r0 r1 k0 k1 =
    run-position c p o row column vt e r1 k1
    ∙ rw (column_placed c column w k0, row_placed c o row m h r0) refl
