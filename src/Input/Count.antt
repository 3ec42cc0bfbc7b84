-- ===== src/Input/Count.antt =====
-- The number of input units that is told to a client, against what a read of them gives.
use conhost.Prelude.{
  ℕ, zero, suc, ◌+◌, ◌-◌, ◌≤◌, ◌<◌, ◌≡◌, refl, arith, ◌==◌, if◌then◌else◌, Bool, true, false,
  Option-cases, inl, inr, [], ◌∷◌, Text, length, drop, length-append, Option, none, some, take,
}
use conhost.Input.{
  InputDecodeChunk, InputDecodeSpanResult, decode_sequence, decode_one_console_input_unit,
  decode_units, decode_turn, written_by, converted, count_loop, count_console_input_units_utf8,
  decode_console_input_bytes_to_wchars, utf8_sequence,
}

-- A conversion that succeeds gives at least one unit.
abbrev pub GivesUnits : (ℕ → Bool → Text → Option Text) → Type 0
GivesUnits convert =
    (code_page : ℕ) (strict : Bool) (bytes units : Text)
    → convert code_page strict bytes ≡ some units
    → 0 < length units

converted-HasUnits :
    (n : ℕ) (o : Option Text)
    → ((units : Text) → o ≡ some units → 0 < length units)
    → 0 < length (converted n o).chars
converted-HasUnits n none h = omega arith
converted-HasUnits n (some units) h = h units refl

-- One turn of the two loops.
turn-counts :
    (room count : ℕ) (chunk : InputDecodeChunk) (rest : InputDecodeSpanResult)
    → 0 < length chunk.chars
    → (length chunk.chars + count ≤ room → count ≡ length rest.units)
    → (if chunk.bytes_consumed == 0
        then 0
        else (if length chunk.chars == 0 then 1 else length chunk.chars) + count)
      ≤ room
    → (if chunk.bytes_consumed == 0
        then 0
        else (if length chunk.chars == 0 then 1 else length chunk.chars) + count)
      ≡ length (decode_turn room chunk chunk.chars rest).units
unfolding decode_turn
turn-counts room count chunk rest some_units same fits =
    ground (arith, length-append chunk.chars rest.units)

module _ (convert : ℕ → Bool → Text → Option Text) (is_lead : ℕ → ℕ → Bool)
    (gives : GivesUnits convert) where
  decode_sequence-HasUnits :
      (code_page : ℕ) (strict : Bool) (n : ℕ) (bytes : Text) (chunk : InputDecodeChunk)
      → decode_sequence convert is_lead code_page strict n bytes ≡ some chunk
      → 0 < length chunk.chars
  unfolding decode_sequence
  decode_sequence-HasUnits code_page strict n bytes chunk e = ground (
    arith,
    converted-HasUnits n (convert code_page strict (take n bytes))
        (gives code_page strict (take n bytes)),
  )

  decode_one_console_input_unit-HasUnits :
      (bytes : Text) (chunk : InputDecodeChunk)
      → decode_one_console_input_unit convert is_lead 65001 bytes ≡ some chunk
      → 0 < length chunk.chars
  unfolding decode_one_console_input_unit
  decode_one_console_input_unit-HasUnits [] chunk e = cc
  decode_one_console_input_unit-HasUnits (b0 ∷ bytes) chunk e =
      ground (arith, decode_sequence-HasUnits 65001 true (utf8_sequence b0) (b0 ∷ bytes) chunk)

  count_loop-decode_units :
      (fuel room : ℕ) (bytes : Text)
      → count_loop convert is_lead fuel bytes ≤ room
      → count_loop convert is_lead fuel bytes
        ≡ length (decode_units convert is_lead fuel 65001 false room bytes).units
  unfolding count_loop decode_units written_by
  count_loop-decode_units zero room bytes h = refl
  count_loop-decode_units (suc fuel) room bytes h =
      elim (Option-cases (decode_one_console_input_unit convert is_lead 65001 bytes)) [
        | inl short ↦ rw (count_loop, decode_units, short) refl
        | inr (chunk, found) ↦
            let left = drop chunk.bytes_consumed bytes in
            let count = count_loop convert is_lead fuel left in
            let some_units = decode_one_console_input_unit-HasUnits bytes chunk found in
            rw (count_loop, decode_units, found)
              (turn-counts room count chunk
                (decode_units convert is_lead fuel 65001 false (room - length chunk.chars) left)
                some_units
                (λ k. count_loop-decode_units fuel (room - length chunk.chars) left (omega arith))
                (rw (count_loop, found) at h))
      ]

  -- Where a conversion that succeeds gives at least one unit, the number of input units that is
  -- counted in some UTF-8 bytes is the number that a read of them writes, if the read has room for so
  -- many and takes no Ctrl+C out.
  pub count_console_input_units_utf8-decode :
      (room : ℕ) (bytes : Text)
      → count_console_input_units_utf8 convert is_lead bytes ≤ room
      → count_console_input_units_utf8 convert is_lead bytes
        ≡ length (decode_console_input_bytes_to_wchars convert is_lead 65001 false room bytes).units
  unfolding count_console_input_units_utf8 decode_console_input_bytes_to_wchars
  count_console_input_units_utf8-decode room bytes h =
      count_loop-decode_units (length bytes) room bytes h
