-- ===== src/Input/Bounds.antt =====
-- What the decoders of input take and write stays within what they are given.
use conhost.Prelude.{
  ℕ, zero, suc, ◌-◌, ◌≤◌, ◌<◌, ◌≡◌, refl, ap, arith, ltb, ◌==◌, Bool, true, false, ◌||◌, Bool-cases,
  Option-cases, ◌⊎◌, inl, inr, [], ◌∷◌, Text, length, take, drop, length-append, length-drop,
  Option, none, some,
}
use conhost.VtInput.{DecodedToken, DecodeResult, produced, need_more_data, no_match, try_decode_vt}
use conhost.VtInput.Extend.{try_decode_vt-TakesAtMost}
use conhost.Input.{
  InputDecodeChunk, InputDecodeSpanResult, decode_sequence, decode_one_console_input_unit,
  decode_one_input_token, or_text, utf8_sequence, decode_units, prefixed,
  decode_console_input_bytes_to_wchars, converted, decode_turn, written_by,
}

none_left : (n : ℕ) → suc n ≤ 0 → ⊥
none_left n h = ground arith

not_over : (room n : ℕ) → ltb room n ≡ false → n ≤ room
not_over room n e = ground arith

converted_takes :
    (n : ℕ) (o : Option Text)
    → ((converted n o).bytes_consumed ≡ 1) ⊎ ((converted n o).bytes_consumed ≡ n)
converted_takes n none = inl refl
converted_takes n (some chars) = inr refl

module _ (convert : ℕ → Bool → Text → Option Text) (is_lead : ℕ → ℕ → Bool) where
  -- A chunk takes at least one byte, and no more than there are.
  abbrev pub Fits : ℕ → Option InputDecodeChunk → Type 0
  Fits n o =
      (chunk : InputDecodeChunk)
      → o ≡ some chunk
      → (0 < chunk.bytes_consumed) × (chunk.bytes_consumed ≤ n)

  decode_sequence-Fits :
      (code_page : ℕ) (strict : Bool) (n : ℕ) (bytes : Text)
      → 0 < n
      → 0 < length bytes
      → Fits (length bytes) (decode_sequence convert is_lead code_page strict n bytes)
  unfolding decode_sequence
  decode_sequence-Fits code_page strict n bytes some_bytes there chunk e =
      ground (arith, converted_takes n (convert code_page strict (take n bytes)))

  decode_one_console_input_unit-Fits :
      (code_page : ℕ) (bytes : Text)
      → Fits (length bytes) (decode_one_console_input_unit convert is_lead code_page bytes)
  unfolding decode_one_console_input_unit
  decode_one_console_input_unit-Fits code_page [] chunk e = cc
  decode_one_console_input_unit-Fits code_page (b0 ∷ bytes) chunk e = ground (
    arith,
    decode_sequence-Fits code_page true (utf8_sequence b0) (b0 ∷ bytes),
    decode_sequence-Fits code_page false 2 (b0 ∷ bytes),
    decode_sequence-Fits code_page false 1 (b0 ∷ bytes),
  )

  text_token-Fits :
      (n : ℕ) (o : Option InputDecodeChunk) (r : DecodeResult × DecodedToken) (token : DecodedToken)
      → Fits n o
      → (r.0 ≡ produced → (0 < r.1.bytes_consumed) × (r.1.bytes_consumed ≤ n))
      → or_text convert is_lead o r ≡ some token
      → (0 < token.bytes_consumed) × (token.bytes_consumed ≤ n)
  text_token-Fits n o (produced, t) token f p e = ground (arith, p refl)
  text_token-Fits n o (need_more_data, t) token f p e = cc
  text_token-Fits n none (no_match, t) token f p e = cc
  text_token-Fits n (some chunk) (no_match, t) token f p e = ground (arith, f chunk refl)

  -- A token that is decoded, be it a key event, an ignored sequence or text, takes at least one byte
  -- and no more than there are.
  pub decode_one_input_token-consumes :
      (code_page : ℕ) (bytes : Text) (token : DecodedToken)
      → decode_one_input_token convert is_lead code_page bytes ≡ some token
      → (0 < token.bytes_consumed) × (token.bytes_consumed ≤ length bytes)
  unfolding decode_one_input_token
  decode_one_input_token-consumes code_page bytes token e =
      text_token-Fits (length bytes) (decode_one_console_input_unit convert is_lead code_page bytes)
        (try_decode_vt bytes) token (decode_one_console_input_unit-Fits code_page bytes)
        (λ p.
          let (some_bytes, enough, kind) = try_decode_vt-TakesAtMost bytes p in
          (some_bytes, enough))
        e

  -- What a loop takes and writes, with `n` bytes and room for `room` units.
  abbrev pub Within : ℕ → ℕ → InputDecodeSpanResult → Type 0
  Within n room r = (r.bytes_consumed ≤ n) × (length r.units ≤ room)

  prefixed-Within :
      (n room consumed : ℕ) (units : Text) (r : InputDecodeSpanResult)
      → consumed ≤ n
      → length units ≤ room
      → Within (n - consumed) (room - length units) r
      → Within n room (prefixed consumed units r)
  prefixed-Within n room consumed units r c u (w, l) =
      (omega arith, omega (arith, length-append units r.units))

  decode_turn-Within :
      (n room : ℕ) (chunk : InputDecodeChunk) (written : Text) (rest : InputDecodeSpanResult)
      → chunk.bytes_consumed ≤ n
      → Within (n - chunk.bytes_consumed) (room - length written) rest
      → Within n room (decode_turn room chunk written rest)
  unfolding decode_turn
  decode_turn-Within n room chunk written rest c w = elim (Bool-cases (room == 0)) [
    | inl full ↦ rw full (omega arith, omega arith)
    | inr room_left ↦ elim (Bool-cases (length chunk.chars == 0 || chunk.bytes_consumed == 0)) [
      | inl bad ↦ rw (room_left, bad) (omega arith, omega arith)
      | inr good ↦ elim (Bool-cases (ltb room (length written))) [
        | inl long ↦ rw (room_left, good, long) (omega arith, omega arith)
        | inr short ↦
            rw (room_left, good, short)
              (prefixed-Within n room chunk.bytes_consumed written rest c
                (not_over room (length written) short) w)
      ]
    ]
  ]

  decode_units-Within :
      (fuel code_page : ℕ) (processed : Bool) (room : ℕ) (bytes : Text)
      → Within
          (length bytes)
          room
          (decode_units convert is_lead fuel code_page processed room bytes)
  unfolding decode_units
  decode_units-Within zero code_page processed room bytes = (omega arith, omega arith)
  decode_units-Within (suc fuel) code_page processed room bytes =
      elim (Option-cases (decode_one_console_input_unit convert is_lead code_page bytes)) [
        | inl short ↦ rw (decode_units, short) (omega arith, omega arith)
        | inr (chunk, found) ↦
            let written = written_by processed chunk in
            let left = drop chunk.bytes_consumed bytes in
            let (some_bytes, enough) =
              decode_one_console_input_unit-Fits code_page bytes chunk found in
            let rest = decode_units-Within fuel code_page processed (room - length written) left in
            rw (decode_units, found)
              (decode_turn-Within (length bytes) room chunk written _ enough
                (rw⁻¹ (length-drop chunk.bytes_consumed bytes) rest))
      ]

  -- Once its fuel is the number of bytes, more fuel changes nothing.
  decode_units-fuel :
      (a b code_page : ℕ) (processed : Bool) (room : ℕ) (bytes : Text)
      → length bytes ≤ a
      → length bytes ≤ b
      → decode_units convert is_lead a code_page processed room bytes
        ≡ decode_units convert is_lead b code_page processed room bytes
  unfolding decode_units
  decode_units-fuel zero b code_page processed room (x ∷ bytes) p q =
      elim (none_left (length bytes) p) [ ]
  decode_units-fuel (suc a) zero code_page processed room (x ∷ bytes) p q =
      elim (none_left (length bytes) q) [ ]
  decode_units-fuel zero zero code_page processed room [] p q = refl
  decode_units-fuel zero (suc b) code_page processed room [] p q = refl
  decode_units-fuel (suc a) zero code_page processed room [] p q = refl
  decode_units-fuel (suc a) (suc b) code_page processed room [] p q = refl
  decode_units-fuel (suc a) (suc b) code_page processed room (x ∷ bytes) p q =
      elim (Option-cases (decode_one_console_input_unit convert is_lead code_page (x ∷ bytes))) [
        | inl short ↦ rw (decode_units, short) refl
        | inr (chunk, found) ↦
            let written = written_by processed chunk in
            let left = drop chunk.bytes_consumed (x ∷ bytes) in
            let (some_bytes, enough) =
              decode_one_console_input_unit-Fits code_page (x ∷ bytes) chunk found in
            let shorter = length-drop chunk.bytes_consumed (x ∷ bytes) in
            rw (decode_units, found)
              (ap (decode_turn room chunk written) (
                decode_units-fuel a b code_page processed (room - length written) left (omega arith)
                  (omega arith)))
      ]

  -- With as much fuel as there are bytes, or more, the loop ends by itself and its result is that of
  -- `decode_console_input_bytes_to_wchars`; it takes no more bytes than there are, and it writes no
  -- more units than there is room for.
  pub decode_units-enough :
      (fuel code_page : ℕ) (processed : Bool) (room : ℕ) (bytes : Text)
      → length bytes ≤ fuel
      → (decode_units convert is_lead fuel code_page processed room bytes
          ≡ decode_console_input_bytes_to_wchars convert is_lead code_page processed room bytes)
        × Within
            (length bytes)
            room
            (decode_console_input_bytes_to_wchars convert is_lead code_page processed room bytes)
  unfolding decode_console_input_bytes_to_wchars
  decode_units-enough fuel code_page processed room bytes h = (
    decode_units-fuel fuel (length bytes) code_page processed room bytes h (omega arith),
    decode_units-Within (length bytes) code_page processed room bytes,
  )
