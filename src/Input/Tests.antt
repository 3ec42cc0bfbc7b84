-- ===== src/Input/Tests.antt =====
-- The queue and the decoders on a few bytes, and the theorems at concrete inputs.
use conhost.Prelude.{
  ℕ, ◌≡◌, ◌≤◌, ◌<◌, refl, arith, Bool, true, false, [], ◌∷◌, Text, codes, equal, length, replicate,
  Option, none, some,
}
use conhost.VtInput.{DecodedToken, no_key, try_decode_vt}
use conhost.Input.{
  append, clear, consume_prefix, key_event_matches_ctrl_c, key_event_matches_ctrl_break,
  decode_sequence, decode_one_console_input_unit, decode_one_input_token, text_token, decode_units,
  decode_turn, written_by, count_loop, utf8_sequence, decode_console_input_bytes_to_wchars,
  decode_console_input_bytes_to_key_events, count_console_input_units_utf8,
  make_simple_character_key_event,
}
use conhost.Input.Bounds.{Within, decode_one_input_token-consumes, decode_units-enough}
use conhost.Input.Count.{GivesUnits, count_console_input_units_utf8-decode}

-- A conversion of single bytes.
abbrev convert : ℕ → Bool → Text → Option Text
convert code_page strict (b ∷ []) = some (b ∷ [])
convert code_page strict _ = none

abbrev is_lead : ℕ → ℕ → Bool
is_lead code_page b0 = false

convert-GivesUnits : GivesUnits convert
convert-GivesUnits code_page strict [] units e = cc
convert-GivesUnits code_page strict (b ∷ []) units e = ground arith
convert-GivesUnits code_page strict (b ∷ c ∷ bytes) units e = cc

queued :
    (append (codes "b") (codes "a") ≡ (codes "ab", true))
    × (append (codes "b") (replicate 64 97) ≡ (replicate 64 97, false))
    × (consume_prefix 1 (codes "ab") ≡ codes "b")
    × (consume_prefix 9 (codes "ab") ≡ clear (codes "ab"))
unfolding append consume_prefix
queued = (refl, refl, refl, refl)

interrupts :
    (key_event_matches_ctrl_c (record no_key { virtual_key_code = b'C'; control_key_state = 8 })
      ≡ true)
    × (key_event_matches_ctrl_break (record no_key { virtual_key_code = 3; control_key_state = 9 })
        ≡ false)
unfolding key_event_matches_ctrl_c key_event_matches_ctrl_break
interrupts = (refl, refl)

-- `a`, Ctrl+C, and a byte that begins no sequence.
abbrev bytes : Text
bytes = b'a' ∷ 3 ∷ 255 ∷ []

decoded :
    (decode_console_input_bytes_to_wchars convert is_lead 65001 true 9 bytes
      ≡ record { bytes_consumed = 3; units = b'a' ∷ 65533 ∷ [] })
    × (decode_console_input_bytes_to_wchars convert is_lead 65001 true 1 bytes
        ≡ record { bytes_consumed = 1; units = b'a' ∷ [] })
    × (count_console_input_units_utf8 convert is_lead bytes ≡ 3)
    × (decode_console_input_bytes_to_key_events convert is_lead 65001 false 2 (255 ∷ [])
        ≡ (1, make_simple_character_key_event b'?' ∷ []))
unfolding decode_console_input_bytes_to_wchars decode_units decode_turn written_by decode_sequence
    utf8_sequence decode_one_console_input_unit equal count_console_input_units_utf8 count_loop
    decode_console_input_bytes_to_key_events
decoded = (refl, refl, refl, refl)

abbrev letter : DecodedToken
letter = text_token convert is_lead (record { chars = b'a' ∷ []; bytes_consumed = 1 })

one_letter : decode_one_input_token convert is_lead 65001 (codes "a") ≡ some letter
unfolding decode_one_input_token try_decode_vt decode_one_console_input_unit decode_sequence
    utf8_sequence
one_letter = refl

decode_one_input_token-consumes_example :
    (0 < letter.bytes_consumed) × (letter.bytes_consumed ≤ length (codes "a"))
decode_one_input_token-consumes_example =
    decode_one_input_token-consumes convert is_lead 65001 (codes "a") letter one_letter

decode_units-enough_example :
    (decode_units convert is_lead 5 65001 true 2 bytes
      ≡ decode_console_input_bytes_to_wchars convert is_lead 65001 true 2 bytes)
    × Within convert is_lead
        (length bytes)
        2
        (decode_console_input_bytes_to_wchars convert is_lead 65001 true 2 bytes)
decode_units-enough_example = decode_units-enough convert is_lead 5 65001 true 2 bytes (omega arith)

three : count_console_input_units_utf8 convert is_lead bytes ≤ 4
unfolding count_console_input_units_utf8 count_loop decode_one_console_input_unit decode_sequence
    utf8_sequence
three = omega arith

count_console_input_units_utf8-decode_example :
    count_console_input_units_utf8 convert is_lead bytes
    ≡ length (decode_console_input_bytes_to_wchars convert is_lead 65001 false 4 bytes).units
count_console_input_units_utf8-decode_example =
    count_console_input_units_utf8-decode convert is_lead convert-GivesUnits 4 bytes three
