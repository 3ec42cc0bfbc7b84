-- ===== src/Input.antt =====
-- The input of a handle in src/condrv/condrv_server.hpp: the queue of bytes that wait for the rest of a
-- character, and the decoding of bytes as UTF-16 code units, key events and tokens. The functions of
-- Windows `MultiByteToWideChar`, for at most two units, with whether invalid bytes are refused, and
-- `IsDBCSLeadByteEx` are parameters.
mod Bounds
mod Count
mod Tests
use Prim.Native.Nat.{bit_and}
use conhost.Prelude.{
  ℕ, zero, suc, ◌+◌, ◌-◌, ltb, leb, ◌==◌, min, if◌then◌else◌, Bool, true, false, not, ◌&&◌, ◌||◌,
  List, [], ◌∷◌, ◌++◌, Text, equal, length, take, drop, map, Option, none, some,
}
use conhost.VtInput.{
  KeyEvent, DecodedToken, DecodeResult, produced, need_more_data, no_match, text_units, no_token,
  try_decode_vt,
}

-- `PendingInputBytes`: the bytes in use of its array of 64.
abbrev pub capacity : ℕ
capacity = 64

unfoldable pub append : Text → Text → Text × Bool
append bytes storage =
    if length bytes == 0
    then (storage, true)
    else if ltb (capacity - length storage) (length bytes)
    then (storage, false)
    else (storage ++ bytes, true)

unfoldable pub consume_prefix : ℕ → Text → Text
consume_prefix count storage = drop (min count (length storage)) storage

abbrev clear : Text → Text
clear storage = []

abbrev has_ctrl : KeyEvent → Bool
has_ctrl key = not (bit_and key.control_key_state 12 == 0)

abbrev has_alt : KeyEvent → Bool
has_alt key = not (bit_and key.control_key_state 3 == 0)

unfoldable key_event_matches_ctrl_c : KeyEvent → Bool
key_event_matches_ctrl_c key = has_ctrl key && not (has_alt key) && key.virtual_key_code == b'C'

-- With `VK_CANCEL`.
unfoldable key_event_matches_ctrl_break : KeyEvent → Bool
key_event_matches_ctrl_break key = has_ctrl key && not (has_alt key) && key.virtual_key_code == 3

abbrev make_simple_character_key_event : ℕ → KeyEvent
make_simple_character_key_event value = record {
  key_down = true;
  repeat_count = 1;
  virtual_key_code = 0;
  virtual_scan_code = 0;
  unicode_char = value;
  control_key_state = 0;
}

-- The character of a record: `AsciiChar` for a client that asks for no Unicode.
abbrev narrowed_char : Bool → ℕ → ℕ
narrowed_char true value = value
narrowed_char false value = if leb value 255 then value else b'?'

abbrev make_input_record_from_key : Bool → KeyEvent → KeyEvent
make_input_record_from_key unicode key = record key {
  unicode_char = narrowed_char unicode key.unicode_char;
}

-- `InputDecodeChunk`: the units of its array that are in use, with `char_count` as their number.
pub record InputDecodeChunk : Type 0 where
  pub chars : Text
  pub bytes_consumed : ℕ

-- U+FFFD for one byte.
abbrev replaced : InputDecodeChunk
replaced = record { chars = 65533 ∷ []; bytes_consumed = 1 }

-- The length of a UTF-8 sequence by its first byte, or 0.
unfoldable utf8_sequence : ℕ → ℕ
utf8_sequence b0 =
    if ltb b0 128
    then 1
    else if bit_and b0 224 == 192
    then 2
    else if bit_and b0 240 == 224
    then 3
    else if bit_and b0 248 == 240
    then 4
    else 0

abbrev converted : ℕ → Option Text → InputDecodeChunk
converted sequence none = replaced
converted sequence (some chars) = record { chars = chars; bytes_consumed = sequence }

-- `InputDecodeSpanResult`, with what is written in place of its count.
pub record InputDecodeSpanResult : Type 0 where
  pub bytes_consumed : ℕ
  pub units : Text

abbrev nothing_decoded : InputDecodeSpanResult
nothing_decoded = record { bytes_consumed = 0; units = [] }

abbrev prefixed : ℕ → Text → InputDecodeSpanResult → InputDecodeSpanResult
prefixed consumed units rest = record {
  bytes_consumed = consumed + rest.bytes_consumed;
  units = units ++ rest.units;
}

-- `ENABLE_PROCESSED_INPUT` takes Ctrl+C out.
abbrev is_ctrl_c : Bool → InputDecodeChunk → Bool
is_ctrl_c processed chunk = processed && equal chunk.chars (3 ∷ [])

-- One turn of the loop that decodes, on its chunk, on what the chunk writes, and on what the rest of
-- the loop gives.
unfoldable decode_turn : ℕ → InputDecodeChunk → Text → InputDecodeSpanResult → InputDecodeSpanResult
decode_turn room chunk written rest =
    if room == 0
    then nothing_decoded
    else if length chunk.chars == 0 || chunk.bytes_consumed == 0
    then nothing_decoded
    else if ltb room (length written)
    then nothing_decoded
    else prefixed chunk.bytes_consumed written rest

-- What a chunk writes: nothing if it is a Ctrl+C that is taken out.
unfoldable written_by : Bool → InputDecodeChunk → Text
unfolding equal
written_by processed chunk = if is_ctrl_c processed chunk then [] else chunk.chars

module _ (multi_byte_to_wide_char : ℕ → Bool → Text → Option Text)
    (is_dbcs_lead_byte_ex : ℕ → ℕ → Bool) where
  -- A sequence of `n` bytes at the front; `none` is `need_more_data`.
  unfoldable decode_sequence : ℕ → Bool → ℕ → Text → Option InputDecodeChunk
  decode_sequence code_page strict n bytes =
      if ltb (length bytes) n
      then none
      else some (converted n (multi_byte_to_wide_char code_page strict (take n bytes)))

  unfoldable decode_one_console_input_unit : ℕ → Text → Option InputDecodeChunk
  unfolding decode_sequence utf8_sequence
  decode_one_console_input_unit code_page [] = none
  decode_one_console_input_unit code_page (b0 ∷ bytes) =
      if code_page == 65001
      then (if utf8_sequence b0 == 0
          then some replaced
          else decode_sequence code_page true (utf8_sequence b0) (b0 ∷ bytes))
      else decode_sequence code_page false (if is_dbcs_lead_byte_ex code_page b0 then 2 else 1)
          (b0 ∷ bytes)

  abbrev text_token : InputDecodeChunk → DecodedToken
  text_token chunk = record no_token {
    kind = text_units;
    bytes_consumed = chunk.bytes_consumed;
    text = record {
      chars = chunk.chars;
      char_count = length chunk.chars;
      bytes_consumed = chunk.bytes_consumed;
    };
  }

  abbrev or_text : Option InputDecodeChunk → DecodeResult × DecodedToken → Option DecodedToken
  or_text chunk (produced, token) = some token
  or_text chunk (need_more_data, token) = none
  or_text none (no_match, token) = none
  or_text (some chunk) (no_match, token) = some (text_token chunk)

  unfoldable decode_one_input_token : ℕ → Text → Option DecodedToken
  unfolding try_decode_vt decode_one_console_input_unit
  decode_one_input_token code_page bytes =
      or_text (decode_one_console_input_unit code_page bytes) (try_decode_vt bytes)

  -- The loop of `decode_console_input_bytes_to_wchars`, with room for `room` units and fuel for the
  -- number of bytes; the loop of `decode_console_input_bytes_to_key_events` is that without Ctrl+C.
  unfoldable decode_units : ℕ → ℕ → Bool → ℕ → Text → InputDecodeSpanResult
  unfolding decode_one_console_input_unit decode_turn written_by
  decode_units zero code_page processed room bytes = nothing_decoded
  decode_units (suc n) code_page processed room bytes =
      elim (decode_one_console_input_unit code_page bytes) [
        | none ↦ nothing_decoded
        | some chunk ↦ decode_turn room chunk (written_by processed chunk) (
            decode_units n code_page processed (room - length (written_by processed chunk))
              (drop chunk.bytes_consumed bytes))
      ]

  unfoldable decode_console_input_bytes_to_wchars : ℕ → Bool → ℕ → Text → InputDecodeSpanResult
  unfolding decode_units
  decode_console_input_bytes_to_wchars code_page processed_input size bytes =
      decode_units (length bytes) code_page processed_input size bytes

  unfoldable decode_console_input_bytes_to_key_events : ℕ → Bool → ℕ → Text → ℕ × List KeyEvent
  unfolding decode_units
  decode_console_input_bytes_to_key_events code_page unicode size bytes =
      let r = decode_units (length bytes) code_page false size bytes in
      (
        r.bytes_consumed,
        map (λ (value : ℕ). make_simple_character_key_event (narrowed_char unicode value)) r.units,
      )

  unfoldable count_loop : ℕ → Text → ℕ
  unfolding decode_one_console_input_unit
  count_loop zero bytes = 0
  count_loop (suc n) bytes = elim (decode_one_console_input_unit 65001 bytes) [
    | none ↦ 0
    | some chunk ↦
        let rest = count_loop n (drop chunk.bytes_consumed bytes) in
        if chunk.bytes_consumed == 0
        then 0
        else (if length chunk.chars == 0 then 1 else length chunk.chars) + rest
  ]

  unfoldable count_console_input_units_utf8 : Text → ℕ
  unfolding count_loop
  count_console_input_units_utf8 bytes = count_loop (length bytes) bytes
