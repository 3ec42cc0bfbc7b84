-- ===== src/Utf8.antt =====
-- The streaming decoder of src/core/utf8_stream_decoder.hpp. A byte is a number below 256, and
-- `MultiByteToWideChar` with `MB_ERR_INVALID_CHARS`, a function of Windows, is a parameter: what it
-- makes of some bytes, or `none` when it fails.
pub mod Stream
pub mod Malformed
pub mod Cut
pub mod Tests
use conhost.Prelude.{
  ℕ, zero, suc, ◌+◌, ◌-◌, ◌^◌, ltb, leb, ◌==◌, if◌then◌else◌, Bool, true, false, not, ◌&&◌, ◌||◌,
  Option, none, some, [], ◌∷◌, ◌++◌, length, take, drop, min, Text,
}

abbrev pub is_utf8_continuation_byte : ℕ → Bool
is_utf8_continuation_byte b = leb 128 b && leb b 191

-- `expected`, by the lead byte; 0 where the source returns `false`.
unfoldable pub expected_length : ℕ → ℕ
expected_length lead =
    if leb 194 lead && leb lead 223
    then 2
    else if leb 224 lead && leb lead 239
    then 3
    else if leb 240 lead && leb lead 244
    then 4
    else 0

unfoldable pub all_continuation : Text → Bool
all_continuation [] = true
all_continuation (b ∷ bytes) = is_utf8_continuation_byte b && all_continuation bytes

-- The tests on the first continuation byte.
unfoldable pub first_continuation_fits : ℕ → Text → Bool
first_continuation_fits lead [] = true
first_continuation_fits lead (b ∷ bytes) =
    if (lead == 224) && ltb b 160
    then false
    else if (lead == 237) && ltb 159 b
    then false
    else if (lead == 240) && ltb b 144
    then false
    else not ((lead == 244) && ltb 143 b)

unfoldable pub looks_like_incomplete_utf8_sequence : Text → Bool
unfolding expected_length all_continuation first_continuation_fits
looks_like_incomplete_utf8_sequence [] = false
looks_like_incomplete_utf8_sequence (lead ∷ bytes) =
    if expected_length lead == 0
    then false
    else if leb (expected_length lead) (suc (length bytes))
    then false
    else if not (all_continuation bytes)
    then false
    else first_continuation_fits lead bytes

abbrev pub max_int : ℕ
max_int = 2 ^ 31 - 1

abbrev pub replacement : ℕ
replacement = 65533

module _ (convert : Text → Option Text) where
  -- `try_decode` on the bytes that are not consumed.
  unfoldable pub try_decode : Text → ℕ → Option Text
  try_decode rest prefix_len =
      if prefix_len == 0
      then none
      else if ltb max_int prefix_len
      then none
      else convert (take prefix_len rest)

  -- The loop over `trim`, with `n` turns to go: how many bytes a shorter prefix has, and its text.
  unfoldable pub trim_loop : Text → ℕ → ℕ → ℕ → Option (ℕ × Text)
  trim_loop rest attempt_len trim zero = none
  trim_loop rest attempt_len trim (suc n) =
      let more = trim_loop rest attempt_len (suc trim) n in
      if (attempt_len - trim) == 0 then none else elim (try_decode rest (attempt_len - trim)) [
        | some decoded ↦ some (attempt_len - trim, decoded)
        | none ↦ more
      ]

  -- One turn of the loop of `decode_append`: the bytes it consumes and the text it appends; `none`
  -- where it breaks.
  unfoldable pub decode_step : Text → Option (ℕ × Text)
  decode_step rest =
      let attempt_len = min (length rest) max_int in
      elim (try_decode rest attempt_len) [
        | some decoded ↦ some (attempt_len, decoded)
        | none ↦ elim (trim_loop rest attempt_len 1 (min 3 attempt_len)) [
          | some found ↦ some found
          | none ↦
              if leb attempt_len 3 && looks_like_incomplete_utf8_sequence (take attempt_len rest)
              then none
              else some (1, replacement ∷ [])
        ]
      ]

  -- The loop, on fuel: the output, and the bytes that stay pending.
  unfoldable pub decode_loop : ℕ → Text → Text × Text
  decode_loop zero rest = ([], rest)
  decode_loop (suc fuel) [] = ([], [])
  decode_loop (suc fuel) (b ∷ bytes) = elim (decode_step (b ∷ bytes)) [
    | none ↦ ([], b ∷ bytes)
    | some (n, text) ↦ let rest = decode_loop fuel (drop n (b ∷ bytes)) in (text ++ rest.0, rest.1)
  ]

  -- `decode_append`, on the pending bytes: each turn consumes a byte, so their number is enough fuel.
  unfoldable pub decode_append : Text → Text → Text × Text
  decode_append pending bytes = decode_loop (length (pending ++ bytes)) (pending ++ bytes)
