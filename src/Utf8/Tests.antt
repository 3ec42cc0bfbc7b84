-- ===== src/Utf8/Tests.antt =====
-- Runs of the stream decoder, and the theorems at concrete inputs. The conversion here takes ASCII
-- bytes and the two bytes of U+00E9, and refuses all others, which is one way the parameter can be.
use conhost.Prelude.{
  ℕ, ◌≡◌, ◌≤◌, ◌⊎◌, refl, arith, ltb, ◌==◌, if◌then◌else◌, Bool, true, false, Option, none, some,
  [], ◌∷◌, ◌++◌, length, replicate, Text,
}
use conhost.Utf8.{
  expected_length, all_continuation, first_continuation_fits, looks_like_incomplete_utf8_sequence,
  try_decode, trim_loop, decode_step, decode_loop, decode_append, replacement,
}
use conhost.Utf8.Stream.{decode_append-IsPending}
use conhost.Utf8.Cut.{IsStart, lead, second, third, IsStrict, IsPiecewise, decode_append-cut}
use conhost.Utf8.Malformed.{IsMalformed, decode_append-malformed}

abbrev cons_to : ℕ → Option Text → Option Text
cons_to c none = none
cons_to c (some text) = some (c ∷ text)

-- `true` behind the first byte of U+00E9.
abbrev convert_from : Bool → Text → Option Text
convert_from true [] = none
convert_from false [] = some []
convert_from true (b ∷ bytes) =
    let rest = convert_from false bytes in if b == 169 then cons_to 233 rest else none
convert_from false (b ∷ bytes) =
    let rest = convert_from false bytes in
    let accented = convert_from true bytes in
    if b == 195 then accented else if ltb b 128 then cons_to b rest else none

abbrev convert : Text → Option Text
convert = convert_from false

-- A character that is cut in two: the first byte waits for the second.
cut :
    (decode_append convert [] (97 ∷ 195 ∷ []) ≡ (97 ∷ [], 195 ∷ []))
    × (decode_append convert (195 ∷ []) (169 ∷ 98 ∷ []) ≡ (233 ∷ 98 ∷ [], []))
unfolding decode_append decode_loop decode_step trim_loop try_decode
    looks_like_incomplete_utf8_sequence expected_length all_continuation first_continuation_fits
cut = (refl, refl)

incomplete :
    (looks_like_incomplete_utf8_sequence (240 ∷ 159 ∷ 146 ∷ []) ≡ true)
    × (looks_like_incomplete_utf8_sequence (224 ∷ 128 ∷ []) ≡ false)
    × (looks_like_incomplete_utf8_sequence (195 ∷ 169 ∷ []) ≡ false)
    × (looks_like_incomplete_utf8_sequence (237 ∷ 160 ∷ []) ≡ false)
unfolding looks_like_incomplete_utf8_sequence expected_length all_continuation
    first_continuation_fits
incomplete = (refl, refl, refl, refl)

-- The letter ahead of a malformed byte is lost when three bytes follow that one, and kept when fewer
-- do.
lost :
    (decode_append convert [] (65 ∷ 255 ∷ 66 ∷ 67 ∷ 68 ∷ [])
      ≡ (replacement ∷ replacement ∷ 66 ∷ 67 ∷ 68 ∷ [], []))
    × (decode_append convert [] (65 ∷ 255 ∷ 66 ∷ 67 ∷ []) ≡ (65 ∷ replacement ∷ 66 ∷ 67 ∷ [], []))
unfolding decode_append decode_loop decode_step trim_loop try_decode
    looks_like_incomplete_utf8_sequence expected_length all_continuation first_continuation_fits
lost = (refl, refl)

decode_append-IsPending_example :
    ((decode_append convert [] (97 ∷ 195 ∷ [])).1 ≡ [])
    ⊎ ((length ((decode_append convert [] (97 ∷ 195 ∷ [])).1) ≤ 3)
        × (looks_like_incomplete_utf8_sequence ((decode_append convert [] (97 ∷ 195 ∷ [])).1)
            ≡ true))
decode_append-IsPending_example = decode_append-IsPending convert [] (97 ∷ 195 ∷ [])

-- What the test conversion refuses at the end of a text, behind any text.
refuses_start : (half : Bool) (x : Text) {y : Text} → IsStart y → convert_from half (x ++ y) ≡ none
refuses_start true [] (lead a h k) = ground arith
refuses_start true [] (second a b h k l m) = ground arith
refuses_start true [] (third a b c h k l m p q) = ground arith
refuses_start false [] (lead a h k) = ground arith
refuses_start false [] (second a b h k l m) = ground arith
refuses_start false [] (third a b c h k l m p q) = ground arith
refuses_start true (b ∷ x) start = ground (arith, refuses_start false x start)
refuses_start false (b ∷ x) start =
    ground (arith, refuses_start false x start, refuses_start true x start)

refuses_malformed : (half : Bool) (x y : Text) → convert_from half (x ++ (255 ∷ y)) ≡ none
refuses_malformed true [] y = ground arith
refuses_malformed false [] y = ground arith
refuses_malformed true (b ∷ x) y = ground (arith, refuses_malformed false x y)
refuses_malformed false (b ∷ x) y =
    ground (arith, refuses_malformed false x y, refuses_malformed true x y)

cons_to-append :
    (c : ℕ) (o p : Option Text) (t u : Text)
    → ((rest : Text) → o ≡ some rest → p ≡ some (rest ++ u))
    → cons_to c o ≡ some t
    → cons_to c p ≡ some (t ++ u)
cons_to-append c none p t u h e = ground arith
cons_to-append c (some rest) p t u h e = let more = h rest refl in ground (arith, more)

pieces :
    (half : Bool) (x z t u : Text)
    → convert_from half x ≡ some t
    → convert z ≡ some u
    → convert_from half (x ++ z) ≡ some (t ++ u)
pieces true [] z t u e f = ground arith
pieces false [] z t u e f = ground arith
pieces true (b ∷ x) z t u e f =
    let more =
      cons_to-append 233 (convert_from false x) (convert_from false (x ++ z)) t u
        (λ rest g. pieces false x z rest u g f) in
    ground (arith, more)
pieces false (b ∷ x) z t u e f =
    let here = pieces true x z t u in
    let more =
      cons_to-append b (convert_from false x) (convert_from false (x ++ z)) t u
        (λ rest g. pieces false x z rest u g f) in
    ground (arith, more, here)

convert-IsStrict : IsStrict convert
convert-IsStrict x y start = refuses_start false x start

convert-IsPiecewise : IsPiecewise convert
convert-IsPiecewise x z t u e f = pieces false x z t u e f

convert-IsMalformed : IsMalformed convert 255
convert-IsMalformed x y = refuses_malformed false x y

-- U+00E9 cut behind its first byte, with a letter in front of it and one behind it.
decode_append-cut_example :
    (decode_append convert [] (97 ∷ 195 ∷ []) ≡ (97 ∷ [], 195 ∷ []))
    × (decode_append convert (195 ∷ []) (169 ∷ 98 ∷ []) ≡ (233 ∷ 98 ∷ [], []))
    × (decode_append convert [] (97 ∷ 195 ∷ 169 ∷ 98 ∷ []) ≡ (97 ∷ 233 ∷ 98 ∷ [], []))
decode_append-cut_example =
    decode_append-cut convert (97 ∷ []) (195 ∷ []) (169 ∷ 98 ∷ []) (97 ∷ []) (233 ∷ 98 ∷ [])
      convert-IsStrict convert-IsPiecewise (lead 195 (omega arith) (omega arith)) (omega arith)
      (omega arith) refl refl

-- Two letters in front of a malformed byte, and three behind it.
decode_append-malformed_example : decode_append convert [] (65 ∷ 66 ∷ 255 ∷ 67 ∷ 68 ∷ 69 ∷ []) ≡ (
  replicate 3 65533 ++ (decode_append convert [] (67 ∷ 68 ∷ 69 ∷ [])).0,
  (decode_append convert [] (67 ∷ 68 ∷ 69 ∷ [])).1,
)
decode_append-malformed_example =
    decode_append-malformed convert (65 ∷ 66 ∷ []) (67 ∷ 68 ∷ 69 ∷ []) 255 convert-IsMalformed
      (omega arith) (omega arith)
