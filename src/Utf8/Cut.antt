-- ===== src/Utf8/Cut.antt =====
-- Text that reaches `decode_append` (src/core/utf8_stream_decoder.hpp) in two chunks, the border between
-- them within a character.
use conhost.Prelude.{
  ℕ, zero, suc, ◌+◌, ◌-◌, ◌≤◌, ◌<◌, ◌≡◌, ◌⊎◌, inl, inr, subst, refl, ap, ◌∙◌, arith, ◌==◌,
  if◌then◌else◌, true, Option, none, some, [], ◌∷◌, ◌++◌, append-nil, length, length-append, take,
  take-append, drop, drop-append, min, Text,
}
use conhost.Utf8.{
  looks_like_incomplete_utf8_sequence, expected_length, all_continuation, first_continuation_fits,
  max_int, try_decode, trim_loop, decode_step, decode_append,
}
use conhost.Utf8.Stream.{
  decode_loop-none, decode_append_valid, first_turn, try_decode_in_range, take_all,
}

-- The bytes with which a character of more bytes can begin, by the table of well-formed sequences of the
-- Unicode standard: a lead byte, and behind it the ranges of the second byte and of the third.
abbrev lowest : ℕ → ℕ
lowest lead = if lead == 0xE0 then 0xA0 else if lead == 0xF0 then 0x90 else 0x80

abbrev highest : ℕ → ℕ
highest lead = if lead == 0xED then 0x9F else if lead == 0xF4 then 0x8F else 0xBF

pub data IsStart : Text → Type 0 where
  lead : (a : ℕ) → 0xC2 ≤ a → a ≤ 0xF4 → IsStart (a ∷ [])
  second : (a b : ℕ) → 0xE0 ≤ a → a ≤ 0xF4 → lowest a ≤ b → b ≤ highest a → IsStart (a ∷ b ∷ [])
  third :
      (a b c : ℕ)
      → 0xF0 ≤ a
      → a ≤ 0xF4
      → lowest a ≤ b
      → b ≤ highest a
      → 0x80 ≤ c
      → c ≤ 0xBF
      → IsStart (a ∷ b ∷ c ∷ [])

IsStart-looks : {y : Text} → IsStart y → looks_like_incomplete_utf8_sequence y ≡ true
unfolding looks_like_incomplete_utf8_sequence expected_length all_continuation
    first_continuation_fits
IsStart-looks (lead a h k) = ground arith
IsStart-looks (second a b h k l m) = ground arith
IsStart-looks (third a b c h k l m p q) = ground arith

IsStart-length : {y : Text} → IsStart y → (1 ≤ length y) × (length y ≤ 3)
IsStart-length (lead a h k) = omega arith
IsStart-length (second a b h k l m) = omega arith
IsStart-length (third a b c h k l m p q) = omega arith

-- So is what stands in front of its last bytes.
IsStart-take : {y : Text} → IsStart y → (i : ℕ) → i < length y → IsStart (take (suc i) y)
IsStart-take (lead a h k) zero l = lead a h k
IsStart-take (lead a h k) (suc i) l = absurd (omega arith)
IsStart-take (second a b h k l m) zero n = lead a (omega arith) k
IsStart-take (second a b h k l m) (suc zero) n = second a b h k l m
IsStart-take (second a b h k l m) (suc (suc i)) n = absurd (omega arith)
IsStart-take (third a b c h k l m p q) zero n = lead a (omega arith) k
IsStart-take (third a b c h k l m p q) (suc zero) n = second a b (omega arith) k l m
IsStart-take (third a b c h k l m p q) (suc (suc zero)) n = third a b c h k l m p q
IsStart-take (third a b c h k l m p q) (suc (suc (suc i))) n = absurd (omega arith)

-- `MultiByteToWideChar` with `MB_ERR_INVALID_CHARS` fails on bytes that end within a character.
abbrev pub IsStrict : (Text → Option Text) → Type 0
IsStrict convert = (x y : Text) → IsStart y → convert (x ++ y) ≡ none

-- It converts one text behind another to what it converts them to.
abbrev pub IsPiecewise : (Text → Option Text) → Type 0
IsPiecewise convert =
    (x z t u : Text) → convert x ≡ some t → convert z ≡ some u → convert (x ++ z) ≡ some (t ++ u)

take-plus : (x y : Text) (i : ℕ) → take (length x + i) (x ++ y) ≡ x ++ take i y
take-plus [] y i = let same : 0 + i ≡ i = omega arith in rw same refl
take-plus (b ∷ x) y i =
    let same : suc (length x) + i ≡ suc (length x + i) = omega arith in
    rw same (ap (◌∷◌ b) (take-plus x y i))

le-or-lt : (a b : ℕ) → (a ≤ b) ⊎ (b < a)
le-or-lt a b = ground arith

module _ (convert : Text → Option Text) (rest : Text) (attempt : ℕ) where
  trim_loop-none :
      (trim n : ℕ)
      → ((k : ℕ) → trim ≤ k → k < trim + n → try_decode convert rest (attempt - k) ≡ none)
      → trim_loop convert rest attempt trim n ≡ none
  unfolding trim_loop
  trim_loop-none trim zero h = refl
  trim_loop-none trim (suc n) h =
      let first = h trim (omega arith) (omega arith) in
      let more = trim_loop-none (suc trim) n (λ k l m. h k (omega arith) (omega arith)) in
      ground (arith, first, more)

  -- The first prefix that is converted, where those before it are refused.
  trim_loop-some :
      (trim last n : ℕ) (text : Text)
      → trim ≤ last
      → last < trim + n
      → last < attempt
      → ((k : ℕ) → trim ≤ k → k < last → try_decode convert rest (attempt - k) ≡ none)
      → try_decode convert rest (attempt - last) ≡ some text
      → trim_loop convert rest attempt trim n ≡ some (attempt - last, text)
  unfolding trim_loop
  trim_loop-some trim last zero text a l p h e = absurd (omega arith)
  trim_loop-some trim last (suc n) text a l p h e = elim (le-or-lt last trim) [
    | inl here ↦
        let same : last ≡ trim = omega arith in
        let hit : try_decode convert rest (attempt - trim) ≡ some text =
          subst (λ (k : ℕ). try_decode convert rest (attempt - k) ≡ some text) same e in
        ground (arith, hit, same)
    | inr later ↦
        let first = h trim (omega arith) later in
        let more =
          trim_loop-some (suc trim) last n text later (omega arith) p (λ k m q. h k (omega arith) q)
            e in
        ground (arith, first, more)
  ]

step_when_trimmed :
    (convert : Text → Option Text) (rest : Text) (attempt n : ℕ) (found : ℕ × Text)
    → min (length rest) max_int ≡ attempt
    → min 3 attempt ≡ n
    → try_decode convert rest attempt ≡ none
    → trim_loop convert rest attempt 1 n ≡ some found
    → decode_step convert rest ≡ some found
unfolding decode_step
step_when_trimmed convert rest attempt n found a m e t = ground arith

step_when_waiting :
    (convert : Text → Option Text) (rest : Text) (attempt n : ℕ)
    → min (length rest) max_int ≡ attempt
    → min 3 attempt ≡ n
    → attempt ≤ 3
    → try_decode convert rest attempt ≡ none
    → trim_loop convert rest attempt 1 n ≡ none
    → looks_like_incomplete_utf8_sequence (take attempt rest) ≡ true
    → decode_step convert rest ≡ none
unfolding decode_step
step_when_waiting convert rest attempt n a m h e t l = ground arith

try_decode-zero : (convert : Text → Option Text) (rest : Text) → try_decode convert rest 0 ≡ none
unfolding try_decode
try_decode-zero convert rest = ground arith

decode_append_waits :
    (convert : Text → Option Text) (rest : Text)
    → 0 < length rest
    → decode_step convert rest ≡ none
    → decode_append convert [] rest ≡ ([], rest)
unfolding decode_append
decode_append_waits convert [] h e = absurd (omega arith)
decode_append_waits convert (b ∷ bytes) h e = decode_loop-none convert (length bytes) b bytes e

module _ (convert : Text → Option Text) (strict : IsStrict convert) {y : Text}
    (start : IsStart y) where
  -- A prefix that ends within the character is refused.
  refused :
      (x : Text) (n : ℕ)
      → length x < n
      → n ≤ length (x ++ y)
      → n ≤ max_int
      → try_decode convert (x ++ y) n ≡ none
  refused x n h k l =
      let i = n - length x - 1 in
      let place : n ≡ length x + suc i = omega arith in
      try_decode_in_range convert (x ++ y) n (omega arith) l
      ∙ ap (λ (k : ℕ). convert (take k (x ++ y))) place
      ∙ ap convert (take-plus x y (suc i))
      ∙ strict x (take (suc i) y) (IsStart-take start i (omega (arith, length-append x y)))

  waiting : decode_step convert y ≡ none
  waiting =
      let (some_there, few) = IsStart-length start in
      let refuse : (n : ℕ) → 0 < n → n ≤ length y → try_decode convert y n ≡ none =
        λ n h k. refused [] n h k (omega arith) in
      let try_any : (k n : ℕ) → length y - k ≡ n → try_decode convert y n ≡ none = λ k n e.
        elim (le-or-lt n 0) [
          | inl h ↦
              let same : n ≡ 0 = omega arith in
              ap (try_decode convert y) same ∙ try_decode-zero convert y
          | inr h ↦ refuse n h (omega arith)
        ] in
      step_when_waiting convert y (length y) (length y) (omega arith) (omega arith) few
        (refuse (length y) (omega arith) (omega arith))
        (trim_loop-none convert y (length y) 1 (length y) (λ k l m. try_any k (length y - k) refl))
        (ap looks_like_incomplete_utf8_sequence (take_all convert y) ∙ IsStart-looks start)

  -- Behind bytes that are converted, they wait too.
  first_chunk :
      (b : ℕ) (x t : Text)
      → convert (b ∷ x) ≡ some t
      → length (b ∷ (x ++ y)) ≤ max_int
      → decode_append convert [] (b ∷ (x ++ y)) ≡ (t, y)
  first_chunk b x t e short =
      let whole = b ∷ (x ++ y) in
      let n = length whole in
      let m = length y in
      let long = length-append x y in
      let (some_there, few) = IsStart-length start in
      let there : n - m ≡ length (b ∷ x) = omega (arith, long) in
      let hit : try_decode convert whole (n - m) ≡ some t =
        try_decode_in_range convert whole (n - m) (omega (arith, long)) (omega arith)
        ∙ ap (λ (k : ℕ). convert (take k whole)) there
        ∙ ap convert (take-append (b ∷ x) y)
        ∙ e in
      let trimmed : trim_loop convert whole n 1 (min 3 n) ≡ some (n - m, t) =
        trim_loop-some convert whole n 1 m (min 3 n) t some_there (omega (arith, long))
          (omega (arith, long))
          (λ k h l. refused (b ∷ x) (n - k) (omega (arith, long)) (omega arith) (omega arith))
          hit in
      let step : decode_step convert whole ≡ some (n - m, t) =
        step_when_trimmed convert whole n (min 3 n) (n - m, t) (omega arith) refl
          (refused (b ∷ x) n (omega (arith, long)) (omega arith) short) trimmed in
      let left : drop (n - m) whole ≡ y =
        ap (λ (k : ℕ). drop k whole) there ∙ drop-append (b ∷ x) y in
      first_turn convert b (x ++ y) t (n - m) step (omega (arith, long))
      ∙ rw (left, decode_append_waits convert y some_there waiting, append-nil t) refl

-- A chunk that ends within a character, behind text that is converted, gives that text and keeps the
-- bytes of the character; the chunk that brings the rest of it gives the character and what follows.
-- Together they give what the same bytes give in one chunk. `convert` fails on bytes that end within a
-- character, and converts one text behind another to the two results; it takes the bytes in front, of
-- which there is one or more, and the character with what follows. All the bytes are no more than the
-- largest `int`, and nothing is pending before.
pub decode_append-cut :
    (convert : Text → Option Text) (x y z t u : Text)
    → IsStrict convert
    → IsPiecewise convert
    → IsStart y
    → 1 ≤ length x
    → length (x ++ (y ++ z)) ≤ max_int
    → convert x ≡ some t
    → convert (y ++ z) ≡ some u
    → (decode_append convert [] (x ++ y) ≡ (t, y))
      × (decode_append convert y z ≡ (u, []))
      × (decode_append convert [] (x ++ (y ++ z)) ≡ (t ++ u, []))
decode_append-cut convert [] y z t u strict piecewise start h short e f = absurd (omega arith)
decode_append-cut convert (b ∷ x) y z t u strict piecewise start h short e f =
    let all = length-append x (y ++ z) in
    let tail = length-append y z in
    let head = length-append x y in
    let (some_there, few) = IsStart-length start in
    (
      first_chunk convert strict start b x t e (omega (arith, all, tail, head)),
      decode_append_valid convert y z u (omega (arith, tail)) (omega (arith, all)) f,
      decode_append_valid convert [] (b ∷ (x ++ (y ++ z))) (t ++ u) (omega arith) short
          (piecewise (b ∷ x) (y ++ z) t u e f),
    )
