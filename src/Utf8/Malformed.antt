-- ===== src/Utf8/Malformed.antt =====
-- What `decode_append` (src/core/utf8_stream_decoder.hpp) makes of the bytes around a malformed one.
use conhost.Prelude.{
  ℕ, suc, ◌+◌, ◌-◌, ◌≤◌, ◌≡◌, refl, sym, ap, ◌∙◌, arith, Option, none, [], ◌∷◌, ◌++◌, length,
  length-append, take, replicate, Text,
}
use conhost.Utf8.{max_int, decode_append}
use conhost.Utf8.Stream.{decode_append_replaces}

-- `MultiByteToWideChar` with `MB_ERR_INVALID_CHARS` fails on bytes with `m` among them: as it does for
-- the bytes 0xC0, 0xC1 and 0xF5 to 0xFF, which no UTF-8 text has.
abbrev pub IsMalformed : (Text → Option Text) → ℕ → Type 0
IsMalformed convert m = (x y : Text) → convert (x ++ (m ∷ y)) ≡ none

take-past : (x y : Text) (m k : ℕ) → take (length x + suc k) (x ++ (m ∷ y)) ≡ x ++ (m ∷ take k y)
take-past [] y m k = let same : 0 + suc k ≡ suc k = omega arith in rw same refl
take-past (b ∷ x) y m k =
    let same : suc (length x) + suc k ≡ suc (length x + suc k) = omega arith in
    rw same (ap (◌∷◌ b) (take-past x y m k))

module _ (convert : Text → Option Text) (m : ℕ) (bad : IsMalformed convert m) (y : Text)
    (behind : 3 ≤ length y) where
  refused :
      (b : ℕ) (x : Text) (j n : ℕ)
      → j ≤ length y
      → length x + suc (length y - j) ≡ n
      → convert (b ∷ take n (x ++ (m ∷ y))) ≡ none
  refused b x j n h e =
      ap (λ (k : ℕ). convert (b ∷ take k (x ++ (m ∷ y)))) (sym e)
      ∙ ap (λ (rest : Text). convert (b ∷ rest)) (take-past x y m (length y - j))
      ∙ bad (b ∷ x) (take (length y - j) y)

-- A malformed byte with three bytes or more behind it takes everything in front of it along: each of
-- those bytes, whatever text they make, and the malformed byte itself becomes a U+FFFD, and the decoder
-- goes on behind it. `convert` fails on bytes with the malformed one among them, the bytes are no more
-- than the largest `int`, and nothing is pending before.
pub decode_append-malformed :
    (convert : Text → Option Text) (x y : Text) (m : ℕ)
    → IsMalformed convert m
    → 3 ≤ length y
    → length (x ++ (m ∷ y)) ≤ max_int
    → decode_append convert [] (x ++ (m ∷ y)) ≡ (
      replicate (suc (length x)) 65533 ++ (decode_append convert [] y).0,
      (decode_append convert [] y).1,
    )
decode_append-malformed convert [] y m bad behind short =
    decode_append_replaces convert m y behind short (bad [] y) (bad [] (take (length y - 1) y))
      (bad [] (take (length y - 2) y)) (bad [] (take (length y - 3) y))
decode_append-malformed convert (b ∷ x) y m bad behind short =
    let long = length-append x (m ∷ y) in
    let rest = x ++ (m ∷ y) in
    let go = refused convert m bad y behind b x in
    decode_append_replaces convert b rest (omega (arith, long)) short (bad (b ∷ x) y)
      (go 1 (length rest - 1) (omega arith) (omega (arith, long)))
      (go 2 (length rest - 2) (omega arith) (omega (arith, long)))
      (go 3 (length rest - 3) (omega arith) (omega (arith, long)))
    ∙ rw (decode_append-malformed convert x y m bad behind (omega arith)) refl
