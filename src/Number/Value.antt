-- ===== src/Number/Value.antt =====
-- The decimal parsers against the value of a text of digits, computed with no bound.
use conhost.Prelude.{
  ℕ, zero, suc, ◌+◌, ◌-◌, ◌*◌, ◌≤◌, ◌≡◌, ◌≢◌, refl, ◌⊎◌, inl, inr, ap, arith, leb, ◌==◌, ==_iff,
  if◌then◌else◌, true, false, [], ◌∷◌, Text, All, Bool-cases,
}
use conhost.Prelude.Result.{expected, unexpected}
use conhost.Number.Signed.{pos, to_i32, neg}
use conhost.Number.{
  overflow, underflow, i32_max, u32_max, is_digit, unsigned_digits, nonempty_then,
  parse_unsigned_32, signed_digits, signed_result, parse_signed_32, parse_u32, parse_i32,
}

abbrev pub IsDigits : Text → Type 0
IsDigits = All (λ ch. is_digit ch ≡ true)

abbrev pub value_from : ℕ → Text → ℕ
value_from n [] = n
value_from n (ch ∷ text) = value_from (n * 10 + (ch - b'0')) text

abbrev pub value : Text → ℕ
value = value_from 0

value_from-ge : (n : ℕ) (text : Text) → n ≤ value_from n text
value_from-ge n [] = omega arith
value_from-ge n (ch ∷ text) = omega (arith, value_from-ge (n * 10 + (ch - b'0')) text)

unsigned_digits_lem :
    (n : ℕ) (text : Text)
    → n ≤ u32_max
    → IsDigits text
    → unsigned_digits n text ≡ (
        if leb (value_from n text) u32_max
        then expected (value_from n text)
        else unexpected overflow)
unfolding unsigned_digits
unsigned_digits_lem n [] fits d = ground arith
unsigned_digits_lem n (ch ∷ text) fits (d, ds) = ground (
  arith,
  value_from-ge (n * 10 + (ch - b'0')) text,
  unsigned_digits_lem (n * 10 + (ch - b'0')) text,
)

signed_digits-pos :
    (n : ℕ) (text : Text)
    → n ≤ i32_max
    → IsDigits text
    → signed_digits false n text ≡ (
        if leb (value_from n text) i32_max
        then expected (pos (value_from n text))
        else unexpected overflow)
unfolding signed_digits to_i32
signed_digits-pos n [] fits d = ground arith
signed_digits-pos n (ch ∷ text) fits (d, ds) = ground (
  arith,
  value_from-ge (n * 10 + (ch - b'0')) text,
  signed_digits-pos (n * 10 + (ch - b'0')) text,
)

signed_result-neg : (n : ℕ) → n ≤ i32_max + 1 → signed_result true n ≡ neg (pos n)
unfolding signed_result to_i32
signed_result-neg zero h = refl
signed_result-neg (suc n) h = ground arith

signed_digits-neg :
    (n : ℕ) (text : Text)
    → n ≤ i32_max + 1
    → IsDigits text
    → signed_digits true n text ≡ (
        if leb (value_from n text) (i32_max + 1)
        then expected (neg (pos (value_from n text)))
        else unexpected underflow)
unfolding signed_digits
signed_digits-neg n [] fits d = ground (arith, signed_result-neg n fits)
signed_digits-neg n (ch ∷ text) fits (d, ds) = ground (
  arith,
  value_from-ge (n * 10 + (ch - b'0')) text,
  signed_digits-neg (n * 10 + (ch - b'0')) text,
)

-- On a text of decimal digits that is not empty, with or without a `+`, `parse_u32` gives its value,
-- and `overflow` exactly where the value is above the largest `uint32_t`.
pub parse_u32-value :
    (text : Text)
    → IsDigits text
    → text ≢ []
    → (parse_u32 text
        ≡ (if leb (value text) u32_max then expected (value text) else unexpected overflow))
      × (parse_u32 (b'+' ∷ text) ≡ parse_u32 text)
unfolding parse_u32 parse_unsigned_32
parse_u32-value [] d ne = absurd (ne refl)
parse_u32-value (ch ∷ text) d ne =
    (ground (arith, unsigned_digits_lem 0 (ch ∷ text) (omega arith) d), ground arith)

-- On a text of decimal digits that is not empty, `parse_i32` gives its value, or `overflow` above
-- 2 ^ 31 - 1; the same behind a `+`; and behind a `-` the negated value, or `underflow` above 2 ^ 31.
pub parse_i32-value :
    (text : Text)
    → IsDigits text
    → text ≢ []
    → (parse_i32 text
        ≡ (if leb (value text) i32_max then expected (pos (value text)) else unexpected overflow))
      × (parse_i32 (b'+' ∷ text) ≡ parse_i32 text)
      × (parse_i32 (b'-' ∷ text) ≡ (
          if leb (value text) (i32_max + 1)
          then expected (neg (pos (value text)))
          else unexpected underflow))
unfolding parse_i32 parse_signed_32
parse_i32-value [] d ne = absurd (ne refl)
parse_i32-value (ch ∷ text) d ne = (
  ground (arith, signed_digits-pos 0 (ch ∷ text) (omega arith) d),
  ground arith,
  signed_digits-neg 0 (ch ∷ text) (omega arith) d,
)

unsigned_digits_sound :
    (n : ℕ) (text : Text) (m : ℕ)
    → n ≤ u32_max
    → unsigned_digits n text ≡ expected m
    → IsDigits text × (value_from n text ≡ m) × (m ≤ u32_max)
unfolding unsigned_digits
unsigned_digits_sound n [] m fits e = ground arith
unsigned_digits_sound n (ch ∷ text) m fits e =
    ground (arith, unsigned_digits_sound (n * 10 + (ch - b'0')) text m)

-- What `parse_u32` accepts: behind an optional `+` a text of digits that is not empty, whose value
-- is the number returned and fits 32 bits.
parse_u32_sound :
    (text : Text) {n : ℕ}
    → parse_u32 text ≡ expected n
    → (digits : Text) × ((text ≡ digits) ⊎ (text ≡ b'+' ∷ digits))
      × (digits ≢ [])
      × IsDigits digits
      × (value digits ≡ n)
      × (n ≤ u32_max)
unfolding parse_u32 parse_unsigned_32
parse_u32_sound [] e = cc
parse_u32_sound (ch ∷ text) {n} e = elim (Bool-cases (ch == b'+')) [
  | inl plus ↦ after_plus text ((==_iff ch b'+').0 plus) (rw plus at e)
  | inr plain ↦
      let r = unsigned_digits_sound 0 (ch ∷ text) n (omega arith) (rw plain at e) in
      (ch ∷ text, inl refl, (λ h. cc), r.0, r.1, r.2)
]
  where
    after_plus :
        (rest : Text)
        → ch ≡ b'+'
        → nonempty_then (unsigned_digits 0) rest ≡ expected n
        → (digits : Text) × ((ch ∷ rest ≡ digits) ⊎ (ch ∷ rest ≡ b'+' ∷ digits))
          × (digits ≢ [])
          × IsDigits digits
          × (value digits ≡ n)
          × (n ≤ u32_max)
    after_plus [] c e = cc
    after_plus (d ∷ rest) c e =
        let r = unsigned_digits_sound 0 (d ∷ rest) n (omega arith) e in
        (d ∷ rest, inr (ap (λ (x : ℕ). x ∷ d ∷ rest) c), (λ h. cc), r.0, r.1, r.2)
