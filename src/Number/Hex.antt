-- ===== src/Number/Hex.antt =====
-- The hexadecimal parser against the value of its digits, computed with no bound.
use Prim.Native.Nat.{bit_or, max, digits, bit_or-bitwise}
use conhost.Prelude.{
  ℕ, codes, get_elem?, ◌∙◌, zero, suc, ◌+◌, ◌*◌, ◌/◌, ◌%◌, ◌^◌, ◌≤◌, ◌<◌, ◌≡◌, ◌≢◌, refl, ap, arith,
  leb, ltb, if◌then◌else◌, Bool, List, [], ◌∷◌, Text, some, ◌⊎◌, inl, inr, Bool-cases,
}
use conhost.Prelude.Result.{expected, unexpected}
use conhost.Number.{overflow, u64_max, hex_digit, push_hex, hex_digits_64, parse_hex_u64}

-- The lowest digit of `bit_or`, from the definition that the native operation stands for.
abbrev or_digits : ℕ → ℕ → ℕ → ℕ
or_digits n a b = digits (λ b. b) max n a b

or_digits_fuel : (n m a b : ℕ) → a ≤ n → a ≤ m → or_digits n a b ≡ or_digits m a b
or_digits_fuel zero zero a b p q = refl
or_digits_fuel zero (suc m) zero b p q = refl
or_digits_fuel zero (suc m) (suc a) b p q = absurd (omega arith)
or_digits_fuel (suc n) zero zero b p q = refl
or_digits_fuel (suc n) zero (suc a) b p q = absurd (omega arith)
or_digits_fuel (suc n) (suc m) zero b p q = refl
or_digits_fuel (suc n) (suc m) (suc a) b p q =
    omega (arith, or_digits_fuel n m (suc a / 2) (b / 2) (omega arith) (omega arith))

zero-bit_or : (b : ℕ) → bit_or 0 b ≡ b
zero-bit_or b = bit_or-bitwise 0 b

bit_or_step : (a b : ℕ) → bit_or a b ≡ bit_or (a / 2) (b / 2) * 2 + max (a % 2) (b % 2)
bit_or_step zero b = omega (arith, zero-bit_or b, zero-bit_or (b / 2))
bit_or_step (suc a) b = omega (
  arith,
  bit_or-bitwise (suc a) b,
  bit_or-bitwise (suc a / 2) (b / 2),
  or_digits_fuel a (suc a / 2) (suc a / 2) (b / 2) (omega arith) (omega arith),
)

bit_or-zero_fuel : (n a : ℕ) → a ≤ n → bit_or a 0 ≡ a
bit_or-zero_fuel n zero h = refl
bit_or-zero_fuel zero (suc a) h = absurd (omega arith)
bit_or-zero_fuel (suc n) (suc a) h =
    omega (arith, bit_or_step (suc a) 0, bit_or-zero_fuel n (suc a / 2) (omega arith))

bit_or_double : (a d : ℕ) → bit_or (a * 2) d ≡ bit_or a (d / 2) * 2 + d % 2
bit_or_double a d =
    let half : a * 2 / 2 ≡ a = omega arith in
    omega (arith, bit_or_step (a * 2) d, ap (λ (t : ℕ). bit_or t (d / 2)) half)

-- A shift by four leaves room for a hexadecimal digit.
pub bit_or_nibble : (a d : ℕ) → d < 16 → bit_or (a * 16) d ≡ a * 16 + d
bit_or_nibble a d h =
    let shift : a * 16 ≡ a * 2 * 2 * 2 * 2 = omega arith in
    let none_left : d / 2 / 2 / 2 / 2 ≡ 0 = omega arith in
    rw shift (
      omega (
        arith,
        bit_or_double (a * 2 * 2 * 2) d,
        bit_or_double (a * 2 * 2) (d / 2),
        bit_or_double (a * 2) (d / 2 / 2),
        bit_or_double a (d / 2 / 2 / 2),
        ap (λ (t : ℕ). bit_or a t) none_left,
        bit_or-zero_fuel a a (omega arith),
      ))

-- A text of hexadecimal digits, and their values: the places of the digits in the two alphabets.
abbrev pub lower_digits : Text
lower_digits = codes "0123456789abcdef"

abbrev pub upper_digits : Text
upper_digits = codes "0123456789ABCDEF"

pub data IsHex : Text → List ℕ → Type 0 where
  nil : IsHex [] []
  lower :
      {ch d : ℕ} {text : Text} {ds : List ℕ}
      → get_elem? lower_digits d ≡ some ch
      → IsHex text ds
      → IsHex (ch ∷ text) (d ∷ ds)
  upper :
      {ch d : ℕ} {text : Text} {ds : List ℕ}
      → get_elem? upper_digits d ≡ some ch
      → IsHex text ds
      → IsHex (ch ∷ text) (d ∷ ds)

-- An alphabet whose digits, from place `i` on, are read as their places.
abbrev IsRead : ℕ → Text → Type 0
IsRead i [] = Unit
IsRead i (ch ∷ chars) = (hex_digit ch ≡ some i) × IsRead (suc i) chars

hex_digit-place :
    (chars : Text) (i d : ℕ) {ch : ℕ}
    → IsRead i chars
    → get_elem? chars d ≡ some ch
    → hex_digit ch ≡ some (i + d)
hex_digit-place [] i d r e = ground arith
hex_digit-place (x ∷ chars) i zero r e = ground arith
hex_digit-place (x ∷ chars) i (suc d) r e =
    hex_digit-place chars (suc i) d (r.1) e ∙ ap some (omega arith)

hex_digit_at :
    (chars : Text) (d : ℕ) {ch : ℕ}
    → IsRead 0 chars
    → get_elem? chars d ≡ some ch
    → hex_digit ch ≡ some d
hex_digit_at chars d r e = hex_digit-place chars 0 d r e ∙ ap some (omega arith)

lower_digits-IsRead : IsRead 0 lower_digits
unfolding hex_digit
lower_digits-IsRead = ground arith

upper_digits-IsRead : IsRead 0 upper_digits
unfolding hex_digit
upper_digits-IsRead = ground arith

abbrev pub hex_value_from : ℕ → List ℕ → ℕ
hex_value_from n [] = n
hex_value_from n (d ∷ ds) = hex_value_from (n * 16 + d) ds

hex_value_from-ge : (n : ℕ) (ds : List ℕ) → n ≤ hex_value_from n ds
hex_value_from-ge n [] = omega arith
hex_value_from-ge n (d ∷ ds) = omega (arith, hex_value_from-ge (n * 16 + d) ds)

hex_digit-lt : (ch : ℕ) {d : ℕ} → hex_digit ch ≡ some d → d < 16
unfolding hex_digit
hex_digit-lt ch e = ground arith

push_hex_lem : (n d : ℕ) → n ≤ u64_max / 16 → d < 16 → push_hex n d ≡ n * 16 + d
push_hex_lem n d h k =
    let whole : n * 16 % 2 ^ 64 ≡ n * 16 = omega arith in rw whole (bit_or_nibble n d k)

hex_step :
    (n ch d : ℕ) (text : Text) (ds : List ℕ)
    → n ≤ u64_max
    → hex_digit ch ≡ some d
    → (n * 16 + d ≤ u64_max
        → hex_digits_64 (n * 16 + d) text ≡ (
            if leb (hex_value_from (n * 16 + d) ds) u64_max
            then expected (hex_value_from (n * 16 + d) ds)
            else unexpected overflow))
    → hex_digits_64 n (ch ∷ text) ≡ (
        if leb (hex_value_from n (d ∷ ds)) u64_max
        then expected (hex_value_from n (d ∷ ds))
        else unexpected overflow)
unfolding hex_digits_64
hex_step n ch d text ds fits e rest = elim (Bool-cases (ltb (u64_max / 16) n)) [
  | inl big ↦ rw (e, hex_digits_64) (rw big (ground (arith, hex_value_from-ge (n * 16 + d) ds)))
  | inr small ↦
      rw (e, hex_digits_64)
        (rw (small, push_hex_lem n d (ground arith) (hex_digit-lt _ e))
          (rest (ground (arith, hex_digit-lt _ e))))
]

hex_digits_64_lem :
    {text : Text} {ds : List ℕ} (n : ℕ)
    → n ≤ u64_max
    → IsHex text ds
    → hex_digits_64 n text ≡ (
        if leb (hex_value_from n ds) u64_max
        then expected (hex_value_from n ds)
        else unexpected overflow)
unfolding hex_digits_64
hex_digits_64_lem n fits nil = ground arith
hex_digits_64_lem n fits (lower {ch} {d} {text} {ds} e h) =
    hex_step n ch d text ds fits (hex_digit_at lower_digits d lower_digits-IsRead e)
      λ small. hex_digits_64_lem (n * 16 + d) small h
hex_digits_64_lem n fits (upper {ch} {d} {text} {ds} e h) =
    hex_step n ch d text ds fits (hex_digit_at upper_digits d upper_digits-IsRead e)
      λ small. hex_digits_64_lem (n * 16 + d) small h

-- On `0x` or `0X` and hexadecimal digits, at least one, `parse_hex_u64` gives their value, whether
-- or not it requires the prefix, and `overflow` exactly where the value is above 2 ^ 64 - 1.
parse_hex_u64-value :
    (text : Text) (ds : List ℕ) (x : ℕ) (require_prefix : Bool)
    → IsHex text ds
    → text ≢ []
    → (x ≡ b'x') ⊎ (x ≡ b'X')
    → parse_hex_u64 (b'0' ∷ x ∷ text) require_prefix ≡ (
        if leb (hex_value_from 0 ds) u64_max
        then expected (hex_value_from 0 ds)
        else unexpected overflow)
unfolding parse_hex_u64
parse_hex_u64-value [] ds x r h ne p = absurd (ne refl)
parse_hex_u64-value (ch ∷ text) ds x r h ne p = ground (arith, hex_digits_64_lem 0 (omega arith) h)
