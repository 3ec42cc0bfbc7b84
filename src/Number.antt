-- ===== src/Number.antt =====
-- src/serialization/fast_number.cpp: integers from and to text. A text is a list of UTF-16 code
-- units, a `uint32_t` or `uint64_t` is a number with its wrap-around written out, and an `int32_t`
-- is a ℤ. The float routines, which only wrap the standard library, are not modelled.
pub mod Signed
pub mod Value
pub mod Hex
pub mod Decimal
pub mod Tests
use Prim.Native.Nat.{bit_or}
use mathlib.Core.WellFounded.{Acc, WellFounded}
use mathlib.Core.Logic.{dite}
use native.Mathlib.Decide.{dec_lt}
use conhost.Prelude.{
  ℕ, zero, suc, ◌+◌, ◌-◌, ◌*◌, ◌/◌, ◌%◌, ◌^◌, ◌<◌, ltb, ◌==◌, if◌then◌else◌, Bool, true, false, not,
  ◌&&◌, ◌||◌, List, [], ◌∷◌, Text, within, length, leb, arith, Option, none, some,
}
use conhost.Prelude.Order.{lt_wf}
use conhost.Prelude.Result.{Expected, expected, unexpected, ◌>>=◌}
use Signed.{ℤ, pos, negsuc, to_i32, neg, ltb_ℤ}

pub data NumberErrorCode : Type 0 where
  empty_input invalid_character overflow underflow buffer_too_small conversion_failure :
      NumberErrorCode

abbrev pub i32_max : ℕ
i32_max = 2 ^ 31 - 1

abbrev pub u32_max : ℕ
u32_max = 2 ^ 32 - 1

abbrev pub u64_max : ℕ
u64_max = 2 ^ 64 - 1

abbrev pub Parsed : Type 0 → Type 0
Parsed A = Expected NumberErrorCode A

-- `ch - L'0'`, for a code unit that passed the test for a digit.
abbrev pub is_digit : ℕ → Bool
is_digit ch = within b'0' b'9' ch

-- `accumulator * 10 + digit`, in `uint64_t`.
abbrev pub push_digit : ℕ → ℕ → ℕ
push_digit accumulator ch = (accumulator * 10 + (ch - b'0')) % 2 ^ 64

-- The loop of `parse_unsigned_32`.
unfoldable pub unsigned_digits : ℕ → Text → Parsed ℕ
unsigned_digits accumulator [] = expected (accumulator % 2 ^ 32)
unsigned_digits accumulator (ch ∷ text) =
    if not (is_digit ch)
    then unexpected invalid_character
    else if ltb u32_max (push_digit accumulator ch)
    then unexpected overflow
    else unsigned_digits (push_digit accumulator ch) text

-- The test `index >= text.size()` behind the sign, then the loop.
abbrev pub nonempty_then {ℓ} :
    {A : Type ℓ} → (Text → Expected NumberErrorCode A) → Text → Expected NumberErrorCode A
nonempty_then loop [] = unexpected invalid_character
nonempty_then loop (ch ∷ text) = loop (ch ∷ text)

unfoldable pub parse_unsigned_32 : Text → Parsed ℕ
unfolding unsigned_digits
parse_unsigned_32 [] = unexpected empty_input
parse_unsigned_32 (ch ∷ text) =
    if ch == b'+'
    then nonempty_then (unsigned_digits 0) text
    else nonempty_then (unsigned_digits 0) (ch ∷ text)

-- What `parse_signed_32` returns behind its loop.
unfoldable pub signed_result : Bool → ℕ → ℤ
unfolding to_i32
signed_result negative accumulator =
    if not negative
    then to_i32 accumulator
    else if accumulator == i32_max + 1
    then negsuc i32_max
    else neg (to_i32 accumulator)

-- The loop of `parse_signed_32`.
unfoldable pub signed_digits : Bool → ℕ → Text → Parsed ℤ
unfolding signed_result
signed_digits negative accumulator [] = expected (signed_result negative accumulator)
signed_digits negative accumulator (ch ∷ text) =
    if not (is_digit ch)
    then unexpected invalid_character
    else if not negative && ltb i32_max (push_digit accumulator ch)
    then unexpected overflow
    else if negative && ltb (i32_max + 1) (push_digit accumulator ch)
    then unexpected underflow
    else signed_digits negative (push_digit accumulator ch) text

unfoldable pub parse_signed_32 : Text → Parsed ℤ
unfolding signed_digits
parse_signed_32 [] = unexpected empty_input
parse_signed_32 (ch ∷ text) =
    if ch == b'+' || ch == b'-'
    then nonempty_then (signed_digits (ch == b'-') 0) text
    else nonempty_then (signed_digits false 0) (ch ∷ text)

-- The value of a hexadecimal digit, `none` for any other code unit.
unfoldable pub hex_digit : ℕ → Option ℕ
hex_digit ch =
    if within b'0' b'9' ch
    then some (ch - b'0')
    else if within b'a' b'f' ch
    then some (ch - b'a' + 10)
    else if within b'A' b'F' ch
    then some (ch - b'A' + 10)
    else none

-- `(accumulator << 4) | digit`, in `uint64_t`.
abbrev pub push_hex : ℕ → ℕ → ℕ
push_hex accumulator digit = bit_or (accumulator * 16 % 2 ^ 64) digit

-- The loop of `parse_hex_unsigned_32`.
unfoldable pub hex_digits_32 : ℕ → Text → Parsed ℕ
hex_digits_32 accumulator [] = expected (accumulator % 2 ^ 32)
hex_digits_32 accumulator (ch ∷ text) = elim (hex_digit ch) [
  | none ↦ unexpected invalid_character
  | some digit ↦
      if ltb u32_max (push_hex accumulator digit)
      then unexpected overflow
      else hex_digits_32 (push_hex accumulator digit) text
]

-- The loop of `parse_hex_unsigned_64`, which tests before it shifts.
unfoldable pub hex_digits_64 : ℕ → Text → Parsed ℕ
hex_digits_64 accumulator [] = expected accumulator
hex_digits_64 accumulator (ch ∷ text) = elim (hex_digit ch) [
  | none ↦ unexpected invalid_character
  | some digit ↦
      if ltb (u64_max / 16) accumulator
      then unexpected overflow
      else hex_digits_64 (push_hex accumulator digit) text
]

-- Both `parse_hex_unsigned_*` before their loops: the empty text, the prefix, the empty rest.
unfoldable pub hex_prefixed : (Text → Parsed ℕ) → Text → Bool → Parsed ℕ
hex_prefixed loop [] require_prefix = unexpected empty_input
hex_prefixed loop (c ∷ []) require_prefix =
    if require_prefix then unexpected invalid_character else nonempty_then loop (c ∷ [])
hex_prefixed loop (c ∷ x ∷ text) require_prefix =
    if c == b'0' && (x == b'x' || x == b'X')
    then nonempty_then loop text
    else if require_prefix
    then unexpected invalid_character
    else nonempty_then loop (c ∷ x ∷ text)

unfoldable pub parse_hex_u32 : Text → Bool → Parsed ℕ
unfolding hex_prefixed hex_digits_32
parse_hex_u32 = hex_prefixed (hex_digits_32 0)

unfoldable pub parse_hex_u64 : Text → Bool → Parsed ℕ
unfolding hex_prefixed hex_digits_64
parse_hex_u64 = hex_prefixed (hex_digits_64 0)

unfoldable pub parse_u32 : Text → Parsed ℕ
unfolding parse_unsigned_32
parse_u32 text = parse_unsigned_32 text

unfoldable pub parse_i32 : Text → Parsed ℤ
unfolding parse_signed_32
parse_i32 text = parse_signed_32 text

-- The range tests of `parse_i16` on the number that `parse_signed_32` gave.
unfoldable pub narrow_i16 : ℤ → Parsed ℤ
narrow_i16 value =
    if ltb_ℤ (pos 32767) value
    then unexpected overflow
    else if ltb_ℤ value (negsuc 32767)
    then unexpected underflow
    else expected value

unfoldable pub parse_i16 : Text → Parsed ℤ
unfolding parse_signed_32 narrow_i16
parse_i16 text = parse_signed_32 text >>= narrow_i16

-- `std::to_chars` of an unsigned value: its decimal digits, most significant first, in front of
-- what stands behind them.
decimal_acc : (n : ℕ) → Acc ◌<◌ n → Text → Text
decimal_acc n (Acc.intro _ smaller) rest =
    dite (dec_lt 9 n)
      (λ h. decimal_acc (n / 10) (smaller (n / 10) (omega arith)) ((b'0' + n % 10) ∷ rest))
      (λ _. (b'0' + n) ∷ rest)

unfoldable pub decimal : ℕ → Text → Text
unfolding decimal_acc lt_wf dec_lt
decimal n = decimal_acc n (lt_wf.apply n)

-- `format_integer` hands `std::to_chars` a buffer of 64 bytes; what does not fit is an error.
format_buffer : Text → Parsed Text
format_buffer digits =
    if leb (length digits) 64 then expected digits else unexpected buffer_too_small

unfoldable pub format_u64 : ℕ → Parsed Text
unfolding decimal format_buffer
format_u64 value = format_buffer (decimal value [])

unfoldable pub format_i64 : ℤ → Parsed Text
unfolding decimal format_buffer
format_i64 (pos n) = format_buffer (decimal n [])
format_i64 (negsuc n) = format_buffer (b'-' ∷ decimal (suc n) [])
