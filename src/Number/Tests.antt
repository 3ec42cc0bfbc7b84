-- ===== src/Number/Tests.antt =====
-- Runs of the number routines, and the theorems at concrete inputs.
use conhost.Prelude.{◌≡◌, refl, Text, codes, true, false}
use native.Mathlib.Omega.{arith}
use conhost.Prelude.Result.{expected, unexpected}
use conhost.Number.Signed.{pos, negsuc}
use conhost.Number.Decimal.{parse_i32-format_i64}
use conhost.Number.{
  invalid_character, overflow, underflow, parse_u32, parse_i32, parse_i16, parse_hex_u32,
  parse_hex_u64, format_u64, format_i64, hex_digit,
}

parses :
    (parse_u32 (codes "+4294967295") ≡ expected 4294967295)
    × (parse_u32 (codes "4294967296") ≡ unexpected overflow)
    × (parse_i32 (codes "-2147483648") ≡ expected (negsuc 2147483647))
    × (parse_i32 (codes "-") ≡ unexpected invalid_character)
    × (parse_i16 (codes "-32769") ≡ unexpected underflow)
    × (parse_i16 (codes "120") ≡ expected (pos 120))
    × (parse_hex_u32 (codes "fF") false ≡ expected 255)
    × (parse_hex_u64 (codes "0x10000000000000000") true ≡ unexpected overflow)
    × (parse_hex_u64 (codes "12") true ≡ unexpected invalid_character)
unfolding parse_u32 parse_i32 parse_i16 parse_hex_u32 parse_hex_u64 hex_digit
parses = (refl, refl, refl, refl, refl, refl, refl, refl, refl)

prints :
    (format_u64 18446744073709551615 ≡ expected (codes "18446744073709551615"))
    × (format_i64 (negsuc 41) ≡ expected (codes "-42"))
unfolding format_u64 format_i64
prints = (refl, refl)

parse_i32-format_i64_example :
    (text : Text) × (format_i64 (negsuc 2147483647) ≡ expected text)
    × (parse_i32 text ≡ expected (negsuc 2147483647))
parse_i32-format_i64_example = parse_i32-format_i64 (negsuc 2147483647) (omega arith) (omega arith)
