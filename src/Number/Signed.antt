-- ===== src/Number/Signed.antt =====
-- Casts and the unary minus of the signed number parser.
use conhost.Prelude.{ℕ, zero, suc, ◌-◌, ◌%◌, ◌^◌, ltb, if◌then◌else◌}
pub use conhost.Prelude.Int.{ℤ, pos, negsuc, pos_part, neg_part, ltb_ℤ}

-- `static_cast<int32_t>` of a `uint64_t`.
unfoldable pub to_i32 : ℕ → ℤ
to_i32 n = if ltb (n % 2 ^ 32) (2 ^ 31) then pos (n % 2 ^ 32) else negsuc (2 ^ 32 - 1 - n % 2 ^ 32)

-- Unary minus on `int32_t`, for a value that is not the least one.
abbrev pub neg : ℤ → ℤ
neg (pos zero) = pos zero
neg (pos (suc n)) = negsuc n
neg (negsuc n) = pos (suc n)
