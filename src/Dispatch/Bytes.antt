-- ===== src/Dispatch/Bytes.antt =====
-- The bytes of a text, and lengths that are even (src/condrv/condrv_server.hpp).
use Prim.Native.Nat.{bit_or, bit_and, digits, bit_or-bitwise, bit_and-bitwise}
use conhost.Prelude.{
  ℕ, zero, suc, ◌/◌, ◌%◌, ◌<◌, ◌≡◌, refl, arith, min, true, false, List, [], ◌∷◌, length, take,
  drop, All,
}
use conhost.Dispatch.Strings.{units_of, bytes_of}
use conhost.Dispatch.Aliases.{bad_alignment}

-- An odd number is not the union of even ones.
and_nothing : (n a : ℕ) → digits (λ b. zero) min n a 0 ≡ 0
and_nothing zero a = refl
and_nothing (suc n) zero = refl
and_nothing (suc n) (suc a) = omega (arith, and_nothing n (suc a / 2))

bit_and-one_even : (a : ℕ) → a % 2 ≡ 0 → bit_and a 1 ≡ 0
bit_and-one_even zero h = refl
bit_and-one_even (suc a) h = omega (arith, bit_and-bitwise (suc a) 1, and_nothing a (suc a / 2))

bit_or-even : (a b : ℕ) → a % 2 ≡ 0 → b % 2 ≡ 0 → bit_or a b % 2 ≡ 0
bit_or-even zero b p q = omega (arith, bit_or-bitwise 0 b)
bit_or-even (suc a) b p q = omega (arith, bit_or-bitwise (suc a) b)

pub bad_alignment-even : (a b : ℕ) → a % 2 ≡ 0 → b % 2 ≡ 0 → bad_alignment true (bit_or a b) ≡ false
bad_alignment-even a b p q = rw (bit_and-one_even (bit_or a b) (bit_or-even a b p q)) refl

abbrev pub IsByte : ℕ → Type 0
IsByte b = b < 256

pub All-take : (n : ℕ) (bytes : List ℕ) → All IsByte bytes → All IsByte (take n bytes)
All-take zero bytes a = tt
All-take (suc n) [] a = tt
All-take (suc n) (b ∷ bytes) a = (a.0, All-take n bytes a.1)

pub All-drop : (n : ℕ) (bytes : List ℕ) → All IsByte bytes → All IsByte (drop n bytes)
All-drop zero bytes a = a
All-drop (suc n) [] a = tt
All-drop (suc n) (b ∷ bytes) a = All-drop n bytes a.1

pub bytes_of-units_of :
    (bytes : List ℕ) → All IsByte bytes → length bytes % 2 ≡ 0 → bytes_of (units_of bytes) ≡ bytes
unfolding bytes_of units_of
bytes_of-units_of [] a h = refl
bytes_of-units_of (low ∷ []) a h = absurd (omega arith)
bytes_of-units_of (low ∷ high ∷ bytes) a h =
    let rest = bytes_of-units_of bytes a.1.1 (omega arith) in ground arith
