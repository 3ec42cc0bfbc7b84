-- ===== src/Number/Decimal.antt =====
-- The decimal print of a number, read back by the parsers.
use mathlib.Core.Logic.{ite, dite, if_pos, if_neg}
use mathlib.Core.List.{cons-ne-nil}
use mathlib.Core.WellFounded
use mathlib.Core.WellFounded.{Acc, Acc-prop}
use native.Mathlib.Decide.{dec_lt}
use native.Mathlib.Nat.{pow-suc}
use conhost.Prelude.{
  true, ℕ, zero, suc, ◌+◌, ◌/◌, ◌%◌, ◌^◌, ◌≤◌, ◌<◌, ◌≡◌, ◌≢◌, ap, ◌∙◌, arith, [], ◌∷◌, Text, length,
}
use conhost.Prelude.Order.{lt_wf}
use conhost.Prelude.Result.{expected}
use conhost.Number.Signed.{ℤ, pos, negsuc, pos_part, neg_part}
use conhost.Number.Value.{IsDigits, value_from, parse_u32-value, parse_i32-value}
use conhost.Number.{
  is_digit, i32_max, u32_max, u64_max, decimal, decimal_acc, format_buffer, format_u64, format_i64,
  parse_u32, parse_i32,
}

-- Any two proofs of accessibility are equal, so the loop may be stepped.
decimal_acc_step :
    (n : ℕ) (w : Acc ◌<◌ n) (w' : Acc ◌<◌ (n / 10)) (rest : Text)
    → decimal_acc n w rest
      ≡ ite (dec_lt 9 n) (decimal_acc (n / 10) w' ((b'0' + n % 10) ∷ rest)) ((b'0' + n) ∷ rest)
unfolding decimal_acc
decimal_acc_step n (Acc.intro _ smaller) w' rest = λ i.
    dite (dec_lt 9 n)
      (λ h.
        decimal_acc (n / 10) (Acc-prop (smaller (n / 10) (omega arith)) w' i)
          ((b'0' + n % 10) ∷ rest))
      (λ _. (b'0' + n) ∷ rest)

decimal_step :
    (n : ℕ) (rest : Text)
    → decimal n rest
      ≡ ite (dec_lt 9 n) (decimal (n / 10) ((b'0' + n % 10) ∷ rest)) ((b'0' + n) ∷ rest)
unfolding decimal
decimal_step n = decimal_acc_step n (lt_wf.apply n) (lt_wf.apply (n / 10))

pub decimal_last : (n : ℕ) (rest : Text) → ¬ (9 < n) → decimal n rest ≡ (b'0' + n) ∷ rest
decimal_last n rest h = rw (decimal_step n rest, if_neg (dec_lt 9 n) h)

pub decimal_more :
    (n : ℕ) (rest : Text) → 9 < n → decimal n rest ≡ decimal (n / 10) ((b'0' + n % 10) ∷ rest)
decimal_more n rest h = rw (decimal_step n rest, if_pos (dec_lt 9 n) h)

-- Induction along the loop.
pub decimal_induction {ℓ} :
    (C : ℕ → Type ℓ)
    → ((n : ℕ) → ¬ (9 < n) → C n)
    → ((n : ℕ) → 9 < n → C (n / 10) → C n)
    → (n : ℕ) → C n
decimal_induction C last more n =
    WellFounded.induction lt_wf {C = C} n
      λ m ih. elim (dec_lt 9 m) [ yes h ↦ more m h (ih (m / 10) (omega arith)) | no h ↦ last m h ]

value_from-decimal : (n : ℕ) (rest : Text) → value_from 0 (decimal n rest) ≡ value_from n rest
value_from-decimal =
    decimal_induction (λ n. (rest : Text) → value_from 0 (decimal n rest) ≡ value_from n rest)
      (λ n h rest. rw (decimal_last n rest h) (ap (λ (m : ℕ). value_from m rest) (omega arith)))
      (λ n h ih rest.
        rw (decimal_more n rest h)
          (ih ((b'0' + n % 10) ∷ rest) ∙ ap (λ (m : ℕ). value_from m rest) (omega arith)))

IsDigits-decimal : (n : ℕ) (rest : Text) → IsDigits rest → IsDigits (decimal n rest)
IsDigits-decimal =
    decimal_induction (λ n. (rest : Text) → IsDigits rest → IsDigits (decimal n rest))
      (λ n h rest d. rw (decimal_last n rest h) (ground arith, d))
      (λ n h ih rest d. rw (decimal_more n rest h) (ih ((b'0' + n % 10) ∷ rest) (ground arith, d)))

-- The digits that `decimal` writes in front of the rest.
abbrev pub width : ℕ → ℕ
width n = length (decimal n [])

pub length-decimal-width : (n : ℕ) (rest : Text) → length (decimal n rest) ≡ width n + length rest
length-decimal-width =
    decimal_induction (λ n. (rest : Text) → length (decimal n rest) ≡ width n + length rest)
      (λ n h rest. rw (decimal_last n rest h, decimal_last n [] h) (omega arith))
      (λ n h ih rest.
        rw (decimal_more n rest h, decimal_more n [] h)
          (omega (arith, ih ((b'0' + n % 10) ∷ rest), ih ((b'0' + n % 10) ∷ []))))

-- The first code unit is a digit.
pub decimal-head :
    (n : ℕ) (rest : Text)
    → (d : ℕ) × (text : Text) × (decimal n rest ≡ d ∷ text) × (is_digit d ≡ true)
decimal-head =
    decimal_induction
      (λ n.
        (rest : Text) → (d : ℕ) × (text : Text) × (decimal n rest ≡ d ∷ text) × (is_digit d ≡ true))
      (λ n h rest. (b'0' + n, rest, decimal_last n rest h, ground arith))
      (λ n h ih rest. rw (decimal_more n rest h) (ih ((b'0' + n % 10) ∷ rest)))

decimal-ne-nil : (n : ℕ) (rest : Text) → decimal n rest ≢ []
decimal-ne-nil =
    decimal_induction (λ n. (rest : Text) → decimal n rest ≢ [])
      (λ n h rest. rw (decimal_last n rest h) (cons-ne-nil (b'0' + n) rest))
      (λ n h ih rest. rw (decimal_more n rest h) (ih ((b'0' + n % 10) ∷ rest)))

pub length-decimal :
    (k n : ℕ) (rest : Text) → n < 10 ^ suc k → length (decimal n rest) ≤ suc k + length rest
length-decimal zero n rest h = rw (decimal_last n rest (omega arith)) (omega arith)
length-decimal (suc k) n rest h = elim (dec_lt 9 n) [
  | yes big ↦ rw (decimal_more n rest big) (
      omega (
        arith,
        length-decimal k (n / 10) ((b'0' + n % 10) ∷ rest) (omega (arith, pow-suc 10 (suc k))),
      ))
  | no small ↦ rw (decimal_last n rest small) (omega arith)
]

format_buffer-decimal :
    (n : ℕ) → n ≤ u64_max → format_buffer (decimal n []) ≡ expected (decimal n [])
unfolding format_buffer
format_buffer-decimal n h = ground (arith, length-decimal 19 n [] (omega arith))

-- `format_u64` succeeds on every `uint64_t`; what it prints of a `uint32_t`, `parse_u32` reads back.
parse_u32-format_u64 :
    (n : ℕ)
    → n ≤ u64_max
    → (text : Text) × (format_u64 n ≡ expected text) × (n ≤ u32_max → parse_u32 text ≡ expected n)
unfolding format_u64
parse_u32-format_u64 n h = (
  decimal n [],
  format_buffer-decimal n h,
  λ fits. ground (
    arith,
    (parse_u32-value (decimal n []) (IsDigits-decimal n [] tt) (decimal-ne-nil n [])).0,
    value_from-decimal n [],
  ),
)

-- `format_i64` succeeds on every `int32_t`, and `parse_i32` reads back what it prints.
pub parse_i32-format_i64 :
    (z : ℤ)
    → pos_part z ≤ i32_max
    → neg_part z ≤ i32_max + 1
    → (text : Text) × (format_i64 z ≡ expected text) × (parse_i32 text ≡ expected z)
unfolding format_i64 format_buffer
parse_i32-format_i64 (pos n) h k = (
  decimal n [],
  format_buffer-decimal n (omega arith),
  ground (
    arith,
    (parse_i32-value (decimal n []) (IsDigits-decimal n [] tt) (decimal-ne-nil n [])).0,
    value_from-decimal n [],
  ),
)
parse_i32-format_i64 (negsuc n) h k = (
  b'-' ∷ decimal (suc n) [],
  ground (arith, length-decimal 19 (suc n) [] (omega arith)),
  ground (
    arith,
    (parse_i32-value (decimal (suc n) []) (IsDigits-decimal (suc n) [] tt)
        (decimal-ne-nil (suc n) [])).2,
    value_from-decimal (suc n) [],
  ),
)
