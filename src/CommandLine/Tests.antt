-- ===== src/CommandLine/Tests.antt =====
-- Command lines and arguments, and the theorems at concrete inputs.
use conhost.Prelude.{
  ℕ, suc, ◌+◌, ◌/◌, ◌%◌, ◌==◌, ◌≡◌, refl, arith, if◌then◌else◌, Bool, true, false, not, ◌&&◌, List,
  [], ◌∷◌, ◌++◌, length, replicate, Text, codes,
}
use conhost.CommandLine.{is_space, has_space, added_size, escape_loop, escape_argument, constructed}
use conhost.CommandLine.Escape.{IsReader, argument-escape_argument}
use conhost.CommandLine.Tokens.{parse_tokens}
use conhost.CommandLine.Consumed.{Consumed, parse_tokens-Consumed}

-- A reader by the rules.
unfoldable read_argument : Bool → ℕ → Text → Text
read_argument q n [] = replicate n 92
read_argument q n (ch ∷ text) =
    let inside = read_argument q (if ch == 92 then suc n else 0) text in
    let toggled = read_argument (not q) 0 text in
    if ch == 92
    then inside
    else if ch == b'"'
    then replicate (n / 2) 92 ++ (if n % 2 == 0 then toggled else b'"' ∷ inside)
    else if not q && is_space ch
    then replicate n 92
    else replicate n 92 ++ ch ∷ inside

half_even : (n : ℕ) → (n + n) / 2 ≡ n
half_even n = omega arith

half_odd : (n : ℕ) → suc (n + n) / 2 ≡ n
half_odd n = omega arith

even_remainder : (n : ℕ) → ((n + n) % 2 == 0) ≡ true
even_remainder n = ground arith

odd_remainder : (n : ℕ) → (suc (n + n) % 2 == 0) ≡ false
odd_remainder n = ground arith

read_even :
    (q : Bool) (n : ℕ) (text : Text)
    → read_argument q (n + n) (b'"' ∷ text) ≡ replicate n 92 ++ read_argument (not q) 0 text
unfolding read_argument
read_even q n text = rw (half_even n, even_remainder n) refl

read_odd :
    (q : Bool) (n : ℕ) (text : Text)
    → read_argument q (suc (n + n)) (b'"' ∷ text) ≡ replicate n 92 ++ b'"' ∷ read_argument q 0 text
unfolding read_argument
read_odd q n text = rw (half_odd n, odd_remainder n) refl

read_other :
    (q : Bool) (n ch : ℕ) (text : Text)
    → (ch == 92) ≡ false
    → (ch == b'"') ≡ false
    → (not q && is_space ch) ≡ false
    → read_argument q n (ch ∷ text) ≡ replicate n 92 ++ ch ∷ read_argument q 0 text
unfolding read_argument
read_other q n ch text e f g = simp (e, f, g) refl

read_slash :
    (q : Bool) (n : ℕ) (text : Text) → read_argument q n (92 ∷ text) ≡ read_argument q (suc n) text
unfolding read_argument
read_slash q n text = refl

read_ends : (q : Bool) (n : ℕ) → read_argument q n [] ≡ replicate n 92
unfolding read_argument
read_ends q n = refl

read_argument-IsReader : IsReader read_argument
read_argument-IsReader = record {
  ends = read_ends;
  slash = read_slash;
  even_quote = read_even;
  odd_quote = read_odd;
  other = read_other;
}

-- `a "b\` with a space, a quote and a backslash at its end.
abbrev awkward : Text
awkward = b'a' ∷ b' ' ∷ b'"' ∷ b'b' ∷ 92 ∷ []

escaped_awkward : escape_argument awkward ≡ codes "\"a \\\"b\\\\\""
unfolding escape_argument added_size has_space escape_loop
escaped_awkward = refl

argument-escape_argument_example : read_argument false 0 (escape_argument awkward) ≡ awkward
argument-escape_argument_example =
    argument-escape_argument read_argument read_argument-IsReader awkward

abbrev tokens : List Text
tokens = codes "--headless" ∷ codes "--width" ∷ codes "80" ∷ codes "--" ∷ codes "cmd" ∷ []

parse_tokens-Consumed_example :
    Consumed (parse_tokens (length tokens) tokens (constructed (codes "conhost") 0 0))
parse_tokens-Consumed_example = parse_tokens-Consumed tokens (constructed (codes "conhost") 0 0)
