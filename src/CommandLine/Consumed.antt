-- ===== src/CommandLine/Consumed.antt =====
-- The loop of `parse_tokens` (src/cli/console_arguments.cpp) comes to its end, with no token left.
use conhost.Prelude.{
  ℕ, zero, suc, ◌≤◌, ◌≡◌, refl, arith, if◌then◌else◌, Bool, true, false, ◌&&◌, not, Option, none,
  some, List, [], ◌∷◌, length, Text, codes, equal, starts_with,
}
use conhost.Prelude.Result.{Expected, expected, unexpected, ◌>>=◌}
use conhost.CommandLine.{ParseError, ConsoleArguments}
use conhost.CommandLine.Tokens.{
  Turn, goes_on, with_value, set_server_handle, set_client_command_line, flag, valued, parse_turn,
  parse_tokens,
}

-- A turn that succeeds leaves no more tokens than stand behind its own, and none if it is the last.
abbrev Progress : List Text → Expected ParseError Turn → Type 0
Progress rest (unexpected e) = Unit
Progress rest (expected turn) =
    (length turn.left ≤ length rest) × (turn.again ≡ false → turn.left ≡ [])

Progress-if :
    (rest : List Text) (t : Bool) (x y : Expected ParseError Turn)
    → Progress rest x
    → Progress rest y
    → Progress rest (if t then x else y)
Progress-if rest true x y p q = p
Progress-if rest false x y p q = q

then-Progress :
    (rest left : List Text) (result : Expected ParseError ConsoleArguments)
    → length left ≤ length rest
    → Progress rest (result >>= goes_on left)
then-Progress rest left (unexpected e) h = tt
then-Progress rest left (expected a) h = (h, λ e. ground (arith, e))

with_value-Progress :
    (rest : List Text) (use_value : Text → Expected ParseError ConsoleArguments)
    → Progress rest (with_value rest use_value)
with_value-Progress [] use_value = tt
with_value-Progress (value ∷ rest) use_value =
    then-Progress (value ∷ rest) rest (use_value value) (omega arith)

set_client_command_line-Progress :
    (arg : Text) (rest : List Text) (a : ConsoleArguments) (skip : Bool)
    → Progress rest (set_client_command_line a (arg ∷ rest) skip)
unfolding set_client_command_line
set_client_command_line-Progress arg rest a skip =
    Progress-if rest (skip && not (equal arg (codes "--"))) _ _ tt (omega arith, λ e. refl)

valued-Progress :
    (arg : Text) (rest : List Text) (a : ConsoleArguments) → Progress rest (valued arg rest a)
unfolding valued
valued-Progress arg rest a =
    Progress-if rest (equal arg (codes "--width")) _ _ (with_value-Progress rest _) (
      Progress-if rest (equal arg (codes "--height")) _ _ (with_value-Progress rest _) (
        Progress-if rest (equal arg (codes "--feature")) _ _ (with_value-Progress rest _) (
          Progress-if rest (equal arg (codes "--textMeasurement")) _ _ (with_value-Progress rest _)
            (set_client_command_line-Progress arg rest a (equal arg (codes "--"))))))

flagged-Progress :
    (arg : Text) (rest : List Text) (a : ConsoleArguments) (found : Option ConsoleArguments)
    → Progress rest (elim found [ some set ↦ goes_on rest set | none ↦ valued arg rest a ])
flagged-Progress arg rest a (some set) = then-Progress rest rest (expected set) (omega arith)
flagged-Progress arg rest a none = valued-Progress arg rest a

parse_turn-Progress :
    (arg : Text) (rest : List Text) (a : ConsoleArguments) → Progress rest (parse_turn arg rest a)
unfolding parse_turn
parse_turn-Progress arg rest a =
    Progress-if rest (starts_with arg (codes "0x")) _ _
      (then-Progress rest rest (set_server_handle a arg) (omega arith))
      (Progress-if rest (equal arg (codes "--server")) _ _ (with_value-Progress rest _) (
        Progress-if rest (equal arg (codes "--signal")) _ _ (with_value-Progress rest _)
          (flagged-Progress arg rest a (flag arg a))))

-- A parse that succeeds has consumed every token.
abbrev pub Consumed : Expected ParseError (List Text × ConsoleArguments) → Type 0
Consumed (unexpected e) = Unit
Consumed (expected done) = done.0 ≡ []

after_turn-Consumed :
    (fuel : ℕ) (rest : List Text) (turn : Expected ParseError Turn)
    → ((left : List Text) (a : ConsoleArguments)
        → length left ≤ fuel
        → Consumed (parse_tokens fuel left a))
    → length rest ≤ fuel
    → Progress rest turn
    → Consumed (
        turn >>= λ t.
        if t.again then parse_tokens fuel t.left t.arguments else expected (t.left, t.arguments))
after_turn-Consumed fuel rest (unexpected e) ih h p = tt
after_turn-Consumed fuel rest (expected turn) ih h p = chosen turn.again (p.1)
  where
    chosen :
        (again : Bool)
        → (again ≡ false → turn.left ≡ [])
        → Consumed (
            if again
            then parse_tokens fuel turn.left turn.arguments
            else expected (turn.left, turn.arguments))
    chosen true q = ih turn.left turn.arguments (omega arith)
    chosen false q = q refl

tokens-Consumed :
    (fuel : ℕ) (args : List Text) (a : ConsoleArguments)
    → length args ≤ fuel
    → Consumed (parse_tokens fuel args a)
unfolding parse_tokens
tokens-Consumed zero [] a h = refl
tokens-Consumed zero (arg ∷ rest) a h = ground arith
tokens-Consumed (suc fuel) [] a h = refl
tokens-Consumed (suc fuel) (arg ∷ rest) a h =
    after_turn-Consumed fuel rest (parse_turn arg rest a) (tokens-Consumed fuel) (omega arith)
      (parse_turn-Progress arg rest a)

-- Whatever the tokens are, the loop ends within one turn for each of them: it fails, or it has consumed
-- them all. So `parse` never finds tokens behind a parse that succeeded.
pub parse_tokens-Consumed :
    (args : List Text) (a : ConsoleArguments) → Consumed (parse_tokens (length args) args a)
parse_tokens-Consumed args a = tokens-Consumed (length args) args a (omega arith)
