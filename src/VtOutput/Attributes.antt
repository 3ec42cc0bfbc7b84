-- ===== src/VtOutput/Attributes.antt =====
-- The parameters of CSI m as a list of commands (src/condrv/condrv_server.hpp): what `apply_sgr` makes of
-- them.
use Prim.Native.Nat.{bit_and, bit_or}
use conhost.Prelude.{
  ℕ, zero, suc, ◌+◌, ◌-◌, ◌≤◌, ◌≡◌, refl, ap, ◌∙◌, arith, Bool, ◌==◌, true, false, List, [], ◌∷◌,
  ◌++◌, length, length-drop, drop, drop-append,
}
use conhost.VtOutput.Sgr.{
  clamp_byte, set_foreground, set_background, set_palette_index, nearest_palette_index, set_indexed,
  extended_color, sgr_step, sgr_loop, apply_sgr,
}

extended_color-taken :
    (table : List ℕ) (foreground : Bool) (rest : List ℕ) (attributes : ℕ)
    → 1 ≤ (extended_color table foreground rest attributes).1
unfolding extended_color
extended_color-taken table foreground [] attributes = omega arith
extended_color-taken table foreground (mode ∷ []) attributes = omega arith
extended_color-taken table foreground (mode ∷ n ∷ []) attributes = ground arith
extended_color-taken table foreground (mode ∷ n ∷ g ∷ []) attributes = ground arith
extended_color-taken table foreground (mode ∷ r ∷ g ∷ b ∷ rest) attributes = ground arith

sgr_step-taken :
    (table : List ℕ) (defaults param : ℕ) (rest : List ℕ) (attributes : ℕ)
    → 1 ≤ (sgr_step table defaults param rest attributes).1
unfolding sgr_step
sgr_step-taken table defaults param rest attributes =
    ground (arith, extended_color-taken table (param == 38) rest attributes)

-- With fuel for every parameter, one more does not matter.
sgr_loop-suc :
    (table : List ℕ) (defaults fuel : ℕ) (params : List ℕ) (attributes : ℕ)
    → length params ≤ fuel
    → sgr_loop table defaults (suc fuel) params attributes
      ≡ sgr_loop table defaults fuel params attributes
unfolding sgr_loop
sgr_loop-suc table defaults zero [] attributes h = refl
sgr_loop-suc table defaults (suc fuel) [] attributes h = refl
sgr_loop-suc table defaults zero (param ∷ rest) attributes h = ground arith
sgr_loop-suc table defaults (suc fuel) (param ∷ rest) attributes h =
    let step = sgr_step table defaults param rest attributes in
    let taken = sgr_step-taken table defaults param rest attributes in
    sgr_loop-suc table defaults fuel (drop (step.1) (param ∷ rest)) (step.0)
      (omega (arith, length-drop (step.1) (param ∷ rest)))

sgr_loop-fuel :
    (table : List ℕ) (defaults k fuel : ℕ) (params : List ℕ) (attributes : ℕ)
    → fuel ≡ k + length params
    → sgr_loop table defaults fuel params attributes ≡ apply_sgr table defaults params attributes
unfolding apply_sgr
sgr_loop-fuel table defaults zero fuel params attributes e =
    ap (λ (n : ℕ). sgr_loop table defaults n params attributes) (e ∙ omega arith)
sgr_loop-fuel table defaults (suc k) fuel params attributes e =
    let more : fuel ≡ suc (k + length params) = omega (arith, e) in
    ap (λ (n : ℕ). sgr_loop table defaults n params attributes) more
    ∙ sgr_loop-suc table defaults (k + length params) params attributes (omega arith)
    ∙ sgr_loop-fuel table defaults k (k + length params) params attributes refl

-- A turn of the loop, with no bound on the turns: it takes what `sgr_step` says off the front.
apply_sgr-sgr_step :
    (table : List ℕ) (defaults param : ℕ) (rest : List ℕ) (attributes : ℕ)
    → (apply_sgr table defaults [] attributes ≡ attributes)
      × (apply_sgr table defaults (param ∷ rest) attributes
          ≡ apply_sgr table defaults
              (drop ((sgr_step table defaults param rest attributes).1) (param ∷ rest))
              ((sgr_step table defaults param rest attributes).0))
      × (length (drop ((sgr_step table defaults param rest attributes).1) (param ∷ rest))
          ≤ length rest)
unfolding apply_sgr sgr_loop
apply_sgr-sgr_step table defaults param rest attributes =
    let step = sgr_step table defaults param rest attributes in
    let left = drop (step.1) (param ∷ rest) in
    let fewer : length left ≤ length rest = omega (
      arith,
      length-drop (step.1) (param ∷ rest),
      sgr_step-taken table defaults param rest attributes,
    ) in
    (
      refl,
      sgr_loop-fuel table defaults (length rest - length left) (length rest) left (step.0)
          (omega (arith, fewer)),
      fewer,
    )

-- What a program asks for with CSI m: the commands of the standard that the source knows, with colors of
-- three bits, a color of the palette of 256, and a color by its components.
pub data Sgr : Type 0 where
  all_off : Sgr
  bold : Sgr
  not_bold : Sgr
  underlined : Sgr
  not_underlined : Sgr
  reversed : Sgr
  not_reversed : Sgr
  own_foreground : Sgr
  own_background : Sgr
  foreground : (bright : Bool) (k : ℕ) → k ≤ 7 → Sgr
  background : (bright : Bool) (k : ℕ) → k ≤ 7 → Sgr
  palette : (is_foreground : Bool) (n : ℕ) → Sgr
  color : (is_foreground : Bool) (red green blue : ℕ) → Sgr

-- The first parameter of a command, and those behind it.
abbrev pub first_param : Sgr → ℕ
first_param all_off = 0
first_param bold = 1
first_param not_bold = 22
first_param underlined = 4
first_param not_underlined = 24
first_param reversed = 7
first_param not_reversed = 27
first_param own_foreground = 39
first_param own_background = 49
first_param (foreground false k h) = 30 + k
first_param (foreground true k h) = 90 + k
first_param (background false k h) = 40 + k
first_param (background true k h) = 100 + k
first_param (palette true n) = 38
first_param (palette false n) = 48
first_param (color true red green blue) = 38
first_param (color false red green blue) = 48

abbrev pub more_params : Sgr → List ℕ
more_params (palette is_foreground n) = 5 ∷ n ∷ []
more_params (color is_foreground red green blue) = 2 ∷ red ∷ green ∷ blue ∷ []
more_params command = []

abbrev pub params_of : List Sgr → List ℕ
params_of [] = []
params_of (command ∷ commands) = (first_param command ∷ more_params command) ++ params_of commands

-- What a command does to the attributes.
abbrev pub perform : List ℕ → ℕ → Sgr → ℕ → ℕ
perform table defaults all_off a = defaults
perform table defaults bold a = bit_or a 8
perform table defaults not_bold a = bit_and a (65535 - 8)
perform table defaults underlined a = bit_or a 32768
perform table defaults not_underlined a = bit_and a (65535 - 32768)
perform table defaults reversed a = bit_or a 16384
perform table defaults not_reversed a = bit_and a (65535 - 16384)
perform table defaults own_foreground a = bit_or (bit_and a (65535 - 15)) (bit_and defaults 15)
perform table defaults own_background a = bit_or (bit_and a (65535 - 240)) (bit_and defaults 240)
perform table defaults (foreground bright k h) a = set_foreground k bright a
perform table defaults (background bright k h) a = set_background k bright a
perform table defaults (palette is_foreground n) a = set_indexed table is_foreground n a
perform table defaults (color is_foreground red green blue) a =
    set_palette_index
      (nearest_palette_index table (clamp_byte red) (clamp_byte green) (clamp_byte blue))
      is_foreground a

abbrev pub perform_all : List ℕ → ℕ → List Sgr → ℕ → ℕ
perform_all table defaults [] a = a
perform_all table defaults (command ∷ commands) a =
    perform_all table defaults commands (perform table defaults command a)

palette_step :
    (table : List ℕ) (is_foreground : Bool) (n : ℕ) (rest : List ℕ) (a : ℕ)
    → extended_color table is_foreground (5 ∷ n ∷ rest) a ≡ (set_indexed table is_foreground n a, 3)
unfolding extended_color
palette_step table is_foreground n [] a = refl
palette_step table is_foreground n (r ∷ []) a = refl
palette_step table is_foreground n (r ∷ g ∷ rest) a = refl

-- A turn takes one command, all of its parameters and no more, whatever is behind them.
sgr_step-command :
    (table : List ℕ) (defaults : ℕ) (command : Sgr) (rest : List ℕ) (a : ℕ)
    → sgr_step table defaults (first_param command) (more_params command ++ rest) a
      ≡ (perform table defaults command a, length (first_param command ∷ more_params command))
unfolding sgr_step extended_color
sgr_step-command table defaults all_off rest a = refl
sgr_step-command table defaults bold rest a = refl
sgr_step-command table defaults not_bold rest a = refl
sgr_step-command table defaults underlined rest a = refl
sgr_step-command table defaults not_underlined rest a = refl
sgr_step-command table defaults reversed rest a = refl
sgr_step-command table defaults not_reversed rest a = refl
sgr_step-command table defaults own_foreground rest a = refl
sgr_step-command table defaults own_background rest a = refl
sgr_step-command table defaults (foreground false k h) rest a = ground arith
sgr_step-command table defaults (foreground true k h) rest a = ground arith
sgr_step-command table defaults (background false k h) rest a = ground arith
sgr_step-command table defaults (background true k h) rest a = ground arith
sgr_step-command table defaults (palette true n) rest a = palette_step table true n rest a
sgr_step-command table defaults (palette false n) rest a = palette_step table false n rest a
sgr_step-command table defaults (color true red green blue) rest a = refl
sgr_step-command table defaults (color false red green blue) rest a = refl

-- The parameters of commands of `Sgr`, one behind another in one CSI m, do what these do, one after
-- another: `apply_sgr` takes for each command its parameters and no other, also where a command has three
-- or five of them.
pub apply_sgr-perform_all :
    (table : List ℕ) (defaults : ℕ) (commands : List Sgr) (a : ℕ)
    → apply_sgr table defaults (params_of commands) a ≡ perform_all table defaults commands a
unfolding apply_sgr sgr_loop
apply_sgr-perform_all table defaults [] a = refl
apply_sgr-perform_all table defaults (command ∷ commands) a =
    let rest = params_of commands in
    let params = first_param command ∷ more_params command in
    let (empty, turn, fewer) =
      apply_sgr-sgr_step table defaults (first_param command) (more_params command ++ rest) a in
    let taken = sgr_step-command table defaults command rest a in
    turn
    ∙ rw (taken, drop-append params rest)
        (apply_sgr-perform_all table defaults commands (perform table defaults command a))
