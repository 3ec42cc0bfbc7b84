-- ===== src/VtOutput/Sgr.antt =====
-- `apply_sgr` of `apply_text_to_screen_buffer` (src/condrv/condrv_server.hpp): the attributes that a
-- CSI m sequence leaves. The bits of the attributes are those of the Windows console.
use Prim.Native.Nat.{bit_and, bit_or}
use conhost.Prelude.{
  ℕ, zero, suc, ◌+◌, ◌-◌, ◌*◌, ◌/◌, ◌%◌, ◌^◌, ltb, leb, ◌==◌, if◌then◌else◌, Bool, true, false,
  ◌||◌, List, [], ◌∷◌, length, drop, within,
}

abbrev pub fg_full_mask : ℕ
fg_full_mask = 15

abbrev pub bg_full_mask : ℕ
bg_full_mask = 240

abbrev pub foreground_intensity : ℕ
foreground_intensity = 8

abbrev pub reverse_video : ℕ
reverse_video = 16384

abbrev pub underscore : ℕ
underscore = 32768

-- `attributes & ~mask`, in a `USHORT`.
abbrev pub clear : ℕ → ℕ → ℕ
clear mask attributes = bit_and attributes (65535 - mask)

abbrev pub set_if : Bool → ℕ → ℕ → ℕ
set_if test mask attributes = if test then bit_or attributes mask else attributes

-- The bit of weight `2 ^ k` is set.
abbrev pub has_bit : ℕ → ℕ → Bool
has_bit weight n = (n / weight) % 2 == 1

unfoldable pub set_foreground : ℕ → Bool → ℕ → ℕ
set_foreground color bright attributes = set_if bright 8 (
    set_if (has_bit 4 color) 1
      (set_if (has_bit 2 color) 2 (set_if (has_bit 1 color) 4 (clear fg_full_mask attributes))))

unfoldable pub set_background : ℕ → Bool → ℕ → ℕ
set_background color bright attributes = set_if bright 128 (
    set_if (has_bit 4 color) 16
      (set_if (has_bit 2 color) 32 (set_if (has_bit 1 color) 64 (clear bg_full_mask attributes))))

unfoldable pub set_palette_index : ℕ → Bool → ℕ → ℕ
set_palette_index index foreground attributes =
    if foreground
    then bit_or (clear fg_full_mask attributes) (index % 16)
    else bit_or (clear bg_full_mask attributes) (index % 16 * 16)

abbrev pub clamp_byte : ℕ → ℕ
clamp_byte value = if ltb 255 value then 255 else value

-- The square of the difference of two bytes.
abbrev pub squared : ℕ → ℕ → ℕ
squared a b = (a - b + (b - a)) * (a - b + (b - a))

abbrev pub distance : ℕ → ℕ → ℕ → ℕ → ℕ
distance color red green blue =
    squared (color % 256) red
    + squared (color / 256 % 256) green
    + squared (color / 65536 % 256) blue

-- The loop over the color table from entry `i` on.
unfoldable pub nearest_loop : ℕ → ℕ → ℕ → ℕ → ℕ → ℕ → List ℕ → ℕ
nearest_loop red green blue i best_index best_distance [] = best_index
nearest_loop red green blue i best_index best_distance (color ∷ table) =
    let d = distance color red green blue in
    let closer = nearest_loop red green blue (suc i) i d table in
    let same = nearest_loop red green blue (suc i) best_index best_distance table in
    if ltb d best_distance then closer else same

unfoldable pub nearest_palette_index : List ℕ → ℕ → ℕ → ℕ → ℕ
unfolding nearest_loop
nearest_palette_index table red green blue = nearest_loop red green blue 0 0 (2 ^ 32 - 1) table

abbrev pub component : ℕ → ℕ
component value = if value == 0 then 0 else 55 + 40 * value

unfoldable pub xterm_256_index_to_rgb : ℕ → ℕ × ℕ × ℕ
xterm_256_index_to_rgb raw =
    let index = clamp_byte raw in
    let shade = 8 + 10 * (index - 232) in
    let cube = index - 16 in
    if ltb index 16
    then (0, 0, 0)
    else if leb 232 index
    then (shade, shade, shade)
    else (component (cube / 36), component (cube / 6 % 6), component (cube % 6))

-- `CSI 38;5;n m` and `CSI 48;5;n m`.
unfoldable pub set_indexed : List ℕ → Bool → ℕ → ℕ → ℕ
set_indexed table foreground raw attributes =
    let index = clamp_byte raw in
    let (red, green, blue) = xterm_256_index_to_rgb index in
    if ltb index 16
    then (if foreground
        then set_foreground (index % 8) (has_bit 8 index) attributes
        else set_background (index % 8) (has_bit 8 index) attributes)
    else set_palette_index (nearest_palette_index table red green blue) foreground attributes

-- A parameter 38 or 48 with those behind it: the attributes, and how many parameters it takes.
unfoldable pub extended_color : List ℕ → Bool → List ℕ → ℕ → ℕ × ℕ
extended_color table foreground (mode ∷ r ∷ g ∷ b ∷ rest) attributes =
    if mode == 5
    then (set_indexed table foreground r attributes, 3)
    else if mode == 2
    then (
      set_palette_index (nearest_palette_index table (clamp_byte r) (clamp_byte g) (clamp_byte b))
          foreground attributes,
      5,
    )
    else (attributes, 1)
extended_color table foreground (mode ∷ n ∷ rest) attributes =
    if mode == 5 then (set_indexed table foreground n attributes, 3) else (attributes, 1)
extended_color table foreground rest attributes = (attributes, 1)

-- One turn of the loop over the parameters: the attributes, and how many parameters it takes.
unfoldable pub sgr_step : List ℕ → ℕ → ℕ → List ℕ → ℕ → ℕ × ℕ
sgr_step table defaults param rest attributes =
    if param == 0
    then (defaults, 1)
    else if param == 1
    then (bit_or attributes foreground_intensity, 1)
    else if param == 22
    then (clear foreground_intensity attributes, 1)
    else if param == 4
    then (bit_or attributes underscore, 1)
    else if param == 24
    then (clear underscore attributes, 1)
    else if param == 7
    then (bit_or attributes reverse_video, 1)
    else if param == 27
    then (clear reverse_video attributes, 1)
    else if param == 39
    then (bit_or (clear fg_full_mask attributes) (bit_and defaults fg_full_mask), 1)
    else if param == 49
    then (bit_or (clear bg_full_mask attributes) (bit_and defaults bg_full_mask), 1)
    else if within 30 37 param
    then (set_foreground (param - 30) false attributes, 1)
    else if within 90 97 param
    then (set_foreground (param - 90) true attributes, 1)
    else if within 40 47 param
    then (set_background (param - 40) false attributes, 1)
    else if within 100 107 param
    then (set_background (param - 100) true attributes, 1)
    else if param == 38 || param == 48
    then extended_color table (param == 38) rest attributes
    else (attributes, 1)

-- The loop, on fuel.
unfoldable pub sgr_loop : List ℕ → ℕ → ℕ → List ℕ → ℕ → ℕ
sgr_loop table defaults zero params attributes = attributes
sgr_loop table defaults (suc fuel) [] attributes = attributes
sgr_loop table defaults (suc fuel) (param ∷ rest) attributes =
    let (after, taken) = sgr_step table defaults param rest attributes in
    sgr_loop table defaults fuel (drop taken (param ∷ rest)) after

-- `apply_sgr`, on the color table, the default attributes, the parameters and the attributes: each turn
-- takes a parameter, so their number is enough fuel.
unfoldable pub apply_sgr : List ℕ → ℕ → List ℕ → ℕ → ℕ
apply_sgr table defaults params attributes =
    sgr_loop table defaults (length params) params attributes
