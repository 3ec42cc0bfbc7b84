-- ===== src/VtInput/Tests.antt =====
-- Runs of the decoder, and the theorems at concrete inputs.
use conhost.Prelude.{◌≡◌, refl, ◌∷◌, ◌++◌, Text, codes, true, length, arith}
use conhost.Vk
use conhost.Number.{decimal}
use conhost.VtInput.Extend.{try_decode_vt-append}
use conhost.VtInput.Win32.{win32_sequence, try_decode_vt-win32}
use conhost.VtInput.{
  try_decode_vt, decode_csi, csi_body, finish_params, scan_params, da1_loop, saturating_mul_add_10,
  need_more_data, no_match, key_token, ignored_token, no_token, make_simple_key_event, KeyEvent,
  esc_byte, csi_byte,
}

abbrev ctrl_a : KeyEvent
ctrl_a = record {
  key_down = true;
  repeat_count = 1;
  virtual_key_code = 65;
  virtual_scan_code = 30;
  unicode_char = 1;
  control_key_state = 8;
}

abbrev up : Text
up = esc_byte ∷ codes "[A"

decodes :
    (try_decode_vt up ≡ key_token 3 (make_simple_key_event Vk.up))
    × (try_decode_vt (csi_byte ∷ codes "6~x") ≡ key_token 3 (make_simple_key_event Vk.next))
    × (try_decode_vt (esc_byte ∷ codes "[?1;0c") ≡ ignored_token 7)
    × (try_decode_vt (esc_byte ∷ codes "[65;30;1;1;8;1_") ≡ key_token 16 ctrl_a)
    × (try_decode_vt (esc_byte ∷ codes "[65;") ≡ (need_more_data, no_token))
    × (try_decode_vt (codes "a") ≡ (no_match, no_token))
unfolding try_decode_vt decode_csi csi_body finish_params scan_params da1_loop saturating_mul_add_10
decodes = (refl, refl, refl, refl, refl, refl)

prints : win32_sequence ctrl_a ≡ esc_byte ∷ codes "[65;30;1;1;8;1_"
unfolding decimal
prints = refl

try_decode_vt-append_example : try_decode_vt (up ++ codes "xyz") ≡ try_decode_vt up
unfolding try_decode_vt decode_csi csi_body
try_decode_vt-append_example = try_decode_vt-append up (codes "xyz") (λ h. cc) (λ h. cc)

try_decode_vt-win32_example :
    try_decode_vt (win32_sequence ctrl_a ++ codes "q")
    ≡ key_token (length (win32_sequence ctrl_a)) ctrl_a
try_decode_vt-win32_example = try_decode_vt-win32 ctrl_a (codes "q") (record {
  code_fits = omega arith;
  scan_fits = omega arith;
  char_fits = omega arith;
  count_fits = omega arith;
  state_fits = omega arith;
})
