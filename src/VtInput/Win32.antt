-- ===== src/VtInput/Win32.antt =====
-- The win32-input-mode print of a key event, `CSI Vk ; Sc ; Uc ; Kd ; Cs ; Rc _`, and its decoding.
use conhost.Prelude.{
  ℕ, ◌+◌, ◌-◌, ◌/◌, ◌%◌, ◌^◌, ◌≤◌, ◌<◌, ◌≡◌, refl, sym, ap, ◌∙◌, arith, if◌then◌else◌, true, [],
  ◌∷◌, ◌++◌, Text, length,
}
use conhost.Number.{is_digit, decimal}
use conhost.Number.Decimal.{
  decimal_last, decimal_more, decimal_induction, width, length-decimal-width, decimal-head,
}
use conhost.VtInput.Scan.{saturating_mul_add_10_exact}
use conhost.VtInput.Extend.{try_decode_vt-append}
use conhost.VtInput.{
  ParamScan, scan_params, scan_digit, scan_separator, first_scan, finish_params, csi_body,
  decode_csi, try_decode_vt, DecodedToken, no_token, KeyEvent, key_token, u32_max, esc_byte,
}

abbrev pub win32_sequence : KeyEvent → Text
win32_sequence k =
    esc_byte
    ∷ b'['
    ∷ decimal k.virtual_key_code (
        b';'
        ∷ decimal k.virtual_scan_code (
            b';'
            ∷ decimal k.unicode_char (
                b';'
                ∷ decimal (if k.key_down then 1 else 0) (
                    b';'
                    ∷ decimal k.control_key_state (b';' ∷ decimal k.repeat_count (b'_' ∷ []))))))

-- The field widths of `KEY_EVENT_RECORD`.
pub record IsKeyRecord (k : KeyEvent) : Type 0 where
  pub code_fits : k.virtual_key_code < 2 ^ 16
  pub scan_fits : k.virtual_scan_code < 2 ^ 16
  pub char_fits : k.unicode_char < 2 ^ 16
  pub count_fits : k.repeat_count < 2 ^ 16
  pub state_fits : k.control_key_state < 2 ^ 32

abbrev read_number : ParamScan → ℕ → ParamScan
read_number s n = record s { current = n; current_present = true; pos = s.pos + width n }

scan_params-digit :
    (s : ParamScan) (ch : ℕ) (rest : Text)
    → is_digit ch ≡ true
    → scan_params s (ch ∷ rest) ≡ scan_params (scan_digit s ch) rest
unfolding scan_params
scan_params-digit s ch rest h = ground arith

scan_params-decimal :
    (s : ParamScan) (n : ℕ) (rest : Text)
    → s.current ≡ 0
    → n ≤ u32_max
    → scan_params s (decimal n rest) ≡ scan_params (read_number s n) rest
scan_params-decimal s n rest z = decimal_induction C last more n rest
  where
    C : ℕ → Type 0
    C n =
        (rest : Text)
        → n ≤ u32_max
        → scan_params s (decimal n rest) ≡ scan_params (read_number s n) rest

    last : (n : ℕ) → ¬ (9 < n) → C n
    last n h rest fits =
        rw (decimal_last n rest h, decimal_last n [] h)
          (scan_params-digit s (b'0' + n) rest (ground arith)
            ∙ ap (λ (t : ParamScan). scan_params t rest)
                (ground (arith, saturating_mul_add_10_exact s.current (b'0' + n - b'0'))))

    more : (n : ℕ) → 9 < n → C (n / 10) → C n
    more n h ih rest fits =
        let d = b'0' + n % 10 in
        rw (decimal_more n rest h) (
          ih (d ∷ rest) (omega arith)
          ∙ scan_params-digit (read_number s (n / 10)) d rest (ground arith)
          ∙ ap (λ (t : ParamScan). scan_params t rest)
              (ground (
                arith,
                saturating_mul_add_10_exact (n / 10) (d - b'0'),
                ap (λ (t : Text). length t) (decimal_more n [] h),
                length-decimal-width (n / 10) (d ∷ []),
              )))

-- One number and the separator behind it.
scan_params-field :
    (s : ParamScan) (n : ℕ) (rest : Text)
    → s.current ≡ 0
    → n ≤ u32_max
    → scan_params s (decimal n (b';' ∷ rest)) ≡ scan_params (scan_separator (read_number s n)) rest
scan_params-field s n rest z fits =
    scan_params-decimal s n (b';' ∷ rest) z fits ∙ separator (read_number s n)
  where
    separator : (t : ParamScan) → scan_params t (b';' ∷ rest) ≡ scan_params (scan_separator t) rest
    separator t = unfold scan_params in refl

csi_body-digit :
    (n d : ℕ) (text : Text) (out : DecodedToken)
    → is_digit d ≡ true
    → csi_body n (d ∷ text) out ≡ finish_params (scan_params (first_scan n) (d ∷ text)) out
unfolding csi_body
csi_body-digit n d text out h = ground arith

csi_body-decimal :
    (n v : ℕ) (rest : Text) (out : DecodedToken)
    → csi_body n (decimal v rest) out
      ≡ finish_params (scan_params (first_scan n) (decimal v rest)) out
csi_body-decimal n v rest out =
    let (d, text, e, h) = decimal-head v rest in rw e (csi_body-digit n d text out h)

-- Where the loop stands behind the six numbers, in front of the terminator.
abbrev last_scan : KeyEvent → ParamScan
last_scan k =
    let s0 = scan_separator (read_number (first_scan 2) k.virtual_key_code) in
    let s1 = scan_separator (read_number s0 k.virtual_scan_code) in
    let s2 = scan_separator (read_number s1 k.unicode_char) in
    let s3 = scan_separator (read_number s2 (if k.key_down then 1 else 0)) in
    let s4 = scan_separator (read_number s3 k.control_key_state) in read_number s4 k.repeat_count

scan_params-win32 :
    (k : KeyEvent)
    → IsKeyRecord k
    → scan_params (first_scan 2) (
        decimal k.virtual_key_code (
          b';'
          ∷ decimal k.virtual_scan_code (
              b';'
              ∷ decimal k.unicode_char (
                  b';'
                  ∷ decimal (if k.key_down then 1 else 0) (
                      b';'
                      ∷ decimal k.control_key_state (b';' ∷ decimal k.repeat_count (b'_' ∷ [])))))))
      ≡ scan_params (last_scan k) (b'_' ∷ [])
scan_params-win32 k f =
    scan_params-field _ k.virtual_key_code _ refl (omega arith)
    ∙ scan_params-field _ k.virtual_scan_code _ refl (omega arith)
    ∙ scan_params-field _ k.unicode_char _ refl (omega arith)
    ∙ scan_params-field _ (if k.key_down then 1 else 0) _ refl (ground arith)
    ∙ scan_params-field _ k.control_key_state _ refl (omega arith)
    ∙ scan_params-decimal _ k.repeat_count _ refl (omega arith)

finish_params-win32 :
    (k : KeyEvent)
    → IsKeyRecord k
    → finish_params (scan_params (last_scan k) (b'_' ∷ [])) no_token
      ≡ key_token ((last_scan k).pos + 1) k
unfolding finish_params scan_params
finish_params-win32 k f = ground arith

length-win32 : (k : KeyEvent) → length (win32_sequence k) ≡ (last_scan k).pos + 1
length-win32 k =
    let end : Text = b'_' ∷ [] in
    let from_count : Text = b';' ∷ decimal k.repeat_count end in
    let from_state : Text = b';' ∷ decimal k.control_key_state from_count in
    let from_down : Text = b';' ∷ decimal (if k.key_down then 1 else 0) from_state in
    let from_char : Text = b';' ∷ decimal k.unicode_char from_down in
    let from_scan : Text = b';' ∷ decimal k.virtual_scan_code from_char in
    omega (
      arith,
      length-decimal-width k.repeat_count end,
      length-decimal-width k.control_key_state from_count,
      length-decimal-width (if k.key_down then 1 else 0) from_state,
      length-decimal-width k.unicode_char from_down,
      length-decimal-width k.virtual_scan_code from_char,
      length-decimal-width k.virtual_key_code from_scan,
    )

try_decode_vt-csi :
    (bytes : Text) → try_decode_vt (esc_byte ∷ b'[' ∷ bytes) ≡ csi_body 2 bytes no_token
unfolding try_decode_vt decode_csi
try_decode_vt-csi bytes = refl

try_decode_vt-win32_alone :
    (k : KeyEvent)
    → IsKeyRecord k
    → try_decode_vt (win32_sequence k) ≡ key_token (length (win32_sequence k)) k
try_decode_vt-win32_alone k f =
    try_decode_vt-csi _
    ∙ csi_body-decimal 2 k.virtual_key_code _ no_token
    ∙ ap (λ (p : ParamScan × Text). finish_params p no_token) (scan_params-win32 k f)
    ∙ finish_params-win32 k f
    ∙ ap (λ (n : ℕ). key_token n k) (sym (length-win32 k))

-- A key event whose fields fit their widths, printed in win32-input-mode in front of any bytes, is
-- decoded to that same event, and exactly the bytes of its print are taken.
pub try_decode_vt-win32 :
    (k : KeyEvent) (rest : Text)
    → IsKeyRecord k
    → try_decode_vt (win32_sequence k ++ rest) ≡ key_token (length (win32_sequence k)) k
try_decode_vt-win32 k rest f =
    let alone = try_decode_vt-win32_alone k f in
    try_decode_vt-append (win32_sequence k) rest (λ h. cc) (λ h. cc) ∙ alone
