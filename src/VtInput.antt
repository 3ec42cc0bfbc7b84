-- ===== src/VtInput.antt =====
-- src/condrv/vt_input_decoder.cpp: `try_decode_vt`, which reads one key event or one ignored
-- sequence at the head of the host's input bytes. A byte is a number. The out parameter is the
-- second part of each result.
pub mod Scan
pub mod Extend
pub mod Win32
pub mod Tests
use conhost.Vk
use conhost.Prelude.{
  ℕ, zero, suc, ◌+◌, ◌-◌, ◌*◌, ◌/◌, ◌^◌, ltb, leb, ◌==◌, if◌then◌else◌, Bool, true, false, not,
  ◌&&◌, ◌||◌, List, [], ◌∷◌, Text, within, length, get_or, set, replicate,
}

pub data TokenKind : Type 0 where
  key_event ignored_sequence text_units : TokenKind

pub data DecodeResult : Type 0 where
  produced need_more_data no_match : DecodeResult

-- `KEY_EVENT_RECORD`.
pub record KeyEvent : Type 0 where
  pub key_down : Bool
  pub repeat_count : ℕ
  pub virtual_key_code : ℕ
  pub virtual_scan_code : ℕ
  pub unicode_char : ℕ
  pub control_key_state : ℕ

-- `TextChunk`; its array of two code units is a list.
pub record TextChunk : Type 0 where
  pub chars : List ℕ
  pub char_count : ℕ
  pub bytes_consumed : ℕ

pub record DecodedToken : Type 0 where
  pub kind : TokenKind
  pub bytes_consumed : ℕ
  pub key : KeyEvent
  pub text : TextChunk

abbrev pub no_key : KeyEvent
no_key = record {
  key_down = false;
  repeat_count = 0;
  virtual_key_code = 0;
  virtual_scan_code = 0;
  unicode_char = 0;
  control_key_state = 0;
}

abbrev pub no_text : TextChunk
no_text = record { chars = 0 ∷ 0 ∷ []; char_count = 0; bytes_consumed = 0 }

-- `out = {}`.
abbrev pub no_token : DecodedToken
no_token = record { kind = text_units; bytes_consumed = 0; key = no_key; text = no_text }

abbrev pub esc_byte : ℕ
esc_byte = 0x1b

abbrev pub csi_byte : ℕ
csi_byte = 0x9b

abbrev pub u32_max : ℕ
u32_max = 2 ^ 32 - 1

unfoldable pub saturating_mul_add_10 : ℕ → ℕ → ℕ
saturating_mul_add_10 value digit =
    if ltb ((u32_max - digit) / 10) value then u32_max else value * 10 + digit

pub record ParsedParam : Type 0 where
  pub present : Bool
  pub value : ℕ

abbrev pub saturate_word : ℕ → ℕ
saturate_word value = if ltb 0xffff value then 0xffff else value

abbrev pub make_simple_key_event : ℕ → KeyEvent
make_simple_key_event virtual_key = record no_key {
  key_down = true;
  repeat_count = 1;
  virtual_key_code = virtual_key;
}

abbrev pub Outcome : Type 0
Outcome = DecodeResult × DecodedToken

-- A produced token, from `out = {}`.
abbrev pub key_token : ℕ → KeyEvent → Outcome
key_token consumed k =
    (produced, record no_token { kind = key_event; bytes_consumed = consumed; key = k })

abbrev pub ignored_token : ℕ → Outcome
ignored_token consumed =
    (produced, record no_token { kind = ignored_sequence; bytes_consumed = consumed })

-- The `switch` of `decode_ss3` on the third byte.
ss3_key : ℕ → DecodedToken → Outcome
ss3_key c out =
    if c == b'P'
    then key_token 3 (make_simple_key_event Vk.f1)
    else if c == b'Q'
    then key_token 3 (make_simple_key_event Vk.f2)
    else if c == b'R'
    then key_token 3 (make_simple_key_event Vk.f3)
    else if c == b'S'
    then key_token 3 (make_simple_key_event Vk.f4)
    else (no_match, out)

unfoldable pub decode_ss3 : Text → DecodedToken → Outcome
unfolding ss3_key
decode_ss3 [] out = (need_more_data, out)
decode_ss3 (a ∷ []) out = (need_more_data, out)
decode_ss3 (a ∷ b ∷ []) out =
    if not (a == esc_byte) || not (b == b'O') then (no_match, out) else (need_more_data, out)
decode_ss3 (a ∷ b ∷ c ∷ rest) out =
    if not (a == esc_byte) || not (b == b'O') then (no_match, out) else ss3_key c out

-- The loop over a DA1 response, behind `CSI ?`; `pos` counts the bytes before `bytes`.
unfoldable pub da1_loop : ℕ → Text → DecodedToken → Outcome
da1_loop pos [] out = (need_more_data, out)
da1_loop pos (ch ∷ bytes) out =
    if ch == b'c'
    then ignored_token (pos + 1)
    else if not (ch == b';' || within b'0' b'9' ch)
    then (no_match, out)
    else da1_loop (pos + 1) bytes out

-- The variables of the loop over the parameters.
pub record ParamScan : Type 0 where
  pub params : List ParsedParam
  pub param_index : ℕ
  pub current : ℕ
  pub current_present : Bool
  pub pos : ℕ

abbrev pub no_param : ParsedParam
no_param = record { present = false; value = 0 }

-- `params[param_index] = …`, if that is in range.
abbrev pub store_param : ParamScan → List ParsedParam
store_param s =
    if ltb s.param_index (length s.params)
    then set s.params s.param_index (record { present = s.current_present; value = s.current })
    else s.params

abbrev pub scan_digit : ParamScan → ℕ → ParamScan
scan_digit s ch = record s {
  current_present = true;
  current = saturating_mul_add_10 s.current (ch - b'0');
  pos = s.pos + 1;
}

abbrev pub scan_separator : ParamScan → ParamScan
scan_separator s = record s {
  params = store_param s;
  param_index = s.param_index + 1;
  current = 0;
  current_present = false;
  pos = s.pos + 1;
}

-- The loop over the parameters. It stops at the end or at the first other byte, and gives its
-- variables and the bytes from there.
unfoldable pub scan_params : ParamScan → Text → ParamScan × Text
scan_params s [] = (s, [])
scan_params s (ch ∷ bytes) =
    if within b'0' b'9' ch || ch == b';'
    then scan_params (if within b'0' b'9' ch then scan_digit s ch else scan_separator s) bytes
    else (s, ch ∷ bytes)

abbrev pub first_scan : ℕ → ParamScan
first_scan prefix_len = record {
  params = replicate 6 no_param;
  param_index = 0;
  current = 0;
  current_present = false;
  pos = prefix_len;
}

-- `CSI n ~`.
tilde_key : ParamScan → List ParsedParam → DecodedToken → Outcome
tilde_key s params out =
    let first = get_or params 0 no_param in
    if not (s.param_index == 0) || not first.present
    then (no_match, out)
    else if first.value == 2
    then key_token (s.pos + 1) (make_simple_key_event Vk.insert)
    else if first.value == 3
    then key_token (s.pos + 1) (make_simple_key_event Vk.delete)
    else if first.value == 5
    then key_token (s.pos + 1) (make_simple_key_event Vk.prior)
    else if first.value == 6
    then key_token (s.pos + 1) (make_simple_key_event Vk.next)
    else (no_match, out)

-- `params[i].present ? params[i].value : fallback`.
abbrev pub param_or : List ParsedParam → ℕ → ℕ → ℕ
param_or params i fallback =
    if (get_or params i no_param).present then (get_or params i no_param).value else fallback

-- `CSI Vk ; Sc ; Uc ; Kd ; Cs ; Rc _`.
abbrev pub win32_key : List ParsedParam → KeyEvent
win32_key params = record {
  key_down = not (param_or params 3 0 == 0);
  repeat_count = saturate_word (param_or params 5 1);
  virtual_key_code = saturate_word (param_or params 0 0);
  virtual_scan_code = saturate_word (param_or params 1 0);
  unicode_char = saturate_word (param_or params 2 0);
  control_key_state = param_or params 4 0;
}

-- What `decode_csi` does where the loop over the parameters stopped.
unfoldable pub finish_params : ParamScan × Text → DecodedToken → Outcome
unfolding tilde_key
finish_params (s, []) out = (need_more_data, out)
finish_params (s, terminator ∷ rest) out =
    if terminator == b'~'
    then tilde_key s (store_param s) out
    else if terminator == b'_'
    then key_token (s.pos + 1) (win32_key (store_param s))
    else (no_match, out)

-- `decode_csi` behind its introducer of `prefix_len` bytes.
unfoldable pub csi_body : ℕ → Text → DecodedToken → Outcome
csi_body prefix_len [] out = (need_more_data, out)
csi_body prefix_len (first ∷ bytes) out =
    if first == b'I' || first == b'O'
    then ignored_token (prefix_len + 1)
    else if first == b'A'
    then key_token (prefix_len + 1) (make_simple_key_event Vk.up)
    else if first == b'B'
    then key_token (prefix_len + 1) (make_simple_key_event Vk.down)
    else if first == b'C'
    then key_token (prefix_len + 1) (make_simple_key_event Vk.right)
    else if first == b'D'
    then key_token (prefix_len + 1) (make_simple_key_event Vk.left)
    else if first == b'H'
    then key_token (prefix_len + 1) (make_simple_key_event Vk.home)
    else if first == b'F'
    then key_token (prefix_len + 1) (make_simple_key_event Vk.end)
    else if first == b'?'
    then da1_loop (prefix_len + 1) bytes out
    else finish_params (scan_params (first_scan prefix_len) (first ∷ bytes)) out

unfoldable pub decode_csi : Text → DecodedToken → Outcome
decode_csi [] out = (no_match, out)
decode_csi (a ∷ []) out = if a == csi_byte then csi_body 1 [] out else (no_match, out)
decode_csi (a ∷ b ∷ bytes) out =
    if a == csi_byte
    then csi_body 1 (b ∷ bytes) out
    else if a == esc_byte && b == b'['
    then csi_body 2 bytes out
    else (no_match, out)

unfoldable pub try_decode_vt : Text → Outcome
try_decode_vt [] = (no_match, no_token)
try_decode_vt (a ∷ []) =
    if a == esc_byte
    then (need_more_data, no_token)
    else if a == csi_byte
    then decode_csi (a ∷ []) no_token
    else (no_match, no_token)
try_decode_vt (a ∷ second ∷ bytes) =
    if a == esc_byte
    then (if second == b'O'
        then decode_ss3 (a ∷ second ∷ bytes) no_token
        else if second == b'['
        then decode_csi (a ∷ second ∷ bytes) no_token
        else (no_match, no_token))
    else if a == csi_byte
    then decode_csi (a ∷ second ∷ bytes) no_token
    else (no_match, no_token)
