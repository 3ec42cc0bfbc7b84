-- ===== src/VtOutput/Bounds.antt =====
-- The parser of `apply_text_to_screen_buffer` (src/condrv/condrv_server.hpp) stays within its arrays and
-- its numbers: the counts of `VtOutputParseState`, for any text.
use conhost.Prelude.{
  ℕ, suc, ◌+◌, ◌∙◌, refl, leb→le, All, ◌≤◌, ◌≡◌, arith, ◌==◌, if◌then◌else◌, Bool, true, false,
  ◌&&◌, ◌||◌, Bool-cases, inl, inr, List, [], ◌∷◌, ◌++◌, length, length-append, Text, within,
}
use conhost.Screen.{ScreenBuffer, is_degenerate}
use conhost.VtOutput.{Call, Output}
use conhost.VtOutput.Parser.{
  Phase, escape, esc_dispatch, csi, osc, osc_escape, string, string_escape, VtOutputParseState,
  State, reset_csi, initial_parse, is_too_long, complete_csi, in_phase, csi_parse, osc_parse,
  escape_parse, dispatch_parse, string_parse, string_escape_parse, push_below, push_digit_below,
}
use conhost.VtOutput.Machine.{
  csi_char, osc_char, osc_escape_char, plain_char, ground_char, phase_char, step, run,
}
use conhost.VtOutput.Apply.{call_of, begin, apply_text_to_screen_buffer}

-- The counts are at most the sizes of the arrays, and the numbers at most what they are before the last
-- digit, times 10, and a digit.
pub record IsBounded (p : VtOutputParseState) : Type 0 where
  pub params : length p.csi.params ≤ 16
  pub intermediates : length p.esc_intermediates ≤ 8
  pub payload : length p.osc_payload ≤ 4096
  pub number : p.csi_current ≤ 10000009
  pub action : p.osc_param ≤ 10000009
  pub sequence : p.csi_length ≤ 128
  pub escaped : p.esc_length ≤ 15

length-push_below :
    (bound v : ℕ) (values : List ℕ)
    → length values ≤ bound
    → length (push_below bound v values) ≤ bound
length-push_below bound v values h = ground (arith, length-append values (v ∷ []))

push_digit_below_bound :
    (n ch : ℕ) → n ≤ 10000009 → within 48 57 ch ≡ true → push_digit_below n ch ≤ 10000009
push_digit_below_bound n ch h t = ground arith

dispatch_parse-IsBounded :
    (ch : ℕ) (p : VtOutputParseState) → IsBounded p → IsBounded (dispatch_parse ch p)
unfolding dispatch_parse
dispatch_parse-IsBounded ch p h = ground (arith, length-push_below 8 ch p.esc_intermediates)

csi_parse-IsBounded :
    (ch : ℕ) (p : VtOutputParseState)
    → IsBounded p
    → is_too_long p ≡ false
    → IsBounded (csi_parse ch p)
unfolding csi_parse
csi_parse-IsBounded ch p h t = ground (
  arith,
  length-push_below 16 (if p.csi_have_digits then p.csi_current else 0) p.csi.params,
  push_digit_below_bound p.csi_current ch,
)

-- The parameters of a complete sequence fit in its array, also the 0 that stands for none.
defaulted_params :
    (is_sgr : Bool) (params : List ℕ)
    → length params ≤ 16
    → length (if is_sgr && (length params == 0) then params ++ 0 ∷ [] else params) ≤ 16
defaulted_params is_sgr params h = ground (arith, length-append params (0 ∷ []))

last_param :
    (any : Bool) (number : ℕ) (params : List ℕ)
    → length params ≤ 16
    → length (if any then push_below 16 number params else params) ≤ 16
last_param any number params h = ground (arith, length-push_below 16 number params)

complete_csi-params :
    (ch : ℕ) (p : VtOutputParseState) → IsBounded p → length (complete_csi ch p).params ≤ 16
unfolding complete_csi
complete_csi-params ch p h = defaulted_params (ch == b'm') _ (
    last_param (p.csi_have_digits || p.csi_last_was_separator)
      (if p.csi_have_digits then p.csi_current else 0) p.csi.params h.params)

escape_parse-IsBounded :
    (ch : ℕ) (p : VtOutputParseState) → IsBounded p → IsBounded (escape_parse ch p)
unfolding escape_parse
escape_parse-IsBounded ch p h = ground arith

osc_parse-IsBounded : (ch : ℕ) (p : VtOutputParseState) → IsBounded p → IsBounded (osc_parse ch p)
unfolding osc_parse
osc_parse-IsBounded ch p h = ground (arith, push_digit_below_bound p.osc_param ch)

string_parse-IsBounded :
    (ch : ℕ) (p : VtOutputParseState) → IsBounded p → IsBounded (string_parse ch p)
unfolding string_parse
string_parse-IsBounded ch p h = ground arith

string_escape_parse-IsBounded :
    (ch : ℕ) (p : VtOutputParseState) → IsBounded p → IsBounded (string_escape_parse ch p)
unfolding string_escape_parse string_parse
string_escape_parse-IsBounded ch p h = ground arith

csi_char-IsBounded :
    (c : Call) (ch : ℕ) (s : State) → IsBounded (s.0) → IsBounded (csi_char c ch s).0
unfolding csi_char
csi_char-IsBounded c ch (p, o) h = ground (arith, csi_parse-IsBounded ch p)

osc_char-IsBounded : (ch : ℕ) (s : State) → IsBounded (s.0) → IsBounded (osc_char ch s).0
unfolding osc_char
osc_char-IsBounded ch (p, o) h =
    ground (arith, osc_parse-IsBounded ch p, length-push_below 4096 ch p.osc_payload)

osc_escape_char-IsBounded :
    (ch : ℕ) (s : State) → IsBounded (s.0) → IsBounded (osc_escape_char ch s).0
unfolding osc_escape_char
osc_escape_char-IsBounded ch (p, o) h = ground (arith, osc_char-IsBounded ch (in_phase osc p, o))

ground_char-IsBounded :
    (c : Call) (ch : ℕ) (s : State) → IsBounded (s.0) → IsBounded (ground_char c ch s).0
unfolding ground_char
ground_char-IsBounded c ch (p, o) h = ground arith

phase_char-IsBounded :
    (phase : Phase) (c : Call) (ch : ℕ) (s : State)
    → IsBounded (s.0)
    → IsBounded (phase_char phase c ch s).0
unfolding phase_char
phase_char-IsBounded Phase.ground c ch s h = ground_char-IsBounded c ch s h
phase_char-IsBounded escape c ch (p, o) h = escape_parse-IsBounded ch p h
phase_char-IsBounded esc_dispatch c ch (p, o) h = dispatch_parse-IsBounded ch p h
phase_char-IsBounded csi c ch s h = csi_char-IsBounded c ch s h
phase_char-IsBounded osc c ch s h = osc_char-IsBounded ch s h
phase_char-IsBounded osc_escape c ch s h = osc_escape_char-IsBounded ch s h
phase_char-IsBounded string c ch (p, o) h = string_parse-IsBounded ch p h
phase_char-IsBounded string_escape c ch (p, o) h = string_escape_parse-IsBounded ch p h

step-IsBounded : (c : Call) (ch : ℕ) (s : State) → IsBounded (s.0) → IsBounded (step c ch s).0
unfolding step
step-IsBounded c ch (p, o) h =
    chosen c.vt_processing (phase_char p.phase c ch (p, o)) (p, plain_char c ch o)
      (phase_char-IsBounded p.phase c ch (p, o) h) h
  where
    chosen :
        (t : Bool) (x y : State)
        → IsBounded (x.0)
        → IsBounded (y.0)
        → IsBounded (if t then x else y).0
    chosen true x y f g = f
    chosen false x y f g = g

run-IsBounded : (c : Call) (text : Text) (s : State) → IsBounded (s.0) → IsBounded (run c text s).0
unfolding run
run-IsBounded c [] s h = h
run-IsBounded c (ch ∷ text) s h = run-IsBounded c text (step c ch s) (step-IsBounded c ch s h)

pub initial_parse-IsBounded : IsBounded initial_parse
initial_parse-IsBounded = record {
  params = omega arith;
  intermediates = omega arith;
  payload = omega arith;
  number = omega arith;
  action = omega arith;
  sequence = omega arith;
  escaped = omega arith;
}

-- Whatever a text holds, a parser within its bounds stays within them: at most 16 parameters, 8
-- intermediates and 4096 characters of a title are kept, a number is at most 10000009 and so fits in
-- 32 bits, and the lengths that are counted of an ESC and of a CSI sequence are at most 15 and 128. The
-- sequence that the next character would complete has at most 16 parameters too.
pub apply_text_to_screen_buffer-IsBounded :
    (mode : ℕ) (answers_queries allocated : Bool) (text : Text) (parse : VtOutputParseState)
    (b : ScreenBuffer) (ch : ℕ)
    → IsBounded parse
    → IsBounded (apply_text_to_screen_buffer mode answers_queries allocated text parse b).parse
      × (length
            (complete_csi ch
              (apply_text_to_screen_buffer mode answers_queries allocated text parse
                b).parse).params
          ≤ 16)
unfolding apply_text_to_screen_buffer begin
apply_text_to_screen_buffer-IsBounded mode answers_queries allocated text parse b ch h =
    let c = call_of mode answers_queries allocated b in
    let started : IsBounded (begin c parse b).0 = elim (Bool-cases c.vt_processing) [
      | inl t ↦ rw t h
      | inr f ↦ rw f initial_parse-IsBounded
    ] in
    let done = run-IsBounded c text (begin c parse b) started in
    elim (Bool-cases (is_degenerate b.buffer_size)) [
      | inl t ↦ rw t (h, complete_csi-params ch parse h)
      | inr f ↦ rw f (done, complete_csi-params ch _ done)
    ]

-- A character that does not end a CSI sequence.
abbrev pub Continues : ℕ → Type 0
Continues ch = within 64 126 ch ≡ false

csi_parse-kept :
    (ch : ℕ) (p : VtOutputParseState)
    → ((csi_parse ch p).phase ≡ p.phase)
      × ((csi_parse ch p).csi_length ≡ suc p.csi_length)
      × (reset_csi Phase.ground (csi_parse ch p) ≡ reset_csi Phase.ground p)
unfolding csi_parse
csi_parse-kept ch p = (ground arith, ground arith, ground arith)

csi_step :
    (c : Call) (ch : ℕ) (p : VtOutputParseState) (o : Output)
    → c.vt_processing ≡ true
    → p.phase ≡ csi
    → Continues ch
    → step c ch (p, o)
      ≡ (if is_too_long p then (reset_csi Phase.ground p, o) else (csi_parse ch p, o))
unfolding step phase_char csi_char
csi_step c ch p o vt e k = simp (vt, e, k)

run-nothing : (c : Call) (text : Text) (s : State) → length text ≡ 0 → run c text s ≡ s
unfolding run
run-nothing c [] s h = refl
run-nothing c (ch ∷ text) s h = absurd (omega arith)

-- A CSI sequence that does not end is given up with its 129th character, in one text or over the border
-- of two: a parser that has counted some characters of it, at most 128, and reads as many more as make
-- 129, none of which ends the sequence, is outside of any sequence, with nothing left of this one, and the
-- sequence has had no effect. VT processing is on.
pub run-gives_up :
    (c : Call) (text : Text) (p : VtOutputParseState) (o : Output)
    → c.vt_processing ≡ true
    → p.phase ≡ csi
    → All Continues text
    → p.csi_length + length text ≡ 129
    → p.csi_length ≤ 128
    → run c text (p, o) ≡ (reset_csi Phase.ground p, o)
unfolding run
run-gives_up c [] p o vt e a n h = absurd (omega arith)
run-gives_up c (ch ∷ text) p o vt e a n h = elim (Bool-cases (is_too_long p)) [
  | inl long ↦
      rw (csi_step c ch p o vt e (a.0), long)
        (run-nothing c text (reset_csi Phase.ground p, o)
          (omega (arith, leb→le 128 p.csi_length long)))
  | inr short ↦
      let (phase, counted, same) = csi_parse-kept ch p in
      rw (csi_step c ch p o vt e (a.0), short)
        (run-gives_up c text (csi_parse ch p) o vt (phase ∙ e) (a.1) (omega (arith, counted))
            (ground arith)
          ∙ rw same refl)
]
