-- ===== src/VtOutput/Invariant.antt =====
-- The invariant of `apply_text_to_screen_buffer` (src/condrv/condrv_server.hpp): every character of a
-- text keeps the buffer, its backup and the cursor sound, whatever the parser is doing.
use conhost.Prelude.{
  ℕ, ◌==◌, if◌then◌else◌, Bool, true, false, ◌&&◌, ◌||◌, Bool-cases, inl, inr, [], ◌∷◌, Text,
  within,
}
use conhost.Screen.{ScreenBuffer}
use conhost.Screen.Window.{IsSize, CursorInWindow}
use conhost.Screen.Cursor.{not_degenerate}
use conhost.VtOutput.{Call, Output}
use conhost.VtOutput.Dispatch.{apply_csi}
use conhost.VtOutput.Parser.{
  Phase, ground, escape, esc_dispatch, csi, osc, osc_escape, string, string_escape,
  VtOutputParseState, State, is_too_long, complete_csi, in_phase, reset_csi, csi_parse, osc_parse,
  reset_osc, push_below, max_payload,
}
use conhost.VtOutput.Machine.{
  csi_char, set_title, osc_char, osc_escape_char, plain_char, ground_char, phase_char, step, run,
}
use conhost.VtOutput.Parser.{is_title_action}
use conhost.VtOutput.Apply.{call_of, begin, apply_text_to_screen_buffer}
use conhost.VtOutput.Sound.{IsSound, Holds}
use conhost.VtOutput.Stored.{finish-IsSound}
use conhost.VtOutput.Effects.{
  apply_csi-Holds, escape_effect-Holds, dispatch_effect-Holds, plain_char-Holds,
}

-- The invariant of a state of the loop: the parser may be anything.
abbrev SoundState : Call → State → Type 0
SoundState c s = Holds c (s.1)

SoundState-else :
    (c : Call) (t : Bool) (x y : State)
    → SoundState c x
    → SoundState c y
    → SoundState c (if t then x else y)
SoundState-else c true x y p q = p
SoundState-else c false x y p q = q

csi_char-SoundState :
    (c : Call) (ch : ℕ) (s : State) → SoundState c s → SoundState c (csi_char c ch s)
unfolding csi_char
csi_char-SoundState c ch (p, o) h =
    SoundState-else c (is_too_long p) (reset_csi ground p, o) _ h
      (SoundState-else c (within 64 126 ch) (reset_csi ground p, apply_csi c (complete_csi ch p) o)
        (csi_parse ch p, o) (apply_csi-Holds c (complete_csi ch p) o h) h)

set_title-Holds :
    (c : Call) (p : VtOutputParseState) (o : Output) → Holds c o → Holds c (set_title p o)
unfolding set_title
set_title-Holds c p o h =
    elim (Bool-cases (p.osc_capture_payload && is_title_action p.osc_action)) [
      | inl t ↦ rw t (record { wide = h.wide; high = h.high; screen = h.screen; inside = h.inside })
      | inr f ↦ rw f h
    ]

osc_char-SoundState :
    (c : Call) (ch : ℕ) (s : State) → SoundState c s → SoundState c (osc_char ch s)
unfolding osc_char
osc_char-SoundState c ch (p, o) h =
    let kept =
      SoundState-else c p.osc_capture_payload
        (record p { osc_payload = push_below max_payload ch p.osc_payload }, o) (p, o) h h in
    let escaped = SoundState-else c (ch == 27) (in_phase osc_escape p, o) _ h kept in
    let ended =
      SoundState-else c ((ch == 7) || (ch == 156)) (reset_osc ground p, set_title p o) _
        (set_title-Holds c p o h) escaped in
    SoundState-else c p.osc_in_param (osc_parse ch p, o) _ h ended

osc_escape_char-SoundState :
    (c : Call) (ch : ℕ) (s : State) → SoundState c s → SoundState c (osc_escape_char ch s)
unfolding osc_escape_char
osc_escape_char-SoundState c ch (p, o) h =
    SoundState-else c (ch == 92) (reset_osc ground p, set_title p o) _ (set_title-Holds c p o h)
      (osc_char-SoundState c ch (in_phase osc p, o) h)

ground_char-SoundState :
    (c : Call) (ch : ℕ) (s : State) → SoundState c s → SoundState c (ground_char c ch s)
unfolding ground_char
ground_char-SoundState c ch (p, o) h =
    let plain =
      SoundState-else c (((ch == 144) || (ch == 152)) || ((ch == 158) || (ch == 159)))
        (in_phase string p, o) (p, plain_char c ch o) h (plain_char-Holds c ch o h) in
    let ended = SoundState-else c (ch == 156) (p, o) _ h plain in
    let osc_started = SoundState-else c (ch == 157) (reset_osc osc p, o) _ h ended in
    let csi_started = SoundState-else c (ch == 155) (reset_csi csi p, o) _ h osc_started in
    SoundState-else c (ch == 27) (in_phase escape p, o) _ h csi_started

phase_char-SoundState :
    (phase : Phase) (c : Call) (ch : ℕ) (s : State)
    → SoundState c s
    → SoundState c (phase_char phase c ch s)
unfolding phase_char
phase_char-SoundState ground c ch s h = ground_char-SoundState c ch s h
phase_char-SoundState escape c ch (p, o) h = escape_effect-Holds c ch o h
phase_char-SoundState esc_dispatch c ch (p, o) h = dispatch_effect-Holds c ch p o h
phase_char-SoundState csi c ch s h = csi_char-SoundState c ch s h
phase_char-SoundState osc c ch s h = osc_char-SoundState c ch s h
phase_char-SoundState osc_escape c ch s h = osc_escape_char-SoundState c ch s h
phase_char-SoundState string c ch (p, o) h = h
phase_char-SoundState string_escape c ch (p, o) h = h

step-SoundState : (c : Call) (ch : ℕ) (s : State) → SoundState c s → SoundState c (step c ch s)
unfolding step
step-SoundState c ch (p, o) h =
    SoundState-else c c.vt_processing (phase_char p.phase c ch (p, o)) (p, plain_char c ch o)
      (phase_char-SoundState p.phase c ch (p, o) h) (plain_char-Holds c ch o h)

run-SoundState : (c : Call) (text : Text) (s : State) → SoundState c s → SoundState c (run c text s)
unfolding run
run-SoundState c [] s h = h
run-SoundState c (ch ∷ text) s h = run-SoundState c text (step c ch s) (step-SoundState c ch s h)

-- Whatever the mode and the text are, and wherever the parser stands, a call that is given a sound
-- buffer, of a size positive on both axes, leaves a sound buffer of that size: one with a cell for each
-- position, its cursor and its window inside it, and its backup, if it has one, of the same shape. And
-- the window shows the cursor.
pub apply_text_to_screen_buffer-IsSound :
    (mode : ℕ) (answers_queries allocated : Bool) (text : Text) (parse : VtOutputParseState)
    (b : ScreenBuffer)
    → IsSize b.buffer_size.x
    → IsSize b.buffer_size.y
    → IsSound b.buffer_size b
    → IsSound b.buffer_size
        (apply_text_to_screen_buffer mode answers_queries allocated text parse b).screen
      × CursorInWindow
          (apply_text_to_screen_buffer mode answers_queries allocated text parse b).screen
unfolding apply_text_to_screen_buffer call_of begin
apply_text_to_screen_buffer-IsSound mode answers_queries allocated text parse b wide high s =
    let c = call_of mode answers_queries allocated b in
    let started : SoundState c (begin c parse b) = record {
      wide = wide;
      high = high;
      screen = s;
      inside = s.cursor;
    } in
    rw (not_degenerate b.buffer_size wide high) (
      finish-IsSound c b ((run c text (begin c parse b)).1)
        (run-SoundState c text (begin c parse b) started))
