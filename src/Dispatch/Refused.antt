-- ===== src/Dispatch/Refused.antt =====
-- What a refused message on a screen buffer, or on its handle, leaves.
use conhost.Prelude.{
  ℕ, ◌≡◌, refl, subst, arith, if◌then◌else◌, Bool, true, false, not, ◌&&◌, Bool-cases, ◌⊎◌, inl,
  inr,
}
use conhost.Screen.{
  Coord, SmallRect, ScreenCell, ScreenBuffer, is_degenerate, set_cursor_position, set_window_rect,
  snap_window_to_cursor,
}
use conhost.Screen.Window.{CursorInWindow}
use conhost.Screen.Cursor.{InBuffer}
use conhost.Screen.Place.{set_window_rect-false}
use conhost.Screen.Size.{set_screen_buffer_size}
use conhost.Screen.Scroll.{scroll_screen_buffer}
use conhost.Dispatch.{
  Reply, Status, status_no_memory, status_invalid_parameter, answer, nothing, reject, accepted_or,
  succeed,
}
use conhost.Dispatch.Buffers.{
  is_outside, set_screen_buffer_size_message, set_cursor_position_message, set_cursor_info_message,
  get_screen_buffer_info,
}
use conhost.Dispatch.Cells.{
  scroll_message, scroll_within, scrolled_rect, scroll_clip, fill_cell, is_disordered,
  set_window_info, desired_window, moved_edges, leaves_buffer, fill_console_output, fill_elements,
  nothing_filled, char_type, ElementType, console_ascii, console_real_unicode,
  console_false_unicode, console_attribute, other_type,
}
use conhost.Dispatch.Calls.{
  BufferMessage, call, consolep_get_cursor_info, consolep_set_cursor_info,
  consolep_get_screen_buffer_info, consolep_set_screen_buffer_info, consolep_set_screen_buffer_size,
  consolep_set_cursor_position, consolep_get_largest_window_size, consolep_scroll_screen_buffer,
  consolep_set_text_attribute, consolep_set_window_info, consolep_fill_console_output,
  consolep_set_display_mode, consolep_char_type,
}
use conhost.Dispatch.Ledger.{succeeded}
use conhost.Dispatch.Usable.{IsUsable, is_inside, set_cursor_position-IsUsable, snap-IsUsable}

-- A reply that is an error comes with the buffer as it was.
abbrev pub Refuses : ScreenBuffer → ScreenBuffer × Reply → Type 0
Refuses b r = succeeded r.1.status ≡ false → r.0 ≡ b

guarded-Refuses :
    (t u v : Bool) (p q r : Reply) (b : ScreenBuffer) (y : ScreenBuffer × Reply)
    → Refuses b y
    → Refuses b (if t then (b, p) else if u then (b, q) else if v then (b, r) else y)
guarded-Refuses true u v p q r b y l e = refl
guarded-Refuses false true v p q r b y l e = refl
guarded-Refuses false false true p q r b y l e = refl
guarded-Refuses false false false p q r b y l e = l e

accepted-Refuses :
    (status : Status) (b : ScreenBuffer) (r : ScreenBuffer × Bool)
    → (r.1 ≡ false → r.0 ≡ b)
    → Refuses b (accepted_or status succeed r)
unfolding accepted_or succeed
accepted-Refuses status b (c, true) l e = ground arith
accepted-Refuses status b (c, false) l e = l refl

set_screen_buffer_size-refused :
    (allocated : Bool) (size : Coord) (b : ScreenBuffer)
    → (set_screen_buffer_size allocated size b).1 ≡ false
    → (set_screen_buffer_size allocated size b).0 ≡ b
unfolding set_screen_buffer_size
set_screen_buffer_size-refused allocated size b e = ground arith

scroll_screen_buffer-refused :
    (rect clip : SmallRect) (dest : Coord) (fill : ScreenCell) (b : ScreenBuffer)
    → (scroll_screen_buffer true rect clip dest fill b).1 ≡ false
    → (scroll_screen_buffer true rect clip dest fill b).0 ≡ b
unfolding scroll_screen_buffer
scroll_screen_buffer-refused rect clip dest fill b e = ground arith

fill_elements-Refuses :
    (type : ElementType) (at : Coord) (element n : ℕ) (b : ScreenBuffer)
    → Refuses b (fill_elements type at element n b)
unfolding fill_elements
fill_elements-Refuses console_attribute at element n b e = ground arith
fill_elements-Refuses console_real_unicode at element n b e = ground arith
fill_elements-Refuses console_false_unicode at element n b e = ground arith
fill_elements-Refuses console_ascii at element n b e = ground arith
fill_elements-Refuses other_type at element n b e = refl

-- The one message that sets something before its last test.
abbrev pub sets_in_parts : BufferMessage → Bool
sets_in_parts (consolep_set_screen_buffer_info info) = true
sets_in_parts _ = false

-- With its memory there, a message on a screen buffer whose reply is an error leaves the buffer as it
-- was, unless the message is `SetConsoleScreenBufferInfo`.
pub call-Refuses :
    (m : BufferMessage) (b : ScreenBuffer) → sets_in_parts m ≡ false → Refuses b (call true m b)
unfolding call get_screen_buffer_info set_cursor_info_message set_screen_buffer_size_message
    set_cursor_position_message scroll_message scroll_within set_window_info fill_console_output
    char_type
call-Refuses consolep_get_cursor_info b h e = refl
call-Refuses (consolep_set_cursor_info n visible) b h e = ground arith
call-Refuses consolep_get_screen_buffer_info b h e = refl
call-Refuses (consolep_set_screen_buffer_info info) b h e = ground arith
call-Refuses (consolep_set_screen_buffer_size size) b h e =
    guarded-Refuses (is_degenerate size) false false (reject status_invalid_parameter)
      (answer nothing) (answer nothing) b
      (accepted_or status_no_memory succeed (set_screen_buffer_size true size b))
      (accepted-Refuses status_no_memory b (set_screen_buffer_size true size b)
        (set_screen_buffer_size-refused true size b))
      e
call-Refuses (consolep_set_cursor_position p) b h e = ground arith
call-Refuses consolep_get_largest_window_size b h e = refl
call-Refuses (consolep_scroll_screen_buffer body) b h e =
    let bad = reject status_invalid_parameter in
    let scrolled =
      scroll_screen_buffer true (scrolled_rect body b) (scroll_clip body b) body.destination_origin
        (fill_cell body.unicode body.fill) b in
    guarded-Refuses (is_degenerate b.buffer_size) (is_disordered body.scroll_rectangle)
      (is_disordered (scrolled_rect body b)) (reject status_no_memory) bad (answer nothing) b
      (scroll_within true body b)
      (guarded-Refuses (body.clip && is_disordered body.clip_rectangle)
        (body.clip && is_disordered (scroll_clip body b)) false bad (answer nothing) bad b
        (accepted_or status_no_memory succeed scrolled)
        (accepted-Refuses status_no_memory b scrolled (
          scroll_screen_buffer-refused (scrolled_rect body b) (scroll_clip body b)
            body.destination_origin (fill_cell body.unicode body.fill) b)))
      e
call-Refuses (consolep_set_text_attribute attributes) b h e = ground arith
call-Refuses (consolep_set_window_info absolute window) b h e =
    let moved = moved_edges b.window_rect window in
    let bad = reject status_invalid_parameter in
    let shown = set_window_rect (desired_window absolute window b) b in
    guarded-Refuses (not absolute && is_disordered moved)
      (not absolute && leaves_buffer moved b.buffer_size) false bad bad bad b
      (accepted_or status_invalid_parameter succeed shown)
      (accepted-Refuses status_invalid_parameter b shown
        (set_window_rect-false (desired_window absolute window b) b))
      e
call-Refuses (consolep_fill_console_output type at element n) b h e =
    let bad = nothing_filled status_invalid_parameter in
    guarded-Refuses (is_degenerate b.buffer_size) (is_outside at b.buffer_size) false
      (nothing_filled status_no_memory) bad bad b (fill_elements type at element n b)
      (fill_elements-Refuses type at element n b) e
call-Refuses consolep_set_display_mode b h e = refl
call-Refuses (consolep_char_type p) b h e = ground arith

snap-cursor : (b : ScreenBuffer) → (snap_window_to_cursor b).cursor_position ≡ b.cursor_position
unfolding snap_window_to_cursor
snap-cursor b = ground arith

is_outside-apart : (p size : Coord) → is_outside p size ≡ true → InBuffer p size → ⊥
is_outside-apart p size e inside = ground arith

set_cursor_position_message-accepts :
    (p size : Coord) (b : ScreenBuffer)
    → IsUsable size b
    → is_outside p b.buffer_size ≡ false
    → (set_cursor_position_message p b
        ≡ (snap_window_to_cursor (set_cursor_position p b), answer nothing))
      × CursorInWindow (snap_window_to_cursor (set_cursor_position p b))
      × ((snap_window_to_cursor (set_cursor_position p b)).cursor_position ≡ p)
unfolding set_cursor_position_message
set_cursor_position_message-accepts p size b u inside =
    let within : InBuffer p size =
      subst (λ (c : Coord). InBuffer p c) u.sound.sized (is_inside p b.buffer_size inside) in
    let placed = set_cursor_position-IsUsable size p b within u in
    (
      rw inside refl,
      (snap-IsUsable size (set_cursor_position p b) placed).1,
      snap-cursor (set_cursor_position p b),
    )

-- `SetConsoleCursorPosition` on a usable buffer succeeds exactly for the positions inside the buffer.
-- Then the cursor is there, and the window shows it; otherwise nothing changes.
pub set_cursor_position_message-shows :
    (p size : Coord) (b : ScreenBuffer)
    → IsUsable size b
    → (InBuffer p size
        × (succeeded (set_cursor_position_message p b).1.status ≡ true)
        × CursorInWindow (set_cursor_position_message p b).0
        × ((set_cursor_position_message p b).0.cursor_position ≡ p))
      ⊎ ((InBuffer p size → ⊥)
          × (set_cursor_position_message p b ≡ (b, reject status_invalid_parameter)))
unfolding set_cursor_position_message
set_cursor_position_message-shows p size b u = elim (Bool-cases (is_outside p b.buffer_size)) [
  | inl out ↦ inr (
    is_outside-apart p size (subst (λ (c : Coord). is_outside p c ≡ true) u.sound.sized out),
    rw out refl,
  )
  | inr inside ↦
      let (made, shown, there) = set_cursor_position_message-accepts p size b u inside in
      inl (
        subst (λ (c : Coord). InBuffer p c) u.sound.sized (is_inside p b.buffer_size inside),
        rw made refl,
        rw made shown,
        rw made there,
      )
]
