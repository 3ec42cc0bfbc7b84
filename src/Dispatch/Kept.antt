-- ===== src/Dispatch/Kept.antt =====
-- What the messages on a screen buffer keep of it, one lemma for each message.
use conhost.Dispatch.Cells.{
  ScrollMessage, scroll_message, scrolled_rect, scroll_clip, fill_cell, set_window_info,
  desired_window, is_disordered, moved_edges, leaves_buffer, scroll_within,
}
use conhost.Prelude.{ℕ, refl, arith, Bool, false, not, Bool-cases, inl, inr, subst, ◌&&◌, ◌%◌, ◌^◌}
use conhost.Prelude.Int.{IsShort}
use conhost.Screen.{
  Coord, SmallRect, ScreenBuffer, is_degenerate, set_cursor_position, set_window_rect,
}
use conhost.Screen.Cursor.{InBuffer, set_text_attributes, set_cursor_info}
use conhost.Screen.Scroll.{scroll_screen_buffer}
use conhost.VtOutput.Keeps.{
  Like, Like-refl, scroll_screen_buffer-Like, fill_output_characters-Like,
  fill_output_attributes-Like,
}
use conhost.Dispatch.{
  answer, reject, nothing, status_no_memory, accepted_or, succeed, status_invalid_parameter,
}
use conhost.Dispatch.Buffers.{
  is_outside, set_cursor_position_message, set_cursor_info_message, get_screen_buffer_info,
}
use conhost.Dispatch.Usable.{
  IsUsable, IsUsable-Like, is_inside, set_cursor_position-IsUsable, snap-IsUsable,
  set_window_rect-IsUsable,
}
use conhost.Dispatch.Sound.{
  Leaves, guarded-Leaves, accepted-Leaves, Leaves-IsUsable, HasSize, set_screen_buffer_info-HasSize,
  set_screen_buffer_size_message-HasSize,
}
use conhost.Dispatch.Calls.{
  BufferMessage, call, consolep_get_cursor_info, consolep_set_cursor_info,
  consolep_get_screen_buffer_info, consolep_set_screen_buffer_info, consolep_set_screen_buffer_size,
  consolep_set_cursor_position, consolep_get_largest_window_size, consolep_scroll_screen_buffer,
  consolep_set_text_attribute, consolep_set_window_info, consolep_fill_console_output,
  consolep_set_display_mode, consolep_char_type,
}
use conhost.Dispatch.Cells.{
  ElementType, console_ascii, console_real_unicode, console_false_unicode, console_attribute,
  other_type, fill_elements, fill_console_output, char_type, nothing_filled,
}

set_cursor_position_message-IsUsable :
    (size p : Coord) (b : ScreenBuffer)
    → IsUsable size b
    → IsUsable size (set_cursor_position_message p b).0
unfolding set_cursor_position_message
set_cursor_position_message-IsUsable size p b u = elim (Bool-cases (is_outside p b.buffer_size)) [
  | inl out ↦ rw out u
  | inr inside ↦
      rw inside
        (snap-IsUsable size (set_cursor_position p b) (
          set_cursor_position-IsUsable size p b
            (subst (λ (c : Coord). InBuffer p c) u.sound.sized (is_inside p b.buffer_size inside))
            u)).0
]

set_window_info-Leaves :
    (absolute : Bool) (window : SmallRect) (b : ScreenBuffer)
    → Leaves
        (set_window_info absolute window b).0
        b
        (set_window_rect (desired_window absolute window b) b).0
unfolding set_window_info
set_window_info-Leaves absolute window b =
    let moved = moved_edges b.window_rect window in
    let bad = reject status_invalid_parameter in
    let shown = set_window_rect (desired_window absolute window b) b in
    guarded-Leaves (not absolute && is_disordered moved)
      (not absolute && leaves_buffer moved b.buffer_size) false bad bad bad b
      (accepted_or status_invalid_parameter succeed shown) _
      (accepted-Leaves status_invalid_parameter b shown)

scroll_message-Leaves :
    (allocated : Bool) (body : ScrollMessage) (b : ScreenBuffer)
    → Leaves
        (scroll_message allocated body b).0
        b
        (scroll_screen_buffer allocated
          (scrolled_rect body b)
          (scroll_clip body b)
          body.destination_origin
          (fill_cell body.unicode body.fill)
          b).0
unfolding scroll_message scroll_within
scroll_message-Leaves allocated body b =
    let bad = reject status_invalid_parameter in
    let scrolled =
      scroll_screen_buffer allocated (scrolled_rect body b) (scroll_clip body b)
        body.destination_origin (fill_cell body.unicode body.fill) b in
    guarded-Leaves (is_degenerate b.buffer_size) (is_disordered body.scroll_rectangle)
      (is_disordered (scrolled_rect body b)) (reject status_no_memory) bad (answer nothing) b
      (scroll_within allocated body b) _
      (guarded-Leaves (body.clip && is_disordered body.clip_rectangle)
        (body.clip && is_disordered (scroll_clip body b)) false bad (answer nothing) bad b
        (accepted_or status_no_memory succeed scrolled) _
        (accepted-Leaves status_no_memory b scrolled))

set_window_info-IsUsable :
    (size : Coord) (absolute : Bool) (window : SmallRect) (b : ScreenBuffer)
    → IsUsable size b
    → IsUsable size (set_window_info absolute window b).0
set_window_info-IsUsable size absolute window b u =
    Leaves-IsUsable size _ b _ (set_window_info-Leaves absolute window b) u
      (set_window_rect-IsUsable size (desired_window absolute window b) b u)

scroll_message-IsUsable :
    (size : Coord) (allocated : Bool) (body : ScrollMessage) (b : ScreenBuffer)
    → IsUsable size b
    → IsUsable size (scroll_message allocated body b).0
scroll_message-IsUsable size allocated body b u =
    Leaves-IsUsable size _ b _ (scroll_message-Leaves allocated body b) u (
      IsUsable-Like size b _
        (scroll_screen_buffer-Like allocated (scrolled_rect body b) (scroll_clip body b)
          body.destination_origin (fill_cell body.unicode body.fill) b)
        u)

set_cursor_info-IsUsable :
    (size : Coord) (n : ℕ) (visible : Bool) (b : ScreenBuffer)
    → IsUsable size b
    → IsUsable size (set_cursor_info n visible b)
set_cursor_info-IsUsable size n visible b = IsUsable-Like size b _ (record {
  same_size = refl;
  same_length = refl;
  same_cursor = refl;
  same_window = refl;
  same_backup = refl;
})

set_text_attribute-IsUsable :
    (size : Coord) (attributes : ℕ) (b : ScreenBuffer)
    → IsUsable size b
    → IsUsable size (set_text_attributes attributes b)
set_text_attribute-IsUsable size attributes b = IsUsable-Like size b _ (record {
  same_size = refl;
  same_length = refl;
  same_cursor = refl;
  same_window = refl;
  same_backup = refl;
})

fill_elements-Like :
    (type : ElementType) (at : Coord) (element n : ℕ) (b : ScreenBuffer)
    → Like b (fill_elements type at element n b).0
unfolding fill_elements
fill_elements-Like console_attribute at element n b = fill_output_attributes-Like at element n b
fill_elements-Like console_real_unicode at element n b = fill_output_characters-Like at element n b
fill_elements-Like console_false_unicode at element n b = fill_output_characters-Like at element n b
fill_elements-Like console_ascii at element n b =
    fill_output_characters-Like at (element % 2 ^ 8) n b
fill_elements-Like other_type at element n b = Like-refl b

fill_console_output-Leaves :
    (type : ElementType) (at : Coord) (element n : ℕ) (b : ScreenBuffer)
    → Leaves (fill_console_output type at element n b).0 b (fill_elements type at element n b).0
unfolding fill_console_output
fill_console_output-Leaves type at element n b =
    let bad = nothing_filled status_invalid_parameter in
    guarded-Leaves (is_degenerate b.buffer_size) (is_outside at b.buffer_size) false
      (nothing_filled status_no_memory) bad bad b (fill_elements type at element n b) _ (inr refl)

set_cursor_info_message-Leaves :
    (size : ℕ) (visible : Bool) (b : ScreenBuffer)
    → Leaves (set_cursor_info_message size visible b).0 b (set_cursor_info size visible b)
unfolding set_cursor_info_message
set_cursor_info_message-Leaves size visible b = ground arith

char_type-Leaves : (p : Coord) (b : ScreenBuffer) → Leaves (char_type p b).0 b b
unfolding char_type
char_type-Leaves p b = ground arith

-- The sizes in a message are of `SHORT`s.
abbrev pub HasShorts : BufferMessage → Type 0
HasShorts (consolep_set_screen_buffer_info info) = IsShort info.size.x × IsShort info.size.y
HasShorts (consolep_set_screen_buffer_size size) = IsShort size.x × IsShort size.y
HasShorts _ = Unit

-- Whatever a message asks for, granted or refused, and whether its memory is there or not, it leaves
-- a usable buffer usable: of a size positive on both axes, with a cell for each position, and with
-- its cursor, its window, and its backup if it has one, inside it.
pub call-HasSize :
    (allocated : Bool) (m : BufferMessage) (size : Coord) (b : ScreenBuffer)
    → HasShorts m
    → IsUsable size b
    → HasSize (call allocated m b).0
unfolding call get_screen_buffer_info
call-HasSize allocated consolep_get_cursor_info size b h u = (size, u)
call-HasSize allocated (consolep_set_cursor_info n visible) size b h u = (
  size,
  Leaves-IsUsable size _ b _ (set_cursor_info_message-Leaves n visible b) u
      (set_cursor_info-IsUsable size n visible b u),
)
call-HasSize allocated consolep_get_screen_buffer_info size b h u = (size, u)
call-HasSize allocated (consolep_set_screen_buffer_info info) size b (x, y) u =
    set_screen_buffer_info-HasSize allocated size info b x y u
call-HasSize allocated (consolep_set_screen_buffer_size new) size b (x, y) u =
    set_screen_buffer_size_message-HasSize allocated size new b x y u
call-HasSize allocated (consolep_set_cursor_position p) size b h u =
    (size, set_cursor_position_message-IsUsable size p b u)
call-HasSize allocated consolep_get_largest_window_size size b h u = (size, u)
call-HasSize allocated (consolep_scroll_screen_buffer body) size b h u =
    (size, scroll_message-IsUsable size allocated body b u)
call-HasSize allocated (consolep_set_text_attribute attributes) size b h u =
    (size, set_text_attribute-IsUsable size attributes b u)
call-HasSize allocated (consolep_set_window_info absolute window) size b h u =
    (size, set_window_info-IsUsable size absolute window b u)
call-HasSize allocated (consolep_fill_console_output type at element n) size b h u = (
  size,
  Leaves-IsUsable size _ b _ (fill_console_output-Leaves type at element n b) u
      (IsUsable-Like size b _ (fill_elements-Like type at element n b) u),
)
call-HasSize allocated consolep_set_display_mode size b h u = (size, u)
call-HasSize allocated (consolep_char_type p) size b h u =
    (size, Leaves-IsUsable size _ b _ (char_type-Leaves p b) u u)
