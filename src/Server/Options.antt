-- ===== src/Server/Options.antt =====
-- The operations of `ServerState` that read or set one of its settings: the font, the titles, the
-- command histories, the active screen buffer.
use conhost.Prelude.{
  ℕ, get_elem?, ◌==◌, if◌then◌else◌, Bool, true, false, not, ◌&&◌, List, [], ◌∷◌, ◌++◌, length,
  take, Text, codes, Option, none, some,
}
use conhost.Prelude.Int.{pos, ltb_ℤ}
use conhost.Prelude.Result.{Expected, expected}
use conhost.Screen.{Coord, Settings, ScreenBuffer, origin, scroll_position, window_size}
use conhost.History.{
  CommandHistory, add, update_first, is_of_process, resize_all, find_by_process, find_by_exe,
  expunge_by_exe, set_number_of_commands_by_exe,
}
use conhost.Server.{ServerState, DeviceCommError, error_invalid_state, error_outofmemory, failure}
use conhost.Server.Connect.{create}

-- `CONSOLE_CURRENTFONT_MSG`.
pub record CurrentFont : Type 0 where
  pub font_index : ℕ
  pub font_size : Coord
  pub font_family : ℕ
  pub font_weight : ℕ
  pub face_name : Text

unfoldable pub fill_current_font : ServerState → CurrentFont
fill_current_font s = record {
  font_index = s.font_index;
  font_size = s.font_size;
  font_family = s.font_family;
  font_weight = s.font_weight;
  face_name = s.font_face_name;
}

-- `body.FaceName[0] != L'\0'`.
abbrev pub is_named : Text → Bool
is_named [] = false
is_named (c ∷ cs) = not (c == 0)

-- `back() = L'\0'`, in an array of `LF_FACESIZE` units.
abbrev pub terminated : Text → Text
terminated name = take 31 name ++ 0 ∷ []

unfoldable pub apply_current_font : CurrentFont → ServerState → ServerState
apply_current_font body s = record s {
  font_index = 0;
  font_size =
      if ltb_ℤ (pos 0) body.font_size.x && ltb_ℤ (pos 0) body.font_size.y
      then body.font_size
      else s.font_size;
  font_family = if body.font_family == 0 then s.font_family else body.font_family;
  font_weight = if body.font_weight == 0 then s.font_weight else body.font_weight;
  font_face_name = if is_named body.face_name then terminated body.face_name else s.font_face_name;
}

-- `title`, and `set_title`. Whether the first title, and the new one, can be stored are arguments.
unfoldable pub title_of : Bool → ServerState → Text
title_of original s = if original then s.original_title else s.title

unfoldable pub set_title : Bool → Bool → Text → ServerState → ServerState × Bool
set_title keeps_original keeps_title title s =
    let named = record s {
      original_title = if length s.original_title == 0 then title else s.original_title;
    } in
    let stored = if keeps_title then (record named { title = title }, true) else (named, false) in
    if length s.original_title == 0 && not keeps_original then (s, false) else stored

unfoldable pub set_history_info : ℕ → ℕ → ℕ → ServerState → ServerState
set_history_info buffer_size buffer_count flags s = record s {
  history_buffer_size = buffer_size;
  history_buffer_count = buffer_count;
  history_flags = flags;
  command_histories = resize_all buffer_size s.command_histories;
}

unfoldable pub add_command_history_for_process : Bool → ℕ → Text → Bool → ServerState → ServerState
add_command_history_for_process allocates process_handle command suppress_duplicates s = record s {
  command_histories =
      update_first (is_of_process process_handle) (add allocates command suppress_duplicates)
        s.command_histories;
}

unfoldable pub try_command_history_for_process : ℕ → ServerState → Option CommandHistory
unfolding find_by_process
try_command_history_for_process process_handle s =
    find_by_process process_handle s.command_histories

module _ (compare_string_ordinal : Text → Text → Bool) where
  unfoldable pub try_command_history_for_exe : Text → ServerState → Option CommandHistory
  unfolding find_by_exe
  try_command_history_for_exe exe_name s =
      find_by_exe compare_string_ordinal exe_name s.command_histories

  unfoldable pub expunge_command_history : Text → ServerState → ServerState
  unfolding expunge_by_exe
  expunge_command_history exe_name s = record s {
    command_histories = expunge_by_exe compare_string_ordinal exe_name s.command_histories;
  }

  unfoldable pub set_command_history_number_of_commands : Text → ℕ → ServerState → ServerState
  unfolding set_number_of_commands_by_exe
  set_command_history_number_of_commands exe_name max_commands s = record s {
    command_histories =
        set_number_of_commands_by_exe compare_string_ordinal exe_name max_commands
          s.command_histories;
  }

unfoldable pub set_active_screen_buffer : Option ℕ → ServerState → ServerState × Bool
set_active_screen_buffer none s = (s, false)
set_active_screen_buffer (some buffer) s = (
  record s {
    active_screen_buffer = some buffer;
    main_screen_buffer = elim (s.main_screen_buffer) [ none ↦ some buffer | some main ↦ some main ];
  },
  true,
)

-- The settings of `ScreenBuffer::create_blank_like`.
unfoldable pub blank_like : ScreenBuffer → Settings
unfolding window_size
blank_like template_buffer = record {
  buffer_size = template_buffer.buffer_size;
  cursor_position = origin;
  scroll_position = scroll_position template_buffer;
  window_size = window_size template_buffer;
  maximum_window_size = template_buffer.maximum_window_size;
  text_attributes = template_buffer.text_attributes;
  cursor_size = template_buffer.cursor_size;
  cursor_visible = template_buffer.cursor_visible;
  color_table = template_buffer.color_table;
}

-- The buffer that a reference points to. A reference that names no buffer does not occur.
unfoldable pub deref : Option ℕ → List ScreenBuffer → Option ScreenBuffer
deref none buffers = none
deref (some buffer) buffers = get_elem? buffers buffer

unfoldable pub create_blank_like :
    Bool → ScreenBuffer → List ScreenBuffer → List ScreenBuffer × Expected DeviceCommError ℕ
unfolding create blank_like
create_blank_like has_memory template_buffer buffers =
    let (created, place) = create has_memory (blank_like template_buffer) buffers in
    elim place [
      | none ↦ (created, failure (codes "Failed to allocate ScreenBuffer") error_outofmemory)
      | some buffer ↦ (created, expected buffer)
    ]

unfoldable pub create_screen_buffer_like_active :
    Bool → ServerState → List ScreenBuffer → List ScreenBuffer × Expected DeviceCommError ℕ
unfolding deref create_blank_like
create_screen_buffer_like_active has_memory s buffers =
    elim (deref s.active_screen_buffer buffers) [
      | none ↦ (buffers, failure (codes "No active screen buffer") error_invalid_state)
      | some template_buffer ↦ create_blank_like has_memory template_buffer buffers
    ]
