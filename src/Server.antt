-- ===== src/Server.antt =====
-- `ServerState` of src/condrv/condrv_server.hpp and condrv_server.cpp: the connected processes, the
-- object handles, and the settings that they share. A handle of the program is the address of what
-- it names, so every operation that allocates takes the address that it is given. A
-- `shared_ptr<ScreenBuffer>` is a position in a list of buffers, which only grows.
pub mod Connect
pub mod Options
pub mod Cases
pub mod Invariant
pub mod Start
pub mod Tests
use conhost.Prelude.{
  ℕ, ◌+◌, ◌%◌, ◌^◌, ltb, ◌==◌, if◌then◌else◌, Bool, true, false, not, ◌&&◌, ◌||◌, List, [], ◌∷◌,
  ◌++◌, Text, codes, length, take, replicate, Option, none, some,
}
use conhost.Prelude.Int.{ℤ, pos, ltb_ℤ}
use conhost.Prelude.Result.{Expected, expected, unexpected}
use conhost.Prelude.Table.{find, erase, update, erase_if, contains}
use conhost.Screen.{Coord, Settings, ScreenBuffer, construct, origin, scroll_position, window_size}
use conhost.Alias.{Aliases}
use conhost.History.{
  CommandHistory, CommandHistoryPool, add, find_by_process, update_first, is_of_process, resize_all,
  free_for_process, allocate_for_process, find_by_exe, expunge_by_exe,
  set_number_of_commands_by_exe,
}

pub data ObjectKind : Type 0 where
  input : ObjectKind
  output : ObjectKind

pub record ObjectHandle : Type 0 where
  pub kind : ObjectKind
  pub desired_access : ℕ
  pub share_mode : ℕ
  pub owning_process : ℕ
  pub screen_buffer : Option ℕ
  pub decoded_input_pending : Option ℕ
  pub pending_input_bytes : List ℕ
  pub cooked_read_pending : Text
  pub cooked_line_in_progress : Text
  pub cooked_line_cursor : ℕ
  pub cooked_insert_mode : Bool

-- `ObjectHandle object{}`.
abbrev pub new_object : ObjectHandle
new_object = record {
  kind = input;
  desired_access = 0;
  share_mode = 0;
  owning_process = 0;
  screen_buffer = none;
  decoded_input_pending = none;
  pending_input_bytes = [];
  cooked_read_pending = [];
  cooked_line_in_progress = [];
  cooked_line_cursor = 0;
  cooked_insert_mode = true;
}

pub record ProcessState : Type 0 where
  pub pid : ℕ
  pub tid : ℕ
  pub connect_sequence : ℕ
  pub process_handle : ℕ
  pub input_handle : ℕ
  pub output_handle : ℕ

pub record ConnectionInformation : Type 0 where
  pub process : ℕ
  pub input : ℕ
  pub output : ℕ

pub data Win32Error : Type 0 where
  error_outofmemory : Win32Error
  error_already_exists : Win32Error
  error_invalid_state : Win32Error

pub record DeviceCommError : Type 0 where
  pub context : Text
  pub win32_error : Win32Error

-- The fields of `ServerState`.
pub record ServerState : Type 0 where
  pub processes : List (ℕ × ProcessState)
  pub objects : List (ℕ × ObjectHandle)
  pub aliases : Aliases
  pub input_mode : ℕ
  pub output_mode : ℕ
  pub input_code_page : ℕ
  pub output_code_page : ℕ
  pub title : Text
  pub original_title : Text
  pub history_buffer_size : ℕ
  pub history_buffer_count : ℕ
  pub history_flags : ℕ
  pub command_histories : CommandHistoryPool
  pub font_index : ℕ
  pub font_size : Coord
  pub font_family : ℕ
  pub font_weight : ℕ
  pub font_face_name : Text
  pub cursor_blink : Bool
  pub cursor_db_enable : Bool
  pub nls_mode : ℕ
  pub menu_close : Bool
  pub key_shortcuts_enabled : Bool
  pub reserved_keys : ℕ
  pub os2_registered : Bool
  pub os2_oem_format : Bool
  pub main_screen_buffer : Option ℕ
  pub active_screen_buffer : Option ℕ
  pub next_connect_sequence : ℕ

-- What the allocator does for one entry of a map: the address of its value, if there is one, and
-- whether the map finds the memory for its node.
pub record Allocation : Type 0 where
  pub address : Option ℕ
  pub node : Bool

abbrev pub failure {ℓ} : {A : Type ℓ} → Text → Win32Error → Expected DeviceCommError A
failure text error = unexpected (record { context = text; win32_error = error })

-- `emplace` of a map in its `try` block.
unfoldable pub emplace {ℓ} :
    {A : Type ℓ}
    → Text
    → Text
    → Bool
    → ℕ
    → A
    → List (ℕ × A)
    → Expected DeviceCommError (List (ℕ × A))
unfolding contains
emplace existed failed has_node key value entries =
    if not has_node
    then failure failed error_outofmemory
    else if contains key entries
    then failure existed error_already_exists
    else expected ((key, value) ∷ entries)

-- `create_object` behind its two tests of the buffer.
unfoldable pub insert_object :
    Allocation → ObjectHandle → ServerState → ServerState × Expected DeviceCommError ℕ
unfolding emplace
insert_object memory object s = elim (memory.address) [
  | none ↦ (s, failure (codes "Failed to allocate ObjectHandle") error_outofmemory)
  | some handle_id ↦
      elim (emplace (codes "Object handle already existed") (codes "Failed to insert object handle")
        memory.node handle_id object s.objects) [
          | unexpected e ↦ (s, unexpected e)
          | expected objects ↦ (record s { objects = objects }, expected handle_id)
        ]
]

abbrev pub is_output : ObjectKind → Bool
is_output input = false
is_output output = true

abbrev pub is_null {ℓ} : {A : Type ℓ} → Option A → Bool
is_null none = true
is_null (some a) = false

-- An output handle without a buffer takes the active one.
unfoldable pub default_buffer : ObjectHandle → ServerState → ObjectHandle
default_buffer object s =
    if is_output object.kind && is_null object.screen_buffer
    then record object { screen_buffer = s.active_screen_buffer }
    else object

unfoldable pub create_object :
    Allocation → ObjectHandle → ServerState → ServerState × Expected DeviceCommError ℕ
unfolding insert_object default_buffer
create_object memory object s =
    let resolved = default_buffer object s in
    if is_output resolved.kind && is_null resolved.screen_buffer
    then (
      s,
      failure (codes "Output handle created without an active screen buffer") error_invalid_state,
    )
    else insert_object memory resolved s

unfoldable pub close_object : ℕ → ServerState → ServerState × Bool
unfolding contains erase
close_object handle_id s =
    if contains handle_id s.objects
    then (record s { objects = erase handle_id s.objects }, true)
    else (s, false)

unfoldable pub has_process : ℕ → ServerState → Bool
unfolding contains
has_process process_handle s = contains process_handle s.processes

unfoldable pub find_object : ℕ → ServerState → Option ObjectHandle
unfolding find
find_object handle_id s = find handle_id s.objects

unfoldable pub process_count : ServerState → ℕ
process_count s = length s.processes

-- `object->owning_process == process_handle`.
abbrev pub is_owned_by : ℕ → ObjectHandle → Bool
is_owned_by process_handle object = object.owning_process == process_handle

unfoldable pub disconnect_client : ℕ → ServerState → ServerState × Bool
unfolding contains erase erase_if
disconnect_client process_handle s =
    if contains process_handle s.processes
    then (
      record s {
        command_histories = free_for_process process_handle s.command_histories;
        objects = erase_if (is_owned_by process_handle) s.objects;
        processes = erase process_handle s.processes;
      },
      true,
    )
    else (s, false)
