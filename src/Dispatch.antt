-- ===== src/Dispatch.antt =====
-- `dispatch_message` of src/condrv/condrv_server.hpp: what each message of a client does to the server
-- and to its screen buffers, and the reply. A message is given by the fields of its body that the code
-- reads, with a `BOOL` as whether it is not `FALSE`; a reply by its status, its information, and the
-- fields that the code writes.
pub mod Buffers
pub mod Cells
pub mod Settings
pub mod Connection
pub mod Calls
pub mod Usable
pub mod Sound
pub mod Kept
pub mod Refused
pub mod Hosted
pub mod Tests
pub mod Ledger
pub mod Valid
pub mod Refine
pub mod Drain
pub mod Strings
pub mod Aliases
pub mod AliasLists
pub mod Loops
pub mod Listed
pub mod Bytes
pub mod Refusals
pub mod Asked
pub mod Stored
pub mod AliasTests
use conhost.Prelude.{ℕ, if◌then◌else◌, Bool, true, false, List, get_elem?, set, Option, none, some}
use conhost.Screen.{Coord, SmallRect, ScreenBuffer}
use conhost.Server.{ServerState, ObjectHandle, ConnectionInformation, find_object, is_output}
use conhost.Server.Options.{CurrentFont, deref}

-- The server's state, and the buffers that its handles refer to.
pub record Host : Type 0 where
  pub state : ServerState
  pub buffers : List ScreenBuffer

pub data Status : Type 0 where
  status_success : Status
  status_invalid_handle : Status
  status_invalid_parameter : Status
  status_no_memory : Status
  status_unsuccessful : Status
  status_buffer_too_small : Status

-- `CONSOLE_SCREENBUFFERINFO_MSG`.
pub record ScreenBufferInfo : Type 0 where
  pub size : Coord
  pub cursor_position : Coord
  pub scroll_position : Coord
  pub attributes : ℕ
  pub current_window_size : Coord
  pub maximum_window_size : Coord
  pub popup_attributes : ℕ
  pub fullscreen_supported : Bool
  pub color_table : List ℕ

-- What a reply carries besides its status and its information. A text is given by its length as the
-- body has it, with the bytes that were put into the output buffer.
pub data Body : Type 0 where
  nothing : Body
  a_number : ℕ → Body
  a_size : Coord → Body
  cursor_info : ℕ → Bool → Body
  cursor_mode : Bool → Bool → Body
  screen_buffer_info : ScreenBufferInfo → Body
  history_info : ℕ → ℕ → ℕ → Body
  current_font : CurrentFont → Body
  process_list : ℕ → List ℕ → Body
  connection : ConnectionInformation → Body
  a_text : ℕ → List ℕ → Body

-- With `request_exit` of `DispatchOutcome`.
pub record Reply : Type 0 where
  pub status : Status
  pub information : ℕ
  pub body : Body
  pub request_exit : Bool

abbrev pub answer : Body → Reply
answer body = record { status = status_success; information = 0; body = body; request_exit = false }

abbrev pub reject : Status → Reply
reject status = record { status = status; information = 0; body = nothing; request_exit = false }

-- What follows an operation that can refuse: more, or an error.
unfoldable pub accepted_or :
    Status → (ScreenBuffer → ScreenBuffer × Reply) → ScreenBuffer × Bool → ScreenBuffer × Reply
accepted_or status next (b, true) = next b
accepted_or status next (b, false) = (b, reject status)

unfoldable pub succeed : ScreenBuffer → ScreenBuffer × Reply
succeed b = (b, answer nothing)

-- A screen buffer, and its place among the buffers.
pub record Target : Type 0 where
  pub place : ℕ
  pub buffer : ScreenBuffer

abbrev pub target_at : Option ScreenBuffer → ℕ → Option Target
target_at none place = none
target_at (some b) place = some (record { place = place; buffer = b })

abbrev pub target_of : Option ℕ → List ScreenBuffer → Option Target
target_of none buffers = none
target_of (some place) buffers = target_at (get_elem? buffers place) place

abbrev pub target_through : Option ObjectHandle → List ScreenBuffer → Option Target
target_through none buffers = none
target_through (some handle) buffers =
    if is_output handle.kind then target_of handle.screen_buffer buffers else none

-- The guards that every message on an output handle begins with.
unfoldable pub target : ℕ → Host → Option Target
target handle_id host = target_through (find_object handle_id host.state) host.buffers

-- A message that reads or changes the buffer of an output handle.
unfoldable pub on_buffer : (ScreenBuffer → ScreenBuffer × Reply) → ℕ → Host → Host × Reply
unfolding target
on_buffer call handle_id host = elim (target handle_id host) [
  | none ↦ (host, reject status_invalid_handle)
  | some t ↦
      (record host { buffers = set host.buffers t.place (call t.buffer).0 }, (call t.buffer).1)
]

-- A message that needs an output handle with its buffer, and is about the server's state.
unfoldable pub on_output : (ServerState → ServerState × Reply) → ℕ → Host → Host × Reply
unfolding target
on_output call handle_id host = elim (target handle_id host) [
  | none ↦ (host, reject status_invalid_handle)
  | some t ↦ (record host { state = (call host.state).0 }, (call host.state).1)
]
