-- ===== src/Dispatch/Connection.antt =====
-- The messages by which a process connects and disconnects, and creates and closes its handles.
use Prim.Native.Nat.{bit_and}
use conhost.Prelude.{
  ℕ, ◌-◌, ◌/◌, ◌%◌, ◌^◌, ltb, leb, ◌==◌, if◌then◌else◌, Bool, false, not, ◌&&◌, List, [], Text,
  take, get_elem?, Option, none, some,
}
use conhost.Prelude.Result.{Expected, expected, unexpected}
use conhost.Screen.{ScreenBuffer}
use conhost.Server.{
  ServerState, ObjectHandle, ObjectKind, input, output, new_object, ConnectionInformation,
  DeviceCommError, Allocation, create_object, close_object, has_process, disconnect_client,
  process_count,
}
use conhost.Server.Connect.{ConnectMemory, connect_client}
use conhost.Server.Options.{create_screen_buffer_like_active}
use conhost.Dispatch.{
  Host, status_invalid_handle, status_invalid_parameter, status_no_memory, nothing, connection,
  Reply, answer, reject,
}

-- The fields of `CONSOLE_SERVER_MSG` that are read: the length in bytes, and the array.
pub record ServerMsg : Type 0 where
  pub application_name_length : ℕ
  pub application_name : List ℕ

abbrev pub is_terminator : Option ℕ → Bool
is_terminator none = false
is_terminator (some c) = c == 0

-- The application name, of the message if its input buffer holds one. The array has 128 units.
unfoldable pub read_app_name : Option ServerMsg → Text
read_app_name none = []
read_app_name (some msg) =
    let bytes = msg.application_name_length in
    let cch = bytes / 2 in
    if bytes % 2 == 0
      && leb bytes 254
      && ltb cch 128
      && is_terminator (get_elem? msg.application_name cch)
    then take cch msg.application_name
    else []

-- An id of more than 32 bits counts as 0.
abbrev pub narrow_id : ℕ → ℕ
narrow_id id = if ltb (2 ^ 32 - 1) id then 0 else id

abbrev pub with_state : Host → ServerState → Host
with_state host s = record host { state = s }

abbrev pub connect_reply :
    Host → ServerState × Expected DeviceCommError ConnectionInformation → Host × Reply
connect_reply host (s, unexpected e) = (with_state host s, reject status_no_memory)
connect_reply host (s, expected info) =
    (with_state host s, record (answer (connection info)) { information = 24 })

unfoldable pub connect :
    (Text → Text → Bool) → ConnectMemory → ℕ → ℕ → Option ServerMsg → Host → Host × Reply
unfolding connect_client read_app_name
connect compare_string_ordinal memory process object msg host = connect_reply host (
    connect_client compare_string_ordinal memory (narrow_id process) (narrow_id object)
      (read_app_name msg) host.state)

unfoldable pub disconnect : ℕ → Host → Host × Reply
unfolding disconnect_client process_count
disconnect process_handle host =
    let (s, removed) = disconnect_client process_handle host.state in
    let reply = if removed then answer nothing else reject status_invalid_handle in
    (with_state host s, record reply { request_exit = process_count s == 0 })

pub data ObjectType : Type 0 where
  current_input : ObjectType
  current_output : ObjectType
  new_output : ObjectType
  generic : ObjectType
  unknown : ObjectType

-- `GENERIC_READ` alone, or `GENERIC_WRITE` alone, decides a generic object.
abbrev pub has_read : ℕ → Bool
has_read access = not (bit_and access (2 ^ 31) == 0)

abbrev pub has_write : ℕ → Bool
has_write access = not (bit_and access (2 ^ 30) == 0)

unfoldable pub resolve_type : ObjectType → ℕ → ObjectType
resolve_type generic access =
    if has_read access && not (has_write access)
    then current_input
    else if has_write access && not (has_read access)
    then current_output
    else generic
resolve_type type access = type

pub record CreateObject : Type 0 where
  pub object_type : ObjectType
  pub desired_access : ℕ
  pub share_mode : ℕ

abbrev pub requested_object : CreateObject → ℕ → ObjectKind → Option ℕ → ObjectHandle
requested_object info process kind buffer = record new_object {
  desired_access = info.desired_access;
  share_mode = info.share_mode;
  owning_process = process;
  kind = kind;
  screen_buffer = buffer;
}

abbrev pub created_reply : Host → ServerState × Expected DeviceCommError ℕ → Host × Reply
created_reply host (s, unexpected e) = (with_state host s, reject status_no_memory)
created_reply host (s, expected handle_id) =
    (with_state host s, record (answer nothing) { information = handle_id })

-- `CreateObject` behind its `switch`.
unfoldable pub create_checked : Allocation → ObjectHandle → Host → Host × Reply
unfolding create_object has_process
create_checked memory object host =
    if has_process object.owning_process host.state
    then created_reply host (create_object memory object host.state)
    else (host, reject status_invalid_handle)

-- A new output buffer is made, even if the process turns out not to be connected.
abbrev pub create_on_new :
    Allocation
    → CreateObject
    → ℕ
    → ServerState
    → List ScreenBuffer × Expected DeviceCommError ℕ
    → Host × Reply
create_on_new memory info process s (buffers, unexpected e) =
    (record { state = s; buffers = buffers }, reject status_no_memory)
create_on_new memory info process s (buffers, expected place) =
    create_checked memory (requested_object info process output (some place))
      (record { state = s; buffers = buffers })

unfoldable pub create_of_type :
    ObjectType → Bool → Allocation → CreateObject → ℕ → Host → Host × Reply
unfolding create_checked create_screen_buffer_like_active
create_of_type current_input has_memory memory info process host =
    create_checked memory (requested_object info process input none) host
create_of_type current_output has_memory memory info process host =
    create_checked memory (requested_object info process output host.state.active_screen_buffer)
      host
create_of_type new_output has_memory memory info process host =
    create_on_new memory info process host.state
      (create_screen_buffer_like_active has_memory host.state host.buffers)
create_of_type _ has_memory memory info process host = (host, reject status_invalid_parameter)

unfoldable pub create : Bool → Allocation → CreateObject → ℕ → Host → Host × Reply
unfolding create_of_type resolve_type
create has_memory memory info process host =
    create_of_type (resolve_type info.object_type info.desired_access) has_memory memory info
      process host

unfoldable pub close : ℕ → Host → Host × Reply
unfolding close_object
close handle_id host =
    let (s, closed) = close_object handle_id host.state in
    (with_state host s, if closed then answer nothing else reject status_invalid_handle)
