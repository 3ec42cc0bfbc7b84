-- ===== src/Dispatch/Settings.antt =====
-- The messages on the settings of the server, and those that flush the input of a handle.
use Prim.Native.Nat.{bit_and}
use conhost.Prelude.{
  ℕ, ◌*◌, ◌-◌, ◌^◌, ltb, leb, ◌==◌, min, if◌then◌else◌, Bool, true, false, not, ◌&&◌, ◌||◌, List,
  [], ◌∷◌, map, length, none, some,
}
use conhost.Prelude.Result.{Expected, expected, unexpected}
use conhost.Prelude.Table.{update}
use conhost.Server.{
  ServerState, ObjectHandle, ObjectKind, ProcessState, DeviceCommError, input, output, find_object,
  is_output,
}
use conhost.Server.Options.{
  CurrentFont, fill_current_font, apply_current_font, set_history_info, set_active_screen_buffer,
}
use conhost.Dispatch.{
  Host, status_invalid_handle, status_invalid_parameter, status_no_memory, nothing, a_number,
  a_size, cursor_mode, history_info, current_font, process_list, Reply, answer, reject,
}

-- A message that is about the state only.
abbrev pub on_state : (ServerState → ServerState × Reply) → Host → Host × Reply
on_state call host = (record host { state = (call host.state).0 }, (call host.state).1)

-- A message on a handle of either kind.
unfoldable pub on_handle :
    (ObjectKind → ServerState → ServerState × Reply) → ℕ → Host → Host × Reply
unfolding find_object
on_handle call handle_id host = elim (find_object handle_id host.state) [
  | none ↦ (host, reject status_invalid_handle)
  | some handle ↦ on_state (call handle.kind) host
]

abbrev pub get_mode : ObjectKind → ServerState → ServerState × Reply
get_mode input s = (s, answer (a_number s.input_mode))
get_mode output s = (s, answer (a_number s.output_mode))

-- `ENABLE_ECHO_INPUT` and `ENABLE_LINE_INPUT`.
abbrev pub has_echo : ℕ → Bool
has_echo mode = not (bit_and mode 4 == 0)

abbrev pub has_line : ℕ → Bool
has_line mode = not (bit_and mode 2 == 0)

-- The valid bits of an input mode are the ten lowest, and those of an output mode the five lowest. An
-- input mode is set even if it is refused.
unfoldable pub set_mode : ℕ → ObjectKind → ServerState → ServerState × Reply
set_mode requested input s = (
  record s { input_mode = requested },
  if leb (2 ^ 10) requested || has_echo requested && not (has_line requested)
      then reject status_invalid_parameter
      else answer nothing,
)
set_mode requested output s =
    if leb (2 ^ 5) requested
    then (s, reject status_invalid_parameter)
    else (record s { output_mode = requested }, answer nothing)

abbrev pub get_cp : Bool → ServerState → ServerState × Reply
get_cp of_output s =
    (s, answer (a_number (if of_output then s.output_code_page else s.input_code_page)))

abbrev pub set_cp : Bool → ℕ → ServerState → ServerState × Reply
set_cp true code_page s = (record s { output_code_page = code_page }, answer nothing)
set_cp false code_page s = (record s { input_code_page = code_page }, answer nothing)

unfoldable pub get_font_size : ℕ → ServerState → ServerState × Reply
get_font_size font_index s =
    if font_index == s.font_index
    then (s, answer (a_size s.font_size))
    else (s, reject status_invalid_parameter)

unfoldable pub get_current_font : ServerState → ServerState × Reply
unfolding fill_current_font
get_current_font s = (s, answer (current_font (fill_current_font s)))

unfoldable pub set_current_font : CurrentFont → ServerState → ServerState × Reply
unfolding fill_current_font apply_current_font
set_current_font body s =
    let applied = apply_current_font body s in
    (applied, answer (current_font (fill_current_font applied)))

abbrev pub set_key_shortcuts : Bool → ℕ → ServerState → ServerState × Reply
set_key_shortcuts enabled reserved s =
    (record s { key_shortcuts_enabled = enabled; reserved_keys = reserved }, answer nothing)

abbrev pub set_menu_close : Bool → ServerState → ServerState × Reply
set_menu_close enable s = (record s { menu_close = enable }, answer nothing)

abbrev pub set_cursor_mode : Bool → Bool → ServerState → ServerState × Reply
set_cursor_mode blink db_enable s = (
  record s { cursor_blink = blink; cursor_db_enable = db_enable },
  answer (cursor_mode blink db_enable),
)

abbrev pub get_cursor_mode : ServerState → ServerState × Reply
get_cursor_mode s = (s, answer (cursor_mode s.cursor_blink s.cursor_db_enable))

abbrev pub register_os2 : Bool → ServerState → ServerState × Reply
register_os2 registered s = (record s { os2_registered = registered }, answer nothing)

abbrev pub set_os2_oem_format : Bool → ServerState → ServerState × Reply
set_os2_oem_format enabled s = (record s { os2_oem_format = enabled }, answer nothing)

abbrev pub get_nls_mode : ServerState → ServerState × Reply
get_nls_mode s = (s, answer (a_number s.nls_mode))

abbrev pub set_nls_mode : ℕ → ServerState → ServerState × Reply
set_nls_mode mode s = (record s { nls_mode = mode }, answer nothing)

abbrev pub get_history : ServerState → ServerState × Reply
get_history s =
    (s, answer (history_info s.history_buffer_size s.history_buffer_count s.history_flags))

unfoldable pub set_history : ℕ → ℕ → ℕ → ServerState → ServerState × Reply
unfolding set_history_info
set_history size count flags s = (set_history_info size count flags s, answer nothing)

-- `SetActiveScreenBuffer`, whose handle is an output handle.
abbrev pub activated : ServerState × Bool → ServerState × Reply
activated (s, true) = (s, answer nothing)
activated (s, false) = (s, reject status_invalid_handle)

unfoldable pub set_active : ℕ → Host → Host × Reply
unfolding find_object set_active_screen_buffer
set_active handle_id host = elim (find_object handle_id host.state) [
  | none ↦ (host, reject status_invalid_handle)
  | some handle ↦
      if is_output handle.kind
      then on_state
          (λ (s : ServerState). activated (set_active_screen_buffer handle.screen_buffer s)) host
      else (host, reject status_invalid_handle)
]

-- `FlushInputBuffer` and a raw flush: the pending input of the handle is dropped. What the host's own
-- flush answers is the first argument.
abbrev pub flushed : ObjectHandle → ObjectHandle
flushed handle = record handle {
  decoded_input_pending = none;
  pending_input_bytes = [];
  cooked_read_pending = [];
  cooked_line_in_progress = [];
  cooked_line_cursor = 0;
  cooked_insert_mode = true;
}

unfoldable pub flush_input :
    Expected {0, 0} DeviceCommError Unit → ℕ → Host → Host × Expected DeviceCommError Reply
unfolding find_object update
flush_input host_flush handle_id host = elim (find_object handle_id host.state) [
  | none ↦ (host, expected (reject status_invalid_handle))
  | some handle ↦
      if is_output handle.kind
      then (host, expected (reject status_invalid_handle))
      else elim host_flush [
        | unexpected e ↦ (host, unexpected e)
        | expected done ↦ (
          record host {
            state = record host.state { objects = update handle_id flushed host.state.objects };
          },
          expected (answer nothing),
        )
      ]
]

-- `std::sort` by descending `connect_sequence`; the sequence numbers of the processes differ, so that
-- every sort gives the same list.
unfoldable pub insert_process : ProcessState → List ProcessState → List ProcessState
insert_process p [] = p ∷ []
insert_process p (q ∷ qs) =
    let rest = insert_process p qs in
    if ltb p.connect_sequence q.connect_sequence then q ∷ rest else p ∷ q ∷ qs

unfoldable pub sort_processes : List (ℕ × ProcessState) → List ProcessState
unfolding insert_process
sort_processes [] = []
sort_processes (entry ∷ entries) = insert_process (entry.1) (sort_processes entries)

abbrev pub process_pid : ProcessState → ℕ
process_pid p = p.pid

-- `GetConsoleProcessList`: the output buffer has room for `capacity` process ids, and the reservation
-- of the vector may fail.
unfoldable pub get_console_process_list : Bool → ℕ → ServerState → ServerState × Reply
unfolding sort_processes
get_console_process_list reserved capacity s =
    let total = length s.processes in
    let clamped = min total (2 ^ 32 - 1) in
    let listed = answer (process_list clamped (map process_pid (sort_processes s.processes))) in
    if not reserved
    then (s, reject status_no_memory)
    else if ltb capacity total
    then (s, answer (process_list clamped []))
    else (s, record listed { information = total * 4 })

pub data CtrlEvent : Type 0 where
  ctrl_c_event : CtrlEvent
  ctrl_break_event : CtrlEvent
  other_event : CtrlEvent

-- `GenerateConsoleCtrlEvent`: the processes that the host is told to end.
unfoldable pub end_tasks : ℕ → List (ℕ × ProcessState) → List ℕ
end_tasks group [] = []
end_tasks group (entry ∷ entries) =
    let rest = end_tasks group entries in
    if not (group == 0) && not (entry.1.pid == group) then rest else entry.1.pid ∷ rest

unfoldable pub generate_ctrl_event : CtrlEvent → ℕ → ServerState → List ℕ × Reply
unfolding end_tasks
generate_ctrl_event ctrl_c_event group s = (end_tasks group s.processes, answer nothing)
generate_ctrl_event ctrl_break_event group s = (end_tasks group s.processes, answer nothing)
generate_ctrl_event other_event group s = ([], reject status_invalid_parameter)
