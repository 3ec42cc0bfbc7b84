-- ===== src/Dispatch/Valid.antt =====
-- The four messages on handles keep the server's state valid.
use conhost.Server.Invariant.{
  IsValid, connect_client-IsValid, create_object-IsValid, close_object-IsValid,
  disconnect_client-IsValid,
}
use conhost.Prelude.{ℕ, Bool, Bool-cases, inl, inr, List, ◌∷◌, Text, none, some, []}
use conhost.Prelude.Result.{Expected, expected, unexpected}
use conhost.Prelude.Table.{contains}
use conhost.Screen.{ScreenBuffer}
use conhost.Server.{
  ObjectHandle, DeviceCommError, Allocation, has_process, input, output, ServerState,
  ConnectionInformation, create_object,
}
use conhost.Server.Connect.{connect_client}
use conhost.Server.Options.{create_screen_buffer_like_active}
use conhost.Dispatch.{Host}
use conhost.Dispatch.Connection.{
  CreateObject, connect, disconnect, create, close, create_checked, create_of_type, create_on_new,
  requested_object, resolve_type, read_app_name, narrow_id, ObjectType, current_input,
  current_output, new_output, generic, unknown, created_reply, connect_reply,
}
use conhost.Dispatch.Ledger.{
  Message, console_io_connect, console_io_disconnect, console_io_create_object,
  console_io_close_object, handle, run,
}

created-IsValid :
    (host : Host) (r : ServerState × Expected {0, 0} DeviceCommError ℕ)
    → IsValid (r.0)
    → IsValid (created_reply host r).0.state
created-IsValid host (s, unexpected e) v = v
created-IsValid host (s, expected handle_id) v = v

create_checked-IsValid :
    (memory : Allocation) (object : ObjectHandle) (host : Host)
    → IsValid host.state
    → IsValid (create_checked memory object host).0.state
unfolding create_checked has_process
create_checked-IsValid memory object host v =
    elim (Bool-cases (contains object.owning_process host.state.processes)) [
      | inr stranger ↦ rw stranger v
      | inl known ↦ rw known (
          created-IsValid host (create_object memory object host.state)
            (create_object-IsValid memory object host.state known v))
    ]

create_on_new-IsValid :
    (memory : Allocation) (info : CreateObject) (p : ℕ) (s : ServerState)
    → (r : List ScreenBuffer × Expected {0, 0} DeviceCommError ℕ) → IsValid s
    → IsValid (create_on_new memory info p s r).0.state
create_on_new-IsValid memory info p s (buffers, unexpected e) v = v
create_on_new-IsValid memory info p s (buffers, expected place) v =
    create_checked-IsValid memory (requested_object info p output (some place))
      (record { state = s; buffers = buffers }) v

create_of_type-IsValid :
    (type : ObjectType) (has_memory : Bool) (memory : Allocation) (info : CreateObject) (p : ℕ)
    (host : Host)
    → IsValid host.state
    → IsValid (create_of_type type has_memory memory info p host).0.state
unfolding create_of_type
create_of_type-IsValid current_input has_memory memory info p host v =
    create_checked-IsValid memory (requested_object info p input none) host v
create_of_type-IsValid current_output has_memory memory info p host v =
    create_checked-IsValid memory (requested_object info p output host.state.active_screen_buffer)
      host v
create_of_type-IsValid new_output has_memory memory info p host v =
    create_on_new-IsValid memory info p host.state
      (create_screen_buffer_like_active has_memory host.state host.buffers) v
create_of_type-IsValid generic has_memory memory info p host v = v
create_of_type-IsValid unknown has_memory memory info p host v = v

module _ (compare : Text → Text → Bool) where
  connected-IsValid :
      (host : Host) (r : ServerState × Expected DeviceCommError ConnectionInformation)
      → IsValid (r.0)
      → IsValid (connect_reply host r).0.state
  connected-IsValid host (s, unexpected e) v = v
  connected-IsValid host (s, expected info) v = v

  pub handle-IsValid :
      (m : Message) (host : Host) → IsValid host.state → IsValid (handle compare m host).0.state
  unfolding handle connect disconnect create close
  handle-IsValid (console_io_connect memory process object msg) host v =
      connected-IsValid host
        (connect_client compare memory (narrow_id process) (narrow_id object) (read_app_name msg)
          host.state)
        (connect_client-IsValid compare memory (read_app_name msg) (narrow_id process)
          (narrow_id object) host.state v)
  handle-IsValid (console_io_disconnect process) host v =
      disconnect_client-IsValid process host.state v
  handle-IsValid (console_io_create_object has_memory memory info process) host v =
      create_of_type-IsValid (resolve_type info.object_type info.desired_access) has_memory memory
        info process host v
  handle-IsValid (console_io_close_object handle_id) host v =
      close_object-IsValid handle_id host.state v

  pub run-IsValid :
      (ms : List Message) (host : Host) → IsValid host.state → IsValid (run compare ms host).0.state
  unfolding run
  run-IsValid [] host v = v
  run-IsValid (m ∷ ms) host v = run-IsValid ms (handle compare m host).0 (handle-IsValid m host v)
