-- ===== src/Server/Connect.antt =====
-- `ServerState::connect_client` and the constructor of `ServerState`. Each `catch` of an allocation
-- that fails is a branch on an argument.
use conhost.Prelude.{
  ℕ, ◌+◌, ◌*◌, ◌%◌, ◌^◌, Bool, true, false, [], ◌∷◌, ◌++◌, List, length, Text, codes, Option, none,
  some, replicate,
}
use conhost.Prelude.Int.{pos}
use conhost.Prelude.Result.{Expected, expected, unexpected}
use conhost.Prelude.Table.{erase, update}
use conhost.Screen.{Settings, ScreenBuffer, construct, origin}
use conhost.History.{allocate_for_process}
use conhost.Server.{
  ObjectKind, input, output, ObjectHandle, new_object, ProcessState, ConnectionInformation,
  DeviceCommError, error_outofmemory, ServerState, Allocation, failure, emplace, create_object,
  close_object,
}

-- What the allocators do in one call of `connect_client`: for the process, for its two handles, and
-- for the name and the entry of its history.
pub record ConnectMemory : Type 0 where
  pub process : Allocation
  pub input : Allocation
  pub output : Allocation
  pub names : Bool
  pub allocates : Bool

abbrev pub new_process : ℕ → ℕ → ℕ → ℕ → ProcessState
new_process pid tid sequence address = record {
  pid = pid;
  tid = tid;
  connect_sequence = sequence;
  process_handle = address;
  input_handle = 0;
  output_handle = 0;
}

-- `GENERIC_READ | GENERIC_WRITE`, and `FILE_SHARE_READ | FILE_SHARE_WRITE`.
abbrev pub standard_handle : ObjectKind → ℕ → ObjectHandle
standard_handle kind process_handle = record new_object {
  kind = kind;
  desired_access = 2 ^ 31 + 2 ^ 30;
  share_mode = 3;
  owning_process = process_handle;
}

abbrev pub set_handles : ℕ → ℕ → ProcessState → ProcessState
set_handles i o state = record state { input_handle = i; output_handle = o }

abbrev pub erase_process : ℕ → ServerState → ServerState
erase_process process_handle s = record s { processes = erase process_handle s.processes }

module _ (compare_string_ordinal : Text → Text → Bool) where
  -- `connect_client` behind its two handles.
  unfoldable pub finish_connect : Bool → Bool → Text → ℕ → ℕ → ℕ → ServerState → ServerState
  unfolding update
  finish_connect names allocates app_name process_handle i o s = record s {
    processes = update process_handle (set_handles i o) s.processes;
    command_histories =
        allocate_for_process compare_string_ordinal names allocates app_name process_handle
          s.history_buffer_count s.history_buffer_size s.command_histories;
  }

  -- What `connect_client` does with the answer for its output handle, and for its input handle.
  unfoldable pub after_output :
      ConnectMemory
      → Text
      → ℕ
      → ℕ
      → ServerState × Expected DeviceCommError ℕ
      → ServerState × Expected DeviceCommError ConnectionInformation
  unfolding close_object finish_connect
  after_output memory app_name process_handle i (created, unexpected e) =
      (erase_process process_handle (close_object i created).0, unexpected e)
  after_output memory app_name process_handle i (created, expected o) = (
    finish_connect memory.names memory.allocates app_name process_handle i o created,
    expected (record { process = process_handle; input = i; output = o }),
  )

  unfoldable pub after_input :
      ConnectMemory
      → Text
      → ℕ
      → ServerState × Expected DeviceCommError ℕ
      → ServerState × Expected DeviceCommError ConnectionInformation
  unfolding create_object after_output
  after_input memory app_name process_handle (created, unexpected e) =
      (erase_process process_handle created, unexpected e)
  after_input memory app_name process_handle (created, expected i) =
      after_output memory app_name process_handle i
        (create_object memory.output (standard_handle output process_handle) created)

  -- `connect_client` once its process is there.
  unfoldable pub connect_handles :
      ConnectMemory
      → Text
      → ℕ
      → ServerState
      → ServerState × Expected DeviceCommError ConnectionInformation
  unfolding create_object after_input
  connect_handles memory app_name process_handle s =
      after_input memory app_name process_handle
        (create_object memory.input (standard_handle input process_handle) s)

  -- `_next_connect_sequence++` comes before the entry is made.
  unfoldable pub connect_process :
      ConnectMemory
      → ℕ
      → ℕ
      → Text
      → ℕ
      → ServerState
      → ServerState × Expected DeviceCommError ConnectionInformation
  unfolding emplace connect_handles
  connect_process memory pid tid app_name process_handle s =
      let counted = record s { next_connect_sequence = (s.next_connect_sequence + 1) % 2 ^ 64 } in
      elim (emplace (codes "Process handle already existed")
        (codes "Failed to insert process state") memory.process.node process_handle
        (new_process pid tid s.next_connect_sequence process_handle) s.processes) [
          | unexpected e ↦ (counted, unexpected e)
          | expected processes ↦
              connect_handles memory app_name process_handle
                (record counted { processes = processes })
        ]

  unfoldable pub connect_client :
      ConnectMemory
      → ℕ
      → ℕ
      → Text
      → ServerState
      → ServerState × Expected DeviceCommError ConnectionInformation
  unfolding connect_process
  connect_client memory pid tid app_name s = elim (memory.process.address) [
    | none ↦ (s, failure (codes "Failed to allocate ProcessState") error_outofmemory)
    | some process_handle ↦ connect_process memory pid tid app_name process_handle s
  ]

-- `ScreenBuffer::default_settings`.
abbrev pub rgb : ℕ → ℕ → ℕ → ℕ
rgb r g b = r + g * 256 + b * 65536

unfoldable pub default_settings : Settings
default_settings = record {
  buffer_size = record { x = pos 120; y = pos 40 };
  cursor_position = origin;
  scroll_position = origin;
  window_size = record { x = pos 120; y = pos 40 };
  maximum_window_size = record { x = pos 120; y = pos 40 };
  text_attributes = 7;
  cursor_size = 25;
  cursor_visible = true;
  color_table =
      rgb 0 0 0
      ∷ rgb 0 0 128
      ∷ rgb 0 128 0
      ∷ rgb 0 128 128
      ∷ rgb 128 0 0
      ∷ rgb 128 0 128
      ∷ rgb 128 128 0
      ∷ rgb 192 192 192
      ∷ rgb 128 128 128
      ∷ rgb 0 0 255
      ∷ rgb 0 255 0
      ∷ rgb 0 255 255
      ∷ rgb 255 0 0
      ∷ rgb 255 0 255
      ∷ rgb 255 255 0
      ∷ rgb 255 255 255
      ∷ [];
}

-- `ScreenBuffer::create`: the buffers there are afterwards, and the new one's place. Whether there is
-- memory is the first argument.
unfoldable pub create : Bool → Settings → List ScreenBuffer → List ScreenBuffer × Option ℕ
unfolding construct
create true settings buffers = (buffers ++ construct settings ∷ [], some (length buffers))
create false settings buffers = (buffers, none)

-- The settings of the second attempt.
abbrev pub no_cells : Settings → Settings
no_cells settings = record settings {
  buffer_size = origin;
  window_size = origin;
  maximum_window_size = origin;
  cursor_position = origin;
}

unfoldable pub construct_buffer : Bool → Bool → List ScreenBuffer × Option ℕ
unfolding create default_settings
construct_buffer first second =
    let (buffers, created) = create first default_settings [] in
    elim created [
      | some buffer ↦ (buffers, some buffer)
      | none ↦ create second (no_cells default_settings) buffers
    ]

-- The members of `ServerState` as declared, and what its constructor sets. `GetOEMCP` is the first
-- argument.
unfoldable pub construct_state : ℕ → Option ℕ → ServerState
construct_state get_oemcp buffer = record {
  processes = [];
  objects = [];
  aliases = [];
  input_mode = 151;
  output_mode = 3;
  input_code_page = get_oemcp;
  output_code_page = get_oemcp;
  title = [];
  original_title = [];
  history_buffer_size = 50;
  history_buffer_count = 4;
  history_flags = 0;
  command_histories = [];
  font_index = 0;
  font_size = record { x = pos 8; y = pos 16 };
  font_family = 48;
  font_weight = 400;
  font_face_name = codes "Consolas" ++ replicate 24 0;
  cursor_blink = true;
  cursor_db_enable = false;
  nls_mode = 0;
  menu_close = true;
  key_shortcuts_enabled = false;
  reserved_keys = 0;
  os2_registered = false;
  os2_oem_format = false;
  main_screen_buffer = buffer;
  active_screen_buffer = buffer;
  next_connect_sequence = 1;
}
