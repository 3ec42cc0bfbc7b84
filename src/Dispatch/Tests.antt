-- ===== src/Dispatch/Tests.antt =====
-- Messages to a small host, and the theorems at concrete inputs.
use conhost.Prelude.Table.{contains, find, cons-Every}
use conhost.Prelude.{
  ℕ, ◌≡◌, ◌⊎◌, ◌≢◌, ◌^◌, refl, arith, true, false, List, [], ◌∷◌, All, equal, some, none, map,
  length, replicate, get_elem?, ◌+◌,
}
use conhost.Prelude.Int.{pos}
use conhost.Screen.{Coord, ScreenBuffer}
use conhost.Screen.Window.{CursorInWindow}
use conhost.Screen.Cursor.{InBuffer}
use conhost.Server.{Allocation, ProcessState, ObjectHandle, new_object, output}
use conhost.Server.Connect.{ConnectMemory, construct_state}
use conhost.Server.Invariant.{IsValid, IsKeyed, IsOwned}
use conhost.Server.Start.{construct_state-IsValid}
use conhost.Dispatch.{Host, Target, target, on_buffer, reject, status_invalid_parameter}
use conhost.Dispatch.Buffers.{set_cursor_position_message}
use conhost.Dispatch.Connection.{current_output, generic, resolve_type, current_input}
use conhost.Dispatch.Calls.{call, consolep_set_cursor_position, consolep_set_screen_buffer_size}
use conhost.Dispatch.Ledger.{
  Message, console_io_connect, console_io_disconnect, console_io_create_object,
  console_io_close_object, run, Ledger, replay, Agrees, succeeded,
}
use conhost.Dispatch.Usable.{IsUsable}
use conhost.Dispatch.Sound.{HasSize}
use conhost.Dispatch.Refine.{run-Agrees}
use conhost.Dispatch.Drain.{exits, disconnects, exits_at_end, run-drains}
use conhost.Dispatch.Refused.{call-Refuses, set_cursor_position_message-shows}
use conhost.Dispatch.Hosted.{on_buffer-HasSize}

abbrev given : ℕ → Allocation
given address = record { address = some address; node = true }

abbrev memory : ℕ → ConnectMemory
memory p = record {
  process = given p;
  input = given (p + 1);
  output = given (p + 2);
  names = true;
  allocates = true;
}

abbrev host : Host
host = record { state = construct_state 437 (some 0); buffers = [] }

abbrev no_clients : Ledger
no_clients = record { clients = λ (p : ℕ). false; owners = λ (h : ℕ). none }

-- Two processes connect, the first makes one more handle and closes its input, and disconnects.
abbrev messages : List Message
messages =
    console_io_connect (memory 100) 7 8 none
    ∷ console_io_connect (memory 200) 9 10 none
    ∷ console_io_create_object true (given 300)
        (record { object_type = current_output; desired_access = 0; share_mode = 0 }) 100
    ∷ console_io_close_object 101
    ∷ console_io_disconnect 100
    ∷ []

host-Agrees : Agrees no_clients host.state
unfolding construct_state contains find
host-Agrees = record { clients = λ p. refl; owners = λ h. refl }

run-Agrees_example :
    Agrees (replay (run equal messages host).1 no_clients) (run equal messages host).0.state
    × IsValid (run equal messages host).0.state
run-Agrees_example =
    run-Agrees equal messages host no_clients (construct_state-IsValid 437 (some 0)) host-Agrees

-- A read-only generic object is an input.
resolved : resolve_type generic (2 ^ 31) ≡ current_input
unfolding resolve_type
resolved = refl

abbrev client : ProcessState
client = record {
  pid = 7;
  tid = 8;
  connect_sequence = 1;
  process_handle = 100;
  input_handle = 101;
  output_handle = 102;
}

abbrev handle_102 : ObjectHandle
handle_102 = record new_object { kind = output; owning_process = 100; screen_buffer = some 0 }

abbrev at : ℕ → ℕ → Coord
at x y = record { x = pos x; y = pos y }

-- Two columns and two rows.
abbrev screen : ScreenBuffer
screen = record {
  buffer_size = at 2 2;
  cursor_position = at 0 0;
  window_rect = record { left = pos 0; top = pos 0; right = pos 1; bottom = pos 0 };
  maximum_window_size = at 2 2;
  text_attributes = 7;
  default_text_attributes = 7;
  cursor_size = 25;
  cursor_visible = true;
  color_table = [];
  saved_cursor_state = none;
  vt_vertical_margins = none;
  vt_main_backup = none;
  vt_autowrap_enabled = true;
  vt_delayed_wrap_position = none;
  vt_origin_mode_enabled = false;
  vt_insert_mode_enabled = false;
  cells = replicate 4 (record { character = 46; attributes = 7 });
  revision = 0;
}

screen-IsUsable : IsUsable (at 2 2) screen
screen-IsUsable = record {
  wide = (omega arith, omega arith);
  high = (omega arith, omega arith);
  sound = record {
    sized = refl;
    full = refl;
    cursor = (omega arith, omega arith, omega arith, omega arith);
    across = (omega arith, omega arith, omega arith);
    down = (omega arith, omega arith, omega arith);
    backup = tt;
  };
}

-- One process with one output handle.
abbrev serving : Host
serving = record {
  state = record host.state { processes = (100, client) ∷ []; objects = (102, handle_102) ∷ [] };
  buffers = screen ∷ [];
}

serving-IsValid : IsValid serving.state
unfolding construct_state contains find
serving-IsValid = record {
  processes_distinct = (refl, tt);
  objects_distinct = (refl, tt);
  keyed = cons-Every IsKeyed 100 client [] refl (λ p state e. ground arith);
  owned =
      cons-Every (IsOwned ((100, client) ∷ [])) 102 handle_102 [] (refl, refl)
        (λ h object e. ground arith);
  held = λ p. ground arith;
}

run-drains_example :
    ((run equal (map disconnects ((100, client) ∷ [])) serving).0.state.processes ≡ [])
    × ((run equal (map disconnects ((100, client) ∷ [])) serving).0.state.objects ≡ [])
    × (map exits (run equal (map disconnects ((100, client) ∷ [])) serving).1
        ≡ exits_at_end (length {A = ℕ × ProcessState} []))
run-drains_example = run-drains equal 100 client [] serving refl serving-IsValid

on_buffer-HasSize_example :
    All HasSize
      (on_buffer (call true (consolep_set_screen_buffer_size (at 3 1))) 102 serving).0.buffers
    × ((on_buffer (call true (consolep_set_screen_buffer_size (at 3 1))) 102 serving).0.state
        ≡ serving.state)
    × ((place : ℕ)
        → ((t : Target) → target 102 serving ≡ some t → place ≢ t.place)
        → get_elem?
            (on_buffer (call true (consolep_set_screen_buffer_size (at 3 1))) 102 serving).0.buffers
            place
          ≡ get_elem? serving.buffers place)
on_buffer-HasSize_example =
    on_buffer-HasSize true (consolep_set_screen_buffer_size (at 3 1)) 102 serving
      ((omega arith, omega arith), (omega arith, omega arith)) ((at 2 2, screen-IsUsable), tt)

outside : succeeded (call true (consolep_set_cursor_position (at 2 0)) screen).1.status ≡ false
unfolding call set_cursor_position_message
outside = refl

call-Refuses_example : (call true (consolep_set_cursor_position (at 2 0)) screen).0 ≡ screen
call-Refuses_example = call-Refuses (consolep_set_cursor_position (at 2 0)) screen refl outside

set_cursor_position_message-shows_example :
    (InBuffer (at 1 1) (at 2 2)
      × (succeeded (set_cursor_position_message (at 1 1) screen).1.status ≡ true)
      × CursorInWindow (set_cursor_position_message (at 1 1) screen).0
      × ((set_cursor_position_message (at 1 1) screen).0.cursor_position ≡ at 1 1))
    ⊎ ((InBuffer (at 1 1) (at 2 2) → ⊥)
        × (set_cursor_position_message (at 1 1) screen ≡ (screen, reject status_invalid_parameter)))
set_cursor_position_message-shows_example =
    set_cursor_position_message-shows (at 1 1) (at 2 2) screen screen-IsUsable
