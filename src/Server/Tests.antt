-- ===== src/Server/Tests.antt =====
-- Connections to a new server, and the theorem at a concrete input.
use conhost.Prelude.{ℕ, ◌≡◌, ◌⊎◌, refl, true, false, [], Text, codes, equal, some, none}
use conhost.Prelude.Result.{expected}
use conhost.Server.{ServerState, Allocation, create_object, close_object}
use conhost.Server.Connect.{
  ConnectMemory, connect_client, connect_process, connect_handles, after_input, after_output,
  construct_state,
}
use conhost.Server.Options.{set_title, title_of}
use conhost.Server.Cases.{Fails, Enters, connect_client-cases}

abbrev given : ℕ → Allocation
given address = record { address = some address; node = true }

abbrev memory : ConnectMemory
memory = record {
  process = given 100;
  input = given 200;
  output = given 300;
  names = true;
  allocates = true;
}

-- No memory for the output handle.
abbrev short : ConnectMemory
short = record memory { output = record { address = none; node = true } }

abbrev started : ServerState
started = construct_state 437 (some 0)

abbrev cmd : Text
cmd = codes "cmd.exe"

connected :
    (connect_client equal memory 7 8 cmd started).1
    ≡ expected (record { process = 100; input = 200; output = 300 })
unfolding connect_client connect_process connect_handles after_input after_output create_object
    construct_state
connected = refl

-- What a connection that fails has entered is taken out again.
rolled_back :
    ((connect_client equal short 7 8 cmd started).0.processes ≡ [])
    × ((connect_client equal short 7 8 cmd started).0.objects ≡ [])
    × ((connect_client equal short 7 8 cmd started).0.next_connect_sequence ≡ 2)
unfolding connect_client connect_process connect_handles after_input after_output create_object
    close_object construct_state
rolled_back = (refl, refl, refl)

connect_client-cases_example :
    Fails started (connect_client equal memory 7 8 cmd started)
    ⊎ Enters equal memory cmd 7 8 started (connect_client equal memory 7 8 cmd started)
connect_client-cases_example = connect_client-cases equal memory cmd 7 8 started

-- Both titles come from the first; the second only changes the current one.
titles :
    (title_of true ((set_title true true cmd ((set_title true true (codes "a") started).0)).0)
      ≡ codes "a")
    × (title_of false ((set_title true true cmd ((set_title true true (codes "a") started).0)).0)
        ≡ cmd)
unfolding set_title title_of construct_state
titles = (refl, refl)
