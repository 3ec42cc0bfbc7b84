-- ===== src/Dispatch/Ledger.antt =====
-- The four messages on handles against a ledger that knows nothing of the server but its replies:
-- which processes are connected, and which process owns a handle.
use conhost.Prelude.{
  ℕ, ◌≡◌, ◌==◌, if◌then◌else◌, Bool, true, false, List, [], ◌∷◌, Text, Option, none, some,
}
use conhost.Prelude.Table.{find, contains}
use conhost.Server.{ServerState, ObjectHandle, Allocation}
use conhost.Server.Connect.{ConnectMemory}
use conhost.Dispatch.{Host, Reply, Status, status_success, Body, connection}
use conhost.Dispatch.Connection.{ServerMsg, CreateObject, connect, disconnect, create, close}

-- Everything that a message carries, and what the allocators do while it is handled.
pub data Message : Type 0 where
  console_io_connect : ConnectMemory → ℕ → ℕ → Option ServerMsg → Message
  console_io_disconnect : ℕ → Message
  console_io_create_object : Bool → Allocation → CreateObject → ℕ → Message
  console_io_close_object : ℕ → Message

module _ (compare_string_ordinal : Text → Text → Bool) where
  unfoldable pub handle : Message → Host → Host × Reply
  unfolding connect disconnect create close
  handle (console_io_connect memory process object msg) host =
      connect compare_string_ordinal memory process object msg host
  handle (console_io_disconnect process) host = disconnect process host
  handle (console_io_create_object has_memory memory info process) host =
      create has_memory memory info process host
  handle (console_io_close_object handle_id) host = close handle_id host

  -- The messages one after the other, each with its reply.
  unfoldable pub run : List Message → Host → Host × List (Message × Reply)
  unfolding handle
  run [] host = (host, [])
  run (m ∷ ms) host =
      let (next, reply) = handle m host in
      let (last, replies) = run ms next in (last, (m, reply) ∷ replies)

pub record Ledger : Type 0 where
  pub clients : ℕ → Bool
  pub owners : ℕ → Option ℕ

abbrev pub assign {ℓ} : {A : Type ℓ} → ℕ → A → (ℕ → A) → ℕ → A
assign key value f k = if key == k then value else f k

abbrev pub is_of : ℕ → Option ℕ → Bool
is_of p none = false
is_of p (some q) = q == p

-- What a reply says to the sender of the message.
abbrev pub enter_body : Body → Ledger → Ledger
enter_body (connection info) l = record {
  clients = assign info.process true l.clients;
  owners = assign info.output (some info.process) (assign info.input (some info.process) l.owners);
}
enter_body _ l = l

abbrev pub enter_success : Message → Reply → Ledger → Ledger
enter_success (console_io_connect memory process object msg) reply l = enter_body reply.body l
enter_success (console_io_disconnect process) reply l = record {
  clients = assign process false l.clients;
  owners = λ (h : ℕ). if is_of process (l.owners h) then none else l.owners h;
}
enter_success (console_io_create_object has_memory memory info process) reply l = record l {
  owners = assign reply.information (some process) l.owners;
}
enter_success (console_io_close_object handle_id) reply l = record l {
  owners = assign handle_id none l.owners;
}

abbrev pub succeeded : Status → Bool
succeeded status_success = true
succeeded _ = false

abbrev pub enter : Message → Reply → Ledger → Ledger
enter m reply l = if succeeded reply.status then enter_success m reply l else l

abbrev pub replay : List (Message × Reply) → Ledger → Ledger
replay [] l = l
replay (entry ∷ entries) l = replay entries (enter (entry.0) (entry.1) l)

abbrev pub owner : Option ObjectHandle → Option ℕ
owner none = none
owner (some object) = some (object.owning_process)

-- The ledger says of every handle what the server has.
pub record Agrees (l : Ledger) (s : ServerState) : Type 0 where
  pub clients : (p : ℕ) → contains p s.processes ≡ l.clients p
  pub owners : (h : ℕ) → owner (find h s.objects) ≡ l.owners h
