-- ===== src/Dispatch/Refine.antt =====
-- The replies to the four messages on handles tell their senders all that there is to know of who
-- owns what.
use conhost.Server.Invariant.{IsValid}
use conhost.Prelude.{
  ℕ, ◌≡◌, refl, ◌∙◌, ap, arith, ◌==◌, if◌then◌else◌, Bool, Bool-cases, inl, inr, List, ◌∷◌, Text,
  Option, none, some, [],
}
use conhost.Prelude.Result.{Expected, expected, unexpected}
use conhost.Prelude.Table.{
  find, contains, find-cons, contains-cons, find-erase_if, unless, IsDistinct, erase, erase_if,
  find-erase, contains-erase,
}
use conhost.Screen.{ScreenBuffer}
use conhost.Server.{
  ObjectHandle, DeviceCommError, Allocation, has_process, is_owned_by, disconnect_client,
  close_object, default_buffer, input, output,
}
use conhost.Server.Connect.{ConnectMemory, new_process, set_handles, standard_handle}
use conhost.Server.Options.{create_screen_buffer_like_active}
use conhost.Server.Cases.{connect_client-cases, create_object-cases, output_handle_of}
use conhost.Dispatch.{Host, Reply}
use conhost.Dispatch.Connection.{
  ServerMsg, CreateObject, connect, disconnect, create, close, create_checked, create_of_type,
  create_on_new, requested_object, resolve_type, read_app_name, narrow_id, ObjectType,
  current_input, current_output, new_output, generic, unknown,
}
use conhost.Dispatch.Valid.{handle-IsValid}
use conhost.Dispatch.Ledger.{
  Message, console_io_connect, console_io_disconnect, console_io_create_object,
  console_io_close_object, handle, Ledger, assign, is_of, succeeded, enter, owner, Agrees, run,
  replay,
}

-- One entry more or less.
owner-cons :
    (k h : ℕ) (object : ObjectHandle) (t : List (ℕ × ObjectHandle))
    → owner (find k ((h, object) ∷ t))
      ≡ (if h == k then some (object.owning_process) else owner (find k t))
owner-cons k h object t = ground (arith, find-cons k h object t)

owner-erase :
    (k h : ℕ) (t : List (ℕ × ObjectHandle))
    → owner (find k (erase h t)) ≡ (if h == k then none else owner (find k t))
owner-erase k h t = ground (arith, find-erase h k t)

owner-unless :
    (p : ℕ) (o : Option ObjectHandle)
    → owner (unless (is_owned_by p) o) ≡ (if is_of p (owner o) then none else owner o)
owner-unless p none = refl
owner-unless p (some object) = ground arith

owner-erase_if :
    (k p : ℕ) (t : List (ℕ × ObjectHandle))
    → IsDistinct t
    → owner (find k (erase_if (is_owned_by p) t))
      ≡ (if is_of p (owner (find k t)) then none else owner (find k t))
owner-erase_if k p t d = ap owner (find-erase_if (is_owned_by p) k t d) ∙ owner-unless p (find k t)

close-Agrees :
    (h : ℕ) (host : Host) (l : Ledger)
    → Agrees l host.state
    → Agrees (enter (console_io_close_object h) (close h host).1 l) (close h host).0.state
unfolding close close_object
close-Agrees h host l a = elim (Bool-cases (contains h host.state.objects)) [
  | inr missing ↦ rw missing a
  | inl there ↦ rw there (record {
    clients = a.clients;
    owners = λ k. ground (arith, owner-erase k h host.state.objects, a.owners k);
  })
]

disconnect-Agrees :
    (p : ℕ) (host : Host) (l : Ledger)
    → IsDistinct host.state.objects
    → Agrees l host.state
    → Agrees (enter (console_io_disconnect p) (disconnect p host).1 l) (disconnect p host).0.state
unfolding disconnect disconnect_client
disconnect-Agrees p host l d a = elim (Bool-cases (contains p host.state.processes)) [
  | inr missing ↦ rw missing a
  | inl there ↦ rw there (record {
    clients = λ q. ground (arith, contains-erase p q host.state.processes, a.clients q);
    owners = λ k. rw (owner-erase_if k p host.state.objects d, a.owners k) refl;
  })
]

-- `create_object` on its own.
abbrev Creates : ℕ → Ledger → Host × Reply → Type 0
Creates p l r =
    Agrees
      (if succeeded r.1.status
        then record l { owners = assign r.1.information (some p) l.owners }
        else l)
      r.0.state

create_checked-Creates :
    (memory : Allocation) (object : ObjectHandle) (host : Host) (l : Ledger)
    → Agrees l host.state
    → Creates object.owning_process l (create_checked memory object host)
unfolding create_checked default_buffer
create_checked-Creates memory object host l a =
    elim (Bool-cases (has_process object.owning_process host.state)) [
      | inr stranger ↦ rw stranger a
      | inl known ↦ elim (create_object-cases memory object host.state) [
        | inl (e, refused) ↦ rw (known, refused) a
        | inr (h, fresh, buffered, made) ↦
            rw (known, made)
              (record {
                clients = a.clients;
                owners = λ k. ground (
                  arith,
                  owner-cons k h (default_buffer object host.state) host.state.objects,
                  a.owners k,
                );
              })
      ]
    ]

create_on_new-Creates :
    (memory : Allocation) (info : CreateObject) (p : ℕ) (host : Host) (l : Ledger)
    → (r : List ScreenBuffer × Expected {0, 0} DeviceCommError ℕ) → Agrees l host.state
    → Creates p l (create_on_new memory info p host.state r)
create_on_new-Creates memory info p host l (buffers, unexpected e) a = a
create_on_new-Creates memory info p host l (buffers, expected place) a =
    create_checked-Creates memory (requested_object info p output (some place))
      (record { state = host.state; buffers = buffers }) l a

create_of_type-Creates :
    (type : ObjectType) (has_memory : Bool) (memory : Allocation) (info : CreateObject) (p : ℕ)
    (host : Host) (l : Ledger)
    → Agrees l host.state
    → Creates p l (create_of_type type has_memory memory info p host)
unfolding create_of_type
create_of_type-Creates current_input has_memory memory info p host l a =
    create_checked-Creates memory (requested_object info p input none) host l a
create_of_type-Creates current_output has_memory memory info p host l a =
    create_checked-Creates memory (requested_object info p output host.state.active_screen_buffer)
      host l a
create_of_type-Creates new_output has_memory memory info p host l a =
    create_on_new-Creates memory info p host l
      (create_screen_buffer_like_active has_memory host.state host.buffers) a
create_of_type-Creates generic has_memory memory info p host l a = a
create_of_type-Creates unknown has_memory memory info p host l a = a

module _ (compare : Text → Text → Bool) where
  connect-Agrees :
      (memory : ConnectMemory) (process object : ℕ) (msg : Option ServerMsg) (host : Host)
      (l : Ledger)
      → Agrees l host.state
      → Agrees
          (enter
            (console_io_connect memory process object msg)
            (connect compare memory process object msg host).1
            l)
          (connect compare memory process object msg host).0.state
  unfolding connect
  connect-Agrees memory process object msg host l a =
      elim (connect_client-cases compare memory (read_app_name msg) (narrow_id process)
        (narrow_id object) host.state) [
          | inl (e, n, refused) ↦ rw refused (record { clients = a.clients; owners = a.owners })
          | inr (p, i, o, fresh, free, made) ↦ rw made (record {
            clients = λ q. ground (
              arith,
              contains-cons q p
                  (set_handles i o (
                    new_process (narrow_id process) (narrow_id object)
                      host.state.next_connect_sequence p))
                  host.state.processes,
              a.clients q,
            );
            owners = λ k. ground (
              arith,
              owner-cons k o (output_handle_of p host.state)
                  ((i, standard_handle input p) ∷ host.state.objects),
              owner-cons k i (standard_handle input p) host.state.objects,
              a.owners k,
            );
          })
        ]

  handle-Agrees :
      (m : Message) (host : Host) (l : Ledger)
      → IsDistinct host.state.objects
      → Agrees l host.state
      → Agrees (enter m (handle compare m host).1 l) (handle compare m host).0.state
  unfolding handle create
  handle-Agrees (console_io_connect memory process object msg) host l d a =
      connect-Agrees memory process object msg host l a
  handle-Agrees (console_io_disconnect process) host l d a = disconnect-Agrees process host l d a
  handle-Agrees (console_io_create_object has_memory memory info process) host l d a =
      create_of_type-Creates (resolve_type info.object_type info.desired_access) has_memory memory
        info process host l a
  handle-Agrees (console_io_close_object handle_id) host l d a = close-Agrees handle_id host l a

  -- A ledger that starts out right stays right when all that it learns is the replies: whatever
  -- messages come, and whatever allocations fail, it then knows which processes are connected and
  -- which process owns each handle, and the server's state stays valid.
  pub run-Agrees :
      (ms : List Message) (host : Host) (l : Ledger)
      → IsValid host.state
      → Agrees l host.state
      → Agrees (replay (run compare ms host).1 l) (run compare ms host).0.state
        × IsValid (run compare ms host).0.state
  unfolding run
  run-Agrees [] host l v a = (a, v)
  run-Agrees (m ∷ ms) host l v a =
      run-Agrees ms (handle compare m host).0 (enter m (handle compare m host).1 l)
        (handle-IsValid compare m host v) (handle-Agrees m host l v.objects_distinct a)
