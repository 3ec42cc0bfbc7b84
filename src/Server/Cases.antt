-- ===== src/Server/Cases.antt =====
-- What the operations of `ServerState` that allocate come to: nothing, or an entry under a new
-- handle.
use conhost.Prelude.{
  ℕ, ◌+◌, ◌%◌, ◌^◌, ◌≡◌, refl, sym, arith, ◌∙◌, ap, Bool, true, false, ◌&&◌, Bool-cases,
  Option-cases, ◌⊎◌, inl, inr, List, ◌∷◌, Text, codes,
}
use conhost.Prelude.Result.{Expected, expected, unexpected}
use conhost.Prelude.Table.{contains, update-cons_same, erase-cons_same, contains-cons}
use conhost.History.{allocate_for_process}
use conhost.Server.{
  input, output, ObjectHandle, ProcessState, ServerState, DeviceCommError, Win32Error,
  error_outofmemory, error_already_exists, error_invalid_state, Allocation, emplace, create_object,
  insert_object, default_buffer, is_output, is_null, close_object, ConnectionInformation,
}
use conhost.Server.Connect.{
  ConnectMemory, standard_handle, new_process, set_handles, connect_client, connect_process,
  connect_handles, after_input, after_output, finish_connect, erase_process,
}

abbrev device_error : Text → Win32Error → DeviceCommError
device_error text error = record { context = text; win32_error = error }

emplace-cases :
    {A : Type 0} (existed failed : Text) (has_node : Bool) (key : ℕ) (value : A)
    (entries : List (ℕ × A))
    → ((e : DeviceCommError) × (emplace existed failed has_node key value entries ≡ unexpected e))
      ⊎ ((contains key entries ≡ false)
          × (emplace existed failed has_node key value entries ≡ expected ((key, value) ∷ entries)))
unfolding emplace
emplace-cases existed failed has_node key value entries = elim (Bool-cases has_node) [
  | inr no_node ↦ inl (device_error failed error_outofmemory, rw no_node refl)
  | inl node ↦ elim (Bool-cases (contains key entries)) [
    | inl there ↦ inl (device_error existed error_already_exists, rw (node, there) refl)
    | inr fresh ↦ inr (fresh, rw (node, fresh) refl)
  ]
]

-- The state with one more object, under a handle that was free.
abbrev pub with_object : ℕ → ObjectHandle → ServerState → ServerState
with_object handle_id object s = record s { objects = (handle_id, object) ∷ s.objects }

abbrev pub IsBuffered : ObjectHandle → Type 0
IsBuffered object = is_output object.kind && is_null object.screen_buffer ≡ false

-- A new object has its buffer, and is entered under a handle that was free.
abbrev pub Creates : ObjectHandle → ServerState → ServerState × Expected DeviceCommError ℕ → Type 0
Creates object s r =
    ((e : DeviceCommError) × (r ≡ (s, unexpected e)))
    ⊎ ((h : ℕ) × (contains h s.objects ≡ false)
        × IsBuffered (default_buffer object s)
        × (r ≡ (with_object h (default_buffer object s) s, expected h)))

pub create_object-cases :
    (memory : Allocation) (object : ObjectHandle) (s : ServerState)
    → Creates object s (create_object memory object s)
unfolding create_object insert_object
create_object-cases memory object s =
    let resolved = default_buffer object s in
    elim (Bool-cases (is_output resolved.kind && is_null resolved.screen_buffer)) [
      | inl bare ↦ inl (
        device_error (codes "Output handle created without an active screen buffer")
            error_invalid_state,
        rw bare refl,
      )
      | inr buffered ↦ elim (Option-cases (memory.address)) [
        | inl nowhere ↦ inl (
          device_error (codes "Failed to allocate ObjectHandle") error_outofmemory,
          rw (buffered, nowhere) refl,
        )
        | inr (h, at) ↦
            elim (emplace-cases (codes "Object handle already existed")
              (codes "Failed to insert object handle") memory.node h resolved s.objects) [
                | inl (e, refused) ↦ inl (e, rw (buffered, insert_object, at, refused) refl)
                | inr (fresh, made) ↦
                    inr (h, fresh, buffered, rw (buffered, insert_object, at, made) refl)
              ]
      ]
    ]

abbrev pub with_process : ℕ → ProcessState → ServerState → ServerState
with_process p state s = record s { processes = (p, state) ∷ s.processes }

close_object-with_object :
    (i : ℕ) (object : ObjectHandle) (s : ServerState)
    → contains i s.objects ≡ false
    → close_object i (with_object i object s) ≡ (s, true)
unfolding close_object
close_object-with_object i object s free =
    ground (arith, contains-cons i i object s.objects, erase-cons_same i object s.objects free)

erase_process-with_process :
    (p : ℕ) (state : ProcessState) (s : ServerState)
    → contains p s.processes ≡ false
    → erase_process p (with_process p state s) ≡ s
erase_process-with_process p state s fresh =
    ground (arith, erase-cons_same p state s.processes fresh)

-- The output handle of a new process: it is of the buffer that is active.
abbrev pub output_handle_of : ℕ → ServerState → ObjectHandle
output_handle_of p s = record (standard_handle output p) { screen_buffer = s.active_screen_buffer }

-- Two handles that were free, and a buffer that is active.
abbrev pub AreFree : ℕ → ℕ → ServerState → Type 0
AreFree i o s =
    (contains i s.objects ≡ false)
    × (contains o ((i, standard_handle input 0) ∷ s.objects) ≡ false)
    × (is_null s.active_screen_buffer ≡ false)

-- The state of an attempt to connect: nothing but the count of attempts may have changed.
abbrev pub attempted : ℕ → ServerState → ServerState
attempted n s = record s { next_connect_sequence = n }

abbrev pub next_sequence : ServerState → ℕ
next_sequence s = (s.next_connect_sequence + 1) % 2 ^ 64

abbrev pub Fails :
    ServerState → ServerState × Expected DeviceCommError ConnectionInformation → Type 0
Fails s r = (e : DeviceCommError) × (n : ℕ) × (r ≡ (attempted n s, unexpected e))

module _ (compare : Text → Text → Bool) (memory : ConnectMemory) (app_name : Text) where
  -- The process with its two handles and its history.
  abbrev pub with_handles : ℕ → ProcessState → ℕ → ℕ → ServerState → ServerState
  with_handles p state i o s = record s {
    processes = (p, set_handles i o state) ∷ s.processes;
    objects = (o, output_handle_of p s) ∷ (i, standard_handle input p) ∷ s.objects;
    command_histories =
        allocate_for_process compare memory.names memory.allocates app_name p s.history_buffer_count
          s.history_buffer_size s.command_histories;
  }

  abbrev Connects :
      ℕ
      → ProcessState
      → ServerState
      → ServerState × Expected DeviceCommError ConnectionInformation
      → Type 0
  Connects p state s r =
      ((e : DeviceCommError) × (r ≡ (s, unexpected e)))
      ⊎ ((i : ℕ) × (o : ℕ) × AreFree i o s
          × (r ≡ (
            with_handles p state i o s,
            expected (record { process = p; input = i; output = o }),
          )))

  after_output-Connects :
      (p : ℕ) (state : ProcessState) (s : ServerState) (i : ℕ)
      → contains p s.processes ≡ false
      → contains i s.objects ≡ false
      → (r : ServerState × Expected DeviceCommError ℕ)
      → Creates
          (standard_handle output p)
          (with_object i (standard_handle input p) (with_process p state s))
          r
      → Connects p state s (after_output compare memory app_name p i r)
  unfolding after_output finish_connect default_buffer
  after_output-Connects p state s i fresh free r (inl (e, refused)) = inl (
    e,
    rw (refused, close_object-with_object i (standard_handle input p) (with_process p state s) free)
        (ap (λ (t : ServerState). (t, unexpected e)) (erase_process-with_process p state s fresh)),
  )
  after_output-Connects p state s i fresh free r (inr (o, free_o, buffered, made)) = inr (
    i,
    o,
    (
      free,
      contains-cons o i (standard_handle input 0) s.objects
          ∙ sym (contains-cons o i (standard_handle input p) s.objects)
          ∙ free_o,
      buffered,
    ),
    rw made (rw (update-cons_same p (set_handles i o) state s.processes fresh) refl),
  )

  after_input-Connects :
      (p : ℕ) (state : ProcessState) (s : ServerState)
      → contains p s.processes ≡ false
      → (r : ServerState × Expected DeviceCommError ℕ)
      → Creates (standard_handle input p) (with_process p state s) r
      → Connects p state s (after_input compare memory app_name p r)
  unfolding after_input default_buffer
  after_input-Connects p state s fresh r (inl (e, refused)) = inl (
    e,
    rw refused
        (ap (λ (t : ServerState). (t, unexpected e)) (erase_process-with_process p state s fresh)),
  )
  after_input-Connects p state s fresh r (inr (i, free, buffered, made)) = rw made (
      after_output-Connects p state s i fresh free _ (
        create_object-cases memory.output (standard_handle output p)
          (with_object i (standard_handle input p) (with_process p state s))))

  abbrev pub Enters :
      ℕ → ℕ → ServerState → ServerState × Expected DeviceCommError ConnectionInformation → Type 0
  Enters pid tid s r =
      (p : ℕ) × (i : ℕ) × (o : ℕ) × (contains p s.processes ≡ false)
      × AreFree i o s
      × (r ≡ (
        with_handles p (new_process pid tid s.next_connect_sequence p) i o
            (attempted (next_sequence s) s),
        expected (record { process = p; input = i; output = o }),
      ))

  -- `connect_client` either answers an error, and all that it had entered is taken out again, so that
  -- nothing but the count of attempts may differ; or it answers three handles, the process under one
  -- that was free, and its two objects under two more, different and free, the input one, and the
  -- output one of the active buffer, both owned by the process.
  pub connect_client-cases :
      (pid tid : ℕ) (s : ServerState)
      → Fails s (connect_client compare memory pid tid app_name s)
        ⊎ Enters pid tid s (connect_client compare memory pid tid app_name s)
  unfolding connect_client connect_process connect_handles
  connect_client-cases pid tid s = elim (Option-cases (memory.process.address)) [
    | inl nowhere ↦ inl (
      device_error (codes "Failed to allocate ProcessState") error_outofmemory,
      s.next_connect_sequence,
      rw nowhere refl,
    )
    | inr (p, at) ↦
        let state = new_process pid tid s.next_connect_sequence p in
        let counted = attempted (next_sequence s) s in
        elim (emplace-cases (codes "Process handle already existed")
          (codes "Failed to insert process state") memory.process.node p state s.processes) [
            | inl (e, refused) ↦ inl (e, next_sequence s, rw (at, connect_process, refused) refl)
            | inr (fresh, made) ↦
                elim (after_input-Connects p state counted fresh _ (
                  create_object-cases memory.input (standard_handle input p)
                    (with_process p state counted))) [
                      | inl (e, failed) ↦
                          inl (e, next_sequence s, rw (at, connect_process, made, failed) refl)
                      | inr (i, o, free, done) ↦
                          inr (p, i, o, fresh, free, rw (at, connect_process, made, done) refl)
                    ]
          ]
  ]
