-- ===== src/Server/Invariant.antt =====
-- The invariant of `ServerState`: no handle is entered twice, no object or command history outlives
-- the process that it belongs to, and every output handle has a buffer.
use conhost.Prelude.{
  ℕ, ◌≤◌, ◌≡◌, refl, sym, ◌∙◌, arith, if◌then◌else◌, Bool, true, false, Bool-cases, inl, inr, List,
  ◌∷◌, Text,
}
use conhost.Prelude.Table.{
  contains, erase, IsDistinct, contains-cons, contains-erase_other, contains-erase_same,
  erase-IsDistinct, erase_if-IsDistinct, Every, cons-Every, erase-Every, erase_if-Every,
}
use conhost.History.{CommandHistoryPool, free_for_process}
use conhost.History.Pool.{owners, owners-free_for_process}
use conhost.History.Lifecycle.{Keeps, allocate_for_process-Keeps}
use conhost.Server.{
  input, ObjectHandle, ProcessState, ServerState, Allocation, create_object, default_buffer,
  close_object, disconnect_client, is_owned_by,
}
use conhost.Server.Connect.{
  ConnectMemory, standard_handle, new_process, set_handles, connect_client,
}
use conhost.Server.Cases.{
  IsBuffered, create_object-cases, connect_client-cases, with_handles, AreFree, attempted,
  next_sequence, output_handle_of,
}

-- An entry of the map of processes, and one of the map of objects.
abbrev pub IsKeyed : ℕ → ProcessState → Type 0
IsKeyed p state = state.process_handle ≡ p

abbrev pub IsOwned : List (ℕ × ProcessState) → ℕ → ObjectHandle → Type 0
IsOwned processes h object = (contains object.owning_process processes ≡ true) × IsBuffered object

-- A process that is not connected has no history, and a connected one has one at most.
abbrev pub IsHeld : List (ℕ × ProcessState) → CommandHistoryPool → Type 0
IsHeld processes pool = (p : ℕ) → owners p pool ≤ (if contains p processes then 1 else 0)

pub record IsValid (s : ServerState) : Type 0 where
  pub processes_distinct : IsDistinct s.processes
  pub objects_distinct : IsDistinct s.objects
  pub keyed : Every IsKeyed s.processes
  pub owned : Every (IsOwned s.processes) s.objects
  pub held : IsHeld s.processes s.command_histories

-- `create_object` for a connected process.
pub create_object-IsValid :
    (memory : Allocation) (object : ObjectHandle) (s : ServerState)
    → contains object.owning_process s.processes ≡ true
    → IsValid s
    → IsValid (create_object memory object s).0
unfolding default_buffer
create_object-IsValid memory object s connected v = elim (create_object-cases memory object s) [
  | inl (e, refused) ↦ rw refused v
  | inr (h, fresh, buffered, made) ↦ rw made (record {
    processes_distinct = v.processes_distinct;
    objects_distinct = (fresh, v.objects_distinct);
    keyed = v.keyed;
    owned =
        cons-Every (IsOwned s.processes) h (default_buffer object s) s.objects
          (ground arith, buffered) v.owned;
    held = v.held;
  })
]

pub close_object-IsValid : (h : ℕ) (s : ServerState) → IsValid s → IsValid (close_object h s).0
unfolding close_object
close_object-IsValid h s v = elim (Bool-cases (contains h s.objects)) [
  | inr missing ↦ rw missing v
  | inl there ↦ rw there (record {
    processes_distinct = v.processes_distinct;
    objects_distinct = erase-IsDistinct h s.objects v.objects_distinct;
    keyed = v.keyed;
    owned = erase-Every (IsOwned s.processes) h s.objects v.owned;
    held = v.held;
  })
]

erase-IsOwned :
    (p : ℕ) (processes : List (ℕ × ProcessState)) (h : ℕ) (object : ObjectHandle)
    → is_owned_by p object ≡ false
    → IsOwned processes h object
    → IsOwned (erase p processes) h object
erase-IsOwned p processes h object other o =
    ground (arith, contains-erase_other p object.owning_process processes)

released :
    (p : ℕ) (processes : List (ℕ × ProcessState)) (pool : CommandHistoryPool)
    → IsHeld processes pool
    → IsHeld (erase p processes) (free_for_process p pool)
released p processes pool held q = ground (
  arith,
  held q,
  owners-free_for_process q p pool,
  contains-erase_other p q processes,
  contains-erase_same p processes,
)

pub disconnect_client-IsValid :
    (p : ℕ) (s : ServerState) → IsValid s → IsValid (disconnect_client p s).0
unfolding disconnect_client
disconnect_client-IsValid p s v = elim (Bool-cases (contains p s.processes)) [
  | inr missing ↦ rw missing v
  | inl there ↦ rw there (record {
    processes_distinct = erase-IsDistinct p s.processes v.processes_distinct;
    objects_distinct = erase_if-IsDistinct (is_owned_by p) s.objects v.objects_distinct;
    keyed = erase-Every IsKeyed p s.processes v.keyed;
    owned =
        erase_if-Every (IsOwned s.processes) (IsOwned (erase p s.processes)) (is_owned_by p)
          s.objects v.objects_distinct (erase-IsOwned p s.processes) v.owned;
    held = released p s.processes s.command_histories v.held;
  })
]

-- One more process.
process-IsOwned :
    (p : ℕ) (state : ProcessState) (processes : List (ℕ × ProcessState))
    (objects : List (ℕ × ObjectHandle))
    → Every (IsOwned processes) objects
    → Every (IsOwned ((p, state) ∷ processes)) objects
process-IsOwned p state processes objects owned h object e =
    let (there, buffered) = owned h object e in
    (ground (arith, contains-cons object.owning_process p state processes), buffered)

new_owner :
    (p : ℕ) (state : ProcessState) (processes : List (ℕ × ProcessState))
    → contains p ((p, state) ∷ processes) ≡ true
new_owner p state processes = ground (arith, contains-cons p p state processes)

process-IsHeld :
    (p max_histories : ℕ) (state : ProcessState) (processes : List (ℕ × ProcessState))
    (pool after : CommandHistoryPool)
    → contains p processes ≡ false
    → Keeps p max_histories pool after
    → IsHeld processes pool
    → IsHeld ((p, state) ∷ processes) after
process-IsHeld p max_histories state processes pool after fresh keeps held q =
    ground (arith, held q, keeps.owned q, contains-cons q p state processes)

attempted-IsValid : (n : ℕ) (s : ServerState) → IsValid s → IsValid (attempted n s)
attempted-IsValid n s v = record {
  processes_distinct = v.processes_distinct;
  objects_distinct = v.objects_distinct;
  keyed = v.keyed;
  owned = v.owned;
  held = v.held;
}

module _ (compare : Text → Text → Bool) (memory : ConnectMemory) (app_name : Text) where
  with_handles-IsValid :
      (p : ℕ) (state : ProcessState) (i o : ℕ) (s : ServerState)
      → state.process_handle ≡ p
      → contains p s.processes ≡ false
      → AreFree i o s
      → IsValid s
      → IsValid (with_handles compare memory app_name p state i o s)
  with_handles-IsValid p state i o s keyed fresh (free_i, free_o, active) v =
      let entered = set_handles i o state in
      let processes : List (ℕ × ProcessState) = (p, entered) ∷ s.processes in
      let is_there = new_owner p entered s.processes in
      record {
        processes_distinct = (fresh, v.processes_distinct);
        objects_distinct = (
          contains-cons o i (standard_handle input p) s.objects
              ∙ sym (contains-cons o i (standard_handle input 0) s.objects)
              ∙ free_o,
          (free_i, v.objects_distinct),
        );
        keyed = cons-Every IsKeyed p entered s.processes keyed v.keyed;
        owned =
            cons-Every (IsOwned processes) o (output_handle_of p s)
              ((i, standard_handle input p) ∷ s.objects) (is_there, active)
              (cons-Every (IsOwned processes) i (standard_handle input p) s.objects (is_there, refl)
                (process-IsOwned p entered s.processes s.objects v.owned));
        held =
            process-IsHeld p s.history_buffer_count entered s.processes s.command_histories _ fresh
              (allocate_for_process-Keeps compare memory.names memory.allocates app_name p
                s.history_buffer_count s.history_buffer_size s.command_histories)
              v.held;
      }

  pub connect_client-IsValid :
      (pid tid : ℕ) (s : ServerState)
      → IsValid s
      → IsValid (connect_client compare memory pid tid app_name s).0
  connect_client-IsValid pid tid s v =
      elim (connect_client-cases compare memory app_name pid tid s) [
        | inl (e, n, refused) ↦ rw refused (attempted-IsValid n s v)
        | inr (p, i, o, fresh, free, made) ↦ rw made (
            with_handles-IsValid p (new_process pid tid s.next_connect_sequence p) i o
              (attempted (next_sequence s) s) refl fresh free (attempted-IsValid _ s v))
      ]
