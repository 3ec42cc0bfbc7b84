-- ===== src/History.antt =====
-- src/condrv/command_history.hpp and command_history.cpp: the command history of one process, and
-- the pool of histories. Iterators are positions, a pointer to an entry is a change of the first
-- entry that passes a test, and the `catch` of an allocation that fails is the branch where the
-- flag `allocates` is false. `CompareStringOrdinal` with its flag to ignore case is a parameter.
pub mod Entry
pub mod Pool
pub mod Lifecycle
pub mod Tests
use conhost.Prelude.{
  ℕ, zero, suc, ◌+◌, ◌-◌, ◌^◌, ltb, leb, ◌==◌, if◌then◌else◌, Bool, true, false, not, ◌&&◌, ◌||◌,
  List, [], ◌∷◌, ◌++◌, Text, equal, length, take, set, Option, none, some,
}

pub record CommandHistory : Type 0 where
  pub commands : List Text
  pub max_commands : ℕ
  pub app_name : Text
  pub process_handle : ℕ
  pub allocated : Bool

-- `CommandHistory history{}`.
abbrev pub new_history : CommandHistory
new_history = record {
  commands = [];
  max_commands = 0;
  app_name = [];
  process_handle = 0;
  allocated = false;
}

abbrev pub is_empty {ℓ} : {A : Type ℓ} → List A → Bool
is_empty [] = true
is_empty (x ∷ xs) = false

-- The new entry, and whether the name could be stored.
unfoldable pub try_set_app_name : Bool → Text → CommandHistory → CommandHistory × Bool
try_set_app_name true name h = (record h { app_name = name }, true)
try_set_app_name false name h = (record h { app_name = [] }, false)

abbrev pub assign_process : ℕ → CommandHistory → CommandHistory
assign_process p h = record h { process_handle = p; allocated = true }

abbrev pub release_process : CommandHistory → CommandHistory
release_process h = record h { allocated = false; process_handle = 0 }

abbrev pub clear_commands : CommandHistory → CommandHistory
clear_commands h = record h { commands = [] }

unfoldable pub realloc : ℕ → CommandHistory → CommandHistory
realloc max h = record h {
  max_commands = max;
  commands = if ltb max (length h.commands) then take max h.commands else h.commands;
}

-- `!_commands.empty() && _commands.back() == command`.
abbrev pub back_is : Text → List Text → Bool
back_is command [] = false
back_is command (c ∷ []) = equal c command
back_is command (c ∷ d ∷ cs) = back_is command (d ∷ cs)

-- `std::find`, then `erase` at what it found.
abbrev pub erase_first : Text → List Text → List Text
erase_first command [] = []
erase_first command (c ∷ cs) = if equal c command then cs else c ∷ erase_first command cs

abbrev pub erase_begin : List Text → List Text
erase_begin [] = []
erase_begin (c ∷ cs) = cs

-- The list that `add` appends to: the duplicate erased, and the oldest command if the list is full.
abbrev pub make_room : CommandHistory → Text → Bool → List Text
make_room h command suppress_duplicates =
    let kept = if suppress_duplicates then erase_first command h.commands else h.commands in
    if length kept == h.max_commands then erase_begin kept else kept

unfoldable pub add : Bool → Text → Bool → CommandHistory → CommandHistory
add allocates command suppress_duplicates h =
    if h.max_commands == 0 || is_empty command
    then h
    else if back_is command h.commands
    then h
    else record h {
      commands =
          if allocates
          then make_room h command suppress_duplicates ++ command ∷ []
          else make_room h command suppress_duplicates;
    }

abbrev pub CommandHistoryPool : Type 0
CommandHistoryPool = List CommandHistory

-- The first entry that passes a test, and the change of it through its pointer.
unfoldable pub find_first : (CommandHistory → Bool) → CommandHistoryPool → Option CommandHistory
find_first test [] = none
find_first test (h ∷ hs) = if test h then some h else find_first test hs

unfoldable pub update_first :
    (CommandHistory → Bool)
    → (CommandHistory → CommandHistory)
    → CommandHistoryPool
    → CommandHistoryPool
update_first test f [] = []
update_first test f (h ∷ hs) = if test h then f h ∷ hs else h ∷ update_first test f hs

-- Every entry but the one at a position, and `splice` of that one to the front.
abbrev pub remove_at : ℕ → CommandHistoryPool → CommandHistoryPool
remove_at i [] = []
remove_at zero (h ∷ hs) = hs
remove_at (suc i) (h ∷ hs) = h ∷ remove_at i hs

abbrev pub is_of_process : ℕ → CommandHistory → Bool
is_of_process p h = h.allocated && h.process_handle == p

unfoldable pub find_by_process : ℕ → CommandHistoryPool → Option CommandHistory
unfolding find_first
find_by_process p = find_first (is_of_process p)

unfoldable pub resize_all : ℕ → CommandHistoryPool → CommandHistoryPool
resize_all max [] = []
resize_all max (h ∷ hs) = realloc max h ∷ resize_all max hs

unfoldable pub free_for_process : ℕ → CommandHistoryPool → CommandHistoryPool
unfolding update_first
free_for_process p = update_first (is_of_process p) release_process

-- A position, and the entry there: what an iterator that is not `end()` gives.
pub record Candidate : Type 0 where
  pub index : ℕ
  pub entry : CommandHistory

-- One round of the second loop of `allocate_for_process`: the new `best_candidate`.
unfoldable pub best_step : ℕ → Option Candidate → CommandHistory → Option Candidate
best_step i none h = if h.allocated then none else some (record { index = i; entry = h })
best_step i (some b) h =
    if h.allocated
    then some b
    else if is_empty h.commands || not (is_empty b.entry.commands)
    then some (record { index = i; entry = h })
    else some b

unfoldable pub best_loop : ℕ → Option Candidate → CommandHistoryPool → Option Candidate
unfolding best_step
best_loop i best [] = best
best_loop i best (h ∷ hs) = best_loop (suc i) (best_step i best h) hs

-- The first entry that passes a test, with its position.
unfoldable pub find_position : (CommandHistory → Bool) → ℕ → CommandHistoryPool → Option Candidate
find_position test i [] = none
find_position test i (h ∷ hs) =
    if test h then some (record { index = i; entry = h }) else find_position test (suc i) hs

-- The new entry of `allocate_for_process`.
abbrev pub fresh_entry : Bool → Text → ℕ → ℕ → CommandHistory
fresh_entry names name p default_max =
    assign_process p (realloc default_max (try_set_app_name names name new_history).0)

-- A free entry of another application is cleared and renamed; if the name cannot be stored it stays
-- where it is, free.
unfoldable pub reuse_other : Bool → Text → ℕ → CommandHistoryPool → Candidate → CommandHistoryPool
reuse_other names name p pool c =
    let (h, named) = try_set_app_name names name (clear_commands c.entry) in
    if named then assign_process p h ∷ remove_at c.index pool else set pool c.index h

-- `allocate_for_process` behind its first loop, on what that loop found.
unfoldable pub allocate_at :
    Bool → Bool → Text → ℕ → ℕ → ℕ → CommandHistoryPool → Option Candidate → CommandHistoryPool
allocate_at names allocates name p max_histories default_max pool (some c) =
    assign_process p c.entry ∷ remove_at c.index pool
allocate_at names allocates name p max_histories default_max pool none =
    if ltb (length pool) max_histories
    then (if allocates then fresh_entry names name p default_max ∷ pool else pool)
    else elim (best_loop 0 none pool) [ none ↦ pool | some c ↦ reuse_other names name p pool c ]

module _ (compare_string_ordinal : Text → Text → Bool) where
  unfoldable pub app_name_matches : Text → CommandHistory → Bool
  app_name_matches other h =
      if ltb (2 ^ 31 - 1) (length h.app_name) || ltb (2 ^ 31 - 1) (length other)
      then false
      else compare_string_ordinal h.app_name other

  abbrev pub is_of_exe : Text → CommandHistory → Bool
  is_of_exe exe h = h.allocated && app_name_matches exe h

  unfoldable pub find_by_exe : Text → CommandHistoryPool → Option CommandHistory
  unfolding find_first
  find_by_exe exe = find_first (is_of_exe exe)

  unfoldable pub expunge_by_exe : Text → CommandHistoryPool → CommandHistoryPool
  unfolding update_first
  expunge_by_exe exe = update_first (is_of_exe exe) clear_commands

  -- The entry that was changed is spliced to the front.
  unfoldable pub set_number_of_commands_by_exe : Text → ℕ → CommandHistoryPool → CommandHistoryPool
  set_number_of_commands_by_exe exe max pool = elim (find_position (is_of_exe exe) 0 pool) [
    | none ↦ pool
    | some c ↦ realloc max c.entry ∷ remove_at c.index pool
  ]

  abbrev pub is_free_of_app : Text → CommandHistory → Bool
  is_free_of_app name h = not h.allocated && app_name_matches name h

  -- `allocate_for_process`. `names` says whether a name can be stored, `allocates` whether an entry
  -- can be put in front.
  unfoldable pub allocate_for_process :
      Bool → Bool → Text → ℕ → ℕ → ℕ → CommandHistoryPool → CommandHistoryPool
  allocate_for_process names allocates name p max_histories default_max pool =
      allocate_at names allocates name p max_histories default_max pool
        (find_position (is_free_of_app name) 0 pool)
