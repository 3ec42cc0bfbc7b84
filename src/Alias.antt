-- ===== src/Alias.antt =====
-- The console aliases of `ServerState` (src/condrv/condrv_server.cpp): for each executable a table from
-- a source to its target. A map is an association list that holds a key once.
pub mod Lookup
pub mod Tests
use conhost.Prelude.{
  ◌==◌, if◌then◌else◌, Bool, true, false, not, Option, none, some, List, [], ◌∷◌, length, Text,
  equal,
}
use conhost.Prelude.Result.{Expected, expected, unexpected}

module _ {ℓ} {A : Type ℓ} where
  abbrev pub find : Text → List (Text × A) → Option A
  find key [] = none
  find key (entry ∷ entries) = if equal (entry.0) key then some (entry.1) else find key entries

  abbrev pub erase : Text → List (Text × A) → List (Text × A)
  erase key [] = []
  erase key (entry ∷ entries) =
      let rest = erase key entries in if equal (entry.0) key then rest else entry ∷ rest

  abbrev pub insert_or_assign : Text → A → List (Text × A) → List (Text × A)
  insert_or_assign key value entries = (key, value) ∷ erase key entries

abbrev pub AliasTable : Type 0
AliasTable = List (Text × Text)

abbrev pub Aliases : Type 0
Aliases = List (Text × AliasTable)

-- The Win32 errors that `set_alias` answers.
pub data AliasError : Type 0 where
  error_invalid_parameter : AliasError
  error_outofmemory : AliasError

-- `_aliases.try_emplace(exe_name)`, and the table of that name.
abbrev pub table_of : Text → Aliases → AliasTable
table_of exe_name aliases = elim (find exe_name aliases) [ none ↦ [] | some table ↦ table ]

-- Behind `target.empty()`.
unfoldable pub erase_alias : Text → Text → Aliases → Aliases
erase_alias exe_name source aliases = elim (find exe_name aliases) [
  | none ↦ aliases
  | some table ↦ elim (find source table) [
    | none ↦ aliases
    | some target ↦
        let left = erase source table in
        if length left == 0 then erase exe_name aliases else insert_or_assign exe_name left aliases
  ]
]

-- `set_alias`. Whether there is memory for the table, and for its entry, are the first arguments.
unfoldable pub set_alias :
    Bool → Bool → Text → Text → Text → Aliases → Aliases × Expected {0, 0} AliasError Unit
set_alias has_table has_entry exe_name source target aliases =
    let table = table_of exe_name aliases in
    if length source == 0
    then (aliases, unexpected error_invalid_parameter)
    else if length target == 0
    then (erase_alias exe_name source aliases, expected tt)
    else if not has_table
    then (aliases, unexpected error_outofmemory)
    else if has_entry
    then (insert_or_assign exe_name (insert_or_assign source target table) aliases, expected tt)
    else (insert_or_assign exe_name table aliases, unexpected error_outofmemory)

unfoldable pub try_get_alias : Text → Text → Aliases → Option Text
try_get_alias exe_name source aliases = elim (find exe_name aliases) [
  | none ↦ none
  | some table ↦ elim (find source table) [
    | none ↦ none
    | some target ↦ if length target == 0 then none else some target
  ]
]
