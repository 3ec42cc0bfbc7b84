-- ===== src/Dispatch/AliasLists.antt =====
-- The messages of `dispatch_message` (src/condrv/condrv_server.hpp) that list the aliases of an executable
-- and the names of the executables, and those that ask for the length of such a list.
use conhost.Prelude.{
  ℕ, ◌+◌, ◌*◌, ◌%◌, ltb, ◌==◌, if◌then◌else◌, Bool, true, false, not, ◌&&◌, List, [], ◌∷◌, ◌++◌,
  map, Text, length, Option, none, some,
}
use conhost.Prelude.Result.{Expected, expected, unexpected, ◌>>=◌}
use conhost.Alias.{Aliases, AliasTable, find}
use conhost.Server.{ServerState}
use conhost.Dispatch.{Status, status_invalid_parameter, a_number, Reply, reject}
use conhost.Dispatch.Strings.{
  Windows, int_max, decode_console_string, fold_to_lower_invariant, or_invalid, or_unsuccessful,
  bytes_of, total_bytes, list_entries, no_text, length_reply, listing_reply,
}
use conhost.Dispatch.Aliases.{AliasMemory}

module _ (windows : Windows) where
  -- The name of the executable that both messages on a table begin with.
  unfoldable pub listed_exe : AliasMemory → Bool → List ℕ → ℕ → Expected Status Text
  unfolding decode_console_string fold_to_lower_invariant
  listed_exe memory unicode input code_page =
      if unicode && not (length input % 2 == 0) then unexpected status_invalid_parameter else do
        exe ← or_invalid (decode_console_string windows memory.exe unicode input code_page)
        or_unsuccessful (fold_to_lower_invariant windows memory.exe_name exe)

-- `for_each_alias` and `for_each_alias_exe`: what they go over.
abbrev pub entries_of : Text → Aliases → AliasTable
entries_of exe aliases = elim (find exe aliases) [ none ↦ [] | some table ↦ table ]

abbrev pub exe_names : Aliases → List Text
exe_names aliases = map (λ (entry : Text × AliasTable). entry.0) aliases

module _ (windows : Windows) where
  -- How many bytes a text takes in a code page, if it can be converted, and its bytes.
  unfoldable pub narrow_bytes : ℕ → Text → Option ℕ
  narrow_bytes code_page text =
      if ltb int_max (length text)
      then none
      else if windows.narrow_size code_page text == 0
      then none
      else some (windows.narrow_size code_page text)

  unfoldable pub converted : ℕ → Text → Option (List ℕ)
  converted code_page text =
      let required = windows.narrow_size code_page text in
      let out = windows.to_narrow code_page text required in
      if length out == required then some out else none

  -- One alias, as `source=target` with a terminator.
  unfoldable pub alias_size : Bool → ℕ → Text × Text → Option ℕ
  unfolding narrow_bytes
  alias_size true code_page (source, target) = some ((length source + 1 + length target + 1) * 2)
  alias_size false code_page (source, target) = elim (narrow_bytes code_page source) [
    | none ↦ none
    | some source_bytes ↦ elim (narrow_bytes code_page target) [
      | none ↦ none
      | some target_bytes ↦ some (source_bytes + 1 + target_bytes + 1)
    ]
  ]

  unfoldable pub alias_bytes : Bool → ℕ → Text × Text → Option (List ℕ)
  unfolding converted bytes_of
  alias_bytes true code_page (source, target) =
      some (bytes_of (source ++ (b'=' ∷ (target ++ (0 ∷ [])))))
  alias_bytes false code_page (source, target) = elim (converted code_page source) [
    | none ↦ none
    | some source_out ↦ elim (converted code_page target) [
      | none ↦ none
      | some target_out ↦ some (source_out ++ (b'=' ∷ (target_out ++ (0 ∷ []))))
    ]
  ]

  -- One name, with a terminator.
  unfoldable pub exe_size : Bool → ℕ → Text → Option ℕ
  unfolding narrow_bytes
  exe_size true code_page name = some ((length name + 1) * 2)
  exe_size false code_page name = elim (narrow_bytes code_page name) [
    | none ↦ none
    | some name_bytes ↦ some (name_bytes + 1)
  ]

  unfoldable pub exe_bytes : Bool → ℕ → Text → Option (List ℕ)
  unfolding converted bytes_of
  exe_bytes true code_page name = some (bytes_of (name ++ (0 ∷ [])))
  exe_bytes false code_page name = elim (converted code_page name) [
    | none ↦ none
    | some name_out ↦ some (name_out ++ (0 ∷ []))
  ]

  unfoldable pub get_aliases_length : AliasMemory → Bool → List ℕ → ServerState → Reply
  unfolding listed_exe alias_size total_bytes length_reply
  get_aliases_length memory unicode input s =
      elim (listed_exe windows memory unicode input s.output_code_page) [
        | unexpected status ↦ record (reject status) { body = a_number 0 }
        | expected exe ↦
            length_reply
              (total_bytes (alias_size unicode s.output_code_page) 0 (entries_of exe s.aliases))
      ]

  unfoldable pub get_aliases : AliasMemory → Bool → List ℕ → ℕ → ServerState → Reply
  unfolding listed_exe alias_size alias_bytes list_entries listing_reply
  get_aliases memory unicode input capacity s =
      elim (listed_exe windows memory unicode input s.output_code_page) [
        | unexpected status ↦ no_text status
        | expected exe ↦ listing_reply (
            list_entries (alias_size unicode s.output_code_page)
              (alias_bytes unicode s.output_code_page) capacity 0 [] (entries_of exe s.aliases))
      ]

  unfoldable pub get_alias_exes_length : Bool → ServerState → Reply
  unfolding exe_size total_bytes length_reply
  get_alias_exes_length unicode s =
      length_reply (total_bytes (exe_size unicode s.output_code_page) 0 (exe_names s.aliases))

  unfoldable pub get_alias_exes : Bool → ℕ → ServerState → Reply
  unfolding exe_size exe_bytes list_entries listing_reply
  get_alias_exes unicode capacity s = listing_reply (
      list_entries (exe_size unicode s.output_code_page) (exe_bytes unicode s.output_code_page)
        capacity 0 [] (exe_names s.aliases))
