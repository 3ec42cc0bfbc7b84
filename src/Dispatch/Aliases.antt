-- ===== src/Dispatch/Aliases.antt =====
-- The messages of `dispatch_message` on the console aliases. A message comes with the bytes of its input
-- buffer and the size of its output buffer; when the driver does not give these, the call ends with its
-- error before anything is done.
use Prim.Native.Nat.{bit_and, bit_or}
use conhost.Prelude.{
  ℕ, ◌+◌, ◌*◌, ◌-◌, ◌^◌, ltb, ◌==◌, if◌then◌else◌, Bool, true, false, not, ◌||◌, List, [], ◌∷◌,
  ◌++◌, Text, length, take, drop, Option, none, some,
}
use conhost.Prelude.Result.{Expected, expected, unexpected, ◌>>=◌}
use conhost.Alias.{
  Aliases, AliasError, error_invalid_parameter, error_outofmemory, set_alias, try_get_alias,
}
use conhost.Server.{ServerState}
use conhost.Dispatch.{
  Status, status_invalid_parameter, status_no_memory, status_unsuccessful, status_buffer_too_small,
  nothing, a_text, Reply, answer, reject,
}
use conhost.Dispatch.Strings.{
  Windows, int_max, decode_console_string, fold_to_lower_invariant, or_invalid, or_unsuccessful,
  bytes_of, no_text, text_of,
}

-- Whether there is memory for each text that is made, for a table and for its entry.
pub record AliasMemory : Type 0 where
  pub exe : Bool
  pub source : Bool
  pub target : Bool
  pub exe_name : Bool
  pub source_name : Bool
  pub has_table : Bool
  pub has_entry : Bool

-- The fields of `AddConsoleAliasW`, and those of `GetConsoleAliasW` with no target.
pub record AliasRequest : Type 0 where
  pub unicode : Bool
  pub exe_length : ℕ
  pub source_length : ℕ
  pub target_length : ℕ

-- `(lengths & (alignment - 1)) != 0`.
abbrev pub bad_alignment : Bool → ℕ → Bool
bad_alignment unicode lengths = not (bit_and lengths ((if unicode then 2 else 1) - 1) == 0)

module _ (windows : Windows) where
  -- The names in lower case, and the target as it is.
  unfoldable pub added_alias :
      AliasMemory → AliasRequest → List ℕ → ℕ → Expected Status (Text × Text × Text)
  unfolding decode_console_string fold_to_lower_invariant
  added_alias memory body input code_page =
      let decode = decode_console_string windows in
      let source_at = drop body.exe_length input in
      let target_at = drop (body.exe_length + body.source_length) input in
      let lengths = bit_or (bit_or body.exe_length body.source_length) body.target_length in
      if ltb (length input) (body.exe_length + body.source_length + body.target_length)
        || bad_alignment body.unicode lengths
      then unexpected status_invalid_parameter
      else do
        exe ← or_invalid (decode memory.exe body.unicode (take body.exe_length input) code_page)
        source ←
            or_invalid
              (decode memory.source body.unicode (take body.source_length source_at) code_page)
        target ←
            or_invalid
              (decode memory.target body.unicode (take body.target_length target_at) code_page)
        filled ←
            (if length source == 0 then unexpected status_invalid_parameter else expected source)
        exe_name ← or_unsuccessful (fold_to_lower_invariant windows memory.exe_name exe)
        source_name ← or_unsuccessful (fold_to_lower_invariant windows memory.source_name filled)
        expected (exe_name, source_name, target)

abbrev pub stored_reply : Aliases × Expected {0, 0} AliasError Unit → Reply
stored_reply (aliases, expected _) = answer nothing
stored_reply (aliases, unexpected error_outofmemory) = reject status_no_memory
stored_reply (aliases, unexpected error_invalid_parameter) = reject status_unsuccessful

abbrev pub store_alias :
    AliasMemory → ServerState → Expected Status (Text × Text × Text) → ServerState × Reply
store_alias memory s (unexpected status) = (s, reject status)
store_alias memory s (expected (exe, source, target)) =
    let stored = set_alias memory.has_table memory.has_entry exe source target s.aliases in
    (record s { aliases = stored.0 }, stored_reply stored)

module _ (windows : Windows) where
  unfoldable pub add_alias : AliasMemory → AliasRequest → List ℕ → ServerState → ServerState × Reply
  unfolding added_alias set_alias
  add_alias memory body input s =
      store_alias memory s (added_alias windows memory body input s.output_code_page)

  unfoldable pub asked_alias :
      AliasMemory → AliasRequest → List ℕ → ℕ → Expected Status (Text × Text)
  unfolding decode_console_string fold_to_lower_invariant
  asked_alias memory body input code_page =
      let decode = decode_console_string windows in
      let source_at = drop body.exe_length input in
      if ltb (length input) (body.exe_length + body.source_length)
        || bad_alignment body.unicode (bit_or body.exe_length body.source_length)
      then unexpected status_invalid_parameter
      else do
        exe ← or_invalid (decode memory.exe body.unicode (take body.exe_length input) code_page)
        source ←
            or_invalid
              (decode memory.source body.unicode (take body.source_length source_at) code_page)
        exe_name ← or_unsuccessful (fold_to_lower_invariant windows memory.exe_name exe)
        source_name ← or_unsuccessful (fold_to_lower_invariant windows memory.source_name source)
        expected (exe_name, source_name)

-- `std::numeric_limits<USHORT>::max()`.
abbrev pub ushort_max : ℕ
ushort_max = 2 ^ 16 - 1

-- A target that the output buffer does not hold is refused with the size that it needs.
abbrev pub too_small : ℕ → Reply
too_small required = record {
  status = status_buffer_too_small;
  information = required;
  body = a_text required [];
  request_exit = false;
}

unfoldable pub wide_target : ℕ → Text → Reply
unfolding bytes_of
wide_target capacity target =
    let required = (length target + 1) * 2 in
    if ltb ushort_max required
    then no_text status_invalid_parameter
    else if ltb capacity required
    then too_small required
    else text_of required (bytes_of target ++ (0 ∷ 0 ∷ []))

module _ (windows : Windows) where
  unfoldable pub narrow_target : ℕ → ℕ → Text → Reply
  narrow_target code_page capacity target =
      let required_narrow = windows.narrow_size code_page target in
      let required = required_narrow + 1 in
      let converted = windows.to_narrow code_page target required_narrow in
      if ltb int_max (length target)
      then no_text status_invalid_parameter
      else if required_narrow == 0
      then no_text status_invalid_parameter
      else if ltb ushort_max required
      then no_text status_invalid_parameter
      else if ltb capacity required
      then too_small required
      else if length converted == required_narrow
      then text_of required (converted ++ (0 ∷ []))
      else record (no_text status_invalid_parameter) { body = a_text required [] }

  abbrev pub target_reply : Bool → ℕ → ℕ → Option Text → Reply
  target_reply unicode code_page capacity none = no_text status_unsuccessful
  target_reply true code_page capacity (some target) = wide_target capacity target
  target_reply false code_page capacity (some target) = narrow_target code_page capacity target

  abbrev pub found_reply : AliasRequest → ℕ → ServerState → Expected Status (Text × Text) → Reply
  found_reply body capacity s (unexpected status) = no_text status
  found_reply body capacity s (expected (exe, source)) =
      target_reply body.unicode s.output_code_page capacity (try_get_alias exe source s.aliases)

  unfoldable pub get_alias : AliasMemory → AliasRequest → List ℕ → ℕ → ServerState → Reply
  unfolding asked_alias wide_target narrow_target try_get_alias
  get_alias memory body input capacity s =
      found_reply body capacity s (asked_alias windows memory body input s.output_code_page)
