-- ===== src/Dispatch/Stored.antt =====
-- The two messages of src/condrv/condrv_server.hpp on one alias, the one after the other, in Unicode.
use conhost.Prelude.{
  ℕ, ◌+◌, ◌*◌, ◌≤◌, ◌≡◌, ◌≢◌, ap, ◌∙◌, subst, arith, ltb, ◌==◌, if◌then◌else◌, Bool, true,
  Bool-cases, inl, inr, List, [], ◌∷◌, ◌++◌, Text, length, take, drop, some, All, equal_self,
}
use conhost.Prelude.Result.{Expected-cases}
use conhost.Alias.{Aliases, set_alias, try_get_alias}
use conhost.Alias.Lookup.{try_get_alias-set_alias}
use conhost.Server.{ServerState}
use conhost.Dispatch.{status_success, nothing, Reply, answer}
use conhost.Dispatch.Strings.{Windows, bytes_of, text_of}
use conhost.Dispatch.Aliases.{
  AliasMemory, added_alias, stored_reply, add_alias, get_alias, wide_target, too_small, ushort_max,
}
use conhost.Dispatch.Listed.{length-bytes_of}
use conhost.Dispatch.Bytes.{IsByte, All-take, All-drop, bytes_of-units_of}
use conhost.Dispatch.Refusals.{IsRefusal}
use conhost.Dispatch.Asked.{in_unicode, added_alias-IsRefusal, asked-of_added}

stored-found :
    (has_table has_entry : Bool) (exe source target : Text) (aliases : Aliases)
    → stored_reply (set_alias has_table has_entry exe source target aliases) ≡ answer nothing
    → length target ≢ 0
    → try_get_alias exe source (set_alias has_table has_entry exe source target aliases).0
      ≡ some target
unfolding set_alias
stored-found true true exe source target aliases h n = elim (Bool-cases (length source == 0)) [
  | inl empty ↦ absurd (ground (arith, empty))
  | inr filled ↦
      let some_source : source ≢ [] = λ e. ground (arith, ap length e) in
      try_get_alias-set_alias exe source target exe source aliases some_source
      ∙ rw (equal_self exe, equal_self source) (ground arith)
]
stored-found has_table has_entry exe source target aliases h n = ground arith

sent_whole :
    (capacity t : ℕ) (target : Text) (bytes : List ℕ)
    → bytes_of target ≡ bytes
    → length bytes ≡ t
    → t + 2 ≤ ushort_max
    → wide_target capacity target ≡ (
        if ltb capacity (t + 2) then too_small (t + 2) else text_of (t + 2) (bytes ++ (0 ∷ 0 ∷ [])))
unfolding wide_target
sent_whole capacity t target bytes same long room =
    let size : (length target + 1) * 2 ≡ t + 2 =
      omega (arith, length-bytes_of target, ap length same, long) in
    rw (size, same) (ground arith)

-- A target that is added in Unicode, with room for its terminator in a `USHORT`, is found by the names that
-- it was added with: when `AddConsoleAlias` succeeds for a target that is not empty, `GetConsoleAlias`
-- answers the bytes of the target as the client sent them, with a terminator, if the output buffer holds
-- them, and refuses with the size that it needs if not.
pub get_alias-add_alias :
    (windows : Windows) (memory : AliasMemory) (e l t : ℕ) (input : List ℕ) (capacity : ℕ)
    (s : ServerState)
    → All IsByte input
    → t ≢ 0
    → t + 2 ≤ ushort_max
    → (add_alias windows memory (in_unicode e l t) input s).1 ≡ answer nothing
    → get_alias windows memory
        (in_unicode e l t)
        input
        capacity
        (add_alias windows memory (in_unicode e l t) input s).0
      ≡ (if ltb capacity (t + 2)
          then too_small (t + 2)
          else text_of (t + 2) (take t (drop (e + l) input) ++ (0 ∷ 0 ∷ [])))
unfolding add_alias get_alias
get_alias-add_alias windows memory e l t input capacity s bytes filled room h =
    elim (Expected-cases (added_alias windows memory (in_unicode e l t) input s.output_code_page)) [
      | inl (status, refused) ↦
          let error : status ≢ status_success =
            subst IsRefusal refused
              (added_alias-IsRefusal windows memory e l t input s.output_code_page) in
          absurd (error (ap (λ (r : Reply). r.status) (rw (refused, add_alias) at h)))
      | inr ((x, y, z), added) ↦
          let (asked, units, long, even) =
            asked-of_added windows memory e l t input s.output_code_page x y z added in
          let sent = take t (drop (e + l) input) in
          let whole : bytes_of z ≡ sent = rw units (
            bytes_of-units_of sent (All-take t (drop (e + l) input) (All-drop (e + l) input bytes))
              (omega (arith, long, even))) in
          let found =
            stored-found memory.has_table memory.has_entry x y z s.aliases
              (rw (added, add_alias) at h)
              (λ none_there.
                filled (omega (arith, length-bytes_of z, ap length whole, long, none_there))) in
          rw (added, add_alias, get_alias, asked, found)
            (sent_whole capacity t z sent whole long room)
    ]
