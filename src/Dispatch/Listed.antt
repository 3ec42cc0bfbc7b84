-- ===== src/Dispatch/Listed.antt =====
-- The messages of src/condrv/condrv_server.hpp that list the aliases of an executable and the names of
-- the executables, each against the message that asks for the length of its list.
use conhost.Prelude.{
  not, ◌&&◌, ◌%◌, ◌==◌, ℕ, ◌*◌, ◌≤◌, ◌≡◌, ◌≢◌, refl, arith, Bool, true, false, ◌⊎◌, inl, inr, List,
  [], ◌∷◌, ◌++◌, Text, length, length-append, some, Option-cases,
}
use conhost.Prelude.Result.{expected, Expected-cases}
use conhost.Server.{ServerState}
use conhost.Dispatch.{Status, a_number, reject}
use conhost.Dispatch.Strings.{
  decode_console_string, fold_to_lower_invariant, or_invalid, Windows, bytes_of, ulong_max, no_text,
}
use conhost.Dispatch.Aliases.{AliasMemory}
use conhost.Dispatch.AliasLists.{
  listed_exe, entries_of, exe_names, narrow_bytes, converted, alias_size, alias_bytes, exe_size,
  exe_bytes, get_aliases_length, get_aliases, get_alias_exes_length, get_alias_exes,
}
use conhost.Dispatch.Refusals.{
  IsRefusal, >>=-IsRefusal, or_invalid-IsRefusal, or_unsuccessful-IsRefusal, guarded-IsRefusal,
}
use conhost.Dispatch.Loops.{joined, IsSized, Tallies, loops-Tallies}

-- `WideCharToMultiByte`, with a buffer of the size that it asked for, fills the buffer.
abbrev pub Converts : Windows → Type 0
Converts windows =
    (code_page : ℕ) (text : Text)
    → windows.narrow_size code_page text ≢ 0
    → length (windows.to_narrow code_page text (windows.narrow_size code_page text))
      ≡ windows.narrow_size code_page text

pub length-bytes_of : (units : Text) → length (bytes_of units) ≡ length units * 2
unfolding bytes_of
length-bytes_of [] = refl
length-bytes_of (unit ∷ units) = omega (arith, length-bytes_of units)

module _ (windows : Windows) (converts : Converts windows) (code_page : ℕ) where
  converted-length :
      (text : Text) (n : ℕ)
      → narrow_bytes windows code_page text ≡ some n
      → (out : List ℕ) × (converted windows code_page text ≡ some out) × (length out ≡ n)
  unfolding narrow_bytes converted
  converted-length text n e = (
    windows.to_narrow code_page text (windows.narrow_size code_page text),
    ground (arith, converts code_page text),
    ground (arith, converts code_page text),
  )

  alias_bytes-IsSized :
      (unicode : Bool)
      → IsSized (alias_size windows unicode code_page) (alias_bytes windows unicode code_page)
  unfolding alias_size alias_bytes
  alias_bytes-IsSized true (source, target) n e = (
    bytes_of (source ++ (b'=' ∷ (target ++ (0 ∷ [])))),
    refl,
    ground (
      arith,
      length-bytes_of (source ++ (b'=' ∷ (target ++ (0 ∷ [])))),
      length-append source (b'=' ∷ (target ++ (0 ∷ []))),
      length-append {A = ℕ} target (0 ∷ []),
    ),
  )
  alias_bytes-IsSized false (source, target) n e =
      elim (Option-cases (narrow_bytes windows code_page source)) [
        | inl no_source ↦ absurd (ground (arith, no_source))
        | inr (a, has_source) ↦ elim (Option-cases (narrow_bytes windows code_page target)) [
          | inl no_target ↦ absurd (ground (arith, has_source, no_target))
          | inr (b, has_target) ↦
              let (source_out, source_made, source_long) = converted-length source a has_source in
              let (target_out, target_made, target_long) = converted-length target b has_target in
              (
                source_out ++ (b'=' ∷ (target_out ++ (0 ∷ []))),
                ground (arith, source_made, target_made),
                ground (
                  arith,
                  has_source,
                  has_target,
                  length-append source_out (b'=' ∷ (target_out ++ (0 ∷ []))),
                  length-append {A = ℕ} target_out (0 ∷ []),
                ),
              )
        ]
      ]

  exe_bytes-IsSized :
      (unicode : Bool)
      → IsSized (exe_size windows unicode code_page) (exe_bytes windows unicode code_page)
  unfolding exe_size exe_bytes
  exe_bytes-IsSized true name n e = (
    bytes_of (name ++ (0 ∷ [])),
    refl,
    ground (arith, length-bytes_of (name ++ (0 ∷ [])), length-append {A = ℕ} name (0 ∷ [])),
  )
  exe_bytes-IsSized false name n e = elim (Option-cases (narrow_bytes windows code_page name)) [
    | inl no_name ↦ absurd (ground (arith, no_name))
    | inr (a, has_name) ↦
        let (out, made, long) = converted-length name a has_name in
        (
          out ++ (0 ∷ []),
          ground (arith, made),
          ground (arith, has_name, length-append {A = ℕ} out (0 ∷ [])),
        )
  ]

listed_exe-IsRefusal :
    (windows : Windows) (memory : AliasMemory) (unicode : Bool) (input : List ℕ) (code_page : ℕ)
    → IsRefusal (listed_exe windows memory unicode input code_page)
unfolding listed_exe
listed_exe-IsRefusal windows memory unicode input code_page =
    let decoded = decode_console_string windows memory.exe unicode input code_page in
    let fold_name = fold_to_lower_invariant windows memory.exe_name in
    guarded-IsRefusal (unicode && not (length input % 2 == 0)) _ (
      >>=-IsRefusal (or_invalid decoded) _ (or_invalid-IsRefusal decoded)
        (λ exe. or_unsuccessful-IsRefusal (fold_name exe)))

-- With an output buffer whose size is a `ULONG`, and a `WideCharToMultiByte` that fills a buffer of the
-- size that it asked for: either the name of the executable is refused by both messages alike, or
-- `GetConsoleAliasesLength` answers the length of the aliases as `source=target` lines, cut off at the
-- largest `ULONG`, and `GetConsoleAliases` answers just these lines, all of which the driver is given, if
-- the buffer holds them, and refuses with `status_buffer_too_small` if it does not; or the first refuses
-- since an alias cannot be converted, and so does the second, if not since the buffer is too small.
pub get_aliases-Tallies :
    (windows : Windows) (memory : AliasMemory) (unicode : Bool) (input : List ℕ) (capacity : ℕ)
    (s : ServerState)
    → Converts windows
    → capacity ≤ ulong_max
    → ((status : Status) × (get_aliases_length windows memory unicode input s
          ≡ record (reject status) { body = a_number 0 })
        × (get_aliases windows memory unicode input capacity s ≡ no_text status))
      ⊎ ((exe : Text) × (listed_exe windows memory unicode input s.output_code_page ≡ expected exe)
          × Tallies capacity
              (joined (alias_bytes windows unicode s.output_code_page) (entries_of exe s.aliases))
              (get_aliases_length windows memory unicode input s)
              (get_aliases windows memory unicode input capacity s))
unfolding get_aliases_length get_aliases
get_aliases-Tallies windows memory unicode input capacity s converts h =
    elim (Expected-cases (listed_exe windows memory unicode input s.output_code_page)) [
      | inl (status, refused) ↦
          inl (status, rw (refused, get_aliases_length) refl, rw (refused, get_aliases) refl)
      | inr (exe, made) ↦
          let code_page = s.output_code_page in
          inr (
            exe,
            made,
            rw (made, get_aliases_length, get_aliases)
                (loops-Tallies (alias_size windows unicode code_page)
                  (alias_bytes windows unicode code_page) capacity
                  (alias_bytes-IsSized windows converts code_page unicode)
                  (entries_of exe s.aliases) h),
          )
    ]

-- The same for `GetConsoleAliasExesLength` and `GetConsoleAliasExes`, with a line for each executable.
pub get_alias_exes-Tallies :
    (windows : Windows) (unicode : Bool) (capacity : ℕ) (s : ServerState)
    → Converts windows
    → capacity ≤ ulong_max
    → Tallies capacity
        (joined (exe_bytes windows unicode s.output_code_page) (exe_names s.aliases))
        (get_alias_exes_length windows unicode s)
        (get_alias_exes windows unicode capacity s)
unfolding get_alias_exes_length get_alias_exes
get_alias_exes-Tallies windows unicode capacity s converts h =
    let code_page = s.output_code_page in
    loops-Tallies (exe_size windows unicode code_page) (exe_bytes windows unicode code_page)
      capacity (exe_bytes-IsSized windows converts code_page unicode) (exe_names s.aliases) h
