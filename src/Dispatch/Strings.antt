-- ===== src/Dispatch/Strings.antt =====
-- Where `dispatch_message` (src/condrv/condrv_server.hpp) takes text from a client and gives text to it:
-- `decode_console_string`, `fold_to_lower_invariant`, the loops over entries of text, and
-- `release_message_buffers` of src/condrv/condrv_api_message.hpp. Bytes and code units are numbers; a
-- code unit has its low byte first.
use conhost.Prelude.{
  ℕ, ◌+◌, ◌*◌, ◌-◌, ◌/◌, ◌%◌, ◌^◌, ltb, ◌==◌, min, if◌then◌else◌, Bool, true, false, not, List, [],
  ◌∷◌, ◌++◌, Text, length, take, replicate, Option, none, some,
}
use conhost.Prelude.Result.{Expected, expected, unexpected}
use conhost.Dispatch.{
  Status, status_success, status_invalid_parameter, status_no_memory, status_unsuccessful,
  status_buffer_too_small, a_number, a_text, Reply, answer, reject,
}

-- The functions of Windows that are called: `MultiByteToWideChar` and `WideCharToMultiByte` for a code
-- page, and `LCMapStringEx` with `LCMAP_LOWERCASE`. Each is called without a buffer for the size, where
-- 0 stands for a failure, and then with a buffer of that size for what it writes. `decode_memory` and
-- `lower_memory` say whether `GetLastError` is `ERROR_OUTOFMEMORY` when the first or the last fails.
pub record Windows : Type 0 where
  pub wide_size : ℕ → List ℕ → ℕ
  pub to_wide : ℕ → List ℕ → ℕ → Text
  pub decode_memory : ℕ → List ℕ → Bool
  pub narrow_size : ℕ → Text → ℕ
  pub to_narrow : ℕ → Text → ℕ → List ℕ
  pub lower_size : Text → ℕ
  pub to_lower : Text → ℕ → Text
  pub lower_memory : Text → Bool

-- The Win32 errors as far as the callers tell them apart.
pub data TextError : Type 0 where
  error_outofmemory : TextError
  other_error : TextError

abbrev pub last_error : Bool → TextError
last_error lacks_memory = if lacks_memory then error_outofmemory else other_error

-- `std::numeric_limits<int>::max()`.
abbrev pub int_max : ℕ
int_max = 2 ^ 31 - 1

-- The copies between bytes and code units.
unfoldable pub units_of : List ℕ → Text
units_of [] = []
units_of (low ∷ []) = []
units_of (low ∷ high ∷ bytes) = (low + 256 * high) ∷ units_of bytes

unfoldable pub bytes_of : Text → List ℕ
bytes_of [] = []
bytes_of (unit ∷ units) = (unit % 256) ∷ (unit / 256) ∷ bytes_of units

module _ (windows : Windows) where
  -- The bytes of a code page. Whether there is memory for the text is the first argument here and below.
  unfoldable pub decode_narrow : Bool → List ℕ → ℕ → Expected TextError Text
  decode_narrow memory bytes code_page =
      let required = windows.wide_size code_page bytes in
      let failed : Expected TextError Text =
        unexpected (last_error (windows.decode_memory code_page bytes)) in
      let out = windows.to_wide code_page bytes required in
      if length bytes == 0
      then expected []
      else if ltb int_max (length bytes)
      then unexpected other_error
      else if required == 0
      then failed
      else if not memory
      then unexpected error_outofmemory
      else if length out == required
      then expected out
      else failed

  unfoldable pub decode_console_string : Bool → Bool → List ℕ → ℕ → Expected TextError Text
  unfolding decode_narrow units_of
  decode_console_string memory true bytes code_page =
      if not (length bytes % 2 == 0)
      then unexpected other_error
      else if memory
      then expected (units_of bytes)
      else unexpected error_outofmemory
  decode_console_string memory false bytes code_page = decode_narrow memory bytes code_page

-- `if (!out.empty() && out.back() == L'\0') out.pop_back()`.
unfoldable pub drop_terminator : Text → Text
drop_terminator [] = []
drop_terminator (unit ∷ []) = if unit == 0 then [] else unit ∷ []
drop_terminator (unit ∷ next ∷ units) = unit ∷ drop_terminator (next ∷ units)

module _ (windows : Windows) where
  -- What the second call leaves of its buffer stays zero.
  unfoldable pub fold_to_lower_invariant : Bool → Text → Expected TextError Text
  unfolding drop_terminator
  fold_to_lower_invariant memory value =
      let required = windows.lower_size value in
      let failed : Expected TextError Text = unexpected (last_error (windows.lower_memory value)) in
      let converted = windows.to_lower value required in
      if length value == 0
      then expected []
      else if ltb int_max (length value)
      then unexpected other_error
      else if required == 0
      then failed
      else if not memory
      then unexpected error_outofmemory
      else if length converted == 0
      then failed
      else expected (drop_terminator (converted ++ replicate (required - length converted) 0))

-- The status for a text that cannot be decoded, and for one that cannot be folded.
abbrev pub or_status : Status → Expected TextError Text → Expected Status Text
or_status status (expected text) = expected text
or_status status (unexpected error_outofmemory) = unexpected status_no_memory
or_status status (unexpected other_error) = unexpected status

abbrev pub or_invalid : Expected TextError Text → Expected Status Text
or_invalid = or_status status_invalid_parameter

abbrev pub or_unsuccessful : Expected TextError Text → Expected Status Text
or_unsuccessful = or_status status_unsuccessful

-- The largest `ULONG`, at which a length is cut off.
abbrev pub ulong_max : ℕ
ulong_max = 2 ^ 32 - 1

module _ {ℓ} {A : Type ℓ} (size : A → Option ℕ) where
  -- The loop that adds up the sizes of entries, `none` where one cannot be converted.
  unfoldable pub total_bytes : ℕ → List A → Option ℕ
  total_bytes total [] = some total
  total_bytes total (entry ∷ entries) = elim (size entry) [
    | none ↦ none
    | some bytes ↦ total_bytes (total + bytes) entries
  ]

pub data Listing : Type 0 where
  listed : ℕ → List ℕ → Listing
  overflow : Listing
  conversion_failed : Listing

module _ {ℓ} {A : Type ℓ} (size : A → Option ℕ) (bytes : A → Option (List ℕ)) (capacity : ℕ) where
  -- The loop that writes the entries one behind the other, as far as the output buffer goes.
  unfoldable pub list_entries : ℕ → List ℕ → List A → Listing
  list_entries written out [] = listed written out
  list_entries written out (entry ∷ entries) = elim (size entry) [
    | none ↦ conversion_failed
    | some required ↦ elim (ltb (capacity - written) required) [
      | true ↦ overflow
      | false ↦ elim (bytes entry) [
        | none ↦ conversion_failed
        | some text ↦ list_entries (written + required) (out ++ text) entries
      ]
    ]
  ]

-- A refusal of a message whose body has the length of a text.
abbrev pub no_text : Status → Reply
no_text status = record (reject status) { body = a_text 0 [] }

abbrev pub text_of : ℕ → List ℕ → Reply
text_of bytes out = record (answer (a_text bytes out)) { information = bytes }

-- What follows the loops.
unfoldable pub length_reply : Option ℕ → Reply
length_reply none = record (reject status_invalid_parameter) { body = a_number 0 }
length_reply (some total) = answer (a_number (min total ulong_max))

unfoldable pub listing_reply : Listing → Reply
listing_reply conversion_failed = no_text status_invalid_parameter
listing_reply overflow = no_text status_buffer_too_small
listing_reply (listed written out) = text_of (min written ulong_max) out

-- Why `release_message_buffers` fails before it writes.
pub data ReleaseError : Type 0 where
  error_invalid_data : ReleaseError

-- `release_message_buffers` for an output buffer of `capacity` bytes, zero but for the first bytes: what
-- it hands over to the driver, nothing if the status is an error. The buffer has been taken, so its data
-- pointer is not null.
unfoldable pub release_message_buffers :
    ℕ → Status → ℕ → List ℕ → Expected {0, 0} ReleaseError (List ℕ)
release_message_buffers capacity status_success information out =
    if ltb capacity information
    then unexpected error_invalid_data
    else expected (take information (out ++ replicate (capacity - length out) 0))
release_message_buffers capacity _ information out = expected []
