-- ===== src/Dispatch/AliasTests.antt =====
-- Messages on a small table of aliases, and the theorems at concrete inputs. The functions of Windows
-- are those of a code page of single bytes, with the ASCII letters in lower case.
use conhost.Prelude.{
  ℕ, ◌+◌, ◌≡◌, ◌⊎◌, refl, arith, leb, ◌&&◌, if◌then◌else◌, true, false, List, [], ◌∷◌, ◌++◌, map,
  Text, codes, length, some, equal,
}
use conhost.Prelude.Result.{expected}
use conhost.Server.{ServerState}
use conhost.Server.Connect.{construct_state}
use conhost.Dispatch.{Status, nothing, a_number, answer, reject}
use conhost.Dispatch.Strings.{Windows, units_of, no_text, text_of}
use conhost.Dispatch.Aliases.{AliasMemory, add_alias, get_alias, too_small}
use conhost.Dispatch.AliasLists.{
  listed_exe, alias_bytes, entries_of, get_aliases_length, get_aliases,
}
use conhost.Dispatch.Loops.{joined, Tallies}
use conhost.Dispatch.Listed.{get_aliases-Tallies}
use conhost.Dispatch.Asked.{in_unicode}
use conhost.Dispatch.Stored.{get_alias-add_alias}

abbrev lower : ℕ → ℕ
lower c = if leb b'A' c && leb c b'Z' then c + 32 else c

abbrev windows : Windows
windows = record {
  wide_size = λ code_page bytes. length bytes;
  to_wide = λ code_page bytes size. bytes;
  decode_memory = λ code_page bytes. false;
  narrow_size = λ code_page text. length text;
  to_narrow = λ code_page text size. text;
  lower_size = λ text. length text;
  to_lower = λ text size. map lower text;
  lower_memory = λ text. false;
}

abbrev memory : AliasMemory
memory = record {
  exe = true;
  source = true;
  target = true;
  exe_name = true;
  source_name = true;
  has_table = true;
  has_entry = true;
}

-- For `cmd.exe` the alias `LS`, which stands for `dir`.
abbrev request : List ℕ
request = 99 ∷ 0 ∷ 76 ∷ 0 ∷ 83 ∷ 0 ∷ 100 ∷ 0 ∷ 105 ∷ 0 ∷ 114 ∷ 0 ∷ []

abbrev start : ServerState
start = construct_state 437 (some 0)

added : (add_alias windows memory (in_unicode 2 4 6) request start).1 ≡ answer nothing
unfolding add_alias construct_state units_of equal
added = refl

get_alias-add_alias_example :
    get_alias windows memory
      (in_unicode 2 4 6)
      request
      7
      (add_alias windows memory (in_unicode 2 4 6) request start).0
    ≡ too_small 8
get_alias-add_alias_example =
    get_alias-add_alias windows memory 2 4 6 request 7 start (omega arith) (λ e. omega arith)
      (omega arith) added

abbrev with_alias : ServerState
with_alias = record start { aliases = (codes "c", (codes "ls", codes "dir") ∷ []) ∷ [] }

-- `ls=dir` and a terminator.
listed_alias :
    get_aliases windows memory false (codes "C") 7 with_alias
    ≡ text_of 7 (codes "ls=dir" ++ (0 ∷ []))
unfolding get_aliases construct_state equal
listed_alias = refl

get_aliases-Tallies_example :
    ((status : Status) × (get_aliases_length windows memory false (codes "C") with_alias
        ≡ record (reject status) { body = a_number 0 })
      × (get_aliases windows memory false (codes "C") 7 with_alias ≡ no_text status))
    ⊎ ((exe : Text) × (listed_exe windows memory false (codes "C") with_alias.output_code_page
          ≡ expected exe)
        × Tallies 7
            (joined
              (alias_bytes windows false with_alias.output_code_page)
              (entries_of exe with_alias.aliases))
            (get_aliases_length windows memory false (codes "C") with_alias)
            (get_aliases windows memory false (codes "C") 7 with_alias))
get_aliases-Tallies_example =
    get_aliases-Tallies windows memory false (codes "C") 7 with_alias (λ code_page text n. refl)
      (omega arith)
