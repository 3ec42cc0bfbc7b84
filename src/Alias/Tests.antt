-- ===== src/Alias/Tests.antt =====
-- Runs of the alias tables, and the theorem at a concrete input.
use conhost.Prelude.{◌≡◌, refl, true, false, some, [], ◌∷◌, Text, codes, equal}
use conhost.Prelude.Result.{expected, unexpected}
use conhost.Alias.{
  Aliases, set_alias, erase_alias, try_get_alias, error_invalid_parameter, error_outofmemory,
}
use conhost.Alias.Lookup.{try_get_alias-set_alias}

abbrev cmd : Text
cmd = codes "cmd.exe"

abbrev ls : Text
ls = codes "ls"

abbrev dir : Text
dir = codes "dir"

abbrev aliases : Aliases
aliases = (cmd, (ls, dir) ∷ []) ∷ []

stored :
    (set_alias true true cmd ls dir [] ≡ (aliases, expected tt))
    × (set_alias true true cmd ls [] aliases ≡ ([], expected tt))
    × (set_alias true true cmd [] dir aliases ≡ (aliases, unexpected error_invalid_parameter))
unfolding set_alias erase_alias equal
stored = (refl, refl, refl)

-- A table that was made before the memory for its entry ran out stays, empty.
empty_table : set_alias true false cmd ls dir [] ≡ ((cmd, []) ∷ [], unexpected error_outofmemory)
unfolding set_alias equal
empty_table = refl

try_get_alias-set_alias_example :
    try_get_alias cmd ls ((set_alias true true cmd ls dir []).0) ≡ some dir
unfolding equal
try_get_alias-set_alias_example = try_get_alias-set_alias cmd ls dir cmd ls [] (λ e. cc)
