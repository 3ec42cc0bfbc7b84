-- ===== src/Alias/Lookup.antt =====
-- What `try_get_alias` answers behind `set_alias` (src/condrv/condrv_server.cpp).
use conhost.Prelude.{
  ◌≡◌, ◌≢◌, refl, sym, ap, ◌∙◌, arith, ◌==◌, if◌then◌else◌, true, false, ◌&&◌, Bool-cases,
  Option-cases, inl, inr, Option, none, some, List, [], ◌∷◌, length, Text, equal, equal_iff,
}
use conhost.Alias.{
  find, erase, insert_or_assign, AliasTable, Aliases, table_of, erase_alias, set_alias,
  try_get_alias,
}

equal_apart : (s t : Text) → s ≢ t → equal s t ≡ false
equal_apart s t n = ground (arith, equal_iff s t)

module _ {ℓ} {A : Type ℓ} where
  find-erase_same : (key : Text) (entries : List (Text × A)) → find key (erase key entries) ≡ none
  find-erase_same key [] = refl
  find-erase_same key (entry ∷ entries) = elim (Bool-cases (equal (entry.0) key)) [
    | inl e ↦ rw e (find-erase_same key entries)
    | inr e ↦ rw e (rw e (find-erase_same key entries))
  ]

  find-erase_other :
      (key other : Text) (entries : List (Text × A))
      → key ≢ other
      → find other (erase key entries) ≡ find other entries
  find-erase_other key other [] n = refl
  find-erase_other key other (entry ∷ entries) n = elim (Bool-cases (equal (entry.0) key)) [
    | inl e ↦
        rw (e, equal_apart (entry.0) other (λ same. n (sym ((equal_iff (entry.0) key).0 e) ∙ same)))
          (find-erase_other key other entries n)
    | inr e ↦ rw (e, find-erase_other key other entries n) refl
  ]

  find-erase :
      (key other : Text) (entries : List (Text × A))
      → find other (erase key entries) ≡ (if equal key other then none else find other entries)
  find-erase key other entries = elim (Bool-cases (equal key other)) [
    | inl e ↦ rw e (
        ap (λ k. find k (erase key entries)) (sym ((equal_iff key other).0 e))
        ∙ find-erase_same key entries)
    | inr e ↦ rw e (find-erase_other key other entries (λ same. apart e same))
  ]
    where
      apart : equal key other ≡ false → key ≢ other
      apart e same = ground (arith, (equal_iff key other).1 same)

find_nothing :
    (key : Text) (table : AliasTable) → (length table == 0) ≡ true → find key table ≡ none
find_nothing key [] e = refl
find_nothing key (entry ∷ table) e = ground arith

length_positive : (s : Text) → s ≢ [] → (length s == 0) ≡ false
length_positive [] n = ground arith
length_positive (c ∷ s) n = ground arith

-- What the table of a name, if it has one, answers for a source.
abbrev answer : Option Text → Option Text
answer none = none
answer (some target) = if length target == 0 then none else some target

abbrev in_table : Text → Option AliasTable → Option Text
in_table source none = none
in_table source (some table) = answer (find source table)

-- What a lookup answers behind an assignment, and behind an erasure.
expected_answer : Text → Text → Text → Text → Text → Aliases → Option Text
expected_answer exe source target exe' source' aliases =
    if equal exe exe' && equal source source'
    then (if length target == 0 then none else some target)
    else try_get_alias exe' source' aliases

assigned_answer :
    (exe source target exe' source' : Text) (aliases : Aliases)
    → try_get_alias exe' source'
        (insert_or_assign exe (insert_or_assign source target (table_of exe aliases)) aliases)
      ≡ expected_answer exe source target exe' source' aliases
unfolding try_get_alias expected_answer
assigned_answer exe source target exe' source' aliases =
    let same : equal exe exe' ≡ true → find exe aliases ≡ find exe' aliases =
      λ e. ap (λ k. find k aliases) ((equal_iff exe exe').0 e) in
    elim (Option-cases (find exe aliases)) [
      | inl e ↦ ground (arith, e, same, find-erase exe exe' aliases)
      | inr (table, e) ↦
          ground (arith, e, same, find-erase exe exe' aliases, find-erase source source' table)
    ]

erased_answer :
    (exe source exe' source' : Text) (aliases : Aliases)
    → try_get_alias exe' source' (erase_alias exe source aliases)
      ≡ expected_answer exe source [] exe' source' aliases
unfolding try_get_alias erase_alias expected_answer
erased_answer exe source exe' source' aliases =
    let same : equal exe exe' ≡ true → find exe aliases ≡ find exe' aliases =
      λ e. ap (λ k. find k aliases) ((equal_iff exe exe').0 e) in
    elim (Option-cases (find exe aliases)) [
      | inl e ↦ ground (arith, e, same)
      | inr (table, e) ↦
          let alike : equal source source' ≡ true → find source table ≡ find source' table =
            λ d. ap (λ k. find k table) ((equal_iff source source').0 d) in
          elim (Option-cases (find source table)) [
            | inl d ↦ ground (arith, e, d, same, alike)
            | inr (old, d) ↦ elim (Bool-cases (length (erase source table) == 0)) [
              | inl z ↦ ground (
                arith,
                e,
                same,
                find-erase exe exe' aliases,
                find-erase source source' table,
                find_nothing source' (erase source table),
              )
              | inr z ↦
                  ground
                    (arith, e, same, find-erase exe exe' aliases, find-erase source source' table)
            ]
          ]
    ]

-- Behind `set_alias` with memory and a source that is not empty, the source answers its target for the
-- executable, or nothing if the target is empty; every other source, and every other executable,
-- answers what it answered before.
pub try_get_alias-set_alias :
    (exe source target exe' source' : Text) (aliases : Aliases)
    → source ≢ []
    → try_get_alias exe' source' ((set_alias true true exe source target aliases).0) ≡ (
        if equal exe exe' && equal source source'
        then (if length target == 0 then none else some target)
        else try_get_alias exe' source' aliases)
unfolding set_alias expected_answer
try_get_alias-set_alias exe source target exe' source' aliases n =
    let some_source : (length source == 0) ≡ false = length_positive source n in
    elim (Bool-cases (length target == 0)) [
      | inl z ↦ rw (some_source, z) (erased_answer exe source exe' source' aliases)
      | inr z ↦
          rw (some_source, z) (assigned_answer exe source target exe' source' aliases ∙ rw z refl)
    ]
