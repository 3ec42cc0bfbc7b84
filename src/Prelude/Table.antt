-- ===== src/Prelude/Table.antt =====
-- `std::unordered_map` with numbers as keys: an association list, of which a search reads the first
-- entry with the key, and which holds no key twice.
use conhost.Prelude.{
  ℕ, ◌≡◌, ◌≢◌, refl, sym, Bool-cases, ==_iff, ◌∙◌, subst, ◌⊎◌, inl, inr, arith, ◌==◌, if◌then◌else◌,
  Bool, true, false, List, [], ◌∷◌, Option, none, some,
}

differ : (a b : ℕ) → (a == b) ≡ false → a ≢ b
differ a b e = ground arith

module _ {ℓ} {A : Type ℓ} where
  unfoldable pub find : ℕ → List (ℕ × A) → Option A
  find key [] = none
  find key (entry ∷ entries) = if entry.0 == key then some (entry.1) else find key entries

  unfoldable pub erase : ℕ → List (ℕ × A) → List (ℕ × A)
  erase key [] = []
  erase key (entry ∷ entries) =
      let rest = erase key entries in if entry.0 == key then rest else entry ∷ rest

  -- A change of the value through a pointer to it.
  unfoldable pub update : ℕ → (A → A) → List (ℕ × A) → List (ℕ × A)
  update key f [] = []
  update key f (entry ∷ entries) =
      let rest = update key f entries in
      if entry.0 == key then (entry.0, f (entry.1)) ∷ rest else entry ∷ rest

  -- The loop that erases every entry whose value passes a test.
  unfoldable pub erase_if : (A → Bool) → List (ℕ × A) → List (ℕ × A)
  erase_if test [] = []
  erase_if test (entry ∷ entries) =
      let rest = erase_if test entries in if test (entry.1) then rest else entry ∷ rest

  unfoldable pub contains : ℕ → List (ℕ × A) → Bool
  unfolding find
  contains key entries = elim (find key entries) [ none ↦ false | some value ↦ true ]

  -- No key occurs twice.
  abbrev pub IsDistinct : List (ℕ × A) → Type 0
  IsDistinct [] = Unit
  IsDistinct (entry ∷ entries) = (contains (entry.0) entries ≡ false) × IsDistinct entries

  pub find-cons :
      (key : ℕ) (k : ℕ) (v : A) (t : List (ℕ × A))
      → find key ((k, v) ∷ t) ≡ (if k == key then some v else find key t)
  unfolding find
  find-cons key k v t = refl

  pub contains-cons :
      (key : ℕ) (k : ℕ) (v : A) (t : List (ℕ × A))
      → contains key ((k, v) ∷ t) ≡ (if k == key then true else contains key t)
  unfolding contains
  contains-cons key k v t = ground arith

  pub contains-cons_same : (key : ℕ) (v : A) (t : List (ℕ × A)) → contains key ((key, v) ∷ t) ≡ true
  unfolding contains find
  contains-cons_same key v t = ground arith

  pub contains-missing : (key : ℕ) (t : List (ℕ × A)) → contains key t ≡ false → find key t ≡ none
  unfolding contains
  contains-missing key t e = ground arith

  pub find-erase_same : (key : ℕ) (t : List (ℕ × A)) → find key (erase key t) ≡ none
  unfolding find erase
  find-erase_same key [] = refl
  find-erase_same key (entry ∷ t) = ground (arith, find-erase_same key t)

  pub find-erase_other :
      (key other : ℕ) (t : List (ℕ × A)) → other ≢ key → find other (erase key t) ≡ find other t
  unfolding find erase
  find-erase_other key other [] ne = refl
  find-erase_other key other (entry ∷ t) ne = ground (arith, find-erase_other key other t ne)

  pub erase-missing : (key : ℕ) (t : List (ℕ × A)) → contains key t ≡ false → erase key t ≡ t
  unfolding contains find erase
  erase-missing key [] e = refl
  erase-missing key (entry ∷ t) e = ground (arith, erase-missing key t)

  pub contains-erase_other :
      (key other : ℕ) (t : List (ℕ × A))
      → other ≢ key
      → contains other (erase key t) ≡ contains other t
  unfolding contains
  contains-erase_other key other t ne = rw (contains, find-erase_other key other t ne) refl

  pub contains-erase_same : (key : ℕ) (t : List (ℕ × A)) → contains key (erase key t) ≡ false
  unfolding contains
  contains-erase_same key t = rw (contains, find-erase_same key t) refl

  pub find-erase :
      (key other : ℕ) (t : List (ℕ × A))
      → find other (erase key t) ≡ (if key == other then none else find other t)
  unfolding find erase
  find-erase key other [] = ground arith
  find-erase key other (entry ∷ t) = ground (arith, find-erase key other t)

  pub contains-erase :
      (key other : ℕ) (t : List (ℕ × A))
      → contains other (erase key t) ≡ (if key == other then false else contains other t)
  unfolding contains
  contains-erase key other t = ground (arith, find-erase key other t)

  contains-erase_missing :
      (key other : ℕ) (t : List (ℕ × A))
      → contains other t ≡ false
      → contains other (erase key t) ≡ false
  unfolding contains find erase
  contains-erase_missing key other [] e = refl
  contains-erase_missing key other (entry ∷ t) e =
      ground (arith, contains-erase_missing key other t)

  pub erase-IsDistinct : (key : ℕ) (t : List (ℕ × A)) → IsDistinct t → IsDistinct (erase key t)
  unfolding erase
  erase-IsDistinct key [] d = tt
  erase-IsDistinct key (entry ∷ t) d =
      ground (arith, erase-IsDistinct key t (d.1), contains-erase_missing key (entry.0) t (d.0))

  contains-erase_if :
      (test : A → Bool) (other : ℕ) (t : List (ℕ × A))
      → contains other t ≡ false
      → contains other (erase_if test t) ≡ false
  unfolding contains find erase_if
  contains-erase_if test other [] e = refl
  contains-erase_if test other (entry ∷ t) e = ground (arith, contains-erase_if test other t)

  pub erase_if-IsDistinct :
      (test : A → Bool) (t : List (ℕ × A)) → IsDistinct t → IsDistinct (erase_if test t)
  unfolding erase_if
  erase_if-IsDistinct test [] d = tt
  erase_if-IsDistinct test (entry ∷ t) d =
      ground (arith, erase_if-IsDistinct test t (d.1), contains-erase_if test (entry.0) t (d.0))

  -- A value that passes the test counts as none.
  abbrev pub unless : (A → Bool) → Option A → Option A
  unless test none = none
  unless test (some v) = if test v then none else some v

  pub find-erase_if :
      (test : A → Bool) (key : ℕ) (t : List (ℕ × A))
      → IsDistinct t
      → find key (erase_if test t) ≡ unless test (find key t)
  unfolding find erase_if
  find-erase_if test key [] d = refl
  find-erase_if test key (entry ∷ t) d =
      ground (arith, find-erase_if test key t (d.1), contains-missing (entry.0) t (d.0))

  pub update-missing :
      (key : ℕ) (f : A → A) (t : List (ℕ × A)) → contains key t ≡ false → update key f t ≡ t
  unfolding contains find update
  update-missing key f [] e = refl
  update-missing key f (entry ∷ t) e = ground (arith, update-missing key f t)

  pub update-cons_same :
      (key : ℕ) (f : A → A) (v : A) (t : List (ℕ × A))
      → contains key t ≡ false
      → update key f ((key, v) ∷ t) ≡ (key, f v) ∷ t
  unfolding update
  update-cons_same key f v t e = ground (arith, update-missing key f t e)

  pub erase-cons_same :
      (key : ℕ) (v : A) (t : List (ℕ × A)) → contains key t ≡ false → erase key ((key, v) ∷ t) ≡ t
  unfolding erase
  erase-cons_same key v t e = ground (arith, erase-missing key t e)

  find-cons_cases :
      (key k : ℕ) (v found : A) (t : List (ℕ × A))
      → find key ((k, v) ∷ t) ≡ some found
      → ((k ≡ key) × (v ≡ found)) ⊎ (find key t ≡ some found)
  find-cons_cases key k v found t e = ground (arith, find-cons key k v t)

  unless_cases :
      (test : A → Bool) (o : Option A) (found : A)
      → unless test o ≡ some found
      → (o ≡ some found) × (test found ≡ false)
  unless_cases test none found e = cc
  unless_cases test (some v) found e = ground arith

  found_behind_erase :
      (k key : ℕ) (t : List (ℕ × A)) (found : A)
      → find key (erase k t) ≡ some found
      → find key t ≡ some found
  found_behind_erase k key t found e = elim (Bool-cases (key == k)) [
    | inl same ↦ let is = (==_iff key k).0 same in let gone = find-erase_same k t in cc
    | inr other ↦ sym (find-erase_other k key t (λ is. differ key k other is)) ∙ e
  ]

  module _ {κ} where
    -- A property of every entry that a search can find.
    abbrev pub Every : (ℕ → A → Type κ) → List (ℕ × A) → Type (ℓ ⊔ κ)
    Every P t = (key : ℕ) (v : A) → find key t ≡ some v → P key v

    pub cons-Every :
        (P : ℕ → A → Type κ) (k : ℕ) (v : A) (t : List (ℕ × A))
        → P k v
        → Every P t
        → Every P ((k, v) ∷ t)
    cons-Every P k v t p ps key found e = elim (find-cons_cases key k v found t e) [
      | inl (same, is) ↦ subst (λ (j : ℕ). P j found) same (subst (λ (w : A). P k w) is p)
      | inr there ↦ ps key found there
    ]

    pub erase-Every :
        (P : ℕ → A → Type κ) (k : ℕ) (t : List (ℕ × A)) → Every P t → Every P (erase k t)
    erase-Every P k t ps key found e = ps key found (found_behind_erase k key t found e)

    -- What is left after `erase_if` fails its test.
    pub erase_if-Every :
        (P Q : ℕ → A → Type κ) (test : A → Bool) (t : List (ℕ × A))
        → IsDistinct t
        → ((key : ℕ) (v : A) → test v ≡ false → P key v → Q key v)
        → Every P t
        → Every Q (erase_if test t)
    erase_if-Every P Q test t d implies ps key found e =
        let (there, kept) =
          unless_cases test (find key t) found (sym (find-erase_if test key t d) ∙ e) in
        implies key found kept (ps key found there)
