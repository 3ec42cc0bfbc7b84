-- ===== src/Dispatch/Asked.antt =====
-- `AddConsoleAlias` of src/condrv/condrv_server.hpp in Unicode: how it reads what a client sends, and that
-- `GetConsoleAlias` reads the names alike.
use Prim.Native.Nat.{bit_or}
use conhost.Prelude.{
  ℕ, ◌+◌, ◌%◌, ◌≤◌, ◌≡◌, refl, ap, arith, ltb, ◌==◌, if◌then◌else◌, Bool, true, false, ◌||◌,
  Bool-cases, inl, inr, List, Text, length, length-take, length-drop, take, drop,
}
use conhost.Prelude.Result.{Expected, expected, unexpected, ◌>>=◌}
use conhost.Dispatch.{Status, status_invalid_parameter}
use conhost.Dispatch.Strings.{
  Windows, decode_console_string, fold_to_lower_invariant, or_invalid, or_unsuccessful, units_of,
}
use conhost.Dispatch.Aliases.{AliasMemory, AliasRequest, bad_alignment, added_alias, asked_alias}
use conhost.Dispatch.Bytes.{bad_alignment-even}
use conhost.Dispatch.Refusals.{
  IsRefusal, >>=-IsRefusal, or_invalid-IsRefusal, or_unsuccessful-IsRefusal, guarded-IsRefusal,
}

decode_wide :
    (windows : Windows) (memory : Bool) (bytes : List ℕ) (code_page : ℕ) (text : Text)
    → or_invalid (decode_console_string windows memory true bytes code_page) ≡ expected text
    → (text ≡ units_of bytes) × (length bytes % 2 ≡ 0)
unfolding decode_console_string
decode_wide windows true bytes code_page text e = ground arith
decode_wide windows false bytes code_page text e = ground arith

-- The steps of the two messages.
abbrev adding :
    Expected Status Text
    → Expected Status Text
    → Expected Status Text
    → (Text → Expected Status Text)
    → (Text → Expected Status Text)
    → Expected Status (Text × Text × Text)
adding exe_read source_read target_read fold_exe fold_source = do
  exe ← exe_read
  source ← source_read
  target ← target_read
  filled ← (if length source == 0 then unexpected status_invalid_parameter else expected source)
  exe_name ← fold_exe exe
  source_name ← fold_source filled
  expected (exe_name, source_name, target)

abbrev asking :
    Expected Status Text
    → Expected Status Text
    → (Text → Expected Status Text)
    → (Text → Expected Status Text)
    → Expected Status (Text × Text)
asking exe_read source_read fold_exe fold_source = do
  exe ← exe_read
  source ← source_read
  exe_name ← fold_exe exe
  source_name ← fold_source source
  expected (exe_name, source_name)

-- The end of both.
abbrev both : Expected Status Text → Expected Status Text → Expected Status (Text × Text)
both e s = do a ← e; b ← s; expected (a, b)

abbrev all_three :
    Expected Status Text → Expected Status Text → Text → Expected Status (Text × Text × Text)
all_three e s t = do a ← e; b ← s; expected (a, b, t)

all_three-both :
    (e s : Expected Status Text) (t x y z : Text)
    → all_three e s t ≡ expected (x, y, z)
    → (both e s ≡ expected (x, y)) × (t ≡ z)
all_three-both (expected e) (expected s) t x y z h = (ground arith, ground arith)
all_three-both (unexpected e) s t x y z h = absurd (cc)
all_three-both (expected e) (unexpected s) t x y z h = absurd (cc)

adding-asking :
    (e s t : Expected Status Text) (f g : Text → Expected Status Text) (x y z : Text)
    → adding e s t f g ≡ expected (x, y, z)
    → (asking e s f g ≡ expected (x, y))
      × ((a : Text) × (e ≡ expected a))
      × ((a : Text) × (s ≡ expected a))
      × (t ≡ expected z)
adding-asking (expected e) (expected s) (expected t) f g x y z h =
    elim (Bool-cases (length s == 0)) [
      | inl empty ↦ absurd (ground (arith, empty))
      | inr filled ↦
          let (asked, same) = all_three-both (f e) (g s) t x y z (rw filled at h) in
          (asked, (e, refl), (s, refl), ap expected same)
    ]
adding-asking (unexpected e) s t f g x y z h = absurd (cc)
adding-asking (expected e) (unexpected s) t f g x y z h = absurd (cc)
adding-asking (expected e) (expected s) (unexpected t) f g x y z h = absurd (cc)

adding-IsRefusal :
    (e s t : Expected Status Text) (f g : Text → Expected Status Text)
    → IsRefusal e
    → IsRefusal s
    → IsRefusal t
    → ((x : Text) → IsRefusal (f x))
    → ((x : Text) → IsRefusal (g x))
    → IsRefusal (adding e s t f g)
adding-IsRefusal e s t f g he hs ht hf hg = >>=-IsRefusal e _ he λ exe.
    >>=-IsRefusal s _ hs λ source. >>=-IsRefusal t _ ht λ target.
      >>=-IsRefusal _ _ (guarded-IsRefusal (length source == 0) (expected source) tt) λ filled.
        >>=-IsRefusal (f exe) _ (hf exe)
          λ exe_name. >>=-IsRefusal (g filled) _ (hg filled) λ source_name. tt

not_refused {ℓ} :
    {A : Type ℓ} (a b : Bool) (x : Expected Status A) (r : A)
    → (if a || b then unexpected status_invalid_parameter else x) ≡ expected r
    → (a ≡ false) × (x ≡ expected r)
not_refused true b x r h = absurd (cc)
not_refused false true x r h = absurd (cc)
not_refused false false x r h = (refl, h)

enough_there : (a b : ℕ) → ltb a b ≡ false → b ≤ a
enough_there a b h = ground arith

enough_still : (a b : ℕ) → b ≤ a → ltb a b ≡ false
enough_still a b h = ground arith

length-part : (n k : ℕ) (bytes : List ℕ) → k + n ≤ length bytes → length (take n (drop k bytes)) ≡ n
length-part n k bytes h = omega (arith, length-take n (drop k bytes), length-drop k bytes)

-- A request in Unicode.
abbrev pub in_unicode : ℕ → ℕ → ℕ → AliasRequest
in_unicode exe source target = record {
  unicode = true;
  exe_length = exe;
  source_length = source;
  target_length = target;
}

module _ (windows : Windows) (memory : AliasMemory) (e l t : ℕ) (input : List ℕ)
    (code_page : ℕ) where
  abbrev read : Bool → List ℕ → Expected Status Text
  read has_memory bytes = or_invalid (decode_console_string windows has_memory true bytes code_page)

  abbrev exe_read : Expected Status Text
  exe_read = read memory.exe (take e input)

  abbrev source_read : Expected Status Text
  source_read = read memory.source (take l (drop e input))

  abbrev target_read : Expected Status Text
  target_read = read memory.target (take t (drop (e + l) input))

  abbrev fold : Bool → Text → Expected Status Text
  fold has_memory text = or_unsuccessful (fold_to_lower_invariant windows has_memory text)

  pub added_alias-IsRefusal :
      IsRefusal (added_alias windows memory (in_unicode e l t) input code_page)
  unfolding added_alias
  added_alias-IsRefusal =
      let fold_name = fold_to_lower_invariant windows in
      guarded-IsRefusal
        (ltb (length input) (e + l + t) || bad_alignment true (bit_or (bit_or e l) t))
        (adding exe_read source_read target_read (fold memory.exe_name) (fold memory.source_name))
        (adding-IsRefusal exe_read source_read target_read (fold memory.exe_name)
          (fold memory.source_name) (or_invalid-IsRefusal _) (or_invalid-IsRefusal _)
          (or_invalid-IsRefusal _) (λ x. or_unsuccessful-IsRefusal (fold_name memory.exe_name x))
          (λ x. or_unsuccessful-IsRefusal (fold_name memory.source_name x)))

  pub asked-of_added :
      (x y z : Text)
      → added_alias windows memory (in_unicode e l t) input code_page ≡ expected (x, y, z)
      → (asked_alias windows memory (in_unicode e l t) input code_page ≡ expected (x, y))
        × (z ≡ units_of (take t (drop (e + l) input)))
        × (length (take t (drop (e + l) input)) ≡ t)
        × (t % 2 ≡ 0)
  unfolding added_alias asked_alias
  asked-of_added x y z h =
      let (enough, made) =
        not_refused (ltb (length input) (e + l + t)) (bad_alignment true (bit_or (bit_or e l) t))
          (adding exe_read source_read target_read (fold memory.exe_name) (fold memory.source_name))
          (x, y, z) h in
      let (asked, (a, read_a), (b, read_b), read_t) =
        adding-asking exe_read source_read target_read (fold memory.exe_name)
          (fold memory.source_name) x y z made in
      let (_, even_e) = decode_wide windows memory.exe (take e input) code_page a read_a in
      let (_, even_l) =
        decode_wide windows memory.source (take l (drop e input)) code_page b read_b in
      let (units, even_t) =
        decode_wide windows memory.target (take t (drop (e + l) input)) code_page z read_t in
      let held : e + l + t ≤ length input = enough_there (length input) (e + l + t) enough in
      let long_e = length-part e 0 input (omega arith) in
      let long_l = length-part l e input (omega arith) in
      let long_t = length-part t (e + l) input (omega arith) in
      let short : ltb (length input) (e + l) ≡ false =
        enough_still (length input) (e + l) (omega arith) in
      let aligned : bad_alignment true (bit_or e l) ≡ false =
        bad_alignment-even e l (omega arith) (omega arith) in
      (rw (short, aligned) asked, units, long_t, omega arith)
