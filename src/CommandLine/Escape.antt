-- ===== src/CommandLine/Escape.antt =====
-- What the rules of CommandLineToArgvW read back of an argument that `escape_argument`
-- (src/cli/console_arguments.cpp) wrote.
use conhost.Prelude.{
  ℕ, zero, suc, ◌+◌, ◌==◌, ◌≡◌, refl, sym, ap, ◌∙◌, arith, Bool, true, false, not, ◌&&◌, List, [],
  ◌∷◌, ◌++◌, replicate, Text, Bool-cases, inl, inr, append-nil,
}
use conhost.CommandLine.{added_size, is_space, has_space, escape_loop, escape_argument}

-- The documented rules: `argument q n text` is what is read of the rest of an argument, inside quotes or
-- not, behind `n` backslashes. Backslashes count only in front of a quote, where two stand for one, and
-- an odd one makes the quote a character; a space ends an argument only outside quotes.
pub record IsReader (argument : Bool → ℕ → Text → Text) : Type 0 where
  pub ends : (q : Bool) (n : ℕ) → argument q n [] ≡ replicate n 92
  pub slash : (q : Bool) (n : ℕ) (text : Text) → argument q n (92 ∷ text) ≡ argument q (suc n) text
  pub even_quote :
      (q : Bool) (n : ℕ) (text : Text)
      → argument q (n + n) (b'"' ∷ text) ≡ replicate n 92 ++ argument (not q) 0 text
  pub odd_quote :
      (q : Bool) (n : ℕ) (text : Text)
      → argument q (suc (n + n)) (b'"' ∷ text) ≡ replicate n 92 ++ b'"' ∷ argument q 0 text
  pub other :
      (q : Bool) (n ch : ℕ) (text : Text)
      → (ch == 92) ≡ false
      → (ch == b'"') ≡ false
      → (not q && is_space ch) ≡ false
      → argument q n (ch ∷ text) ≡ replicate n 92 ++ ch ∷ argument q 0 text

replicate-snoc {ℓ} :
    {A : Type ℓ} (n : ℕ) (a : A) (xs : List A) → replicate n a ++ a ∷ xs ≡ a ∷ replicate n a ++ xs
replicate-snoc zero a xs = refl
replicate-snoc (suc n) a xs = ap (◌∷◌ a) (replicate-snoc n a xs)

-- The loop, by what the character is.
slash_step :
    (q : Bool) (n ch : ℕ) (text : Text)
    → (ch == 92) ≡ true
    → escape_loop q n (ch ∷ text) ≡ 92 ∷ escape_loop q (suc n) text
unfolding escape_loop
slash_step q n ch text t = simp t refl

quote_step :
    (q : Bool) (n ch : ℕ) (text : Text)
    → (ch == 92) ≡ false
    → (ch == b'"') ≡ true
    → escape_loop q n (ch ∷ text) ≡ replicate n 92 ++ 92 ∷ b'"' ∷ escape_loop q 0 text
unfolding escape_loop
quote_step q n ch text t e = simp (t, e) refl

other_step :
    (q : Bool) (n ch : ℕ) (text : Text)
    → (ch == 92) ≡ false
    → (ch == b'"') ≡ false
    → escape_loop q n (ch ∷ text) ≡ ch ∷ escape_loop q 0 text
unfolding escape_loop
other_step q n ch text t e = simp (t, e) refl

same_code : (a b : ℕ) → (a == b) ≡ true → b ≡ a
same_code a b h = ground arith

no_space :
    (q : Bool) (ch : ℕ) (text : Text)
    → (not q && has_space (ch ∷ text)) ≡ false
    → ((not q && is_space ch) ≡ false) × ((not q && has_space text) ≡ false)
unfolding has_space
no_space true ch text h = (refl, refl)
no_space false ch text h = ground arith

-- Without a backslash or a quote the loop copies.
escape_loop-plain : (n : ℕ) (text : Text) → added_size text ≡ 0 → escape_loop false n text ≡ text
unfolding escape_loop added_size
escape_loop-plain n [] h = refl
escape_loop-plain n (ch ∷ text) h =
    ground (arith, escape_loop-plain 0 text, escape_loop-plain (suc n) text)

-- What `escape_argument` writes, with spaces and without.
escape_argument-quoted :
    (ch : ℕ) (text : Text)
    → has_space (ch ∷ text) ≡ true
    → escape_argument (ch ∷ text) ≡ b'"' ∷ escape_loop true 0 (ch ∷ text)
unfolding escape_argument
escape_argument-quoted ch text t = ground arith

escape_argument-plain :
    (ch : ℕ) (text : Text)
    → has_space (ch ∷ text) ≡ false
    → escape_argument (ch ∷ text) ≡ escape_loop false 0 (ch ∷ text)
unfolding escape_argument
escape_argument-plain ch text f = ground (arith, escape_loop-plain 0 (ch ∷ text))

module _ (argument : Bool → ℕ → Text → Text) (rules : IsReader argument) where
  slashes :
      (q : Bool) (k n : ℕ) (text : Text)
      → argument q n (replicate k 92 ++ text) ≡ argument q (k + n) text
  slashes q zero n text = ap (λ (m : ℕ). argument q m text) (omega arith)
  slashes q (suc k) n text =
      rules.slash q n (replicate k 92 ++ text)
      ∙ slashes q k (suc n) text
      ∙ ap (λ (m : ℕ). argument q m text) (omega arith)

  -- An escaped quote behind the backslashes that were written twice.
  escaped_quote :
      (q : Bool) (n : ℕ) (text : Text)
      → argument q n (replicate n 92 ++ 92 ∷ b'"' ∷ text)
        ≡ replicate n 92 ++ b'"' ∷ argument q 0 text
  escaped_quote q n text =
      slashes q n n (92 ∷ b'"' ∷ text)
      ∙ rules.slash q (n + n) (b'"' ∷ text)
      ∙ rules.odd_quote q n text

  closing_quote : (n : ℕ) → argument true n (replicate n 92 ++ b'"' ∷ []) ≡ replicate n 92 ++ []
  closing_quote n =
      slashes true n n (b'"' ∷ [])
      ∙ rules.even_quote true n []
      ∙ ap (λ (rest : Text). replicate n 92 ++ rest) (rules.ends false 0)

  -- What is read back where the rest of the text is.
  slash-read :
      (q : Bool) (n : ℕ) (text escaped : Text)
      → argument q (suc n) escaped ≡ replicate (suc n) 92 ++ text
      → argument q n (92 ∷ escaped) ≡ replicate n 92 ++ 92 ∷ text
  slash-read q n text escaped ih = rules.slash q n escaped ∙ ih ∙ sym (replicate-snoc n 92 text)

  -- The loop, where the text has a space only inside quotes.
  argument-escape_loop :
      (q : Bool) (text : Text) (n : ℕ)
      → (not q && has_space text) ≡ false
      → argument q n (escape_loop q n text) ≡ replicate n 92 ++ text
  unfolding escape_loop
  argument-escape_loop true [] n h = closing_quote n
  argument-escape_loop false [] n h = rules.ends false n ∙ sym (append-nil (replicate n 92))
  argument-escape_loop q (ch ∷ text) n h =
      let (plain, rest) = no_space q ch text h in
      elim (Bool-cases (ch == 92)) [
        | inl t ↦
            ap (argument q n) (slash_step q n ch text t)
            ∙ slash-read q n text (escape_loop q (suc n) text)
                (argument-escape_loop q text (suc n) rest)
            ∙ ap (λ (c : ℕ). replicate n 92 ++ c ∷ text) (same_code ch 92 t)
        | inr f ↦ elim (Bool-cases (ch == b'"')) [
          | inl t ↦
              ap (argument q n) (quote_step q n ch text f t)
              ∙ escaped_quote q n (escape_loop q 0 text)
              ∙ ap (λ (read : Text). replicate n 92 ++ b'"' ∷ read)
                  (argument-escape_loop q text 0 rest)
              ∙ ap (λ (c : ℕ). replicate n 92 ++ c ∷ text) (same_code ch b'"' t)
          | inr g ↦
              ap (argument q n) (other_step q n ch text f g)
              ∙ rules.other q n ch (escape_loop q 0 text) f g plain
              ∙ ap (λ (read : Text). replicate n 92 ++ ch ∷ read)
                  (argument-escape_loop q text 0 rest)
        ]
      ]

  quoted_argument : (text : Text) → argument false 0 (b'"' ∷ escape_loop true 0 text) ≡ text
  quoted_argument text =
      rules.even_quote false 0 (escape_loop true 0 text) ∙ argument-escape_loop true text 0 refl

  -- What `escape_argument` writes of an argument, the rules read back as that argument, whatever
  -- characters it has: also where backslashes stand in front of a quote or at its end, and where it is
  -- empty or has spaces. The rules are those that CommandLineToArgvW documents.
  pub argument-escape_argument : (arg : Text) → argument false 0 (escape_argument arg) ≡ arg
  unfolding escape_argument
  argument-escape_argument [] =
      rules.even_quote false 0 (b'"' ∷ []) ∙ rules.even_quote true 0 [] ∙ rules.ends false 0
  argument-escape_argument (ch ∷ text) = elim (Bool-cases (has_space (ch ∷ text))) [
    | inl t ↦ ap (argument false 0) (escape_argument-quoted ch text t) ∙ quoted_argument (ch ∷ text)
    | inr f ↦
        ap (argument false 0) (escape_argument-plain ch text f)
        ∙ argument-escape_loop false (ch ∷ text) 0 f
  ]
