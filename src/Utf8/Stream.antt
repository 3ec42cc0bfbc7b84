-- ===== src/Utf8/Stream.antt =====
-- The loop of `decode_append` (src/core/utf8_stream_decoder.hpp): what a turn consumes, and what it leaves
-- pending.
use conhost.Prelude.{
  ℕ, zero, suc, ◌-◌, ◌≤◌, ◌<◌, ◌≡◌, refl, sym, ap, ◌∙◌, arith, true, Option-cases, ◌⊎◌, inl, inr,
  Option, none, some, [], ◌∷◌, ◌++◌, length, take, drop, min, Text, length-drop, append-nil,
}
use conhost.Utf8.{
  looks_like_incomplete_utf8_sequence, max_int, replacement, try_decode, trim_loop, decode_step,
  decode_loop, decode_append,
}

module _ (convert : Text → Option Text) where
  trim_loop_consumes :
      (rest : Text) (attempt trim n : ℕ) (found : ℕ × Text)
      → trim_loop convert rest attempt trim n ≡ some found
      → (1 ≤ found.0) × (found.0 ≤ attempt)
  unfolding trim_loop
  trim_loop_consumes rest attempt trim zero found e = ground arith
  trim_loop_consumes rest attempt trim (suc n) found e =
      ground (arith, trim_loop_consumes rest attempt (suc trim) n found)

  decode_step_consumes :
      (b : ℕ) (bytes : Text) (found : ℕ × Text)
      → decode_step convert (b ∷ bytes) ≡ some found
      → (1 ≤ found.0) × (found.0 ≤ length (b ∷ bytes))
  unfolding decode_step
  decode_step_consumes b bytes found e =
      let attempt = min (length (b ∷ bytes)) max_int in
      ground (arith, trim_loop_consumes (b ∷ bytes) attempt 1 (min 3 attempt) found)

  pub take_all : (rest : Text) → take (length rest) rest ≡ rest
  take_all [] = refl
  take_all (b ∷ bytes) = ap (◌∷◌ b) (take_all bytes)

  break_tests :
      (rest : Text)
      → decode_step convert rest ≡ none
      → (min (length rest) max_int ≤ 3)
        × (looks_like_incomplete_utf8_sequence (take (min (length rest) max_int) rest) ≡ true)
  unfolding decode_step
  break_tests rest e = ground arith

  pub decode_step_breaks :
      (rest : Text)
      → decode_step convert rest ≡ none
      → (length rest ≤ 3) × (looks_like_incomplete_utf8_sequence rest ≡ true)
  decode_step_breaks rest e =
      let (short, looks) = break_tests rest e in
      let whole : min (length rest) max_int ≡ length rest = omega arith in
      (
        omega arith,
        sym (ap looks_like_incomplete_utf8_sequence (ap (λ n. take n rest) whole ∙ take_all rest))
            ∙ looks,
      )

  pub decode_loop-none :
      (fuel b : ℕ) (bytes : Text)
      → decode_step convert (b ∷ bytes) ≡ none
      → decode_loop convert (suc fuel) (b ∷ bytes) ≡ ([], b ∷ bytes)
  unfolding decode_loop
  decode_loop-none fuel b bytes e = ground arith

  decode_loop-some :
      (fuel b : ℕ) (bytes : Text) (found : ℕ × Text)
      → decode_step convert (b ∷ bytes) ≡ some found
      → decode_loop convert (suc fuel) (b ∷ bytes) ≡ (
        found.1 ++ (decode_loop convert fuel (drop (found.0) (b ∷ bytes))).0,
        (decode_loop convert fuel (drop (found.0) (b ∷ bytes))).1,
      )
  unfolding decode_loop
  decode_loop-some fuel b bytes found e = ground arith

  -- The state in which the loop may end.
  abbrev IsPending : Text → Type 0
  IsPending rest =
      (rest ≡ []) ⊎ ((length rest ≤ 3) × (looks_like_incomplete_utf8_sequence rest ≡ true))

  decode_loop-IsPending :
      (fuel : ℕ) (rest : Text) → length rest ≤ fuel → IsPending ((decode_loop convert fuel rest).1)
  unfolding decode_loop
  decode_loop-IsPending zero [] h = inl refl
  decode_loop-IsPending zero (b ∷ bytes) h = ground arith
  decode_loop-IsPending (suc fuel) [] h = inl refl
  decode_loop-IsPending (suc fuel) (b ∷ bytes) h =
      elim (Option-cases (decode_step convert (b ∷ bytes))) [
        | inl e ↦ rw (decode_loop-none fuel b bytes e) (inr (decode_step_breaks (b ∷ bytes) e))
        | inr (found, e) ↦
            let consumed = decode_step_consumes b bytes found e in
            rw (decode_loop-some fuel b bytes found e) (
              decode_loop-IsPending fuel (drop (found.0) (b ∷ bytes))
                (omega (arith, length-drop (found.0) (b ∷ bytes))))
      ]

  -- Any two amounts of fuel that reach the number of bytes give the same.
  decode_loop_enough :
      (f g : ℕ) (rest : Text)
      → length rest ≤ f
      → length rest ≤ g
      → decode_loop convert f rest ≡ decode_loop convert g rest
  unfolding decode_loop
  decode_loop_enough zero zero rest h k = refl
  decode_loop_enough zero (suc g) [] h k = refl
  decode_loop_enough (suc f) zero [] h k = refl
  decode_loop_enough (suc f) (suc g) [] h k = refl
  decode_loop_enough zero (suc g) (b ∷ bytes) h k = ground arith
  decode_loop_enough (suc f) zero (b ∷ bytes) h k = ground arith
  decode_loop_enough (suc f) (suc g) (b ∷ bytes) h k =
      elim (Option-cases (decode_step convert (b ∷ bytes))) [
        | inl e ↦ rw (decode_loop-none f b bytes e, decode_loop-none g b bytes e) refl
        | inr (found, e) ↦
            let consumed = decode_step_consumes b bytes found e in
            let rest = drop (found.0) (b ∷ bytes) in
            let shorter = length-drop (found.0) (b ∷ bytes) in
            rw
              (
                decode_loop-some f b bytes found e,
                decode_loop-some g b bytes found e,
                decode_loop_enough f g rest (omega (arith, shorter)) (omega (arith, shorter)),
              )
              refl
      ]

  -- Whatever bytes arrive, and whatever the conversion makes of them, the loop comes to its end: it
  -- leaves nothing pending, or at most three bytes that look like the start of a sequence.
  pub decode_append-IsPending :
      (pending bytes : Text)
      → ((decode_append convert pending bytes).1 ≡ [])
        ⊎ ((length ((decode_append convert pending bytes).1) ≤ 3)
            × (looks_like_incomplete_utf8_sequence ((decode_append convert pending bytes).1)
                ≡ true))
  unfolding decode_append
  decode_append-IsPending pending bytes =
      decode_loop-IsPending (length (pending ++ bytes)) (pending ++ bytes) (omega arith)

  pub first_turn :
      (b : ℕ) (bytes text : Text) (n : ℕ)
      → decode_step convert (b ∷ bytes) ≡ some (n, text)
      → 1 ≤ n
      → decode_append convert [] (b ∷ bytes) ≡ (
        text ++ (decode_append convert [] (drop n (b ∷ bytes))).0,
        (decode_append convert [] (drop n (b ∷ bytes))).1,
      )
  unfolding decode_append
  first_turn b bytes text n e h =
      let rest = drop n (b ∷ bytes) in
      rw
        (
          decode_loop-some (length bytes) b bytes (n, text) e,
          decode_loop_enough (length bytes) (length rest) rest
              (omega (arith, length-drop n (b ∷ bytes))) (omega arith),
        )
        refl

  pub try_decode_in_range :
      (rest : Text) (n : ℕ)
      → 1 ≤ n
      → n ≤ max_int
      → try_decode convert rest n ≡ convert (take n rest)
  unfolding try_decode
  try_decode_in_range rest n h k = ground arith

  step_when_valid :
      (rest text : Text) (attempt : ℕ)
      → min (length rest) max_int ≡ attempt
      → try_decode convert rest attempt ≡ some text
      → decode_step convert rest ≡ some (attempt, text)
  unfolding decode_step
  step_when_valid rest text attempt a e = ground arith

  pub drop_all : (rest : Text) → drop (length rest) rest ≡ []
  drop_all [] = refl
  drop_all (b ∷ bytes) = drop_all bytes

  decode_loop_end : (fuel : ℕ) → decode_loop convert fuel [] ≡ ([], [])
  unfolding decode_loop
  decode_loop_end zero = refl
  decode_loop_end (suc fuel) = refl

  decode_loop_valid :
      (rest text : Text)
      → 1 ≤ length rest
      → length rest ≤ max_int
      → convert rest ≡ some text
      → decode_loop convert (length rest) rest ≡ (text, [])
  decode_loop_valid [] text h k e = ground arith
  decode_loop_valid (b ∷ bytes) text h k e =
      let step : decode_step convert (b ∷ bytes) ≡ some (suc (length bytes), text) =
        step_when_valid (b ∷ bytes) text (suc (length bytes)) (omega arith) (
          try_decode_in_range (b ∷ bytes) (suc (length bytes)) h k
          ∙ ap convert (take_all (b ∷ bytes))
          ∙ e) in
      rw
        (
          decode_loop-some (length bytes) b bytes (suc (length bytes), text) step,
          drop_all bytes,
          decode_loop_end (length bytes),
          append-nil text,
        )
        refl

  -- Bytes that the conversion takes are decoded whole.
  pub decode_append_valid :
      (pending bytes text : Text)
      → 1 ≤ length (pending ++ bytes)
      → length (pending ++ bytes) ≤ max_int
      → convert (pending ++ bytes) ≡ some text
      → decode_append convert pending bytes ≡ (text, [])
  unfolding decode_append
  decode_append_valid pending bytes text h k e = decode_loop_valid (pending ++ bytes) text h k e

  try_decode-none :
      (b n : ℕ) (bytes : Text)
      → 1 ≤ n
      → convert (b ∷ take (n - 1) bytes) ≡ none
      → try_decode convert (b ∷ bytes) n ≡ none
  unfolding try_decode
  try_decode-none b zero bytes h e = ground arith
  try_decode-none b (suc m) bytes h e =
      let same : suc m - 1 ≡ m = omega arith in
      ground (arith, sym (ap (λ k. convert (b ∷ take k bytes)) same) ∙ e)

  trim_loop_fails :
      (rest : Text) (attempt : ℕ)
      → try_decode convert rest (attempt - 1) ≡ none
      → try_decode convert rest (attempt - 2) ≡ none
      → try_decode convert rest (attempt - 3) ≡ none
      → trim_loop convert rest attempt 1 3 ≡ none
  unfolding trim_loop
  trim_loop_fails rest attempt e1 e2 e3 = ground (arith, e1, e2, e3)

  step_when_refused :
      (rest : Text) (attempt n : ℕ)
      → min (length rest) max_int ≡ attempt
      → min 3 attempt ≡ n
      → 3 < attempt
      → try_decode convert rest attempt ≡ none
      → trim_loop convert rest attempt 1 n ≡ none
      → decode_step convert rest ≡ some (1, replacement ∷ [])
  unfolding decode_step
  step_when_refused rest attempt n a m h e t = ground arith

  -- Where the whole and the three prefixes are refused, the first byte is dropped for U+FFFD.
  pub decode_append_replaces :
      (b : ℕ) (bytes : Text)
      → 3 ≤ length bytes
      → suc (length bytes) ≤ max_int
      → convert (b ∷ bytes) ≡ none
      → convert (b ∷ take (length bytes - 1) bytes) ≡ none
      → convert (b ∷ take (length bytes - 2) bytes) ≡ none
      → convert (b ∷ take (length bytes - 3) bytes) ≡ none
      → decode_append convert [] (b ∷ bytes)
        ≡ (replacement ∷ (decode_append convert [] bytes).0, (decode_append convert [] bytes).1)
  decode_append_replaces b bytes h k e0 e1 e2 e3 =
      let n = suc (length bytes) in
      let whole : n - 1 ≡ length bytes = omega arith in
      let one : n - 1 - 1 ≡ length bytes - 1 = omega arith in
      let two : n - 2 - 1 ≡ length bytes - 2 = omega arith in
      let three : n - 3 - 1 ≡ length bytes - 3 = omega arith in
      let prefix : ℕ → Option Text = λ k. convert (b ∷ take k bytes) in
      let all : prefix (n - 1) ≡ none =
        ap prefix whole ∙ ap (λ rest. convert (b ∷ rest)) (take_all bytes) ∙ e0 in
      first_turn b bytes (replacement ∷ []) 1
        (step_when_refused (b ∷ bytes) n 3 (omega arith) (omega arith) (omega arith)
          (try_decode-none b n bytes (omega arith) all)
          (trim_loop_fails (b ∷ bytes) n
            (try_decode-none b (n - 1) bytes (omega arith) (ap prefix one ∙ e1))
            (try_decode-none b (n - 2) bytes (omega arith) (ap prefix two ∙ e2))
            (try_decode-none b (n - 3) bytes (omega arith) (ap prefix three ∙ e3))))
        (omega arith)
