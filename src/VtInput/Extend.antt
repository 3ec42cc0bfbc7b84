-- ===== src/VtInput/Extend.antt =====
-- The decoder on a growing input: what it produces it takes from the head, and once it has decided
-- it does not change its mind when more bytes arrive.
use conhost.Prelude.{
  ℕ, ◌+◌, ◌≤◌, ◌<◌, ◌≡◌, ◌≢◌, refl, sym, ap, ◌∙◌, arith, [], ◌∷◌, ◌++◌, Text, length, ◌⊎◌, inl, inr,
}
use conhost.VtInput.Scan.{scan_params-pos, scan_params-append}
use conhost.VtInput.{
  ParamScan, scan_params, first_scan, finish_params, da1_loop, csi_body, decode_csi, decode_ss3,
  try_decode_vt, Outcome, DecodeResult, produced, need_more_data, no_match, DecodedToken, no_token,
  text_units, esc_byte,
}

-- A produced token takes at least one byte and at most `n`, and is no text.
abbrev pub TakesAtMost : ℕ → Outcome → Type 0
TakesAtMost n o =
    o.0 ≡ produced → (0 < o.1.bytes_consumed) × (o.1.bytes_consumed ≤ n) × (o.1.kind ≢ text_units)

da1_loop-TakesAtMost :
    (pos : ℕ) (bytes : Text) (out : DecodedToken)
    → TakesAtMost (pos + length bytes) (da1_loop pos bytes out)
unfolding da1_loop
da1_loop-TakesAtMost pos [] out e = cc
da1_loop-TakesAtMost pos (ch ∷ bytes) out e =
    ground (arith, da1_loop-TakesAtMost (pos + 1) bytes out)

finish_params-TakesAtMost :
    (s : ParamScan) (rest : Text) (out : DecodedToken)
    → TakesAtMost (s.pos + length rest) (finish_params (s, rest) out)
unfolding finish_params
finish_params-TakesAtMost s [] out e = cc
finish_params-TakesAtMost s (t ∷ rest) out e = ground arith

csi_body-TakesAtMost :
    (n : ℕ) (bytes : Text) (out : DecodedToken)
    → TakesAtMost (n + length bytes) (csi_body n bytes out)
unfolding csi_body
csi_body-TakesAtMost n [] out e = cc
csi_body-TakesAtMost n (first ∷ bytes) out e =
    let scan = scan_params (first_scan n) (first ∷ bytes) in
    ground (
      arith,
      da1_loop-TakesAtMost (n + 1) bytes out,
      finish_params-TakesAtMost scan.0 scan.1 out,
      scan_params-pos (first_scan n) (first ∷ bytes),
    )

decode_csi-TakesAtMost :
    (bytes : Text) (out : DecodedToken) → TakesAtMost (length bytes) (decode_csi bytes out)
unfolding decode_csi
decode_csi-TakesAtMost [] out e = cc
decode_csi-TakesAtMost (a ∷ []) out e = ground (arith, csi_body-TakesAtMost 1 [] out)
decode_csi-TakesAtMost (a ∷ b ∷ bytes) out e =
    ground (arith, csi_body-TakesAtMost 1 (b ∷ bytes) out, csi_body-TakesAtMost 2 bytes out)

-- What `try_decode_vt` produces takes at least one byte and no more than there are, and is a key
-- event or an ignored sequence, never text.
pub try_decode_vt-TakesAtMost : (bytes : Text) → TakesAtMost (length bytes) (try_decode_vt bytes)
unfolding try_decode_vt decode_ss3
try_decode_vt-TakesAtMost [] e = cc
try_decode_vt-TakesAtMost (a ∷ []) e = ground (arith, decode_csi-TakesAtMost (a ∷ []) no_token)
try_decode_vt-TakesAtMost (a ∷ b ∷ []) e =
    ground (arith, decode_csi-TakesAtMost (a ∷ b ∷ []) no_token)
try_decode_vt-TakesAtMost (a ∷ b ∷ c ∷ bytes) e =
    ground (arith, decode_csi-TakesAtMost (a ∷ b ∷ c ∷ bytes) no_token)

da1_loop-append :
    (pos : ℕ) (bytes more : Text) (out : DecodedToken)
    → (da1_loop pos bytes out).0 ≢ need_more_data
    → da1_loop pos (bytes ++ more) out ≡ da1_loop pos bytes out
unfolding da1_loop
da1_loop-append pos [] more out h = absurd (h refl)
da1_loop-append pos (ch ∷ bytes) more out h =
    ground (arith, da1_loop-append (pos + 1) bytes more out)

finish_params-append :
    (s : ParamScan) (rest more : Text) (out : DecodedToken)
    → (finish_params (s, rest) out).0 ≢ need_more_data
    → finish_params (s, rest ++ more) out ≡ finish_params (s, rest) out
unfolding finish_params
finish_params-append s [] more out h = absurd (h refl)
finish_params-append s (t ∷ rest) more out h = refl

finish_params-nil :
    (p : ParamScan × Text) (out : DecodedToken)
    → (finish_params p out).0 ≢ need_more_data
    → p.1 ≢ []
unfolding finish_params
finish_params-nil (s, []) out h e = h refl
finish_params-nil (s, t ∷ rest) out h e = cc

csi_body-append :
    (n : ℕ) (bytes more : Text) (out : DecodedToken)
    → (csi_body n bytes out).0 ≢ need_more_data
    → csi_body n (bytes ++ more) out ≡ csi_body n bytes out
unfolding csi_body
csi_body-append n [] more out h = absurd (h refl)
csi_body-append n (first ∷ bytes) more out h =
    let scan = scan_params (first_scan n) (first ∷ bytes) in
    ground (
      arith,
      da1_loop-append (n + 1) bytes more out,
      scan_params-append (first_scan n) (first ∷ bytes) more,
      finish_params-nil scan out,
      finish_params-append scan.0 scan.1 more out,
    )

decode_csi-append :
    (bytes more : Text) (out : DecodedToken)
    → bytes ≢ []
    → bytes ≢ esc_byte ∷ []
    → (decode_csi bytes out).0 ≢ need_more_data
    → decode_csi (bytes ++ more) out ≡ decode_csi bytes out
unfolding decode_csi
decode_csi-append [] more out ne nesc h = absurd (ne refl)
decode_csi-append (a ∷ []) [] out ne nesc h = refl
decode_csi-append (a ∷ []) (m ∷ more) out ne nesc h =
    ground (arith, csi_body-append 1 [] (m ∷ more) out)
decode_csi-append (a ∷ b ∷ bytes) more out ne nesc h =
    ground (arith, csi_body-append 1 (b ∷ bytes) more out, csi_body-append 2 bytes more out)

-- Once `try_decode_vt` has decided on the bytes that have arrived, at least one, bytes that arrive
-- behind them change neither its result nor its token.
pub try_decode_vt-append :
    (bytes more : Text)
    → bytes ≢ []
    → (try_decode_vt bytes).0 ≢ need_more_data
    → try_decode_vt (bytes ++ more) ≡ try_decode_vt bytes
unfolding try_decode_vt decode_ss3
try_decode_vt-append [] more ne h = absurd (ne refl)
try_decode_vt-append (a ∷ []) [] ne h = refl
try_decode_vt-append (a ∷ []) (m ∷ more) ne h =
    ground (arith, decode_csi-append (a ∷ []) (m ∷ more) no_token)
try_decode_vt-append (a ∷ b ∷ []) [] ne h = refl
try_decode_vt-append (a ∷ b ∷ []) (m ∷ more) ne h =
    ground (arith, decode_csi-append (a ∷ b ∷ []) (m ∷ more) no_token)
try_decode_vt-append (a ∷ b ∷ c ∷ bytes) more ne h =
    ground (arith, decode_csi-append (a ∷ b ∷ c ∷ bytes) more no_token)

need_more_data_dec : (r : DecodeResult) → (r ≡ need_more_data) ⊎ (r ≢ need_more_data)
need_more_data_dec need_more_data = inl refl
need_more_data_dec produced = inr (λ h. cc)
need_more_data_dec no_match = inr (λ h. cc)

-- A sequence is decoded whole or not at all: of the bytes that a produced token takes, no shorter
-- part from the head, unless it is empty, is decided before the rest has arrived.
try_decode_vt-prefix :
    (part more : Text)
    → part ≢ []
    → (try_decode_vt (part ++ more)).0 ≡ produced
    → length part < (try_decode_vt (part ++ more)).1.bytes_consumed
    → (try_decode_vt part).0 ≡ need_more_data
try_decode_vt-prefix part more ne e short = elim (need_more_data_dec (try_decode_vt part).0) [
  | inl waits ↦ waits
  | inr decided ↦
      let same = try_decode_vt-append part more ne decided in
      absurd (
        omega (
          arith,
          ap (λ (o : Outcome). o.1.bytes_consumed) same,
          try_decode_vt-TakesAtMost part (ap (λ (o : Outcome). o.0) (sym same) ∙ e),
        ))
]
