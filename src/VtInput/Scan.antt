-- ===== src/VtInput/Scan.antt =====
-- The loop over the parameters of a CSI sequence: how many bytes it takes, and that bytes behind
-- its end do not change it.
use conhost.Prelude.{
  ℕ, ◌+◌, ◌*◌, ◌≤◌, ◌≡◌, ◌≢◌, refl, arith, if◌then◌else◌, [], ◌∷◌, ◌++◌, Text, length, within,
}
use conhost.VtInput.{
  ParamScan, scan_params, scan_digit, scan_separator, saturating_mul_add_10, u32_max,
}

pub scan_params-pos :
    (s : ParamScan) (bytes : Text)
    → (scan_params s bytes).0.pos + length (scan_params s bytes).1 ≡ s.pos + length bytes
unfolding scan_params
scan_params-pos s [] = refl
scan_params-pos s (ch ∷ bytes) = ground (
  arith,
  scan_params-pos (if within b'0' b'9' ch then scan_digit s ch else scan_separator s) bytes,
)

pub scan_params-append :
    (s : ParamScan) (bytes more : Text)
    → (scan_params s bytes).1 ≢ []
    → scan_params s (bytes ++ more) ≡ ((scan_params s bytes).0, (scan_params s bytes).1 ++ more)
unfolding scan_params
scan_params-append s [] more h = absurd (h refl)
scan_params-append s (ch ∷ bytes) more h = ground (
  arith,
  scan_params-append (if within b'0' b'9' ch then scan_digit s ch else scan_separator s) bytes more,
)

pub saturating_mul_add_10_exact :
    (n d : ℕ) → n * 10 + d ≤ u32_max → saturating_mul_add_10 n d ≡ n * 10 + d
unfolding saturating_mul_add_10
saturating_mul_add_10_exact n d h = ground arith
