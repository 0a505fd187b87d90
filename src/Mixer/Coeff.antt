-- ===== src/Mixer/Coeff.antt =====
-- The signed coefficients and the addresses of the mixer matrix.
use userface.Base.{ℕ, ◌+◌, ◌*◌, ◌<◌, ◌≡◌, Bool, true, false, arith, ltb, ◌==◌, if◌then◌else◌}
use userface.Mixer.{
  mixer_max, is_negative, signed_coeff, coeff_magnitude, input_coeff_addr, playback_coeff_addr,
  output_fader_addr, index_of,
}

pub index_of-input : (s d : ℕ) → s < 28 → d < 28 → index_of (input_coeff_addr s d) ≡ 64 * d + s
unfolding index_of input_coeff_addr
index_of-input s d hs hd = omega arith

pub index_of-playback :
    (s d : ℕ) → s < 28 → d < 28 → index_of (playback_coeff_addr s d) ≡ 64 * d + 32 + s
unfolding index_of playback_coeff_addr
index_of-playback s d hs hd = omega arith

pub index_of-fader : (o : ℕ) → o < 28 → index_of (output_fader_addr o) ≡ 2016 + o
unfolding index_of output_fader_addr
index_of-fader o ho = omega arith

-- The sign of a coefficient is its phase, and never in doubt: an inverted coefficient is negative, a
-- plain one is not, also at gain 0. The magnitude is the gain up to the maximum, except that an
-- inverted gain of 0 has magnitude 1.
pub signed_coeff_lem :
    (g : ℕ) (inverted : Bool)
    → (is_negative (signed_coeff g inverted) ≡ inverted)
      × (coeff_magnitude (signed_coeff g inverted) ≡ (
          if inverted
          then (if g == 0 then 1 else if ltb mixer_max g then mixer_max else g)
          else if ltb mixer_max g
          then mixer_max
          else g))
unfolding signed_coeff coeff_magnitude
signed_coeff_lem g true = ground arith
signed_coeff_lem g false = ground arith
