-- ===== src/Mixer/Model/Stereo.antt =====
-- The stereo pairs of the logical mixer: a bit for each pair of channels, for the inputs and for the
-- playback channels apart.
use native.Mathlib.Nat.{pow-le-pow_right}
use userface.Base.{
  ℕ, ◌+◌, ◌-◌, ◌*◌, ◌/◌, ◌%◌, ◌^◌, ◌<◌, ◌≡◌, Bool, true, false, not, ◌&&◌, arith, u32, bit_and,
  bit_or, bit_xor, ltb, leb, ◌==◌, dec_lt, if◌then◌else◌, ◌<<◌, ◌>>◌,
}
use userface.Base.Digits.{
  digit, digit_bound, digit-bit_and, digit-bit_or, digit-complement, digit-pow, digit-shift,
}
use userface.Base.Bits.{bit_and_ones, bit_xor-one}
use userface.Mixer.{SrcKind, input, playback, mixer_channels}
use userface.Mixer.Model.{MixerModel}

unfoldable pub stereo_bits : SrcKind → MixerModel → ℕ
stereo_bits input m = m.stereo_in
stereo_bits playback m = m.stereo_pb

unfoldable pub set_stereo_bits : SrcKind → ℕ → MixerModel → MixerModel
set_stereo_bits input b m = record m { stereo_in = b }
set_stereo_bits playback b m = record m { stereo_pb = b }

unfoldable pub stereo : SrcKind → ℕ → MixerModel → Bool
stereo kind ch m = ltb ch mixer_channels && not (bit_and (stereo_bits kind m >> (ch / 2)) 1 == 0)

-- `~bit` of a u32 is the rest of its ones.
unfoldable pub set_stereo : SrcKind → ℕ → Bool → MixerModel → MixerModel
set_stereo kind ch on m =
    let bit = u32 (1 << (ch / 2)) in
    let b = stereo_bits kind m in
    if leb mixer_channels ch
    then m
    else set_stereo_bits kind (if on then bit_or b bit else bit_and b (2 ^ 32 - 1 - bit)) m

unfoldable pub partner : ℕ → ℕ
partner ch = bit_xor ch 1

abbrev same_kind : SrcKind → SrcKind → Bool
same_kind input input = true
same_kind playback playback = true
same_kind input playback = false
same_kind playback input = false

-- A stereo bit is a digit of the mask.
stereo-digit :
    (kind : SrcKind) (ch : ℕ) (m : MixerModel)
    → stereo kind ch m ≡ (ltb ch 28 && (digit (ch / 2) (stereo_bits kind m) == 1))
unfolding stereo
stereo-digit kind ch m =
    rw
      (
        bit_and_ones 1 (stereo_bits kind m / 2 ^ (ch / 2)),
        digit-shift (ch / 2) (stereo_bits kind m),
      )
      (ground (arith, digit_bound (ch / 2) (stereo_bits kind m)))

small_power : (p : ℕ) → p < 14 → 2 ^ p < 2 ^ 14
small_power p h =
    omega (arith, pow-le-pow_right {n = 2} (omega arith) {i = p} {j = 13} (omega arith))

digit-on :
    (k p b : ℕ)
    → p < 14
    → k < 14
    → digit k (bit_or b (u32 (1 << p))) ≡ (if k == p then 1 else digit k b)
digit-on k p b hp hk =
    let small : 2 ^ p % 2 ^ 32 ≡ 2 ^ p = omega (arith, small_power p hp) in
    let one : 1 * 2 ^ p ≡ 2 ^ p = omega arith in
    rw (one, small, digit-bit_or k b (2 ^ p), digit-pow k p) (ground (arith, digit_bound k b))

digit-off :
    (k p b : ℕ)
    → p < 14
    → k < 14
    → digit k (bit_and b (2 ^ 32 - 1 - u32 (1 << p))) ≡ (if k == p then 0 else digit k b)
digit-off k p b hp hk =
    let small : 2 ^ p % 2 ^ 32 ≡ 2 ^ p = omega (arith, small_power p hp) in
    let one : 1 * 2 ^ p ≡ 2 ^ p = omega arith in
    rw
      (
        one,
        small,
        digit-bit_and k b (2 ^ 32 - 1 - 2 ^ p),
        digit-complement k 32 (2 ^ p) (omega arith) (omega (arith, small_power p hp)),
        digit-pow k p,
      )
      (ground (arith, digit_bound k b))

-- The bit of pair `k` after the bit of pair `p` was set or cleared.
digit-switched :
    (k p b : ℕ) (on : Bool)
    → p < 14
    → k < 14
    → digit k (if on then bit_or b (u32 (1 << p)) else bit_and b (2 ^ 32 - 1 - u32 (1 << p)))
      ≡ (if k == p then (if on then 1 else 0) else digit k b)
digit-switched k p b true hp hk = digit-on k p b hp hk
digit-switched k p b false hp hk = digit-off k p b hp hk

in_pair :
    (kind at : SrcKind) (ch j : ℕ) (on : Bool) (m : MixerModel)
    → ch < 28
    → j < 28
    → stereo at j (set_stereo kind ch on m)
      ≡ (if same_kind kind at && (j / 2 == ch / 2) then on else stereo at j m)
unfolding set_stereo stereo_bits set_stereo_bits
in_pair input input ch j on m h k =
    rw (stereo-digit input j m, stereo-digit input j (set_stereo input ch on m))
      (ground (arith, digit-switched (j / 2) (ch / 2) m.stereo_in on (omega arith) (omega arith)))
in_pair input playback ch j on m h k =
    rw (stereo-digit playback j m, stereo-digit playback j (set_stereo input ch on m))
      (ground arith)
in_pair playback input ch j on m h k =
    rw (stereo-digit input j m, stereo-digit input j (set_stereo playback ch on m)) (ground arith)
in_pair playback playback ch j on m h k =
    rw (stereo-digit playback j m, stereo-digit playback j (set_stereo playback ch on m))
      (ground (arith, digit-switched (j / 2) (ch / 2) m.stereo_pb on (omega arith) (omega arith)))

-- Joining or splitting a pair is seen at its two channels, and at no other pair and not on the other
-- side; for a channel that does not exist nothing changes.
pub stereo-set_stereo :
    (kind at : SrcKind) (ch j : ℕ) (on : Bool) (m : MixerModel)
    → stereo at j (set_stereo kind ch on m) ≡ (
        if ltb ch 28 && ltb j 28 && same_kind kind at && (j / 2 == ch / 2)
        then on
        else stereo at j m)
unfolding set_stereo
stereo-set_stereo kind at ch j on m = elim (dec_lt ch 28) [
  | no n ↦ ground arith
  | yes h ↦ elim (dec_lt j 28) [
    | no k ↦ ground (arith, stereo-digit at j m, stereo-digit at j (set_stereo kind ch on m))
    | yes k ↦ ground (arith, in_pair kind at ch j on m h k)
  ]
]

-- The partner is the other channel of the pair.
pub partner_lem :
    (ch : ℕ)
    → (partner ch ≡ (if ch % 2 == 0 then ch + 1 else ch - 1))
      × (partner ch / 2 ≡ ch / 2)
      × (partner (partner ch) ≡ ch)
unfolding partner
partner_lem ch =
    let there = bit_xor-one ch in
    let back = bit_xor-one (bit_xor ch 1) in (there, ground arith, ground arith)
