-- ===== src/Protocol/TestSig/Coding.antt =====
-- What a test sample tells of itself.
use userface.Base.{
  ℕ, ◌+◌, ◌*◌, ◌/◌, ◌%◌, ◌^◌, ◌<◌, ◌≡◌, ◌∙◌, sym, ap₂, true, false, arith, bit_and, bit_or, bit_xor,
  u32, ◌==◌,
}
use userface.Base.Bits.{bit_and_ones, bit_or_shifted, bit_or_below, bit_and_field}
use userface.Protocol.TestSig.{
  index_mask, marker, testsig_check, testsig_sample, testsig_channel_of, testsig_index_of,
  testsig_valid,
}

check-lt : (c i : ℕ) → testsig_check c i < 8
unfolding testsig_check
check-lt c i = omega (arith, bit_and_ones 3 (bit_xor (bit_xor c i) (i / 2 ^ 8)))

-- The fields of a sample as a sum.
sum_of :
    (ch ix k : ℕ)
    → ch < 16
    → ix < 2 ^ 16
    → k < 8
    → bit_or (bit_or (bit_or (bit_or marker (u32 (ch * 2 ^ 19))) (u32 (ix * 2 ^ 3))) k) 0xff00_0000
      ≡ 0xff80_0000 + ch * 2 ^ 19 + ix * 2 ^ 3 + k
sum_of ch ix k hc hi hk =
    let e1 : u32 (ch * 2 ^ 19) ≡ ch * 2 ^ 19 = omega arith in
    let e2 : u32 (ix * 2 ^ 3) ≡ ix * 2 ^ 3 = omega arith in
    let s1 : bit_or marker (ch * 2 ^ 19) ≡ (16 + ch) * 2 ^ 19 =
      bit_or_shifted 23 1 (ch * 2 ^ 19) (omega arith) ∙ omega arith in
    let s2 : bit_or ((16 + ch) * 2 ^ 19) (ix * 2 ^ 3) ≡ ((16 + ch) * 2 ^ 16 + ix) * 2 ^ 3 =
      bit_or_shifted 19 (16 + ch) (ix * 2 ^ 3) (omega arith) ∙ omega arith in
    let s3 = bit_or_shifted 3 ((16 + ch) * 2 ^ 16 + ix) k (omega arith) in
    let s4 = bit_or_below 24 0xff (((16 + ch) * 2 ^ 16 + ix) * 2 ^ 3 + k) (omega arith) in
    rw (e1, e2, s1, s2, s3) (s4 ∙ omega arith)

testsig_sample_sum :
    (channel frame : ℕ)
    → testsig_sample channel frame
      ≡ 0xff80_0000
        + channel % 16 * 2 ^ 19
        + frame % 2 ^ 16 * 2 ^ 3
        + testsig_check (channel % 16) (frame % 2 ^ 16)
unfolding testsig_sample
testsig_sample_sum channel frame =
    let c : bit_and channel 0xf ≡ channel % 16 = bit_and_ones 4 channel in
    let f : u32 (bit_and frame index_mask) ≡ frame % 2 ^ 16 =
      omega (arith, bit_and_ones 16 frame) in
    rw (c, f)
      (sum_of (channel % 16) (frame % 2 ^ 16) (testsig_check (channel % 16) (frame % 2 ^ 16))
        (omega arith) (omega arith) (check-lt (channel % 16) (frame % 2 ^ 16)))

-- A test sample tells its channel, of sixteen, and its frame index, of 65536.
pub testsig_sample_fields :
    (channel frame : ℕ)
    → (testsig_channel_of (testsig_sample channel frame) ≡ channel % 16)
      × (testsig_index_of (testsig_sample channel frame) ≡ frame % 2 ^ 16)
unfolding testsig_channel_of testsig_index_of
testsig_sample_fields channel frame =
    let e = testsig_sample_sum channel frame in
    let k = check-lt (channel % 16) (frame % 2 ^ 16) in
    (
      bit_and_ones 4 (testsig_sample channel frame / 2 ^ 19) ∙ omega (arith, e, k),
      bit_and_ones 16 (testsig_sample channel frame / 2 ^ 3) ∙ omega (arith, e, k),
    )

own_fields :
    (channel frame : ℕ)
    → testsig_sample (channel % 16) (frame % 2 ^ 16) ≡ testsig_sample channel frame
own_fields channel frame =
    let c : channel % 16 % 16 ≡ channel % 16 = omega arith in
    let f : frame % 2 ^ 16 % 2 ^ 16 ≡ frame % 2 ^ 16 = omega arith in
    testsig_sample_sum (channel % 16) (frame % 2 ^ 16)
    ∙ ap₂ (λ x y. 0xff80_0000 + x * 2 ^ 19 + y * 2 ^ 3 + testsig_check x y) c f
    ∙ sym (testsig_sample_sum channel frame)

marker_bit :
    (channel frame : ℕ) → bit_and (bit_and (testsig_sample channel frame) 0xff_ffff) marker ≡ marker
marker_bit channel frame =
    let e = testsig_sample_sum channel frame in
    let k = check-lt (channel % 16) (frame % 2 ^ 16) in
    let low = bit_and_ones 24 (testsig_sample channel frame) in
    let raw = bit_and (testsig_sample channel frame) 0xff_ffff in
    bit_and_field 23 1 raw ∙ omega (arith, bit_and_ones 1 (raw / 2 ^ 23), low, e, k)

-- Every test sample is a valid encoding: it has the marker and its own check digits, so that it is not
-- taken for silence or for a damaged value.
pub testsig_sample-valid : (channel frame : ℕ) → testsig_valid (testsig_sample channel frame) ≡ true
unfolding testsig_valid
testsig_sample-valid channel frame =
    let fields = testsig_sample_fields channel frame in
    rw (marker_bit channel frame, fields.0, fields.1, own_fields channel frame) (ground arith)

pub testsig_sample-nonzero : (channel frame : ℕ) → (testsig_sample channel frame == 0) ≡ false
testsig_sample-nonzero channel frame = let e = testsig_sample_sum channel frame in ground arith
