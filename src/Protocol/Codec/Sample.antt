-- ===== src/Protocol/Codec/Sample.antt =====
-- One sample: the 24 bits at the top of a quadlet, sign-extended.
use userface.Base.{
  ℕ, ◌+◌, ◌-◌, ◌*◌, ◌/◌, ◌%◌, ◌^◌, ◌≤◌, ◌<◌, ◌≡◌, ◌⊎◌, arith, bit_and, ltb, u32, ◌<<◌,
  if◌then◌else◌,
}
use userface.Base.Int.{ℤ, pos, negsuc, pos_part, neg_part}
use userface.Base.Bits.{bit_or_below, bit_and_ones, bit_and_field}
use userface.Protocol.Codec.{decode_sample, encode_sample}

-- The integer that a 32-bit pattern stands for.
abbrev pub signed32 : ℕ → ℤ
signed32 w = if ltb w (2 ^ 31) then pos w else negsuc (2 ^ 32 - w - 1)

-- The pattern of an i32 in [-2 ^ 23, 2 ^ 23).
abbrev pub Is24 : ℕ → Type 0
Is24 w = (w < 2 ^ 23) ⊎ ((2 ^ 32 - 2 ^ 23 ≤ w) × (w < 2 ^ 32))

top_bit : (q : ℕ) → q < 2 ^ 32 → bit_and q 0x8000_0000 ≡ q / 2 ^ 31 * 2 ^ 31
top_bit q h = omega (arith, bit_and_field 31 1 q, bit_and_ones 1 (q / 2 ^ 31))

-- Decoding in arithmetic: the upper 24 bits, less 2 ^ 24 if the quadlet is negative.
pub decode_sample_value :
    (q : ℕ)
    → q < 2 ^ 32
    → decode_sample q ≡ (if ltb q (2 ^ 31) then q / 256 else q / 256 + (2 ^ 32 - 2 ^ 24))
unfolding decode_sample
decode_sample_value q h =
    ground (arith, top_bit q h, bit_and_ones 24 (q / 2 ^ 8), bit_or_below 24 255 (q / 256))

pub decode_sample-Is24 : (q : ℕ) → q < 2 ^ 32 → Is24 (decode_sample q)
decode_sample-Is24 q h = rw (decode_sample_value q h) (ground arith)

-- A 24-bit sample survives encoding and decoding.
pub decode_sample-encode_sample : (w : ℕ) → Is24 w → decode_sample (encode_sample w) ≡ w
unfolding encode_sample
decode_sample-encode_sample w h =
    rw (decode_sample_value (u32 (w << 8)) (omega arith)) (ground arith)

-- Encoding what was decoded from a quadlet gives the quadlet back with its low byte cleared.
pub encode_sample-decode_sample :
    (q : ℕ) → q < 2 ^ 32 → encode_sample (decode_sample q) ≡ q - q % 256
unfolding encode_sample
encode_sample-decode_sample q h = rw (decode_sample_value q h) (ground arith)

-- As integers, decoding is division by 256 rounded down.
pub decode_sample_signed :
    (q : ℕ)
    → q < 2 ^ 32
    → let s = signed32 (decode_sample q) in
      let t = signed32 q in
      (256 * pos_part s + neg_part t ≤ pos_part t + 256 * neg_part s)
      × (pos_part t + 256 * neg_part s < 256 * pos_part s + neg_part t + 256)
decode_sample_signed q h = rw (decode_sample_value q h) (ground arith)

pub encode_sample-lt : (w : ℕ) → encode_sample w < 2 ^ 32
unfolding encode_sample
encode_sample-lt w = omega arith
