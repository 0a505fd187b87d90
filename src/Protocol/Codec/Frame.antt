-- ===== src/Protocol/Codec/Frame.antt =====
-- The loops over the channels of one frame, described index by index.
use userface.Base.{
  ℕ, zero, suc, ◌+◌, ◌*◌, ◌^◌, ◌≤◌, ◌<◌, ◌≡◌, ◌⊎◌, inl, refl, ◌∙◌, sym, ap, List, arith, length,
  set, get_or, u32, length-set, get_or-set_self, get_or-set_ne, ℕ_discrete,
}
use userface.Protocol.Endian.{byte_at, le32_to_host, host_to_le32}
use userface.Protocol.Endian.Laws.{
  le32_to_host_ext, length-host_to_le32, host_to_le32_outside, le32_to_host-host_to_le32,
}
use userface.Protocol.Codec.{
  decode_sample_le, decode_channels, encode_sample, encode_sample_le, encode_channels,
}
use userface.Protocol.Codec.Sample.{encode_sample-lt}

-- A channel's four bytes lie in the frame, so no offset wraps.
pub encode_channels-length :
    (left c : ℕ) (samples : List ℕ) (base : ℕ) (buf : List ℕ) (frame : ℕ)
    → length (encode_channels left c samples base buf frame) ≡ length buf
unfolding encode_channels encode_sample_le
encode_channels-length zero c samples base buf frame = refl
encode_channels-length (suc left) c samples base buf frame =
    encode_channels-length left (c + 1) samples base _ frame ∙ length-host_to_le32 _ buf _

pub encode_channels_outside :
    (left c : ℕ) (samples : List ℕ) (base : ℕ) (buf : List ℕ) (frame j : ℕ)
    → (c + left) * 4 < 2 ^ 32
    → (j < frame + c * 4) ⊎ (frame + (c + left) * 4 ≤ j)
    → byte_at (encode_channels left c samples base buf frame) j ≡ byte_at buf j
unfolding encode_channels encode_sample_le
encode_channels_outside zero c samples base buf frame j s h = refl
encode_channels_outside (suc left) c samples base buf frame j s h =
    encode_channels_outside left (c + 1) samples base _ frame j (omega arith) (omega arith)
    ∙ host_to_le32_outside _ buf (frame + u32 (c * 4)) j (omega arith)

pub encode_channels_inside :
    (left c : ℕ) (samples : List ℕ) (base : ℕ) (buf : List ℕ) (frame k : ℕ)
    → (c + left) * 4 < 2 ^ 32
    → frame + (c + left) * 4 ≤ length buf
    → c ≤ k
    → k < c + left
    → le32_to_host (encode_channels left c samples base buf frame) (frame + k * 4)
      ≡ encode_sample (get_or samples (base + k) 0)
unfolding encode_channels encode_sample_le
encode_channels_inside zero c samples base buf frame k s r lo hi = absurd (omega arith)
encode_channels_inside (suc left) c samples base buf frame k s r lo hi = elim (ℕ_discrete k c) [
  | yes e ↦
      le32_to_host_ext _ written (frame + k * 4) (λ i small.
        encode_channels_outside left (c + 1) samples base written frame (frame + k * 4 + i)
          (omega arith) (inl (omega arith)))
      ∙ ap (le32_to_host written) (omega arith)
      ∙ le32_to_host-host_to_le32 value buf (frame + u32 (c * 4)) (encode_sample-lt _) (omega arith)
      ∙ ap (λ (t : ℕ). encode_sample (get_or samples (base + t) 0)) (sym e)
  | no ne ↦
      encode_channels_inside left (c + 1) samples base written frame k (omega arith)
        (omega (arith, length-host_to_le32 value buf (frame + u32 (c * 4)))) (omega arith)
        (omega arith)
]
  where
    value : ℕ
    value = encode_sample (get_or samples (base + c) 0)

    written : List ℕ
    written = host_to_le32 value buf (frame + u32 (c * 4))

pub decode_channels-length :
    (left c : ℕ) (payload : List ℕ) (frame : ℕ) (out : List ℕ) (base : ℕ)
    → length (decode_channels left c payload frame out base) ≡ length out
unfolding decode_channels
decode_channels-length zero c payload frame out base = refl
decode_channels-length (suc left) c payload frame out base =
    decode_channels-length left (c + 1) payload frame _ base ∙ length-set out _ _

pub decode_channels_outside :
    (left c : ℕ) (payload : List ℕ) (frame : ℕ) (out : List ℕ) (base j : ℕ)
    → (j < base + c) ⊎ (base + (c + left) ≤ j)
    → get_or (decode_channels left c payload frame out base) j 0 ≡ get_or out j 0
unfolding decode_channels
decode_channels_outside zero c payload frame out base j h = refl
decode_channels_outside (suc left) c payload frame out base j h =
    decode_channels_outside left (c + 1) payload frame _ base j (omega arith)
    ∙ get_or-set_ne out _ 0 (omega arith)

pub decode_channels_inside :
    (left c : ℕ) (payload : List ℕ) (frame : ℕ) (out : List ℕ) (base k : ℕ)
    → (c + left) * 4 < 2 ^ 32
    → base + (c + left) ≤ length out
    → c ≤ k
    → k < c + left
    → get_or (decode_channels left c payload frame out base) (base + k) 0
      ≡ decode_sample_le payload (frame + k * 4)
unfolding decode_channels
decode_channels_inside zero c payload frame out base k s r lo hi = absurd (omega arith)
decode_channels_inside (suc left) c payload frame out base k s r lo hi = elim (ℕ_discrete k c) [
  | yes e ↦
      decode_channels_outside left (c + 1) payload frame written base (base + k) (inl (omega arith))
      ∙ ap (λ (t : ℕ). get_or written (base + t) 0) e
      ∙ get_or-set_self out (base + c) value 0 (omega arith)
      ∙ ap (λ (t : ℕ). decode_sample_le payload (frame + t)) (omega arith)
  | no ne ↦
      decode_channels_inside left (c + 1) payload frame written base k (omega arith)
        (omega (arith, length-set out (base + c) value)) (omega arith) (omega arith)
]
  where
    value : ℕ
    value = decode_sample_le payload (frame + u32 (c * 4))

    written : List ℕ
    written = set out (base + c) value
