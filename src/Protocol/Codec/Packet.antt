-- ===== src/Protocol/Codec/Packet.antt =====
-- Whole packets: what `encode_packet` lays out, and that `decode_packet` takes it apart again.
use native.Mathlib.Nat.{div-add-mod', mod-lt, div-lt_iff_lt-mul, div-eq_of_eq-mul_left}
use userface.Base.{
  ltb, lt→ltb, dec_lt, if◌then◌else◌, ℕ, zero, suc, ◌+◌, ◌*◌, ◌/◌, ◌%◌, ◌^◌, ◌≤◌, ◌<◌, ◌≡◌, ◌⊎◌,
  inl, inr, refl, ◌∙◌, sym, ap, List, arith, length, get_or, u32, ℕ_discrete,
}
use userface.Protocol.Endian.{byte_at, le32_to_host}
use userface.Protocol.Endian.Laws.{le32_to_host_ext}
use userface.Protocol.Codec.{
  decode_sample, decode_sample_le, decode_frame, decode_frames, decode_packet, encode_sample,
  encode_frame, encode_frames, encode_packet, frames_in_payload,
}
use userface.Protocol.Codec.Sample.{Is24, decode_sample-encode_sample}
use userface.Protocol.Codec.Frame.{
  encode_channels-length, encode_channels_outside, encode_channels_inside, decode_channels-length,
  decode_channels_outside, decode_channels_inside,
}

-- An earlier frame ends at or before a later one starts.
frame_before : (f g n : ℕ) → f < g → f * n + n ≤ g * n
frame_before f g n h = grind arith

module _ (samples : List ℕ) (n : ℕ) where
  encode_frames-length :
      (left f : ℕ) (buf : List ℕ) → length (encode_frames left f samples n buf) ≡ length buf
  unfolding encode_frames encode_frame
  encode_frames-length zero f buf = refl
  encode_frames-length (suc left) f buf =
      encode_frames-length left (f + 1) _
      ∙ encode_channels-length n 0 samples (u32 (f * n)) buf (u32 (u32 (f * n) * 4))

  encode_frames_outside :
      (left f : ℕ) (buf : List ℕ) (j : ℕ)
      → (f + left) * n * 4 < 2 ^ 32
      → (j < f * n * 4) ⊎ ((f + left) * n * 4 ≤ j)
      → byte_at (encode_frames left f samples n buf) j ≡ byte_at buf j
  unfolding encode_frames encode_frame
  encode_frames_outside zero f buf j s h = refl
  encode_frames_outside (suc left) f buf j s h =
      encode_frames_outside left (f + 1) _ j (omega arith) (omega arith)
      ∙ encode_channels_outside n 0 samples (u32 (f * n)) buf (u32 (u32 (f * n) * 4)) j
          (omega arith) (omega arith)

  encode_frames_inside :
      (left f : ℕ) (buf : List ℕ) (g k : ℕ)
      → (f + left) * n * 4 < 2 ^ 32
      → (f + left) * n * 4 ≤ length buf
      → f ≤ g
      → g < f + left
      → k < n
      → le32_to_host (encode_frames left f samples n buf) ((g * n + k) * 4)
        ≡ encode_sample (get_or samples (g * n + k) 0)
  unfolding encode_frames encode_frame
  encode_frames_inside zero f buf g k s r lo hi hk = absurd (omega arith)
  encode_frames_inside (suc left) f buf g k s r lo hi hk = elim (ℕ_discrete g f) [
    | yes e ↦ rw e (
        le32_to_host_ext _ written ((f * n + k) * 4) (λ i small.
          encode_frames_outside left (f + 1) written ((f * n + k) * 4 + i) (omega arith)
            (inl (omega arith)))
        ∙ ap (le32_to_host written) (omega arith)
        ∙ encode_channels_inside n 0 samples (u32 (f * n)) buf at k (omega arith) (omega arith)
            (omega arith) (omega arith)
        ∙ ap (λ (t : ℕ). encode_sample (get_or samples t 0)) (omega arith))
    | no ne ↦
        encode_frames_inside left (f + 1) written g k (omega arith)
          (omega (arith, encode_channels-length n 0 samples (u32 (f * n)) buf at)) (omega arith)
          (omega arith) hk
  ]
    where
      at : ℕ
      at = u32 (u32 (f * n) * 4)

      written : List ℕ
      written = encode_frame samples (u32 (f * n)) n buf at

module _ (payload : List ℕ) (n : ℕ) where
  decode_frames-length :
      (left f : ℕ) (out : List ℕ) → length (decode_frames left f payload n out) ≡ length out
  unfolding decode_frames decode_frame
  decode_frames-length zero f out = refl
  decode_frames-length (suc left) f out =
      decode_frames-length left (f + 1) _
      ∙ decode_channels-length n 0 payload (u32 (u32 (f * n) * 4)) out (u32 (f * n))

  decode_frames_outside :
      (left f : ℕ) (out : List ℕ) (j : ℕ)
      → (f + left) * n * 4 < 2 ^ 32
      → (j < f * n) ⊎ ((f + left) * n ≤ j)
      → get_or (decode_frames left f payload n out) j 0 ≡ get_or out j 0
  unfolding decode_frames decode_frame
  decode_frames_outside zero f out j s h = refl
  decode_frames_outside (suc left) f out j s h =
      decode_frames_outside left (f + 1) _ j (omega arith) (omega arith)
      ∙ decode_channels_outside n 0 payload (u32 (u32 (f * n) * 4)) out (u32 (f * n)) j
          (omega arith)

  decode_frames_inside :
      (left f : ℕ) (out : List ℕ) (g k : ℕ)
      → (f + left) * n * 4 < 2 ^ 32
      → (f + left) * n ≤ length out
      → f ≤ g
      → g < f + left
      → k < n
      → get_or (decode_frames left f payload n out) (g * n + k) 0
        ≡ decode_sample_le payload ((g * n + k) * 4)
  unfolding decode_frames decode_frame
  decode_frames_inside zero f out g k s r lo hi hk = absurd (omega arith)
  decode_frames_inside (suc left) f out g k s r lo hi hk = elim (ℕ_discrete g f) [
    | yes e ↦ rw e (
        decode_frames_outside left (f + 1) written (f * n + k) (omega arith) (inl (omega arith))
        ∙ ap (λ (t : ℕ). get_or written t 0) (omega arith)
        ∙ decode_channels_inside n 0 payload at out (u32 (f * n)) k (omega arith) (omega arith)
            (omega arith) (omega arith)
        ∙ ap (decode_sample_le payload) (omega arith))
    | no ne ↦
        decode_frames_inside left (f + 1) written g k (omega arith)
          (omega (arith, decode_channels-length n 0 payload at out (u32 (f * n)))) (omega arith)
          (omega arith) hk
  ]
    where
      at : ℕ
      at = u32 (u32 (f * n) * 4)

      written : List ℕ
      written = decode_frame payload at n out (u32 (f * n))

whole_frames : (n pcm : ℕ) → 0 < pcm → pcm * 4 < 2 ^ 32 → frames_in_payload (n * pcm * 4) pcm ≡ n
unfolding frames_in_payload
whole_frames n pcm pos small = ground (
  arith,
  div-eq_of_eq-mul_left {n = u32 (pcm * 4)} {m = n * pcm * 4} {k = n} (omega arith)
      (omega (arith, ap (λ (t : ℕ). n * t) wide)),
)
  where
    wide : pcm * 4 ≡ u32 (pcm * 4)
    wide = omega arith

frame_in_range : (i n pcm : ℕ) → 0 < pcm → i < n * pcm → i / pcm < n
frame_in_range i n pcm pos h = (div-lt_iff_lt-mul pos).1 h

round_trip :
    (samples : List ℕ) (n pcm : ℕ) (payload out : List ℕ)
    → 0 < pcm
    → pcm * 4 < 2 ^ 32
    → n * pcm * 4 < 2 ^ 32
    → n * pcm * 4 ≤ length payload
    → n * pcm ≤ length out
    → ((i : ℕ) → i < n * pcm → Is24 (get_or samples i 0))
    → let (bytes, packet) = encode_packet samples n pcm payload in
      let (frames, decoded) = decode_packet packet bytes pcm out in
      (bytes ≡ n * pcm * 4)
      × (frames ≡ n)
      × ((i : ℕ) → i < n * pcm → get_or decoded i 0 ≡ get_or samples i 0)
      × ((i : ℕ) → n * pcm ≤ i → get_or decoded i 0 ≡ get_or out i 0)
unfolding encode_packet decode_packet decode_sample_le
round_trip samples n pcm payload out pos small fits room space all24 =
    let bytes : u32 (u32 (n * pcm) * 4) ≡ n * pcm * 4 = omega arith in
    rw (bytes, whole_frames n pcm pos small)
      (
        refl,
        refl,
        inside,
        λ i h. decode_frames_outside packet pcm n 0 out i (omega arith) (inr (omega arith)),
      )
  where
    packet : List ℕ
    packet = encode_frames n 0 samples pcm payload

    inside :
        (i : ℕ) → i < n * pcm → get_or (decode_frames n 0 packet pcm out) i 0 ≡ get_or samples i 0
    inside i h =
        let g = i / pcm in
        let k = i % pcm in
        let split : g * pcm + k ≡ i = div-add-mod' i pcm in
        let last : g < 0 + n = omega (arith, frame_in_range i n pcm pos h) in
        ap (λ (t : ℕ). get_or (decode_frames n 0 packet pcm out) t 0) (sym split)
        ∙ decode_frames_inside packet pcm n 0 out g k (omega arith) (omega arith) (omega arith) last
            (mod-lt i pos)
        ∙ ap decode_sample (
            encode_frames_inside samples pcm n 0 payload g k (omega arith) (omega arith)
              (omega arith) last (mod-lt i pos))
        ∙ rw split (decode_sample-encode_sample _ (all24 i h))

-- A packet that was encoded from 24-bit samples decodes to those samples: the byte and frame
-- counts agree, every sample comes back at its index, and `out` keeps what lies behind them. The
-- packet and its samples fit their buffers, and its size fits 32 bits.
pub decode_packet-encode_packet :
    (samples : List ℕ) (n pcm : ℕ) (payload out : List ℕ) (i : ℕ)
    → 0 < pcm
    → pcm * 4 < 2 ^ 32
    → n * pcm * 4 < 2 ^ 32
    → n * pcm * 4 ≤ length payload
    → n * pcm ≤ length out
    → ((j : ℕ) → j < n * pcm → Is24 (get_or samples j 0))
    → let (bytes, packet) = encode_packet samples n pcm payload in
      let (frames, decoded) = decode_packet packet bytes pcm out in
      (bytes ≡ n * pcm * 4)
      × (frames ≡ n)
      × (get_or decoded i 0 ≡ (if ltb i (n * pcm) then get_or samples i 0 else get_or out i 0))
decode_packet-encode_packet samples n pcm payload out i pos small fits room space all24 =
    let all = round_trip samples n pcm payload out pos small fits room space all24 in
    (
      all.0,
      all.1,
      elim (dec_lt i (n * pcm)) [
        | yes h ↦ rw (lt→ltb i (n * pcm) h) (all.2 i h)
        | no h ↦ all.3 i (omega arith) ∙ ground arith
      ],
    )
