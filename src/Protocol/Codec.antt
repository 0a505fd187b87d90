-- ===== src/Protocol/Codec.antt =====
-- include/uf/protocol/codec.hpp: PCM samples and isochronous packets. An i32 is its bit pattern, a
-- number below 2 ^ 32 (`signed32` reads it). The loops write through pointers, so each takes the
-- buffer that it writes and gives it back. Offsets are taken mod 2 ^ 32 as the u32 arithmetic does.
pub mod Sample
pub mod Frame
pub mod Packet
use userface.Base.{
  ℕ, zero, suc, ◌+◌, ◌*◌, ◌/◌, List, Bool, bit_and, bit_or, u32, ◌<<◌, ◌>>◌, ltb, ◌==◌,
  if◌then◌else◌, set, get_or,
}
use userface.Protocol.Endian.{le32_to_host, host_to_le32}

unfoldable pub decode_sample : ℕ → ℕ
decode_sample quad =
    let s = bit_and (quad >> 8) 0x00ff_ffff in
    if bit_and quad 0x8000_0000 == 0 then s else bit_or s 0xff00_0000

pub decode_sample_le : List ℕ → ℕ → ℕ
decode_sample_le buf p = decode_sample (le32_to_host buf p)

unfoldable pub frames_in_payload : ℕ → ℕ → ℕ
frames_in_payload payload_bytes pcm_channels =
    if pcm_channels == 0 then 0 else payload_bytes / u32 (pcm_channels * 4)

-- The loop of `decode_frame` at channel `c`, with `left` rounds to go.
pub decode_channels : ℕ → ℕ → List ℕ → ℕ → List ℕ → ℕ → List ℕ
decode_channels zero c payload frame out base = out
decode_channels (suc left) c payload frame out base =
    decode_channels left (c + 1) payload frame
      (set out (base + c) (decode_sample_le payload (frame + u32 (c * 4)))) base

pub decode_frame : List ℕ → ℕ → ℕ → List ℕ → ℕ → List ℕ
unfolding decode_channels
decode_frame payload frame pcm_channels out base =
    decode_channels pcm_channels 0 payload frame out base

-- The loop of `decode_packet` at frame `f`.
pub decode_frames : ℕ → ℕ → List ℕ → ℕ → List ℕ → List ℕ
decode_frames zero f payload pcm_channels out = out
decode_frames (suc left) f payload pcm_channels out =
    decode_frames left (f + 1) payload pcm_channels (
      decode_frame payload (u32 (u32 (f * pcm_channels) * 4)) pcm_channels out
        (u32 (f * pcm_channels)))

-- The number of frames, and `out` as it is left.
unfoldable pub decode_packet : List ℕ → ℕ → ℕ → List ℕ → ℕ × List ℕ
unfolding decode_frames decode_frame decode_channels decode_sample_le
decode_packet payload payload_bytes pcm_channels out =
    let n = frames_in_payload payload_bytes pcm_channels in
    (n, decode_frames n 0 payload pcm_channels out)

unfoldable pub encode_sample : ℕ → ℕ
encode_sample sample24 = u32 (sample24 << 8)

pub encode_sample_le : ℕ → List ℕ → ℕ → List ℕ
encode_sample_le sample24 buf p = host_to_le32 (encode_sample sample24) buf p

-- The loop of `encode_frame` at channel `c`.
pub encode_channels : ℕ → ℕ → List ℕ → ℕ → List ℕ → ℕ → List ℕ
encode_channels zero c samples base buf frame = buf
encode_channels (suc left) c samples base buf frame =
    encode_channels left (c + 1) samples base
      (encode_sample_le (get_or samples (base + c) 0) buf (frame + u32 (c * 4))) frame

pub encode_frame : List ℕ → ℕ → ℕ → List ℕ → ℕ → List ℕ
unfolding encode_channels
encode_frame samples base pcm_channels buf frame =
    encode_channels pcm_channels 0 samples base buf frame

-- The loop of `encode_packet` at frame `f`.
pub encode_frames : ℕ → ℕ → List ℕ → ℕ → List ℕ → List ℕ
encode_frames zero f samples pcm_channels buf = buf
encode_frames (suc left) f samples pcm_channels buf =
    encode_frames left (f + 1) samples pcm_channels (
      encode_frame samples (u32 (f * pcm_channels)) pcm_channels buf
        (u32 (u32 (f * pcm_channels) * 4)))

-- The byte count, and the payload as it is left.
unfoldable pub encode_packet : List ℕ → ℕ → ℕ → List ℕ → ℕ × List ℕ
unfolding encode_frames encode_frame encode_channels encode_sample_le
encode_packet samples n_frames pcm_channels payload =
    (u32 (u32 (n_frames * pcm_channels) * 4), encode_frames n_frames 0 samples pcm_channels payload)

-- The loop of `encode_silence_frame` at byte `c`.
pub silence_bytes : ℕ → ℕ → List ℕ → ℕ → List ℕ
silence_bytes zero c buf frame = buf
silence_bytes (suc left) c buf frame = silence_bytes left (c + 1) (set buf (frame + c) 0) frame

unfoldable pub encode_silence_frame : ℕ → List ℕ → ℕ → List ℕ
unfolding silence_bytes
encode_silence_frame pcm_channels buf frame = silence_bytes (u32 (pcm_channels * 4)) 0 buf frame
