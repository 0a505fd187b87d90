-- ===== src/Protocol/Wav.antt =====
-- include/uf/protocol/wav.hpp: captured audio as the bytes of a WAV file. A sample is the 32-bit word
-- that stands for it, and takes at most four bytes.
pub mod Layout
use userface.Base.{ℕ, zero, suc, ◌+◌, ◌*◌, ◌/◌, ◌%◌, ◌^◌, List, [], ◌∷◌, ◌++◌, length, u16, u32}

-- The bytes 0 to `n - 1` of `v`, the lowest first.
unfoldable pub push_bytes : ℕ → List ℕ → ℕ → List ℕ
push_bytes zero b v = b
push_bytes (suc i) b v = push_bytes i b v ++ v / 2 ^ (8 * i) % 256 ∷ []

unfoldable pub push_u16 : List ℕ → ℕ → List ℕ
push_u16 b v = (b ++ v % 256 ∷ []) ++ v / 2 ^ 8 % 256 ∷ []

unfoldable pub push_u32 : List ℕ → ℕ → List ℕ
push_u32 b v = push_bytes 4 b v

abbrev riff_tag : List ℕ
riff_tag = 82 ∷ 73 ∷ 70 ∷ 70 ∷ []

abbrev wave_tag : List ℕ
wave_tag = 87 ∷ 65 ∷ 86 ∷ 69 ∷ []

abbrev fmt_tag : List ℕ
fmt_tag = 102 ∷ 109 ∷ 116 ∷ 32 ∷ []

abbrev data_tag : List ℕ
data_tag = 100 ∷ 97 ∷ 116 ∷ 97 ∷ []

unfoldable pub wav_header : ℕ → ℕ → ℕ → ℕ → List ℕ
wav_header sample_rate n_channels bits_per_sample data_bytes =
    let bytes_per_sample = u16 (bits_per_sample / 8) in
    let block_align = u16 (n_channels * bytes_per_sample) in
    let byte_rate = u32 (sample_rate * block_align) in
    let riff = push_u32 riff_tag (u32 (36 + data_bytes)) in
    let format = push_u16 (push_u32 ((riff ++ wave_tag) ++ fmt_tag) 16) 1 in
    let rates = push_u32 (push_u32 (push_u16 format n_channels) sample_rate) byte_rate in
    push_u32 (push_u16 (push_u16 rates block_align) bits_per_sample ++ data_tag) data_bytes

unfoldable pub push_pcm_sample : List ℕ → ℕ → ℕ → List ℕ
push_pcm_sample b sample bytes_per_sample = push_bytes bytes_per_sample b sample

-- The loop over the samples.
unfoldable pub push_samples : ℕ → List ℕ → List ℕ → List ℕ
push_samples bytes_per_sample out [] = out
push_samples bytes_per_sample out (s ∷ samples) =
    push_samples bytes_per_sample (push_pcm_sample out s bytes_per_sample) samples

unfoldable pub write_wav : List ℕ → ℕ → ℕ → ℕ → List ℕ
write_wav samples sample_rate n_channels bits_per_sample =
    let bytes_per_sample = u16 (bits_per_sample / 8) in
    let data_bytes = u32 (u32 (length samples) * bytes_per_sample) in
    push_samples bytes_per_sample (wav_header sample_rate n_channels bits_per_sample data_bytes)
      samples
