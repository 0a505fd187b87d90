-- ===== src/Protocol/Wav/Layout.antt =====
-- What stands where in a WAV file of 24-bit samples.
use mathlib.Core.List.{append_assoc, append-nil}
use userface.Base.{
  ℕ, zero, suc, ◌+◌, ◌*◌, ◌/◌, ◌%◌, ◌^◌, ◌<◌, ◌≡◌, refl, ◌∙◌, ap, sym, arith, List, [], ◌∷◌, ◌++◌,
  length, get_or, u32, read_u16, read_u32,
}
use userface.Protocol.Wav.{
  push_bytes, push_u16, push_u32, wav_header, push_pcm_sample, push_samples, write_wav,
}

-- The three bytes from `at` on.
abbrev pub read_u24 : List ℕ → ℕ → ℕ
read_u24 buf at = get_or buf at 0 + get_or buf (at + 1) 0 * 256 + get_or buf (at + 2) 0 * 65536

-- The bytes of a sample, in one piece.
abbrev sample_bytes : ℕ → List ℕ
sample_bytes s = s % 256 ∷ s / 256 % 256 ∷ s / 65536 % 256 ∷ []

push_pcm_sample_lem : (out : List ℕ) (s : ℕ) → push_pcm_sample out s 3 ≡ out ++ sample_bytes s
unfolding push_pcm_sample push_bytes
push_pcm_sample_lem [] s = let one : s / 1 ≡ s = omega arith in rw one refl
push_pcm_sample_lem (x ∷ out) s = ap (λ t. x ∷ t) (push_pcm_sample_lem out s)

abbrev data_bytes : List ℕ → List ℕ
data_bytes [] = []
data_bytes (s ∷ samples) = sample_bytes s ++ data_bytes samples

push_samples_lem : (out samples : List ℕ) → push_samples 3 out samples ≡ out ++ data_bytes samples
unfolding push_samples
push_samples_lem out [] = sym (append-nil out)
push_samples_lem out (s ∷ samples) =
    push_samples_lem (push_pcm_sample out s 3) samples
    ∙ ap (λ t. t ++ data_bytes samples) (push_pcm_sample_lem out s)
    ∙ append_assoc out (sample_bytes s) (data_bytes samples)

length-data_bytes : (samples : List ℕ) → length (data_bytes samples) ≡ 3 * length samples
length-data_bytes [] = refl
length-data_bytes (s ∷ samples) = omega (arith, length-data_bytes samples)

read_u24_cons : (x : ℕ) (xs : List ℕ) (n : ℕ) → read_u24 (x ∷ xs) (suc n) ≡ read_u24 xs n
read_u24_cons x xs n =
    let one : suc n + 1 ≡ suc (n + 1) = omega arith in
    let two : suc n + 2 ≡ suc (n + 2) = omega arith in rw one (rw two refl)

read_u24-append_right :
    (xs ys : List ℕ) (n : ℕ) → read_u24 (xs ++ ys) (length xs + n) ≡ read_u24 ys n
read_u24-append_right [] ys n = ap (read_u24 ys) (omega arith)
read_u24-append_right (x ∷ xs) ys n =
    let later : suc (length xs) + n ≡ suc (length xs + n) = omega arith in
    ap (read_u24 (x ∷ (xs ++ ys))) later
    ∙ read_u24_cons x (xs ++ ys) (length xs + n)
    ∙ read_u24-append_right xs ys n

read_u24-data_bytes :
    (samples : List ℕ) (i : ℕ)
    → i < length samples
    → read_u24 (data_bytes samples) (3 * i) ≡ get_or samples i 0 % 2 ^ 24
read_u24-data_bytes [] i h = absurd (omega arith)
read_u24-data_bytes (s ∷ samples) zero h = omega arith
read_u24-data_bytes (s ∷ samples) (suc i) h =
    let here : 3 * suc i ≡ 3 + 3 * i = omega arith in
    ap (read_u24 (data_bytes (s ∷ samples))) here
    ∙ read_u24-append_right (sample_bytes s) (data_bytes samples) (3 * i)
    ∙ read_u24-data_bytes samples i (omega arith)

-- A WAV file of 24-bit samples, at most the 4 GB that its 32-bit sizes can tell: the header is 44 bytes
-- and gives the size of what follows its first 8, the channels, the rate, the width of a sample and the size of the samples;
-- after it stands each sample, by its 24 bits, and nothing else.
pub write_wav_lem :
    (samples : List ℕ) (rate channels i : ℕ)
    → 36 + 3 * length samples < 2 ^ 32
    → rate < 2 ^ 32
    → channels < 2 ^ 16
    → i < length samples
    → let out = write_wav samples rate channels 24 in
      (length out ≡ 44 + 3 * length samples)
      × (read_u32 out 4 ≡ 36 + 3 * length samples)
      × (read_u16 out 22 ≡ channels)
      × (read_u32 out 24 ≡ rate)
      × (read_u16 out 34 ≡ 24)
      × (read_u32 out 40 ≡ 3 * length samples)
      × (read_u24 out (44 + 3 * i) ≡ get_or samples i 0 % 2 ^ 24)
unfolding write_wav wav_header push_u32 push_u16 push_bytes
write_wav_lem samples rate channels i fits r c h =
    let d = u32 (u32 (length samples) * 3) in
    let whole = push_samples_lem (wav_header rate channels 24 d) samples in
    let size = length-data_bytes samples in
    rw whole (
      omega (arith, size),
      omega arith,
      omega arith,
      omega arith,
      refl,
      omega arith,
      read_u24-append_right (wav_header rate channels 24 d) (data_bytes samples) (3 * i)
          ∙ read_u24-data_bytes samples i h,
    )
