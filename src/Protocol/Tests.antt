-- ===== src/Protocol/Tests.antt =====
-- Runs of the protocol's functions on concrete data.
use userface.Base.{
  ℕ, zero, suc, ◌+◌, ◌*◌, ◌≤◌, ◌<◌, ◌≡◌, inl, inr, refl, arith, true, List, [], ◌∷◌, get_or,
  read_u16, read_u32,
}
use userface.Base.{u64}
use userface.Protocol.TestSig.{testsig_sample, is_clean, testsig_analyse}
use userface.Protocol.TestSig.Analyse.{testsig_analyse-clean}
use userface.Base.{length}
use userface.Protocol.Wav.{write_wav}
use userface.Protocol.Wav.Layout.{read_u24, write_wav_lem}
use userface.Protocol.Codec.{encode_packet, decode_packet}
use userface.Protocol.Codec.Sample.{Is24}
use userface.Protocol.Codec.Packet.{decode_packet-encode_packet}
use userface.Protocol.Settings.{default_settings, assemble_conf_block}
use userface.Protocol.Settings.ReadBack.{settings_of, settings_of-assemble_conf_block}

-- One stereo frame.
abbrev stereo : List ℕ
stereo = 1 ∷ 0xffff_ffff ∷ []

abbrev eight_zeros : List ℕ
eight_zeros = 0 ∷ 0 ∷ 0 ∷ 0 ∷ 0 ∷ 0 ∷ 0 ∷ 0 ∷ []

stereo-Is24 : (j : ℕ) → j < 2 → Is24 (get_or stereo j 0)
stereo-Is24 zero h = inl (omega arith)
stereo-Is24 (suc zero) h = inr (omega arith, omega arith)
stereo-Is24 (suc (suc j)) h = absurd (omega arith)

decode_packet-encode_packet_example :
    let (bytes, packet) = encode_packet stereo 1 2 eight_zeros in
    let (frames, decoded) = decode_packet packet bytes 2 (0 ∷ 0 ∷ []) in
    (bytes ≡ 8) × (frames ≡ 1) × (get_or decoded 1 0 ≡ 0xffff_ffff)
decode_packet-encode_packet_example =
    decode_packet-encode_packet stereo 1 2 eight_zeros (0 ∷ 0 ∷ []) 1 (omega arith) (omega arith)
      (omega arith) (omega arith) (omega arith) stereo-Is24

settings_of-assemble_conf_block_example :
    settings_of (assemble_conf_block default_settings) ≡ default_settings
settings_of-assemble_conf_block_example = settings_of-assemble_conf_block default_settings

-- Two frames of channel 0, across a wrap.
abbrev recorded : List ℕ
recorded = testsig_sample 0 65535 ∷ testsig_sample 0 65536 ∷ []

recorded_good : (f : ℕ) → f ≤ 1 → get_or recorded (u64 (f * 1 + 0)) 0 ≡ testsig_sample 0 (65535 + f)
recorded_good zero h = refl
recorded_good (suc zero) h = refl
recorded_good (suc (suc f)) h = absurd (omega arith)

testsig_analyse-clean_example :
    (is_clean (testsig_analyse recorded 2 1 0 0) ≡ true)
    × ((testsig_analyse recorded 2 1 0 0).frames_checked ≡ 2)
    × ((testsig_analyse recorded 2 1 0 0).dropped_frames ≡ 0)
testsig_analyse-clean_example =
    testsig_analyse-clean 1 recorded 1 0 0 65535 (omega arith) (omega arith) recorded_good

write_wav_example :
    let out = write_wav (7 ∷ 0xffff_ffff ∷ []) 48000 2 24 in
    (length out ≡ 50)
    × (read_u32 out 4 ≡ 42)
    × (read_u16 out 22 ≡ 2)
    × (read_u32 out 24 ≡ 48000)
    × (read_u16 out 34 ≡ 24)
    × (read_u32 out 40 ≡ 6)
    × (read_u24 out 47 ≡ 0xff_ffff)
write_wav_example =
    write_wav_lem (7 ∷ 0xffff_ffff ∷ []) 48000 2 1 (omega arith) (omega arith) (omega arith)
      (omega arith)
