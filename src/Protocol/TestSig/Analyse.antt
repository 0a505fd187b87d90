-- ===== src/Protocol/TestSig/Analyse.antt =====
-- The analyser on an undamaged recording.
use userface.Base.{
  ℕ, zero, suc, ◌+◌, ◌*◌, ◌%◌, ◌^◌, ◌≤◌, ◌<◌, ◌≡◌, ◌∙◌, sym, ap, true, false, arith, bit_and, u32,
  u64, ◌==◌, List, get_or,
}
use userface.Base.Bits.{bit_and_ones}
use userface.Protocol.TestSig.{
  index_mask, testsig_sample, testsig_channel_of, TestSigReport, new_report, check_channel,
  check_index, analyse_frame, analyse_frames, testsig_analyse, is_clean, Walk,
}
use userface.Protocol.TestSig.Coding.{
  testsig_sample_fields, testsig_sample-valid, testsig_sample-nonzero,
}

abbrev good_report : ℕ → TestSigReport
good_report n = record new_report { started = true; frames_checked = n }

abbrev good_walk : ℕ → ℕ → Walk
good_walk n at = record { report = good_report n; have = true; prev_index = at % 2 ^ 16 }

same : (c : ℕ) → (c == c) ≡ true
same c = ground arith

channel_read : (c at : ℕ) → c < 16 → testsig_channel_of (testsig_sample c at) ≡ c
channel_read c at h = (testsig_sample_fields c at).0 ∙ omega arith

first_frame :
    (c at : ℕ)
    → c < 16
    → analyse_frame c 0
        (testsig_sample c at)
        (record { report = new_report; have = false; prev_index = 0 })
      ≡ good_walk 1 at
unfolding analyse_frame check_channel
first_frame c at h = rw (
  testsig_sample-nonzero c at,
  testsig_sample-valid c at,
  channel_read c at h,
  (testsig_sample_fields c at).1,
  same c,
)

expected : (at : ℕ) → (at + 1) % 2 ^ 16 ≡ bit_and (u32 (at % 2 ^ 16 + 1)) index_mask
expected at = omega arith ∙ sym (bit_and_ones 16 (u32 (at % 2 ^ 16 + 1)))

index_good :
    (c f at : ℕ) (r : TestSigReport) → check_index c f c ((at + 1) % 2 ^ 16) (at % 2 ^ 16) r ≡ r
unfolding check_index
index_good c f at r = rw (sym (expected at), same ((at + 1) % 2 ^ 16))

channel_good : (c f : ℕ) (r : TestSigReport) → check_channel c f c r ≡ r
unfolding check_channel
channel_good c f r = rw (same c)

next_frame :
    (c f n at : ℕ)
    → c < 16
    → n + 1 < 2 ^ 64
    → analyse_frame c f (testsig_sample c (at + 1)) (good_walk n at) ≡ good_walk (n + 1) (at + 1)
unfolding analyse_frame
next_frame c f n at h small =
    let count : u64 (n + 1) ≡ n + 1 = omega arith in
    rw (
      testsig_sample-valid c (at + 1),
      channel_read c (at + 1) h,
      (testsig_sample_fields c (at + 1)).1,
      channel_good c f (good_report n),
      index_good c f at (good_report n),
      count,
    )

good_frames :
    (n : ℕ) (frames : List ℕ) (channels column c at : ℕ)
    → c < 16
    → n + 1 < 2 ^ 64
    → ((f : ℕ) → f ≤ n → get_or frames (u64 (f * channels + column)) 0 ≡ testsig_sample c (at + f))
    → analyse_frames (suc n) frames channels column c ≡ good_walk (n + 1) (at + n)
unfolding analyse_frames
good_frames zero frames channels column c at h small good =
    rw (good 0 (omega arith)) (first_frame c (at + 0) h)
good_frames (suc n) frames channels column c at h small good =
    let before =
      good_frames n frames channels column c at h (omega arith) (λ f k. good f (omega arith)) in
    let place : at + suc n ≡ at + n + 1 = omega arith in
    let count : suc n + 1 ≡ n + 1 + 1 = omega arith in
    rw (good (suc n) (omega arith), before, place, count)
      (next_frame c (suc n) (n + 1) (at + n) h (omega arith))

-- A recording of `n + 1` frames whose column holds the test signal of its channel without a break, from
-- any frame of the signal on and across its wraps, is reported as clean: started, with no fault, no
-- frame dropped, and every frame checked.
pub testsig_analyse-clean :
    (n : ℕ) (frames : List ℕ) (channels column c at : ℕ)
    → c < 16
    → n + 1 < 2 ^ 64
    → ((f : ℕ) → f ≤ n → get_or frames (u64 (f * channels + column)) 0 ≡ testsig_sample c (at + f))
    → (is_clean (testsig_analyse frames (suc n) channels column c) ≡ true)
      × ((testsig_analyse frames (suc n) channels column c).frames_checked ≡ n + 1)
      × ((testsig_analyse frames (suc n) channels column c).dropped_frames ≡ 0)
unfolding testsig_analyse is_clean
testsig_analyse-clean n frames channels column c at h small good =
    let e = good_frames n frames channels column c at h small good in
    (
      ap (λ (w : Walk). is_clean w.report) e,
      ap (λ (w : Walk). w.report.frames_checked) e,
      ap (λ (w : Walk). w.report.dropped_frames) e,
    )
