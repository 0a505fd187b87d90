-- ===== src/Protocol/TestSig.antt =====
-- include/uf/protocol/testsig.hpp: the test signal whose samples carry their channel and their index.
-- An `i32` is the 32-bit word that stands for it.
pub mod Coding
pub mod Analyse
use userface.Base.{
  zero, suc, ◌-◌, not, ◌&&◌, u64, ltb, List, [], ◌∷◌, ◌++◌, length, get_or, ℕ, ◌+◌, ◌*◌, ◌/◌, ◌^◌,
  Bool, true, false, bit_and, bit_or, bit_xor, u32, ◌<<◌, ◌>>◌, ◌==◌, if◌then◌else◌,
}

abbrev pub index_mask : ℕ
index_mask = 0xffff

abbrev pub marker : ℕ
marker = 0x80_0000

unfoldable pub testsig_check : ℕ → ℕ → ℕ
testsig_check channel index = bit_and (bit_xor (bit_xor channel index) (index >> 8)) 0x7

unfoldable pub testsig_sample : ℕ → ℕ → ℕ
testsig_sample channel frame =
    let ch = bit_and channel 0xf in
    let ix = u32 (bit_and frame index_mask) in
    let raw =
      bit_or (bit_or (bit_or marker (u32 (ch << 19))) (u32 (ix << 3))) (testsig_check ch ix) in
    bit_or raw 0xff00_0000

unfoldable pub testsig_channel_of : ℕ → ℕ
testsig_channel_of sample = bit_and (sample >> 19) 0xf

unfoldable pub testsig_index_of : ℕ → ℕ
testsig_index_of sample = bit_and (sample >> 3) index_mask

unfoldable pub testsig_valid : ℕ → Bool
testsig_valid sample =
    let raw = bit_and sample 0xff_ffff in
    if bit_and raw marker == 0
    then false
    else testsig_sample (testsig_channel_of sample) (testsig_index_of sample) == sample

-- The faults of `TestSigFault`.
pub data TestSigFault : Type 0 where
  gap repeat backwards wrong_channel not_encoded : TestSigFault

-- `delta` is an `i64`, the 64-bit word that stands for it.
pub record TestSigEvent : Type 0 where
  pub fault : TestSigFault
  pub channel : ℕ
  pub frame : ℕ
  pub delta : ℕ
  pub saw_channel : ℕ

pub record TestSigReport : Type 0 where
  pub started : Bool
  pub frames_checked : ℕ
  pub gaps : ℕ
  pub repeats : ℕ
  pub backwards : ℕ
  pub wrong_channel : ℕ
  pub not_encoded : ℕ
  pub dropped_frames : ℕ
  pub events : List TestSigEvent

abbrev pub new_report : TestSigReport
new_report = record {
  started = false;
  frames_checked = 0;
  gaps = 0;
  repeats = 0;
  backwards = 0;
  wrong_channel = 0;
  not_encoded = 0;
  dropped_frames = 0;
  events = [];
}

unfoldable pub is_clean : TestSigReport → Bool
is_clean r =
    r.started
    && (r.gaps == 0)
    && (r.repeats == 0)
    && (r.backwards == 0)
    && (r.wrong_channel == 0)
    && (r.not_encoded == 0)

-- The events are capped at 64.
unfoldable pub add_event : TestSigEvent → List TestSigEvent → List TestSigEvent
add_event e events = if ltb (length events) 64 then events ++ (e ∷ []) else events

abbrev pub event : TestSigFault → ℕ → ℕ → ℕ → ℕ → TestSigEvent
event fault channel frame delta saw = record {
  fault = fault;
  channel = channel;
  frame = frame;
  delta = delta;
  saw_channel = saw;
}

-- The loop's variables: the report, `have` and `prevIndex`.
pub record Walk : Type 0 where
  pub report : TestSigReport
  pub have : Bool
  pub prev_index : ℕ

-- A sample that carries another channel's id.
unfoldable pub check_channel : ℕ → ℕ → ℕ → TestSigReport → TestSigReport
check_channel expect f ch r = if ch == expect then r else record r {
  wrong_channel = u64 (r.wrong_channel + 1);
  events = add_event (event wrong_channel expect f 0 ch) r.events;
}

-- The index change `d`, not that of one frame on.
unfoldable pub check_jump : ℕ → ℕ → ℕ → ℕ → TestSigReport → TestSigReport
check_jump expect f ch d r =
    if d == 0
    then record r {
      repeats = u64 (r.repeats + 1);
      events = add_event (event repeat expect f 0 ch) r.events;
    }
    else if ltb d 32768
    then record r {
      gaps = u64 (r.gaps + 1);
      dropped_frames = u64 (r.dropped_frames + (d - 1));
      events = add_event (event gap expect f d ch) r.events;
    }
    else record r {
      backwards = u64 (r.backwards + 1);
      events = add_event (event backwards expect f (u64 (d + 2 ^ 64 - 65536)) ch) r.events;
    }

-- The index of a valid sample against the one before it.
unfoldable pub check_index : ℕ → ℕ → ℕ → ℕ → ℕ → TestSigReport → TestSigReport
check_index expect f ch ix prev r =
    if ix == bit_and (u32 (prev + 1)) index_mask
    then r
    else check_jump expect f ch (if ltb ix prev then ix + 65536 - prev else ix - prev) r

-- One round of the loop of `testsig_analyse`, on sample `s` of frame `f`.
unfoldable pub analyse_frame : ℕ → ℕ → ℕ → Walk → Walk
analyse_frame expect f s w =
    if not w.have && (s == 0)
    then w
    else if not (testsig_valid s)
    then record w {
      report = record (w.report) {
        not_encoded = u64 (w.report.not_encoded + 1);
        events = add_event (event not_encoded expect f 0 (testsig_channel_of s)) w.report.events;
      };
    }
    else let ch = testsig_channel_of s in
      let ix = testsig_index_of s in
      let r = check_channel expect f ch w.report in
      if w.have
      then (let r' = check_index expect f ch ix w.prev_index r in
          record {
            report = record r' { frames_checked = u64 (r'.frames_checked + 1) };
            have = true;
            prev_index = ix;
          })
      else record {
        report = record r { started = true; frames_checked = u64 (r.frames_checked + 1) };
        have = true;
        prev_index = ix;
      }

-- The first `n` rounds over the column of a frame-major recording.
unfoldable pub analyse_frames : ℕ → List ℕ → ℕ → ℕ → ℕ → Walk
analyse_frames zero frames channels column expect = record {
  report = new_report;
  have = false;
  prev_index = 0;
}
analyse_frames (suc f) frames channels column expect =
    analyse_frame expect f (get_or frames (u64 (f * channels + column)) 0)
      (analyse_frames f frames channels column expect)

unfoldable pub testsig_analyse : List ℕ → ℕ → ℕ → ℕ → ℕ → TestSigReport
testsig_analyse frames frame_count channels column expect =
    (analyse_frames frame_count frames channels column expect).report
