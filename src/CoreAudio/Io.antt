-- ===== src/CoreAudio/Io.antt =====
-- UFIOHandler of platform/coreaudio/UFAudioDriver.cpp: the cycles of CoreAudio, which come a stream at a
-- time, out of the capture ring and into the playback ring. A buffer of samples is a function of the
-- index; a mapped ring is the ring with a number that tells one mapping from another. A sample time, a
-- double in the code, is only compared: it is an integer.
pub mod Calls
pub mod Cycle
pub mod Slots
pub mod Flush
pub mod Playback
pub mod Columns
pub mod Take
pub mod Pull
pub mod Requests
pub mod Reads
pub mod Tests
use userface.Base.{
  ℕ, zero, suc, ◌+◌, ◌-◌, ◌*◌, ◌/◌, ◌%◌, ◌^◌, Bool, true, false, not, ◌&&◌, ◌||◌, List, Option,
  none, some, u32, set, get_or, ltb, leb, ◌==◌, if◌then◌else◌,
}
use userface.Base.Int.{ℤ, pos, negsuc}
use userface.Shared.Ring.{
  Ring, Slot, frames_per_slot, max_channels, acquire_write, commit_write, acquire_read, commit_read,
}
use userface.Shared.TxFill.{slot_at}

abbrev pub max_cycle_frames : ℕ
max_cycle_frames = 4096

-- What the handler asks of a stream: its width and its first channel, counted from 1.
pub record Stream : Type 0 where
  pub channels : ℕ
  pub starting_channel : ℕ

-- A comparison of two sample times.
unfoldable pub same_time : ℤ → ℤ → Bool
same_time (pos a) (pos b) = a == b
same_time (negsuc a) (negsuc b) = a == b
same_time (pos a) (negsuc b) = false
same_time (negsuc a) (pos b) = false

-- `memcpy` of `n` samples from index `from` of `src` to index `at`, and `memset` to 0.
unfoldable pub copy : ℕ → ℕ → (ℕ → ℕ) → ℕ → (ℕ → ℕ) → ℕ → ℕ
copy at n src from dst j = if leb at j && ltb j (at + n) then src (from + (j - at)) else dst j

unfoldable pub clear : ℕ → ℕ → (ℕ → ℕ) → ℕ → ℕ
clear at n dst j = if leb at j && ltb j (at + n) then 0 else dst j

unfoldable pub first_channel : Stream → ℕ
first_channel s = if s.starting_channel == 0 then 0 else s.starting_channel - 1

-- The frames of a buffer of `bytes` bytes.
unfoldable pub cycle_frames : Stream → ℕ → ℕ
cycle_frames s bytes =
    let frames = bytes / u32 (s.channels * 4) in
    if ltb max_cycle_frames frames then max_cycle_frames else frames

-- `chan < avail ? chan : avail`
unfoldable pub columns : Stream → ℕ
columns s =
    let avail = max_channels - first_channel s in if ltb s.channels avail then s.channels else avail

-- A stream that lies outside of the ring's frame.
unfoldable pub is_outside : Stream → Bool
is_outside s = s.channels == 0 || leb max_channels (first_channel s)

-- The part of `UFIOHandler` that is the playback's.
pub record Output : Type 0 where
  pub last_playback : Option ℕ
  pub out_stage : ℕ → ℕ
  pub wr_slot : Option ℕ
  pub wr_frame : ℕ
  pub out_cycle : ℤ
  pub out_frames : ℕ
  pub out_streams_seen : ℕ
  pub out_stream_count : ℕ

-- The part of `UFIOHandler` that is the capture's.
pub record Input : Type 0 where
  pub last_capture : Option ℕ
  pub in_stage : ℕ → ℕ
  pub rd_slot : Option ℕ
  pub rd_frame : ℕ
  pub in_cycle : ℤ

-- `ring != lastRing_`
unfoldable pub is_new : ℕ → Option ℕ → Bool
is_new ring none = true
is_new ring (some last) = not (ring == last)

-- `if (playback != lastPlayback_) { ... }`
unfoldable pub attach_playback : ℕ → Output → Output
attach_playback ring s =
    if is_new ring s.last_playback
    then record s {
      last_playback = some ring;
      wr_slot = none;
      wr_frame = 0;
      out_cycle = negsuc 0;
      out_frames = 0;
    }
    else s

-- `if (capture != lastCapture_) { ... }`
unfoldable pub attach_capture : ℕ → Input → Input
attach_capture ring s =
    if is_new ring s.last_capture
    then record s { last_capture = some ring; rd_slot = none; rd_frame = 0; in_cycle = negsuc 0 }
    else s

-- The loop over frames that copies a stream's columns into the stage: the first `f`.
unfoldable pub put_columns : ℕ → Stream → (ℕ → ℕ) → (ℕ → ℕ) → ℕ → ℕ
put_columns zero s samples stage = stage
put_columns (suc f) s samples stage =
    copy (f * max_channels + first_channel s) (columns s) samples (f * s.channels)
      (put_columns f s samples stage)

-- The loop over frames that copies a stream's columns out of the stage: the first `f`.
unfoldable pub get_columns : ℕ → Stream → (ℕ → ℕ) → (ℕ → ℕ) → ℕ → ℕ
get_columns zero s stage samples = samples
get_columns (suc f) s stage samples =
    copy (f * s.channels) (columns s) stage (f * max_channels + first_channel s)
      (get_columns f s stage samples)

-- The `memcpy` of a frame into a slot, whose samples are a list: channel `c`, with `n` to go.
unfoldable pub store_channels : ℕ → ℕ → (ℕ → ℕ) → ℕ → ℕ → List ℕ → List ℕ
store_channels zero c stage from at audio = audio
store_channels (suc n) c stage from at audio =
    store_channels n (c + 1) stage from at (set audio (at + c) (stage (from + c)))

module _ {Time : Type 0} where
  -- `if (!wrSlot_) { ... }`, less the break.
  unfoldable pub claim : Output → Ring Time → Output × Ring Time
  claim s r = elim s.wr_slot [
    | some i ↦ (s, r)
    | none ↦ let (got, r') = acquire_write r in (record s { wr_slot = got; wr_frame = 0 }, r')
  ]

  -- Frame `f` of the stage into slot `i`, which is handed over when it is full.
  unfoldable pub put_frame : ℕ → ℕ → Output → Ring Time → Output × Ring Time
  put_frame f i s r =
      let there = slot_at r i in
      let filled = record there {
        audio =
            store_channels max_channels 0 s.out_stage (f * max_channels) (s.wr_frame * max_channels)
              there.audio;
      } in
      let frame = u32 (s.wr_frame + 1) in
      let full = record filled { frame_count = frame; channel_count = max_channels } in
      if leb frames_per_slot frame
      then (
        record s { wr_slot = none; wr_frame = frame },
        commit_write (record r { slot = set r.slot i full }),
      )
      else (record s { wr_frame = frame }, record r { slot = set r.slot i filled })

  -- The loop of `flushStageToRing`, from frame `f` on, with `n` to go. A full ring ends it.
  unfoldable pub flush_frames : ℕ → ℕ → Output → Ring Time → Output × Ring Time
  flush_frames zero f s r = (s, r)
  flush_frames (suc n) f s r =
      let (s1, r1) = claim s r in
      elim s1.wr_slot [
        | none ↦ (s1, r1)
        | some i ↦ let (s2, r2) = put_frame f i s1 r1 in flush_frames n (f + 1) s2 r2
      ]

  unfoldable pub flush_stage_to_ring : Output → Ring Time → Output × Ring Time
  flush_stage_to_ring s r =
      let (t, r') = flush_frames s.out_frames 0 s r in (record t { out_frames = 0 }, r')

  -- `if (sampleTime != outCycle_) { ... }`
  unfoldable pub begin_cycle : ℤ → ℕ → Output → Ring Time → Output × Ring Time
  begin_cycle time frames s r =
      let (t, r') = flush_stage_to_ring s r in
      if same_time time s.out_cycle then (s, r) else (
        record t {
          out_cycle = time;
          out_frames = frames;
          out_streams_seen = 0;
          out_stage = clear 0 (frames * max_channels) t.out_stage;
        },
        r',
      )

  -- `if (++outStreamsSeen_ >= outStreamCount_) { ... }`
  unfoldable pub end_stream : Output → Ring Time → Output × Ring Time
  end_stream s r =
      let seen = record s { out_streams_seen = u32 (s.out_streams_seen + 1) } in
      let (t, r') = flush_stage_to_ring seen r in
      if leb s.out_stream_count seen.out_streams_seen
      then (record t { out_cycle = negsuc 0 }, r')
      else (seen, r)

  -- `OnWriteMixedOutput`, with a ring mapped.
  unfoldable pub write_stream :
      ℕ → Stream → ℤ → (ℕ → ℕ) → ℕ → Output → Ring Time → Output × Ring Time
  write_stream ring st time samples bytes s r =
      let s0 = attach_playback ring s in
      let frames = cycle_frames st bytes in
      let (s1, r1) = begin_cycle time frames s0 r in
      if is_outside st
      then (s0, r)
      else end_stream (record s1 { out_stage = put_columns frames st samples s1.out_stage }) r1

  unfoldable pub on_write_mixed_output :
      Stream → ℤ → (ℕ → ℕ) → ℕ → Output → Option (ℕ × Ring Time) → Output × Option (ℕ × Ring Time)
  on_write_mixed_output st time samples bytes s none = (s, none)
  on_write_mixed_output st time samples bytes s (some (ring, r)) =
      let (t, r') = write_stream ring st time samples bytes s r in (t, some (ring, r'))

  unfoldable pub take_slot : Input → Ring Time → Input × Ring Time
  take_slot s r = let (got, r') = acquire_read r in (record s { rd_slot = got; rd_frame = 0 }, r')

  -- `if (!rdSlot_ || rdFrame_ >= rdSlot_->frameCount) { ... }`, less the break.
  unfoldable pub next_slot : Input → Ring Time → Input × Ring Time
  next_slot s r = elim s.rd_slot [
    | none ↦ take_slot s r
    | some i ↦
        if leb (slot_at r i).frame_count s.rd_frame then take_slot s (commit_read r) else (s, r)
  ]

  -- The loop of `fillStageFromRing`, from frame `f` on, with `n` to go: an underrun leaves silence.
  unfoldable pub fill_frames : ℕ → ℕ → Input → Ring Time → Input × Ring Time
  fill_frames zero f s r = (s, r)
  fill_frames (suc n) f s r =
      let (s1, r1) = next_slot s r in
      elim s1.rd_slot [
        | none ↦ (
          record s1 { in_stage = clear (f * max_channels) (suc n * max_channels) s1.in_stage },
          r1,
        )
        | some i ↦
            let audio = λ (j : ℕ). get_or (slot_at r1 i).audio j 0 in
            fill_frames n (f + 1)
              (record s1 {
                in_stage =
                    copy (f * max_channels) max_channels audio (s1.rd_frame * max_channels)
                      s1.in_stage;
                rd_frame = u32 (s1.rd_frame + 1);
              })
              r1
      ]

  -- `OnReadClientInput`, with a ring mapped: the samples that it hands out, too.
  unfoldable pub read_stream : ℕ → Stream → ℤ → ℕ → Input → Ring Time → (ℕ → ℕ) × Input × Ring Time
  read_stream ring st time bytes s r =
      let s0 = attach_capture ring s in
      let frames = cycle_frames st bytes in
      let (t, r') = fill_frames frames 0 (record s0 { in_cycle = time }) r in
      let silence : ℕ → ℕ = λ j. 0 in
      if is_outside st
      then (silence, s0, r)
      else if same_time time s0.in_cycle
      then (get_columns frames st s0.in_stage silence, s0, r)
      else (get_columns frames st t.in_stage silence, t, r')

  unfoldable pub on_read_client_input :
      Stream → ℤ → ℕ → Input → Option (ℕ × Ring Time) → (ℕ → ℕ) × Input × Option (ℕ × Ring Time)
  on_read_client_input st time bytes s none = (λ j. 0, s, none)
  on_read_client_input st time bytes s (some (ring, r)) =
      let (samples, t, r') = read_stream ring st time bytes s r in (samples, t, some (ring, r'))
