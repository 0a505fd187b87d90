-- ===== src/CoreAudio/Io/Tests.antt =====
-- A cycle of playback on concrete data.
use userface.Base.{
  ℕ, zero, suc, ◌+◌, ◌-◌, ◌≤◌, ◌<◌, ◌≡◌, refl, ap, ◌⊎◌, [], ◌∷◌, none, some, arith, length, set,
  ◌%◌,
}
use userface.Base.Int.{pos, negsuc}
use userface.Shared.Ring.{Ring, Slot}
use userface.Shared.TxFill.{zeros}
use userface.Shared.Tests.{mapping}
use userface.CoreAudio.Io.{Output, Input, same_time}
use userface.CoreAudio.Io.Calls.{Call, no_call, one_call, mixed}
use userface.CoreAudio.Io.Cycle.{write_all}
use userface.CoreAudio.Io.Slots.{slot_of, frame_of}
use userface.CoreAudio.Io.Flush.{position}
use userface.CoreAudio.Io.Take
use userface.CoreAudio.Io.Requests.{Request, no_request, one_request, read_all}
use userface.CoreAudio.Io.Reads.{AreHeard, read_cycle}
use userface.CoreAudio.Io.Playback.{cycle_in_ring}

abbrev silent_slot : Slot
silent_slot = record { frame_count = 0; channel_count = 0; audio = zeros 14336 }

abbrev empty_ring : Ring ℕ
empty_ring = record mapping {
  slots = 8;
  slot =
      silent_slot ∷ silent_slot ∷ silent_slot ∷ silent_slot ∷ silent_slot ∷ silent_slot
      ∷ silent_slot ∷ silent_slot ∷ [];
}

abbrev idle : Output
idle = record {
  last_playback = some 7;
  out_stage = λ j. 99;
  wr_slot = none;
  wr_frame = 0;
  out_cycle = negsuc 0;
  out_frames = 0;
  out_streams_seen = 0;
  out_stream_count = 2;
}

-- Two channels at the front and two from channel 9 on, two frames of each.
abbrev front : Call
front = record {
  stream = record { channels = 2; starting_channel = 1 };
  samples = λ j. 100 + j;
  bytes = 16;
}

abbrev phones : Call
phones = record {
  stream = record { channels = 2; starting_channel = 9 };
  samples = λ j. 200 + j;
  bytes = 16;
}

length-zeros : (n : ℕ) → length (zeros n) ≡ n
unfolding zeros
length-zeros zero = refl
length-zeros (suc n) = ap suc (length-zeros n)

silent : (i : ℕ) → i < 8 → length (slot_of empty_ring.slot i).audio ≡ 14336
silent zero h = length-zeros 14336
silent (suc zero) h = length-zeros 14336
silent (suc (suc zero)) h = length-zeros 14336
silent (suc (suc (suc zero))) h = length-zeros 14336
silent (suc (suc (suc (suc zero)))) h = length-zeros 14336
silent (suc (suc (suc (suc (suc zero))))) h = length-zeros 14336
silent (suc (suc (suc (suc (suc (suc zero)))))) h = length-zeros 14336
silent (suc (suc (suc (suc (suc (suc (suc zero))))))) h = length-zeros 14336
silent (suc (suc (suc (suc (suc (suc (suc (suc i)))))))) h = absurd (omega arith)

cycle_in_ring_example :
    let t = write_all 7 (pos 512) (front ∷ phones ∷ []) idle empty_ring in
    let p = position idle empty_ring in
    let p' = position t.0 t.1 in
    (p ≤ p')
    × (p' ≤ p + 2)
    × ((p' ≡ p + 2) ⊎ ((t.0.wr_slot ≡ none) × (empty_ring.tail + 8 ≤ t.1.head)))
    × ((g c : ℕ)
        → g < p' - p
        → c < 28
        → frame_of t.1.slot (p + g) c ≡ mixed 0 (front ∷ phones ∷ []) g c)
unfolding same_time
cycle_in_ring_example =
    cycle_in_ring 7 (pos 512) front (phones ∷ []) 2 idle empty_ring refl (omega arith)
      (one_call (omega arith) (omega arith) (omega arith) refl
        (one_call (omega arith) (omega arith) (omega arith) refl no_call))
      refl refl (omega arith)
      (record { slots = record { count = refl; audio = silent }; held = λ i h. cc h }) refl
      (omega arith) (omega arith)

-- A slot whose last frame has a first and a last sample.
abbrev heard_slot : Slot
heard_slot = record {
  frame_count = 512;
  channel_count = 28;
  audio = set (set (zeros 14336) 14308 7) 14335 9;
}

abbrev filled_ring : Ring ℕ
filled_ring = record empty_ring {
  slot =
      heard_slot ∷ silent_slot ∷ silent_slot ∷ silent_slot ∷ silent_slot ∷ silent_slot ∷ silent_slot
      ∷ silent_slot ∷ [];
  head = 1;
  tail = 0;
}

-- One frame is left of the slot.
abbrev waiting : Input
waiting = record {
  last_capture = some 7;
  in_stage = λ j. 99;
  rd_slot = some 0;
  rd_frame = 511;
  in_cycle = negsuc 0;
}

-- The first four channels and the last two.
abbrev first_four : Request
first_four = record { stream = record { channels = 4; starting_channel = 1 }; bytes = 32 }

abbrev last_two : Request
last_two = record { stream = record { channels = 2; starting_channel = 27 }; bytes = 16 }

whole_slots : (k : ℕ) → 0 ≤ k → k < 1 → (slot_of filled_ring.slot (k % 8)).frame_count ≡ 512
whole_slots zero low high = refl
whole_slots (suc k) low high = absurd (omega arith)

read_cycle_example :
    let o = read_all 7 (pos 512) (first_four ∷ last_two ∷ []) waiting filled_ring in
    AreHeard 2 511 filled_ring (first_four ∷ last_two ∷ []) o.0
    × (Take.position o.1 o.2 ≡ 512)
    × (o.2.head ≡ 1)
    × (o.2.slot ≡ filled_ring.slot)
unfolding same_time Take.position
read_cycle_example =
    read_cycle 7 (pos 512) first_four (last_two ∷ []) 2 waiting filled_ring refl (omega arith)
      (one_request (omega arith) (omega arith) (omega arith) refl
        (one_request (omega arith) (omega arith) (omega arith) refl no_request))
      refl
      (record {
        cursors = (omega arith, omega arith);
        whole = whole_slots;
        held = λ i h. let same : 0 ≡ i = cc h in (omega (arith, same), omega arith, omega arith);
      })
