-- ===== src/Daemon/Capture/Tests.antt =====
-- Runs of the capture on concrete data.
use userface.Base.{ℕ, ◌+◌, ◌*◌, ◌≤◌, ◌<◌, ◌≡◌, refl, true, false, List, [], ◌∷◌, none, some, arith}
use userface.Protocol.Endian.{le32_to_host}
use userface.Protocol.Codec.{frames_in_payload}
use userface.Shared.Tests.{mapping}
use userface.Daemon.Capture.{Capture, packet_frames, check_cycle, drain_to}
use userface.Daemon.Capture.Cycles.{stamp_of, check_cycle_lem}
use userface.Daemon.Capture.Clock.{frames_in, drain_to_clock}

-- The second before its packet came in cycle 7999 of second 7.
abbrev running : Capture ℕ
running = record {
  ring = mapping;
  cap_slot = none;
  cap_fill = 0;
  frame = [];
  device_frames = 100;
  consumed = 511;
  n_full = 0;
  n_empty = 0;
  n_other = 0;
  n_dup_ts = 0;
  last_ts = 0;
  have_cycle = true;
  last_cycle = 63999;
  cycle_gaps = 0;
  missed_cycles = 0;
  worst_gap = 0;
  frames_at_snap = 0;
  have_anchor = false;
}

-- The packet comes 12 cycles later, so past the wrap of the time stamp.
check_cycle_example :
    let t = check_cycle (3 * 65536 + stamp_of (63999 + 12)) running in
    (t.last_cycle ≡ 11) × (t.cycle_gaps ≡ 1) × (t.missed_cycles ≡ 11) × (t.worst_gap ≡ 12)
check_cycle_example = check_cycle_lem 63999 12 3 running refl refl (omega arith)

-- A packet of two stereo frames, after 8 bytes of time stamp and header.
abbrev two_frames : List ℕ
two_frames =
    0 ∷ 0 ∷ 0 ∷ 0 ∷ 0 ∷ 0 ∷ 16 ∷ 0 ∷ 0 ∷ 0 ∷ 0 ∷ 0 ∷ 0 ∷ 0 ∷ 0 ∷ 0 ∷ 0 ∷ 0 ∷ 0 ∷ 0 ∷ 0 ∷ 0 ∷ 0 ∷ 0
    ∷ []

-- Three such packets, over the end of the driver's ring; the snapshot counted the first.
drain_to_clock_example :
    let t = drain_to 514 2 64 (some 512) (λ i. two_frames) running in
    (t.consumed ≡ 514)
    × (t.device_frames ≡ 106)
    × (511 < 512 → 512 ≤ 514 → (t.have_anchor ≡ true) × (t.frames_at_snap ≡ 102))
unfolding frames_in packet_frames frames_in_payload le32_to_host
drain_to_clock_example =
    drain_to_clock 514 2 64 512 (λ i. two_frames) running (omega arith) (omega arith) (omega arith)
