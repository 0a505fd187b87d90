-- ===== src/Shared/Tests.antt =====
-- Runs of the shared-memory components on concrete data.
use userface.Base.{
  ℕ, ◌+◌, ◌*◌, ◌%◌, ◌/◌, ◌-◌, ◌≤◌, ◌<◌, ◌≡◌, ◌≢◌, ◌⊎◌, refl, arith, [], ◌∷◌, some, true, false,
  get_elem?, take, bit_and,
}
use userface.Base.Int.{pos, ◌≤ℤ◌}
use userface.Shared.Ring.{
  Ring, Slot, slot_count, init, acquire_write, commit_write, acquire_read, depth, mark_odd,
  mark_even, store_sample_time, store_host_time, stable_seed,
}
use userface.Shared.Ring.Fifo
use userface.Shared.Ring.Seqlock
use userface.Shared.ZeroTimestamp.{Input, frames, make, next, run, stamp, stale_ticks}
use userface.Shared.ZeroTimestamp.Bounds.{host_time_bounds}
use userface.Shared.ZeroTimestamp.Timeline.{sample_time_grid}
use userface.Shared.TxFill.{TxFill, begin_packet}
use userface.Shared.TxFill.Packet.{packet_frames, packet_underruns}

abbrev pub blank : Slot
blank = record { frame_count = 0; channel_count = 0; audio = [] }

-- A slot of two stereo frames.
abbrev two_frames : Slot
two_frames = record { frame_count = 2; channel_count = 2; audio = 256 ∷ 512 ∷ 768 ∷ 1024 ∷ [] }

abbrev pub mapping : Ring ℕ
mapping = record {
  magic = 0;
  slots = 0;
  instance_id = 0;
  frames_per_slot = 0;
  channel_count = 0;
  head = 0;
  tail = 0;
  overruns = 0;
  underruns = 0;
  ts_seed = 0;
  ts_sample_time = 0;
  ts_host_time = 0;
  device_rate = 0;
  requested_rate = 0;
  request_seq = 0;
  clock_source = 0;
  clock_locked = 0;
  requested_clock_source = 0;
  control_seq = 0;
  hal_locked = 0;
  hal_unlocks = 0;
  hal_seed = 0;
  slot = blank ∷ blank ∷ blank ∷ blank ∷ blank ∷ blank ∷ blank ∷ blank ∷ [];
}

-- The producer sends one slot and claims a second while the consumer looks at the first.
abbrev one_inside : Fifo.System ℕ
one_inside =
    let s = Fifo.start ℕ 0 7 mapping in
    record s {
      ring = record (s.ring) {
        slot = two_frames ∷ blank ∷ blank ∷ blank ∷ blank ∷ blank ∷ blank ∷ blank ∷ [];
        head = 1;
      };
      writing = some 1;
      reading = some 0;
      sent = two_frames ∷ [];
    }

one_inside-Reach : Fifo.Reach ℕ (Fifo.start ℕ 0 7 mapping) one_inside
unfolding init acquire_write commit_write acquire_read
one_inside-Reach =
    Fifo.next
      (Fifo.next
        (Fifo.next
          (Fifo.next (Fifo.next Fifo.here (Fifo.claim refl refl)) (Fifo.fill two_frames refl))
          (Fifo.send refl refl))
        (Fifo.claim refl refl))
      (Fifo.look refl refl)

first_in_first_out_example :
    ([] ≡ take 0 (two_frames ∷ [])) × (0 + depth one_inside.ring ≡ 1) × (depth one_inside.ring ≤ 8)
first_in_first_out_example =
    Fifo.first_in_first_out ℕ 0 7 mapping {s = one_inside} refl one_inside-Reach

stored_in_order_example :
    get_elem? one_inside.ring.slot (bit_and (one_inside.ring.tail + 0) (slot_count - 1))
    ≡ get_elem? one_inside.sent (0 + 0)
unfolding depth init
stored_in_order_example =
    Fifo.stored_in_order ℕ 0 7 mapping {s = one_inside} 0 refl one_inside-Reach (omega arith)

no_shared_slot_example : ◌≢◌ {A = ℕ} 1 0
no_shared_slot_example =
    Fifo.no_shared_slot ℕ 0 7 mapping {s = one_inside} 1 0 refl one_inside-Reach refl refl

-- The plug-in has read the pair that the daemon published first.
abbrev one_read : Seqlock.System ℕ
one_read =
    let s = Seqlock.start ℕ 0 7 mapping in
    record s {
      ring = record (s.ring) { ts_seed = 2; ts_sample_time = 480; ts_host_time = 100 };
      reader = Seqlock.returned 2 480 100;
      published = (480, 100) ∷ [];
    }

one_read-Reach : Seqlock.Reach ℕ (Seqlock.start ℕ 0 7 mapping) one_read
unfolding init mark_odd mark_even store_sample_time store_host_time stable_seed
one_read-Reach =
    Seqlock.next
      (Seqlock.next
        (Seqlock.next
          (Seqlock.next
            (Seqlock.next
              (Seqlock.next
                (Seqlock.next (Seqlock.next Seqlock.here (Seqlock.begin 480 100 refl))
                  (Seqlock.time refl))
                (Seqlock.host refl))
              (Seqlock.finish refl))
            (Seqlock.load_seed refl))
          (Seqlock.load_time refl))
        (Seqlock.load_host refl))
      (Seqlock.accept refl refl)

read_whole_example :
    (2 % 2 ≡ 0) × (0 < 2) × (get_elem? one_read.published (2 / 2 - 1) ≡ some (480, 100))
read_whole_example =
    Seqlock.read_whole ℕ 0 7 mapping {s = one_read} 2 100 480 one_read-Reach (omega arith) refl

-- Two calls of the plug-in's clock, the first without a device clock.
abbrev no_device : Input
no_device = record { now = 1000; dev_valid = false; dev_sample = frames 0; dev_host = 0 }

abbrev device : Input
device = record { now = 1100; dev_valid = true; dev_sample = frames 512; dev_host = 1090 }

host_time_bounds_example :
    let c = run (no_device ∷ []) (make 512 100 50) in
    ((stamp c).host_time ≤ (stamp (next device c)).host_time)
    × (1100 ≤ (stamp (next device c)).host_time + stale_ticks (make 512 100 50))
host_time_bounds_example =
    host_time_bounds 512 100 50 (no_device ∷ []) device (omega arith)
      (omega arith, omega arith, (omega arith, omega arith, _))

sample_time_grid_example :
    let c = run (no_device ∷ []) (make 512 100 50) in
    ((units : ℕ) × ((stamp c).sample_time ≡ pos (units * (make 512 100 50).period)))
    × ((stamp c).sample_time ≤ℤ (stamp (next device c)).sample_time)
sample_time_grid_example =
    sample_time_grid 512 100 50 (no_device ∷ []) device (omega arith) (omega arith, omega arith, _)

-- A filler that holds the slot 0 of a ring with one slot inside.
abbrev filling : TxFill
filling = record {
  slot = some 0;
  pos = 0;
  channels = 2;
  held = 0;
  held_run = 0;
  dry_packet = true;
  dry_tick = false;
  last = 0 ∷ 0 ∷ [];
}

abbrev filled : Ring ℕ
filled = record mapping {
  slots = 8;
  head = 1;
  slot = two_frames ∷ blank ∷ blank ∷ blank ∷ blank ∷ blank ∷ blank ∷ blank ∷ [];
}

commits-underruns : (k : ℕ) (r : Ring ℕ) → (commit_write r).underruns ≡ r.underruns
unfolding commit_write
commits-underruns k r = refl

packet_underruns_example :
    (((packet_frames 3 (λ k r. commit_write r) (begin_packet filling) filled).1.underruns ≡ 0)
      × ((packet_frames 3 (λ k r. commit_write r) (begin_packet filling) filled).0.dry_packet
          ≡ false))
    ⊎ (((packet_frames 3 (λ k r. commit_write r) (begin_packet filling) filled).1.underruns ≡ 1)
        × ((packet_frames 3 (λ k r. commit_write r) (begin_packet filling) filled).0.dry_packet
            ≡ true))
packet_underruns_example =
    packet_underruns 3 (λ k r. commit_write r) filling filled commits-underruns
