-- ===== src/Daemon/Capture.antt =====
-- The capture side of the pump in platform/daemon/uf-daemon.cpp, with none of the diagnostic environment
-- variables set: packets out of the driver's ring, as frames into the capture ring. The level meters,
-- which are fed on the way, are left out. The counters and cursors are u64.
pub mod Cycles
pub mod Clock
pub mod Tests
use userface.Base.{
  ℕ, zero, suc, ◌+◌, ◌-◌, ◌*◌, ◌%◌, ◌^◌, Bool, true, false, not, ◌&&◌, ◌||◌, List, [], Option, none,
  some, bit_and, u32, u64, get_or, set, ltb, leb, ◌==◌, ◌<<◌, ◌>>◌, if◌then◌else◌,
}
use userface.Protocol.Endian.{le32_to_host}
use userface.Protocol.Codec.{frames_in_payload, decode_frame}
use userface.Shared.Ring.{Ring, Slot, frames_per_slot, max_channels, acquire_write, commit_write}
use userface.Shared.TxFill.{slot_at}

abbrev pub dext_slot_bytes : ℕ
dext_slot_bytes = 2048

abbrev pub cycle_gap_restart : ℕ
cycle_gap_restart = 8

pub record Capture (Time : Type 0) : Type 0 where
  pub ring : Ring Time
  pub cap_slot : Option ℕ
  pub cap_fill : ℕ
  pub frame : List ℕ
  pub device_frames : ℕ
  pub consumed : ℕ
  pub n_full : ℕ
  pub n_empty : ℕ
  pub n_other : ℕ
  pub n_dup_ts : ℕ
  pub last_ts : ℕ
  pub have_cycle : Bool
  pub last_cycle : ℕ
  pub cycle_gaps : ℕ
  pub missed_cycles : ℕ
  pub worst_gap : ℕ
  pub frames_at_snap : ℕ
  pub have_anchor : Bool

-- The cycles of a packet's time stamp, over a span of 8 seconds.
unfoldable pub cycle_of : ℕ → ℕ
cycle_of q0 = let ts = bit_and q0 0xffff in bit_and ts 0x1fff + bit_and (ts >> 13) 7 * 8000

-- `d` as a 64-bit word: an `int32_t` that stays negative has its wrap-around.
unfoldable pub cycle_step : ℕ → ℕ → ℕ
cycle_step cyc last = if leb last cyc then cyc - last else u64 (cyc + 8 * 8000 + 2 ^ 64 - last)

-- The loop over the channels of a frame, from channel `c` on.
unfoldable pub store_samples : ℕ → ℕ → List ℕ → ℕ → List ℕ → List ℕ
store_samples zero c frame base audio = audio
store_samples (suc left) c frame base audio =
    store_samples left (c + 1) frame base (set audio (base + c) (u32 (get_or frame c 0 << 8)))

-- The `memset` of the rest of the frame.
unfoldable pub clear_samples : ℕ → ℕ → List ℕ → List ℕ
clear_samples zero at audio = audio
clear_samples (suc left) at audio = clear_samples left (at + 1) (set audio at 0)

unfoldable pub store_frame : ℕ → List ℕ → ℕ → List ℕ → List ℕ
store_frame ch frame fill audio =
    clear_samples (max_channels - ch) (fill * max_channels + ch)
      (store_samples ch 0 frame (fill * max_channels) audio)

-- The frames of a packet of `len` bytes.
unfoldable pub packet_frames : ℕ → ℕ → ℕ
packet_frames dbq len =
    if not (len == 0) && leb len (dext_slot_bytes - 8) then frames_in_payload len dbq else 0

module _ {Time : Type 0} where
  -- The counters of packets, by their length, and of repeated time stamps.
  unfoldable pub count_packet : ℕ → ℕ → ℕ → Capture Time → Capture Time
  count_packet full_payload len q0 s = record s {
    n_empty = if len == 0 then u64 (s.n_empty + 1) else s.n_empty;
    n_full = if not (len == 0) && len == full_payload then u64 (s.n_full + 1) else s.n_full;
    n_other = if len == 0 || len == full_payload then s.n_other else u64 (s.n_other + 1);
    n_dup_ts = if q0 == s.last_ts then u64 (s.n_dup_ts + 1) else s.n_dup_ts;
    last_ts = q0;
  }

  -- The check of the cycle that a packet came in.
  unfoldable pub check_cycle : ℕ → Capture Time → Capture Time
  check_cycle q0 s =
      let cyc = cycle_of q0 in
      let d = cycle_step cyc s.last_cycle in
      let moved = record s { last_cycle = cyc; have_cycle = true } in
      if s.have_cycle
      then record moved {
        cycle_gaps = if d == 1 then s.cycle_gaps else u64 (s.cycle_gaps + 1);
        missed_cycles =
            if d == 1 then s.missed_cycles else u64 (s.missed_cycles + (d + 2 ^ 64 - 1));
        worst_gap = if ltb cycle_gap_restart d && ltb d (2 ^ 31) then u32 d else s.worst_gap;
      }
      else moved

  -- `if (!capSlot) { capSlot = cap->acquireWrite(); capFill = 0; }`
  unfoldable pub claim_slot : Capture Time → Capture Time
  claim_slot s = elim s.cap_slot [
    | some i ↦ s
    | none ↦
        let (got, r) = acquire_write s.ring in record s { ring = r; cap_slot = got; cap_fill = 0 }
  ]

  -- A frame that is in the slot: the slot is handed over when it is full.
  unfoldable pub finish_frame : ℕ → ℕ → Capture Time → Capture Time
  finish_frame ch i s =
      let fill = u32 (s.cap_fill + 1) in
      let full = record (slot_at s.ring i) { frame_count = fill; channel_count = ch } in
      if leb frames_per_slot fill
      then record s {
        ring = commit_write (record (s.ring) { slot = set s.ring.slot i full });
        cap_slot = none;
        cap_fill = fill;
      }
      else record s { cap_fill = fill }

  -- Frame `k` of the packet whose slot holds `bytes`.
  unfoldable pub put_frame : ℕ → List ℕ → ℕ → Capture Time → Capture Time
  put_frame dbq bytes k s = elim s.cap_slot [
    | none ↦ s
    | some i ↦
        let ch = if ltb dbq max_channels then dbq else max_channels in
        let out = decode_frame bytes (8 + k * dbq * 4) dbq s.frame 0 in
        let there = slot_at s.ring i in
        let filled = record there { audio = store_frame ch out s.cap_fill there.audio } in
        finish_frame ch i
          (record s { frame = out; ring = record (s.ring) { slot = set s.ring.slot i filled } })
  ]

  unfoldable pub capture_frame : ℕ → List ℕ → ℕ → Capture Time → Capture Time
  capture_frame dbq bytes k s = put_frame dbq bytes k (claim_slot s)

  -- The loop over the frames of a packet: the first `n`.
  unfoldable pub capture_frames : ℕ → ℕ → List ℕ → Capture Time → Capture Time
  capture_frames zero dbq bytes s = s
  capture_frames (suc k) dbq bytes s = capture_frame dbq bytes k (capture_frames k dbq bytes s)

  -- One turn of the drain loop. `snap` is the count of the interrupt's snapshot, if there is one.
  unfoldable pub drain_packet : ℕ → ℕ → Option ℕ → List ℕ → Capture Time → Capture Time
  drain_packet dbq full_payload snap bytes s =
      let q0 = le32_to_host bytes 0 in
      let len = le32_to_host bytes 4 >> 16 in
      let n = packet_frames dbq len in
      let seen = check_cycle q0 (count_packet full_payload len q0 s) in
      let taken = capture_frames n dbq bytes seen in
      let frames = u64 (taken.device_frames + n) in
      let consumed = u64 (taken.consumed + 1) in
      elim snap [
        | none ↦ record taken { device_frames = frames; consumed = consumed }
        | some c ↦ record taken {
          device_frames = frames;
          consumed = consumed;
          frames_at_snap = if consumed == c then frames else taken.frames_at_snap;
          have_anchor = consumed == c || taken.have_anchor;
        }
      ]

  -- The drain loop, with `n` packets to go; `slots` is the driver's ring of 512.
  unfoldable pub drain : ℕ → ℕ → ℕ → Option ℕ → (ℕ → List ℕ) → Capture Time → Capture Time
  drain zero dbq full_payload snap slots s = s
  drain (suc n) dbq full_payload snap slots s =
      drain n dbq full_payload snap slots
        (drain_packet dbq full_payload snap (slots (s.consumed % 512)) s)

  -- `while (consumed < total)`, in a tick that has no anchor yet.
  unfoldable pub drain_to : ℕ → ℕ → ℕ → Option ℕ → (ℕ → List ℕ) → Capture Time → Capture Time
  drain_to total dbq full_payload snap slots s =
      drain (total - s.consumed) dbq full_payload snap slots
        (record s { frames_at_snap = 0; have_anchor = false })
