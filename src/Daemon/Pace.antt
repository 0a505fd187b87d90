-- ===== src/Daemon/Pace.antt =====
-- The paced transmit fill of the pump in platform/daemon/uf-daemon.cpp, with none of the diagnostic
-- environment variables set: the transmit ring is kept 64 packets ahead of the controller. The servo
-- computes in floating point: what it decides for a packet is a parameter. The driver's part of the ring
-- is Dext.Transmit. The level meters are left out. The cursors are u64.
pub mod Lead
pub mod Agree
pub mod Tests
use userface.Base.{
  ℕ, zero, suc, ◌+◌, ◌-◌, ◌*◌, ◌%◌, ◌^◌, Bool, true, false, ◌||◌, List, u32, u64, get_or, ltb, ◌==◌,
  if◌then◌else◌,
}
use userface.Protocol.Channels.{is_full_packet}
use userface.Protocol.Codec.{encode_sample_le}
use userface.Shared.Ring.{Ring}
use userface.Shared.TxFill.{TxFill, begin_tick, begin_packet, frame, shift_8}
use userface.Dext.Transmit.{Transmit, iso_tx_set_slot_bytes}

abbrev pub tx_slots : ℕ
tx_slots = 640

abbrev pub tx_lead_pkts : ℕ
tx_lead_pkts = 64

abbrev pub tx_min_lead_pkts : ℕ
tx_min_lead_pkts = 8

-- What the servo makes of a packet: a frame less, as many as usual, or a frame more.
pub data Adjust : Type 0 where
  fewer : Adjust
  usual : Adjust
  more : Adjust

unfoldable pub frames_for : ℕ → Adjust → ℕ
frames_for syt fewer = u32 (syt + 2 ^ 32 - 1)
frames_for syt usual = syt
frames_for syt more = u32 (syt + 1)

-- The pump's side of the transmit ring, with the playback ring and the driver. A slot of the transmit
-- ring is its bytes; `Servo` stands for the state of the servo.
pub record Pace (Time Servo : Type 0) : Type 0 where
  pub tx_fill_pkt : ℕ
  pub tx_last_sent : ℕ
  pub tx_resyncs : ℕ
  pub tx_dry : ℕ
  pub tx_held : ℕ
  pub slot_bytes : ℕ → ℕ
  pub tx_buf : ℕ → List ℕ
  pub tx_src : TxFill
  pub play : Ring Time
  pub servo : Servo
  pub driver : Transmit

-- `a[i] = x`
unfoldable pub put {ℓ} : {A : Type ℓ} → ℕ → A → (ℕ → A) → ℕ → A
put i x a j = if j == i then x else a j

-- The loop over the channels of a frame, from channel `c` on; the frame starts at byte `at`.
unfoldable pub encode_out : ℕ → ℕ → List ℕ → ℕ → List ℕ → List ℕ
encode_out zero c samples at buf = buf
encode_out (suc left) c samples at buf =
    encode_out left (c + 1) samples at
      (encode_sample_le (shift_8 (get_or samples c 0)) buf (at + c * 4))

-- The geometry of the session that the fill reads.
pub record Shape : Type 0 where
  pub dbq : ℕ
  pub syt_interval : ℕ
  pub full_count : ℕ

module _ {Time Servo : Type 0} (decide : Servo → Adjust × Servo) (g : Shape) where
  -- The race with the transmit head is lost: start again ahead of it.
  unfoldable pub resync : ℕ → Pace Time Servo → Pace Time Servo
  resync sent s =
      if ltb s.tx_fill_pkt (u64 (sent + tx_min_lead_pkts))
        || ltb tx_slots (u64 (s.tx_fill_pkt + 2 ^ 64 - sent))
      then record s { tx_fill_pkt = u64 (sent + tx_lead_pkts); tx_resyncs = u64 (s.tx_resyncs + 1) }
      else s

  -- A slot whose length changes is programmed once; what the call returns is not looked at.
  unfoldable pub program : ℕ → ℕ → Pace Time Servo → Pace Time Servo
  program slot want s = if s.slot_bytes slot == want then s else record s {
    driver = (iso_tx_set_slot_bytes slot want s.driver).1;
    slot_bytes = put slot want s.slot_bytes;
  }

  -- The loop over the frames of a packet: the first `n`.
  unfoldable pub fill_frames : ℕ → ℕ → Pace Time Servo → Pace Time Servo
  fill_frames zero slot s = s
  fill_frames (suc f) slot s =
      let before = fill_frames f slot s in
      let (src, play) = frame before.tx_src before.play in
      record before {
        tx_src = src;
        play = play;
        tx_buf =
            put slot (encode_out g.dbq 0 src.last (f * g.dbq * 4) (before.tx_buf slot))
              before.tx_buf;
      }

  -- A full packet.
  unfoldable pub fill_slot : ℕ → Pace Time Servo → Pace Time Servo
  fill_slot slot s =
      let (adjust, servo) = decide s.servo in
      let frames = frames_for g.syt_interval adjust in
      let ready = record s { tx_src = begin_packet s.tx_src; servo = servo } in
      fill_frames frames slot (program slot (u32 (u32 (frames * g.dbq) * 4)) ready)

  -- One turn of the loop over packets. An empty packet has no payload.
  unfoldable pub fill_packet : Pace Time Servo → Pace Time Servo
  fill_packet s =
      let slot = u32 (s.tx_fill_pkt % tx_slots) in
      let filled = if is_full_packet slot g.full_count tx_slots then fill_slot slot s else s in
      record filled { tx_fill_pkt = u64 (s.tx_fill_pkt + 1) }

  unfoldable pub fill_packets : ℕ → Pace Time Servo → Pace Time Servo
  fill_packets zero s = s
  fill_packets (suc n) s = fill_packets n (fill_packet s)

  -- The fill of a tick, when the controller is said to have sent `sent` packets.
  unfoldable pub fill : ℕ → Pace Time Servo → Pace Time Servo
  fill sent s =
      let start = resync sent (record s { tx_last_sent = sent }) in
      let rounds = u64 (sent + tx_lead_pkts) - start.tx_fill_pkt in
      let done = fill_packets rounds (record start { tx_src = begin_tick start.tx_src }) in
      record done {
        tx_dry = if done.tx_src.dry_tick then u64 (done.tx_dry + 1) else done.tx_dry;
        tx_held = done.tx_src.held;
      }
