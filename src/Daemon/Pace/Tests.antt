-- ===== src/Daemon/Pace/Tests.antt =====
-- Runs of the paced fill on concrete data.
use userface.Base.{ℕ, zero, suc, ◌%◌, ◌≤◌, ◌≡◌, refl, true, [], ◌∷◌, arith}
use userface.Protocol.Channels.{is_full_packet}
use userface.Shared.TxFill.{make}
use userface.Shared.Tests.{mapping}
use userface.Dext.Transmit.{iso_tx_start}
use userface.Dext.Tests.{idle_transmit}
use userface.Daemon.Pace.{Adjust, fewer, usual, Shape, Pace, fill}
use userface.Daemon.Pace.Lead.{Untouched, fill_lem}
use userface.Daemon.Pace.Agree.{HasLength, fills, fills_lem}

-- A servo that takes a frame off every second packet.
abbrev halves : ℕ → Adjust × ℕ
halves zero = (usual, 1)
halves (suc n) = (fewer, 0)

-- Eight channels at 44.1 kHz.
abbrev eight_channels : Shape
eight_channels = record { dbq = 8; syt_interval = 8; full_count = 441 }

abbrev paced : Pace ℕ ℕ
paced = record {
  tx_fill_pkt = 8;
  tx_last_sent = 0;
  tx_resyncs = 0;
  tx_dry = 0;
  tx_held = 0;
  slot_bytes = λ j. 256;
  tx_buf = λ j. [];
  tx_src = make 8;
  play = mapping;
  servo = 0;
  driver = (iso_tx_start 1 256 441 idle_transmit).1;
}

fill_example :
    let t = fill halves eight_channels 1000 paced in
    (1064 ≤ t.tx_fill_pkt) × (t.tx_fill_pkt ≤ 1640) × Untouched (1007 % 640) paced t
fill_example =
    fill_lem halves eight_channels 1000 1007 paced (omega arith) (omega arith) (omega arith)
      (omega arith)

full_one : is_full_packet 1 441 640 ≡ true
unfolding is_full_packet
full_one = refl

fills_example :
    let u = fills halves eight_channels (omega arith) (omega arith) (0 ∷ 16 ∷ 1000 ∷ []) paced in
    HasLength (u.slot_bytes 1) (u.driver.block 1)
fills_example =
    fills_lem halves eight_channels (omega arith) (omega arith) 1 256 idle_transmit paced
      (0 ∷ 16 ∷ 1000 ∷ []) 1 (omega arith) (omega arith) (omega arith) refl (λ j. refl)
      (omega arith) full_one
