-- ===== src/Protocol/Control/Stream.antt =====
-- The values of the writes that start a stream.
use userface.Base.{ℕ, ◌+◌, ◌*◌, ◌^◌, ◌≤◌, ◌<◌, ◌≡◌, refl, ◌∙◌, arith, bit_or, u32, [], ◌∷◌, ap}
use userface.Base.Bits.{bit_or_shifted, bit_or_blocks, bit_or-zero}
use userface.Protocol.Rate.{Speed}
use userface.Protocol.Channels.{BwLimit, capture, data_block_quadlets, pcm_channels}
use userface.Protocol.Channels.Map.{channel_map-MapShape}
use userface.Protocol.Control.{
  quadlet_write, BusSpeed, s400, s800, speed_flag, rx_packet_format, alloc_tx_stream,
  isoc_comm_start, rx_packet_format_value, rx_packet_format_write, alloc_tx_stream_write,
  comm_start_value, comm_start_write, start_writes, stream_start_writes,
}

rx_value : (dbq ch : ℕ) → dbq ≤ 28 → ch < 64 → rx_packet_format_value dbq ch ≡ dbq * 2048 + ch
unfolding rx_packet_format_value
rx_value dbq ch hd hc =
    let e : u32 (u32 (dbq * 2 ^ 3) * 2 ^ 8) ≡ dbq * 2 ^ 11 = omega arith in
    ap (λ x. bit_or x ch) e ∙ bit_or_shifted 11 dbq ch (omega arith)

plain_start : (dbq : ℕ) → dbq ≤ 28 → bit_or 0x8000_0000 dbq ≡ 0x8000_0000 + dbq
plain_start dbq hd = bit_or_shifted 31 1 dbq (omega arith)

start_value :
    (dbq : ℕ) (bus : BusSpeed)
    → dbq ≤ 28
    → comm_start_value dbq bus ≡ 0x8000_0000 + dbq + speed_flag bus
unfolding comm_start_value speed_flag
start_value dbq s400 hd = rw (plain_start dbq hd) (omega (arith, bit_or-zero (0x8000_0000 + dbq)))
start_value dbq s800 hd =
    rw (plain_start dbq hd) (
      omega
        (arith, bit_or_blocks 11 0x10_0000 1 dbq 0 (omega arith) (omega arith), bit_or-zero dbq))

-- The writes that start a stream, in their order: the receive format holds the data block's quadlets
-- above bit 11 and the isochronous channel below it, the transmit allocation the quadlets alone, and
-- the start command the quadlets with the start bit and, at S800 only, the speed bit; no part runs
-- into another. For every speed and bandwidth mode and every channel number below 64.
pub stream_start_writes_lem :
    (s : Speed) (m : BwLimit) (ch : ℕ) (bus : BusSpeed)
    → ch < 64
    → stream_start_writes s m ch bus
      ≡ quadlet_write rx_packet_format (pcm_channels s m * 2048 + ch)
        ∷ quadlet_write alloc_tx_stream (pcm_channels s m)
        ∷ quadlet_write isoc_comm_start (0x8000_0000 + pcm_channels s m + speed_flag bus)
        ∷ []
unfolding stream_start_writes start_writes rx_packet_format_write alloc_tx_stream_write
    comm_start_write data_block_quadlets
stream_start_writes_lem s m ch bus h =
    let few = (channel_map-MapShape capture s m).2 in
    rw (rx_value (pcm_channels s m) ch few h, start_value (pcm_channels s m) bus few) refl
