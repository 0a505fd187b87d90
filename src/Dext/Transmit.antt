-- ===== src/Dext/Transmit.antt =====
-- The isochronous transmit ring of platform/ohci-dext/UFFireWireOHCI.cpp: 640 blocks of descriptors that
-- the controller runs through for ever, and the two cursors by which the driver follows it. The cursors
-- are u64.
pub mod Cadence
pub mod Machine
pub mod Resize
pub mod Invariant
pub mod Position
use userface.Base.{
  ℕ, zero, suc, ◌+◌, ◌-◌, ◌*◌, ◌%◌, ◌^◌, Bool, true, false, not, ◌&&◌, ◌||◌, bit_and, bit_or, u16,
  u32, u64, ltb, leb, ◌==◌, ◌<<◌, if◌then◌else◌,
}
use userface.Protocol.Channels.{is_full_packet}
use userface.Dext.Descriptor.{
  Descriptor, zeroed, output_last, desc_status, key_immediate, branch_always, IoReturn, success,
  bad_argument, not_ready,
}

abbrev pub it_packets : ℕ
it_packets = 640

abbrev pub tx_slot_bytes : ℕ
tx_slot_bytes = 2048

-- The block of a packet, without its fourth descriptor, which is not executed: `hdr0` and `hdr1` are the
-- start of the second one.
pub record Block : Type 0 where
  pub immediate : Descriptor
  pub hdr0 : ℕ
  pub hdr1 : ℕ
  pub payload : Descriptor

-- The part of `UFFireWireOHCI_IVars` that is the transmit ring's.
pub record Transmit : Type 0 where
  pub block : ℕ → Block
  pub it_desc_addr : ℕ
  pub it_pay_addr : ℕ
  pub speed : ℕ
  pub it_running : Bool
  pub it_sent : ℕ
  pub it_fill : ℕ
  pub it_full_count : ℕ

unfoldable pub it_hdr_q0 : ℕ → ℕ → ℕ → ℕ → ℕ
it_hdr_q0 spd tag ch sy =
    bit_or
      (bit_or (bit_or (bit_or (bit_and spd 7 << 16) (bit_and tag 3 << 14)) (bit_and ch 0x3f << 8))
        0xa0)
      (bit_and sy 0xf)

unfoldable pub it_hdr_q1 : ℕ → ℕ
it_hdr_q1 len = bit_and len 0xffff << 16

-- The block of packet `i`, as `IsoTxStart` makes it.
unfoldable pub make_block : Transmit → ℕ → ℕ → ℕ → ℕ → Block
make_block t channel full_payload_bytes full_count i =
    let at = t.it_desc_addr + i * 64 in
    let next = t.it_desc_addr + (i + 1) % it_packets * 64 in
    let payload_bytes = if is_full_packet i full_count it_packets then full_payload_bytes else 0 in
    record {
      immediate = record zeroed {
        control = key_immediate;
        req_count = 8;
        branch_address = bit_or (u32 at) 3;
      };
      hdr0 = it_hdr_q0 t.speed 0 channel 0;
      hdr1 = it_hdr_q1 payload_bytes;
      payload = record zeroed {
        control = u16 (bit_or (bit_or output_last desc_status) branch_always);
        req_count = u16 payload_bytes;
        data_address = u32 (t.it_pay_addr + i * tx_slot_bytes);
        branch_address = bit_or (u32 next) 3;
      };
    }

-- `IsoTxStart`, less the writes of the context's registers.
unfoldable pub iso_tx_start : ℕ → ℕ → ℕ → Transmit → IoReturn × Transmit
iso_tx_start channel full_payload_bytes full_count t =
    if full_payload_bytes == 0 || ltb tx_slot_bytes full_payload_bytes || ltb it_packets full_count
    then (bad_argument, t)
    else (
      success,
      record t {
        block = make_block t channel full_payload_bytes full_count;
        it_running = true;
        it_full_count = full_count;
        it_sent = 0;
        it_fill = it_packets;
      },
    )

abbrev pub slot_of : ℕ → ℕ
slot_of cursor = u32 (cursor % it_packets)

-- The packet at the sent cursor is still to be sent: it is full and has no status.
unfoldable pub waits : Transmit → Bool
waits t =
    let i = slot_of t.it_sent in
    is_full_packet i t.it_full_count it_packets && (t.block i).payload.transfer_status == 0

-- The loop of `IsoTxSent`, which makes at most as many rounds as there are packets before the fill cursor.
unfoldable pub scan_sent : ℕ → Transmit → Transmit
scan_sent zero t = t
scan_sent (suc n) t =
    let later = scan_sent n (record t { it_sent = u64 (t.it_sent + 1) }) in
    if ltb t.it_sent t.it_fill then (if waits t then t else later) else t

unfoldable pub iso_tx_sent : Transmit → IoReturn × ℕ × Transmit
iso_tx_sent t =
    let s = scan_sent (t.it_fill - t.it_sent) t in
    if t.it_running then (success, s.it_sent, s) else (not_ready, 0, t)

-- `d[i * 4 + 2].transfer_status = status`
unfoldable pub set_status : ℕ → ℕ → (ℕ → Block) → ℕ → Block
set_status i status block j =
    let b = block j in
    if j == i then record b { payload = record (b.payload) { transfer_status = status } } else b

-- The loop of `uf_it_refill`, which makes at most as many rounds as there are packets to `up_to`.
unfoldable pub refill_slots : ℕ → ℕ → Transmit → Transmit
refill_slots zero up_to t = t
refill_slots (suc n) up_to t =
    let later = refill_slots n up_to (record t {
      block = set_status (slot_of t.it_fill) 0 t.block;
      it_fill = u64 (t.it_fill + 1);
    }) in
    if ltb t.it_fill up_to && ltb (u64 (t.it_fill + 2 ^ 64 - t.it_sent)) it_packets
    then later
    else t

unfoldable pub it_refill : ℕ → Transmit → Transmit
it_refill up_to t = if t.it_running then refill_slots (up_to - t.it_fill) up_to t else t

unfoldable pub iso_tx_refill : ℕ → Transmit → IoReturn × Transmit
iso_tx_refill up_to t = if t.it_running then (success, it_refill up_to t) else (not_ready, t)

-- The two fields of a block that tell its length.
unfoldable pub set_length : ℕ → ℕ → (ℕ → Block) → ℕ → Block
set_length i bytes block j =
    let b = block j in
    if j == i
    then record b { hdr1 = it_hdr_q1 bytes; payload = record (b.payload) { req_count = u16 bytes } }
    else b

unfoldable pub iso_tx_set_slot_bytes : ℕ → ℕ → Transmit → IoReturn × Transmit
iso_tx_set_slot_bytes slot payload_bytes t =
    if not t.it_running
    then (not_ready, t)
    else if leb it_packets slot || ltb tx_slot_bytes payload_bytes
    then (bad_argument, t)
    else (success, record t { block = set_length slot payload_bytes t.block })

-- `IsoTxStop`, less the writes of the context's registers.
unfoldable pub iso_tx_stop : Transmit → IoReturn × Transmit
iso_tx_stop t = if t.it_running then (success, record t { it_running = false }) else (success, t)
