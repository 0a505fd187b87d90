-- ===== src/Dext/MidiIn.antt =====
-- MIDI in, of platform/ohci-dext/UFFireWireOHCI.cpp: the buffer of inbound requests, which the controller
-- fills, and the walk over it. The buffer is its quadlets; one past its end reads as 0.
pub mod Requests
pub mod Walk
use userface.Base.{
  ℕ, zero, suc, ◌+◌, ◌-◌, ◌*◌, ◌/◌, ◌%◌, ◌^◌, Bool, true, false, not, ◌&&◌, ◌||◌, List, [], ◌∷◌,
  ◌++◌, length, get_or, bit_and, bit_or, u8, u16, u32, u64, ltb, leb, ◌==◌, ◌<<◌, ◌>>◌,
  if◌then◌else◌,
}
use userface.Dext.Descriptor.{
  Descriptor, input_more, desc_status, branch_always, IoReturn, success, not_ready,
}

abbrev pub ar_buffer_bytes : ℕ
ar_buffer_bytes = 4096

-- The part of `UFFireWireOHCI_IVars` that is the inbound requests'.
pub record Inbound : Type 0 where
  pub midi_in_on : Bool
  pub midi_high_index : ℕ
  pub ar_req_read_bytes : ℕ
  pub dbg_ar_read_bytes : ℕ
  pub ar_req_desc : Descriptor
  pub ar_req_addr : ℕ
  pub ar_req_desc_addr : ℕ
  pub ar_req : List ℕ

-- What the walk over the buffer leaves.
pub record Walked : Type 0 where
  pub off : ℕ
  pub out : List ℕ
  pub desync : Bool

-- Quadlet `k` of the packet at byte `off`.
abbrev pub quad_at : List ℕ → ℕ → ℕ → ℕ
quad_at buf off k = get_or buf (off / 4 + k) 0

unfoldable pub tcode_at : List ℕ → ℕ → ℕ
tcode_at buf off = bit_and (quad_at buf off 0 >> 4) 0xf

unfoldable pub offset_at : List ℕ → ℕ → ℕ
offset_at buf off = bit_or (u64 (bit_and (quad_at buf off 1) 0xffff << 32)) (quad_at buf off 2)

-- The bytes of a block packet of `data_len` bytes.
unfoldable pub block_advance : ℕ → ℕ
block_advance data_len = 16 + bit_and (data_len + 3) (2 ^ 32 - 4) + 4

-- The loop over the payload of a block, from quadlet `i` on, with at most `left` rounds.
unfoldable pub block_bytes : ℕ → ℕ → ℕ → ℕ → List ℕ → ℕ → List ℕ → List ℕ
block_bytes zero i data_len capacity buf off out = out
block_bytes (suc left) i data_len capacity buf off out =
    let later =
      block_bytes left (i + 1) data_len capacity buf off
        (out ++ u8 (bit_and (quad_at buf off (4 + i)) 0xff) ∷ []) in
    if ltb (i * 4) data_len && ltb (length out) capacity then later else out

-- The walk from byte `off` on, with at most `fuel` packets.
unfoldable pub walk : ℕ → ℕ → ℕ → ℕ → List ℕ → ℕ → List ℕ → Walked
walk zero written capacity high buf off out = record { off = off; out = out; desync = false }
walk (suc fuel) written capacity high buf off out =
    let stop : Walked = record { off = off; out = out; desync = false } in
    let lost : Walked = record { off = off; out = out; desync = true } in
    let tcode = tcode_at buf off in
    let ours = offset_at buf off >> 32 == high in
    let data_len = quad_at buf off 3 >> 16 in
    let adv = block_advance data_len in
    let block =
      walk fuel written capacity high buf (off + adv)
        (if ours then block_bytes (data_len / 4 + 1) 0 data_len capacity buf off out else out) in
    let quadlet =
      walk fuel written capacity high buf (off + 20)
        (if ours then out ++ u8 (bit_and (quad_at buf off 3) 0xff) ∷ [] else out) in
    if not (leb (off + 16) written && ltb (length out) capacity)
    then stop
    else if tcode == 1
    then (if ltb ar_buffer_bytes data_len || ltb written (off + adv) then lost else block)
    else if tcode == 0
    then (if ltb written (off + 20) then stop else quadlet)
    else lost

-- `uf_arreq_rearm`, less the writes of the context's registers.
unfoldable pub ar_req_rearm : Inbound → Inbound
ar_req_rearm s = record s {
  ar_req_desc = record {
    req_count = ar_buffer_bytes;
    res_count = ar_buffer_bytes;
    transfer_status = 0;
    control = u16 (bit_or (bit_or input_more desc_status) branch_always);
    data_address = u32 s.ar_req_addr;
    branch_address = bit_or (u32 s.ar_req_desc_addr) 1;
  };
  ar_req_read_bytes = 0;
  dbg_ar_read_bytes = 0;
}

-- The bytes of MIDI, and what is left of the inbound requests. A packet takes 20 bytes or more, so that
-- as many rounds as the buffer has bytes are enough.
unfoldable pub midi_in_poll : ℕ → Inbound → List ℕ × Inbound
midi_in_poll capacity s =
    let written = u32 (ar_buffer_bytes + 2 ^ 32 - s.ar_req_desc.res_count) in
    let w = walk written written capacity s.midi_high_index s.ar_req s.ar_req_read_bytes [] in
    let read = record s { ar_req_read_bytes = w.off } in
    if not s.midi_in_on
    then ([], s)
    else if w.desync
    then (w.out, ar_req_rearm read)
    else if s.ar_req_desc.res_count == 0
    then (w.out, ar_req_rearm read)
    else (w.out, read)
