-- ===== src/Dext/Receive.antt =====
-- The isochronous receive ring of platform/ohci-dext/UFFireWireOHCI.cpp: a descriptor for each slot, to
-- which the controller writes a status when it has put a packet in the slot. The cursors are u64.
pub mod Machine
pub mod Invariant
pub mod Ring
use userface.Base.{
  ℕ, zero, suc, ◌+◌, ◌-◌, ◌*◌, ◌%◌, ◌^◌, Bool, true, false, ◌&&◌, ◌||◌, bit_or, u16, u32, u64, ltb,
  ◌==◌, if◌then◌else◌,
}
use userface.Dext.Descriptor.{
  Descriptor, input_last, desc_status, branch_always, irq_always, IoReturn, success, bad_argument,
}

abbrev pub iso_max_packets : ℕ
iso_max_packets = 512

abbrev pub iso_slot_bytes : ℕ
iso_slot_bytes = 2048

abbrev pub irq_every : ℕ
irq_every = 8

-- The part of `UFFireWireOHCI_IVars` that is the receive ring's.
pub record Receive : Type 0 where
  pub desc : ℕ → Descriptor
  pub iso_addr : ℕ
  pub iso_desc_addr : ℕ
  pub iso_packets : ℕ
  pub iso_running : Bool
  pub iso_continuous : Bool
  pub iso_write : ℕ
  pub iso_read : ℕ
  pub iso_irq_every : ℕ

-- A descriptor of a capture of `packets` packets, the last of which branches nowhere.
unfoldable pub one_shot : Receive → ℕ → ℕ → Descriptor
one_shot r packets i = record {
  req_count = iso_slot_bytes;
  res_count = 0;
  transfer_status = 0;
  control = u16 (bit_or (bit_or input_last desc_status) branch_always);
  data_address = u32 (r.iso_addr + i * iso_slot_bytes);
  branch_address =
      if ltb (i + 1) packets then bit_or (u32 (r.iso_desc_addr + (i + 1) * 16)) 1 else 0;
}

-- `IsoStart`, less the writes of the context's registers.
unfoldable pub iso_start : ℕ → Receive → IoReturn × Receive
iso_start packets r = if packets == 0 || ltb iso_max_packets packets then (bad_argument, r) else (
  success,
  record r {
    desc = λ i. if ltb i packets then one_shot r packets i else r.desc i;
    iso_packets = packets;
    iso_running = true;
  },
)

-- The loop of `IsoPoll`, from descriptor `i` on, with `n` descriptors left.
unfoldable pub poll_from : ℕ → ℕ → (ℕ → Descriptor) → ℕ
poll_from zero i desc = 0
poll_from (suc n) i desc =
    let later = suc (poll_from n (i + 1) desc) in if (desc i).transfer_status == 0 then 0 else later

unfoldable pub iso_poll : Receive → ℕ
iso_poll r = poll_from r.iso_packets 0 r.desc

unfoldable pub iso_stop : Receive → Receive
iso_stop r = if r.iso_running then record r { iso_running = false; iso_continuous = false } else r

-- A descriptor of the ring that never ends.
unfoldable pub ring_descriptor : Receive → ℕ → Descriptor
ring_descriptor r i = record {
  req_count = iso_slot_bytes;
  res_count = 0;
  transfer_status = 0;
  control = u16 (
      bit_or (bit_or (bit_or input_last desc_status) branch_always)
        (if i % irq_every == 0 then irq_always else 0));
  data_address = u32 (r.iso_addr + i * iso_slot_bytes);
  branch_address = bit_or (u32 (r.iso_desc_addr + (i + 1) % iso_max_packets * 16)) 1;
}

-- `IsoStartContinuous`, less the writes of the context's registers.
unfoldable pub iso_start_continuous : Receive → Receive
iso_start_continuous r = record r {
  desc = λ i. if ltb i iso_max_packets then ring_descriptor r i else r.desc i;
  iso_packets = iso_max_packets;
  iso_write = 0;
  iso_read = 0;
  iso_running = true;
  iso_continuous = true;
  iso_irq_every = irq_every;
}

-- The loop of `IsoCompletedCount`, which makes at most as many rounds as the ring has slots.
unfoldable pub scan_completed : ℕ → Receive → Receive
scan_completed zero r = r
scan_completed (suc n) r =
    let later = scan_completed n (record r { iso_write = u64 (r.iso_write + 1) }) in
    if ltb (u64 (r.iso_write + 2 ^ 64 - r.iso_read)) r.iso_packets
    then (if (r.desc (u32 (r.iso_write % r.iso_packets))).transfer_status == 0 then r else later)
    else r

unfoldable pub iso_completed_count : Receive → ℕ × Receive
iso_completed_count r = let s = scan_completed r.iso_packets r in (s.iso_write, s)

-- `d[i].res_count = 0; d[i].transfer_status = 0`
unfoldable pub re_arm : ℕ → (ℕ → Descriptor) → ℕ → Descriptor
re_arm i desc j = if j == i then record (desc j) { res_count = 0; transfer_status = 0 } else desc j

-- The loop of `uf_iso_release`, which makes as many rounds as there are packets to `up_to`.
unfoldable pub release_slots : ℕ → ℕ → Receive → Receive
release_slots zero up_to r = r
release_slots (suc n) up_to r =
    let later = release_slots n up_to (record r {
      desc = re_arm (u32 (r.iso_read % r.iso_packets)) r.desc;
      iso_read = u64 (r.iso_read + 1);
    }) in
    if ltb r.iso_read up_to then later else r

unfoldable pub iso_release : ℕ → Receive → Receive
iso_release up_to r =
    let last = if ltb r.iso_write up_to then r.iso_write else up_to in
    if r.iso_packets == 0 then r else release_slots (last - r.iso_read) last r
