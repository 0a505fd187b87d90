-- ===== src/Shared/Ring.antt =====
-- platform/shared/uf_shm_ring.hpp: the single-producer, single-consumer slot ring in shared memory.
-- Every field of `Ring` is here; the cursors are u64 and the counters u32, with their wrap-around.
-- A slot pointer is the index of the slot. `Time` stands for the double of a sample time, which the
-- ring only carries.
pub mod Fifo
pub mod Seqlock
use userface.Base.{
  ℕ, ◌+◌, ◌-◌, ◌^◌, List, Bool, Option, none, some, bit_and, u32, u64, leb, ◌==◌, if◌then◌else◌,
  true, false, ◌||◌, not, ◌%◌,
}

abbrev pub slot_count : ℕ
slot_count = 8

abbrev pub frames_per_slot : ℕ
frames_per_slot = 512

abbrev pub max_channels : ℕ
max_channels = 28

abbrev pub ring_magic : ℕ
ring_magic = 0x55465233

pub record Slot : Type 0 where
  pub frame_count : ℕ
  pub channel_count : ℕ
  pub audio : List ℕ

pub record Ring (Time : Type 0) : Type 0 where
  pub magic : ℕ
  pub slots : ℕ
  pub instance_id : ℕ
  pub frames_per_slot : ℕ
  pub channel_count : ℕ
  pub head : ℕ
  pub tail : ℕ
  pub overruns : ℕ
  pub underruns : ℕ
  pub ts_seed : ℕ
  pub ts_sample_time : Time
  pub ts_host_time : ℕ
  pub device_rate : ℕ
  pub requested_rate : ℕ
  pub request_seq : ℕ
  pub clock_source : ℕ
  pub clock_locked : ℕ
  pub requested_clock_source : ℕ
  pub control_seq : ℕ
  pub hal_locked : ℕ
  pub hal_unlocks : ℕ
  pub hal_seed : ℕ
  pub slot : List Slot

-- The test of the first seed that `readTimestamp` loads.
unfoldable pub stable_seed : ℕ → Bool
stable_seed s0 = not (s0 == 0 || not (bit_and s0 1 == 0))

module _ {Time : Type 0} where
  -- `zero_time` is the double 0 that `init` stores.
  unfoldable pub init : Time → ℕ → Ring Time → Ring Time
  init zero_time new_instance r = record {
    magic = ring_magic;
    slots = slot_count;
    instance_id = new_instance;
    frames_per_slot = frames_per_slot;
    channel_count = max_channels;
    head = 0;
    tail = 0;
    overruns = 0;
    underruns = 0;
    ts_seed = 0;
    ts_sample_time = zero_time;
    ts_host_time = 0;
    device_rate = 0;
    requested_rate = 0;
    request_seq = 0;
    clock_source = 0;
    clock_locked = 0;
    requested_clock_source = 0;
    control_seq = 0;
    hal_locked = 0;
    hal_unlocks = 0;
    hal_seed = 0;
    slot = r.slot;
  }

  -- `nullptr` is `none`. The u64 difference of the cursors wraps.
  unfoldable pub acquire_write : Ring Time → Option ℕ × Ring Time
  acquire_write r =
      if leb r.slots (u64 (r.head + 2 ^ 64 - r.tail))
      then (none, record r { overruns = u32 (r.overruns + 1) })
      else (some (bit_and r.head (slot_count - 1)), r)

  unfoldable pub commit_write : Ring Time → Ring Time
  commit_write r = record r { head = u64 (r.head + 1) }

  unfoldable pub acquire_read : Ring Time → Option ℕ × Ring Time
  acquire_read r =
      if r.tail == r.head
      then (none, record r { underruns = u32 (r.underruns + 1) })
      else (some (bit_and r.tail (slot_count - 1)), r)

  unfoldable pub commit_read : Ring Time → Ring Time
  commit_read r = record r { tail = u64 (r.tail + 1) }

  unfoldable pub depth : Ring Time → ℕ
  depth r = u64 (r.head + 2 ^ 64 - r.tail)

  -- The stores of `publishTimestamp`, in the order that its fences keep.
  unfoldable pub mark_odd : Ring Time → Ring Time
  mark_odd r = record r { ts_seed = u64 (r.ts_seed + 1) }

  unfoldable pub store_sample_time : Time → Ring Time → Ring Time
  store_sample_time time r = record r { ts_sample_time = time }

  unfoldable pub store_host_time : ℕ → Ring Time → Ring Time
  store_host_time host r = record r { ts_host_time = host }

  -- `odd` is the seed that `mark_odd` stored.
  unfoldable pub mark_even : ℕ → Ring Time → Ring Time
  mark_even odd r = record r { ts_seed = u64 (odd + 1) }

  unfoldable pub publish_timestamp : Time → ℕ → Ring Time → Ring Time
  unfolding mark_odd store_sample_time store_host_time mark_even
  publish_timestamp time host r =
      let s = u64 (r.ts_seed + 1) in
      mark_even s (store_host_time host (store_sample_time time (mark_odd r)))

  -- `readTimestamp` with nobody publishing meanwhile; `Seqlock` has the loads one by one.
  unfoldable pub read_timestamp : Ring Time → Option (Time × ℕ × ℕ)
  unfolding stable_seed
  read_timestamp r =
      let s0 = r.ts_seed in
      if stable_seed s0
      then (if r.ts_seed == s0 then some (r.ts_sample_time, r.ts_host_time, s0) else none)
      else none
