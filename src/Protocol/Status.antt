-- ===== src/Protocol/Status.antt =====
-- include/uf/protocol/status.hpp and the SR0 and SR1 masks of registers.hpp: the status that the
-- device reports.
use userface.Base.{
  ℕ, zero, suc, ◌*◌, ◌≤◌, ◌≡◌, ◌⊎◌, Bool, true, not, arith, bit_and, ◌==◌, if◌then◌else◌, ◌>>◌, u32,
}
use userface.Protocol.Rate.{is_supported_rate}

pub data SyncSource : Type 0 where
  adat1 adat2 spdif word_clock tco no_source : SyncSource

pub record Status : Type 0 where
  pub adat1_lock : Bool
  pub adat1_sync : Bool
  pub adat2_lock : Bool
  pub adat2_sync : Bool
  pub spdif_lock : Bool
  pub spdif_sync : Bool
  pub wclk_lock : Bool
  pub wclk_sync : Bool
  pub over : Bool
  pub sync_source : SyncSource
  pub ext_rate_hz : ℕ
  pub input_freq_hz : ℕ
  pub spdif_freq_hz : ℕ
  pub clock_master : Bool
  pub tco_lock : Bool
  pub tco_sync : Bool

unfoldable pub freq_index_to_hz : ℕ → ℕ
freq_index_to_hz idx =
    if idx == 1
    then 32000
    else if idx == 2
    then 44100
    else if idx == 3
    then 48000
    else if idx == 4
    then 64000
    else if idx == 5
    then 88200
    else if idx == 6
    then 96000
    else if idx == 7
    then 128000
    else if idx == 8
    then 176400
    else if idx == 9
    then 192000
    else 0

-- The switch on the masked sync source.
unfoldable pub sync_source_of : ℕ → SyncSource
sync_source_of field =
    if field == 0
    then adat1
    else if field == 0x40_0000
    then adat2
    else if field == 0xc0_0000
    then spdif
    else if field == 0x100_0000
    then word_clock
    else if field == 0x140_0000
    then tco
    else no_source

unfoldable pub decode_sync_source : ℕ → SyncSource
decode_sync_source r0 = sync_source_of (bit_and r0 0x1c0_0000)

-- A mask's conversion to `bool`.
abbrev pub bit : ℕ → ℕ → Bool
bit r mask = not (bit_and r mask == 0)

unfoldable pub decode_status : ℕ → ℕ → Status
decode_status r0 r1 = record {
  adat1_lock = bit r0 0x400;
  adat1_sync = bit r0 0x1000;
  adat2_lock = bit r0 0x800;
  adat2_sync = bit r0 0x2000;
  spdif_lock = bit r0 0x10_0000;
  spdif_sync = bit r0 0x4_0000;
  wclk_lock = bit r0 0x4000_0000;
  wclk_sync = bit r0 0x2000_0000;
  over = bit r0 0x8_0000;
  sync_source = decode_sync_source r0;
  ext_rate_hz = u32 (bit_and r0 0x3ff * 250);
  input_freq_hz = freq_index_to_hz (bit_and r0 0x1e00_0000 >> 25);
  spdif_freq_hz = freq_index_to_hz (bit_and r0 0x3_c000 >> 14);
  clock_master = bit r1 0x01;
  tco_lock = bit r1 0x80_0000;
  tco_sync = bit r1 0x40_0000;
}

-- An index is a frequency exactly when it is 1 to 9, and then the frequency is one of the device's
-- nine rates; every other index reads as 0, no frequency.
pub freq_index_to_hz_lem :
    (idx : ℕ)
    → ((1 ≤ idx) × (idx ≤ 9) × (is_supported_rate (freq_index_to_hz idx) ≡ true))
      ⊎ (((idx ≡ 0) ⊎ (10 ≤ idx)) × (freq_index_to_hz idx ≡ 0))
unfolding freq_index_to_hz is_supported_rate
freq_index_to_hz_lem zero = ground arith
freq_index_to_hz_lem (suc idx) = ground arith
