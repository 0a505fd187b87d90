-- ===== src/Protocol/ClockConfig.antt =====
-- include/uf/protocol/clock.hpp: the clock-config register 0x801c0004.
use userface.Base.{
  ℕ, ◌≡◌, refl, Bool, true, false, arith, bit_and, bit_or, ◌==◌, ◌&&◌, if◌then◌else◌,
}
use userface.Protocol.Rate.{
  rate_mask, no_code, rates, is_supported_rate, clock_config_rate_code, hz_for_clock_code,
}
use userface.Protocol.Rate.Codes.{every_rate, at_rate}
use userface.Protocol.Settings.{SyncRef, adat1, adat2, spdif, word_clock, tco, or_if}

unfoldable pub clock_config_source_bits : SyncRef → ℕ
clock_config_source_bits adat1 = 0
clock_config_source_bits adat2 = 0x0400
clock_config_source_bits spdif = 0x0c00
clock_config_source_bits word_clock = 0x1000
clock_config_source_bits tco = 0x1800

unfoldable pub assemble_clock_config : Bool → SyncRef → ℕ → ℕ
assemble_clock_config master source rate_hz =
    let v1 = or_if master 0x01 0 in
    let v2 = bit_or v1 (clock_config_source_bits source) in
    let code = clock_config_rate_code rate_hz in
    if code == no_code then v2 else bit_or v2 (bit_and code rate_mask)

-- The register's three fields, read back.
reads : Bool → SyncRef → ℕ → Bool
reads master source hz =
    let v = assemble_clock_config master source hz in
    (bit_and v 0x01 == (if master then 1 else 0))
    && (bit_and v 0x1c00 == clock_config_source_bits source)
    && (hz_for_clock_code v == hz)

reads_table : (master : Bool) (source : SyncRef) → every_rate rates (reads master source) ≡ true
unfolding every_rate reads assemble_clock_config clock_config_source_bits clock_config_rate_code
    hz_for_clock_code
reads_table true adat1 = refl
reads_table true adat2 = refl
reads_table true spdif = refl
reads_table true word_clock = refl
reads_table true tco = refl
reads_table false adat1 = refl
reads_table false adat2 = refl
reads_table false spdif = refl
reads_table false word_clock = refl
reads_table false tco = refl

-- At a supported rate the clock-config register holds the clock mode, the sync source and the rate
-- apart: each of the three is read back under its own mask, the rate through `hz_for_clock_code`.
pub assemble_clock_config-reads :
    (master : Bool) (source : SyncRef) (hz : ℕ)
    → is_supported_rate hz ≡ true
    → (bit_and (assemble_clock_config master source hz) 0x01 ≡ (if master then 1 else 0))
      × (bit_and (assemble_clock_config master source hz) 0x1c00 ≡ clock_config_source_bits source)
      × (hz_for_clock_code (assemble_clock_config master source hz) ≡ hz)
unfolding reads
assemble_clock_config-reads master source hz h =
    let t = at_rate (reads master source) hz (reads_table master source) h in ground arith
