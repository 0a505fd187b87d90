-- ===== src/Shared/Sources.antt =====
-- platform/shared/uf_control.hpp: the clock sources that CoreAudio is offered.
use userface.Base.{ℕ, ◌≡◌, refl, Bool, true, false, leb}
use userface.Protocol.Settings.{SyncRef}
use userface.Protocol.Status.{SyncSource}

pub data ClockSource : Type 0 where
  internal word_clock adat1 adat2 spdif tco : ClockSource

-- The value of the enumerator.
abbrev pub source_id : ClockSource → ℕ
source_id internal = 0
source_id word_clock = 1
source_id adat1 = 2
source_id adat2 = 3
source_id spdif = 4
source_id tco = 5

unfoldable pub clock_source_is_master : ClockSource → Bool
clock_source_is_master internal = true
clock_source_is_master word_clock = false
clock_source_is_master adat1 = false
clock_source_is_master adat2 = false
clock_source_is_master spdif = false
clock_source_is_master tco = false

unfoldable pub clock_source_sync_ref : ClockSource → SyncRef
clock_source_sync_ref word_clock = SyncRef.word_clock
clock_source_sync_ref adat1 = SyncRef.adat1
clock_source_sync_ref adat2 = SyncRef.adat2
clock_source_sync_ref spdif = SyncRef.spdif
clock_source_sync_ref tco = SyncRef.tco
clock_source_sync_ref internal = SyncRef.adat1

unfoldable pub is_valid_clock_source : ℕ → Bool
is_valid_clock_source v = leb v (source_id tco)

unfoldable pub clock_source_from_status : Bool → SyncSource → ClockSource
clock_source_from_status true src = internal
clock_source_from_status false SyncSource.word_clock = word_clock
clock_source_from_status false SyncSource.adat1 = adat1
clock_source_from_status false SyncSource.adat2 = adat2
clock_source_from_status false SyncSource.spdif = spdif
clock_source_from_status false SyncSource.tco = tco
clock_source_from_status false SyncSource.no_source = internal

-- A device that is locked to the reference that it was told to follow reports that one.
abbrev pub reported : SyncRef → SyncSource
reported SyncRef.adat1 = SyncSource.adat1
reported SyncRef.adat2 = SyncSource.adat2
reported SyncRef.spdif = SyncSource.spdif
reported SyncRef.word_clock = SyncSource.word_clock
reported SyncRef.tco = SyncSource.tco

-- The source that was asked for is the one that is published once the device follows it, and every source
-- has a valid id.
pub clock_source_from_status-sync_ref :
    (s : ClockSource)
    → (clock_source_from_status (clock_source_is_master s) (reported (clock_source_sync_ref s)) ≡ s)
      × (is_valid_clock_source (source_id s) ≡ true)
unfolding clock_source_from_status clock_source_is_master clock_source_sync_ref
    is_valid_clock_source
clock_source_from_status-sync_ref internal = (refl, refl)
clock_source_from_status-sync_ref word_clock = (refl, refl)
clock_source_from_status-sync_ref adat1 = (refl, refl)
clock_source_from_status-sync_ref adat2 = (refl, refl)
clock_source_from_status-sync_ref spdif = (refl, refl)
clock_source_from_status-sync_ref tco = (refl, refl)
