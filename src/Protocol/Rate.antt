-- ===== src/Protocol/Rate.antt =====
-- include/uf/protocol/rate.hpp: the nine rates of the FF800, their speed class and clock code.
pub mod Codes
use userface.Base.{ℕ, Bool, true, false, bit_and, ltb, ◌==◌, if◌then◌else◌, List, [], ◌∷◌}

pub data Speed : Type 0 where
  x1 x2 x4 : Speed

pub record RateInfo : Type 0 where
  pub hz : ℕ
  pub clock_code : ℕ
  pub speed : Speed

abbrev info : ℕ → ℕ → Speed → RateInfo
info hz clock_code speed = record { hz = hz; clock_code = clock_code; speed = speed }

abbrev pub rates : List RateInfo
rates =
    info 32000 0x02 x1
    ∷ info 44100 0x00 x1
    ∷ info 48000 0x06 x1
    ∷ info 64000 0x0a x2
    ∷ info 88200 0x08 x2
    ∷ info 96000 0x0e x2
    ∷ info 128000 0x12 x4
    ∷ info 176400 0x10 x4
    ∷ info 192000 0x16 x4
    ∷ []

-- `clockcfg::kRateMask`
abbrev pub rate_mask : ℕ
rate_mask = 0x1e

abbrev pub no_code : ℕ
no_code = 0xffff_ffff

unfoldable pub speed_for_rate : ℕ → Speed
speed_for_rate hz = if ltb hz 64000 then x1 else if ltb hz 128000 then x2 else x4

unfoldable pub speed_multiplier : Speed → ℕ
speed_multiplier x1 = 1
speed_multiplier x2 = 2
speed_multiplier x4 = 4

-- The loop of `is_supported_rate` over the table.
unfoldable pub has_rate : List RateInfo → ℕ → Bool
has_rate [] hz = false
has_rate (r ∷ rs) hz = if r.hz == hz then true else has_rate rs hz

unfoldable pub is_supported_rate : ℕ → Bool
unfolding has_rate
is_supported_rate hz = has_rate rates hz

-- The loop of `clock_config_rate_code` over the table.
unfoldable pub code_of : List RateInfo → ℕ → ℕ
code_of [] hz = no_code
code_of (r ∷ rs) hz = if r.hz == hz then r.clock_code else code_of rs hz

unfoldable pub clock_config_rate_code : ℕ → ℕ
unfolding code_of
clock_config_rate_code hz = code_of rates hz

-- The loop of `hz_for_clock_code` over the table.
unfoldable pub hz_of : List RateInfo → ℕ → ℕ
hz_of [] field = 0
hz_of (r ∷ rs) field = if r.clock_code == field then r.hz else hz_of rs field

unfoldable pub hz_for_clock_code : ℕ → ℕ
unfolding hz_of
hz_for_clock_code code = hz_of rates (bit_and code rate_mask)

unfoldable pub stf_value : ℕ → ℕ
stf_value hz = hz
