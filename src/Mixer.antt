-- ===== src/Mixer.antt =====
-- include/uf/protocol/mixer.hpp and platform/shared/uf_mixer_shadow.hpp: the addresses and the
-- coefficients of the matrix mixer, and the daemon's copy of its RAM. An `i32` is the 32-bit word
-- that stands for it.
pub mod Model
pub mod Coeff
pub mod Tests
use userface.Base.{
  ℕ, zero, suc, ◌+◌, ◌-◌, ◌*◌, ◌/◌, ◌^◌, Bool, true, false, u32, u64, ltb, ◌==◌, if◌then◌else◌,
}

pub data SrcKind : Type 0 where
  input playback : SrcKind

abbrev pub mixer_ram : ℕ
mixer_ram = 0x8008_0000

abbrev pub mixer_channels : ℕ
mixer_channels = 28

abbrev pub mixer_mute : ℕ
mixer_mute = 0

abbrev pub mixer_unity : ℕ
mixer_unity = 0x8000

abbrev pub mixer_max : ℕ
mixer_max = 0x1_0000

-- `-x` on an `i32`.
abbrev pub negate : ℕ → ℕ
negate x = u32 (2 ^ 32 - x)

-- `x < 0` on an `i32`.
abbrev pub is_negative : ℕ → Bool
is_negative x = if ltb x (2 ^ 31) then false else true

unfoldable pub signed_coeff : ℕ → Bool → ℕ
signed_coeff magnitude inverted =
    let m = if ltb mixer_max magnitude then mixer_max else magnitude in
    if inverted then negate (if m == 0 then 1 else m) else m

unfoldable pub coeff_quadlet : ℕ → ℕ
coeff_quadlet coeff = coeff

unfoldable pub quadlet_coeff : ℕ → ℕ
quadlet_coeff q = q

unfoldable pub coeff_magnitude : ℕ → ℕ
coeff_magnitude coeff = if is_negative coeff then negate coeff else coeff

unfoldable pub input_coeff_addr : ℕ → ℕ → ℕ
input_coeff_addr src dest = mixer_ram + u32 (dest * 2 * 0x80) + u32 (4 * src)

unfoldable pub playback_coeff_addr : ℕ → ℕ → ℕ
playback_coeff_addr src dest = mixer_ram + u32 (dest * 2 * 0x80) + 0x80 + u32 (4 * src)

unfoldable pub output_fader_addr : ℕ → ℕ
output_fader_addr out = mixer_ram + 0x1f80 + u32 (4 * out)

abbrev pub cell_count : ℕ
cell_count = 2048

-- The cells of the shadow: quadlet `i` of the mixer RAM, below `cell_count`.
abbrev pub MixerShadow : Type 0
MixerShadow = ℕ → ℕ

unfoldable pub clear : MixerShadow
clear i = 0

unfoldable pub index_of : ℕ → ℕ
index_of addr = u32 (u64 (addr + 2 ^ 64 - mixer_ram) / 4)

unfoldable pub set_cell : ℕ → ℕ → MixerShadow → MixerShadow
set_cell i coeff sh j = if ltb i cell_count then (if j == i then coeff else sh j) else sh j

unfoldable pub set_at : ℕ → ℕ → MixerShadow → MixerShadow
set_at addr coeff sh = set_cell (index_of addr) coeff sh

unfoldable pub set_input : ℕ → ℕ → ℕ → MixerShadow → MixerShadow
set_input src dest coeff sh = set_at (input_coeff_addr src dest) coeff sh

unfoldable pub set_playback : ℕ → ℕ → ℕ → MixerShadow → MixerShadow
set_playback src dest coeff sh = set_at (playback_coeff_addr src dest) coeff sh

unfoldable pub set_fader : ℕ → ℕ → MixerShadow → MixerShadow
set_fader out coeff sh = set_at (output_fader_addr out) coeff sh

unfoldable pub cell : MixerShadow → ℕ → ℕ
cell sh i = if ltb i cell_count then sh i else 0

unfoldable pub at : MixerShadow → ℕ → ℕ
at sh addr = cell sh (index_of addr)

-- The loop of `reset_defaults`, up to channel `n`.
unfoldable pub reset_channels : ℕ → Bool → MixerShadow → MixerShadow
reset_channels zero diag sh = sh
reset_channels (suc i) diag sh =
    let before = reset_channels i diag sh in
    let routed = if diag then set_playback i i mixer_unity before else before in
    set_fader i mixer_unity routed

unfoldable pub reset_defaults : ℕ → Bool → MixerShadow
reset_defaults dbq diag =
    reset_channels (if ltb dbq mixer_channels then dbq else mixer_channels) diag clear
