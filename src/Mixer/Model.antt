-- ===== src/Mixer/Model.antt =====
-- platform/shared/uf_mixer_model.hpp: the logical mixer, above the device's RAM. The arrays are
-- functions, read and written below their bounds only.
pub mod Edits
pub mod Defaults
pub mod Image
pub mod Import
pub mod Stereo
pub mod Writes
pub mod Blob
pub mod Restore
use userface.Base.{
  ℕ, zero, suc, ◌+◌, ◌-◌, ◌*◌, ◌/◌, ◌^◌, Bool, true, false, not, ◌&&◌, u8, u32, ltb, leb, ◌==◌,
  if◌then◌else◌, bit_and, bit_or, bit_xor, ◌<<◌, ◌>>◌,
}
use userface.Mixer.{
  SrcKind, input, playback, mixer_ram, mixer_channels, mixer_mute, mixer_unity, mixer_max,
  is_negative, signed_coeff, coeff_quadlet, quadlet_coeff, coeff_magnitude, input_coeff_addr,
  playback_coeff_addr, output_fader_addr, MixerShadow, clear, index_of, set_input, set_playback,
  set_fader,
}

abbrev pub muted : ℕ
muted = 0x01

abbrev pub inverted : ℕ
inverted = 0x02

abbrev pub rec : ℕ
rec = 0x04

pub record Cell : Type 0 where
  pub gain : ℕ
  pub flags : ℕ

pub record MixerModel : Type 0 where
  pub inputs : ℕ → ℕ → Cell
  pub playback : ℕ → ℕ → Cell
  pub outputs : ℕ → Cell
  pub stereo_in : ℕ
  pub stereo_pb : ℕ
  pub scratch : Cell

abbrev pub empty_cell : Cell
empty_cell = record { gain = mixer_mute; flags = 0 }

abbrev pub empty_model : MixerModel
empty_model = record {
  inputs = λ s d. empty_cell;
  playback = λ s d. empty_cell;
  outputs = λ o. empty_cell;
  stereo_in = 0;
  stereo_pb = 0;
  scratch = empty_cell;
}

-- `m[s][d] = c` and `m[o] = c`.
unfoldable pub put : ℕ → ℕ → Cell → (ℕ → ℕ → Cell) → ℕ → ℕ → Cell
put s d c m i j = if (i == s) && (j == d) then c else m i j

unfoldable pub put_output : ℕ → Cell → (ℕ → Cell) → ℕ → Cell
put_output o c m i = if i == o then c else m i

-- The loop of `reset_defaults`, up to channel `n`.
unfoldable pub reset_channels : ℕ → Bool → MixerModel → MixerModel
reset_channels zero diag m = m
reset_channels (suc i) diag m =
    let before = reset_channels i diag m in
    let routed =
      if diag
      then record before {
        playback = put i i (record (before.playback i i) { gain = mixer_unity }) before.playback;
      }
      else before in
    record routed {
      outputs = put_output i (record (routed.outputs i) { gain = mixer_unity }) routed.outputs;
    }

unfoldable pub reset_defaults : ℕ → Bool → MixerModel
reset_defaults dbq diag =
    reset_channels (if ltb dbq mixer_channels then dbq else mixer_channels) diag empty_model

-- Whether a crosspoint lies in the arrays.
abbrev pub in_range : ℕ → ℕ → Bool
in_range src dest = ltb src mixer_channels && ltb dest mixer_channels

-- `cell(kind, src, dest)`, read.
unfoldable pub cell : SrcKind → ℕ → ℕ → MixerModel → Cell
cell input src dest m = if in_range src dest then m.inputs src dest else m.scratch
cell playback src dest m = if in_range src dest then m.playback src dest else m.scratch

-- `cell(kind, src, dest) = c`.
unfoldable pub set_cell : SrcKind → ℕ → ℕ → Cell → MixerModel → MixerModel
set_cell input src dest c m =
    if in_range src dest
    then record m { inputs = put src dest c m.inputs }
    else record m { scratch = c }
set_cell playback src dest c m =
    if in_range src dest
    then record m { playback = put src dest c m.playback }
    else record m { scratch = c }

-- `output(out)`, read and written.
unfoldable pub output : ℕ → MixerModel → Cell
output out m = if ltb out mixer_channels then m.outputs out else m.scratch

unfoldable pub set_output : ℕ → Cell → MixerModel → MixerModel
set_output out c m =
    if ltb out mixer_channels
    then record m { outputs = put_output out c m.outputs }
    else record m { scratch = c }

abbrev pub has_flag : ℕ → ℕ → Bool
has_flag flags flag = not (bit_and flags flag == 0)

unfoldable pub quadlet : Cell → ℕ
quadlet c =
    let g = if has_flag c.flags muted then mixer_mute else c.gain in
    coeff_quadlet (signed_coeff g (has_flag c.flags inverted))

-- The loops of `render`: the sources below `s` of destination `d`, the destinations below `d`, and the
-- faders below `o`.
unfoldable pub render_sources : ℕ → ℕ → MixerModel → MixerShadow → MixerShadow
render_sources zero d m sh = sh
render_sources (suc s) d m sh =
    let before = render_sources s d m sh in
    set_playback s d (quadlet (m.playback s d)) (set_input s d (quadlet (m.inputs s d)) before)

unfoldable pub render_destinations : ℕ → MixerModel → MixerShadow → MixerShadow
render_destinations zero m sh = sh
render_destinations (suc d) m sh = render_sources mixer_channels d m (render_destinations d m sh)

unfoldable pub render_faders : ℕ → MixerModel → MixerShadow → MixerShadow
render_faders zero m sh = sh
render_faders (suc o) m sh = set_fader o (quadlet (m.outputs o)) (render_faders o m sh)

unfoldable pub render : MixerModel → MixerShadow
render m = render_faders mixer_channels m (render_destinations mixer_channels m clear)

unfoldable pub rec_mask : MixerModel → ℕ → ℕ
rec_mask m i = if has_flag ((m.outputs i).flags) rec then 1 else 0

-- The loop of `copy_submix`, up to source `s`.
unfoldable pub copy_sources : ℕ → ℕ → ℕ → MixerModel → MixerModel
copy_sources zero from to m = m
copy_sources (suc s) from to m =
    let before = copy_sources s from to m in
    record before {
      inputs = put s to (before.inputs s from) before.inputs;
      playback = put s to (before.playback s from) before.playback;
    }

unfoldable pub copy_submix : ℕ → ℕ → MixerModel → MixerModel
copy_submix from to m =
    if leb mixer_channels from
    then m
    else if leb mixer_channels to
    then m
    else if from == to
    then m
    else copy_sources mixer_channels from to m

-- The loop of `clear_submix`, up to source `s`.
unfoldable pub clear_sources : ℕ → ℕ → MixerModel → MixerModel
clear_sources zero out m = m
clear_sources (suc s) out m =
    let before = clear_sources s out m in
    record before {
      inputs = put s out empty_cell before.inputs;
      playback = put s out empty_cell before.playback;
    }

unfoldable pub clear_submix : ℕ → MixerModel → MixerModel
clear_submix out m = if leb mixer_channels out then m else clear_sources mixer_channels out m

-- `adopt` and `get` of `import_cells`.
unfoldable pub adopt : ℕ → Cell
adopt v = record { gain = coeff_magnitude v; flags = if is_negative v then inverted else 0 }

unfoldable pub get : (ℕ → ℕ) → ℕ → ℕ → ℕ
get cells count addr =
    if ltb (index_of addr) count then quadlet_coeff (cells (index_of addr)) else 0

-- The loops of `import_cells`: the destinations below `d` of source `s`, the sources below `s`, and the
-- outputs below `o`.
unfoldable pub import_destinations : ℕ → ℕ → (ℕ → ℕ) → ℕ → MixerModel → MixerModel
import_destinations zero s cells count m = m
import_destinations (suc d) s cells count m =
    let before = import_destinations d s cells count m in
    record before {
      inputs = put s d (adopt (get cells count (input_coeff_addr s d))) before.inputs;
      playback = put s d (adopt (get cells count (playback_coeff_addr s d))) before.playback;
    }

unfoldable pub import_sources : ℕ → (ℕ → ℕ) → ℕ → MixerModel → MixerModel
import_sources zero cells count m = m
import_sources (suc s) cells count m =
    import_destinations mixer_channels s cells count (import_sources s cells count m)

unfoldable pub import_outputs : ℕ → (ℕ → ℕ) → ℕ → MixerModel → MixerModel
import_outputs zero cells count m = m
import_outputs (suc o) cells count m =
    let before = import_outputs o cells count m in
    record before {
      outputs = put_output o (adopt (get cells count (output_fader_addr o))) before.outputs;
    }

unfoldable pub import_cells : (ℕ → ℕ) → ℕ → MixerModel → MixerModel
import_cells cells count m =
    import_outputs mixer_channels cells count (import_sources mixer_channels cells count m)
