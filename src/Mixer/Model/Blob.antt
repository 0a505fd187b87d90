-- ===== src/Mixer/Model/Blob.antt =====
-- `Blob`, `to_blob` and `from_blob` of the logical mixer: what is saved and what is restored. The arrays
-- are functions, written and read below their bounds only.
use userface.Base.{ℕ, zero, suc, ◌&&◌, ltb, ◌==◌, if◌then◌else◌}
use userface.Mixer.{mixer_channels, mixer_max}
use userface.Mixer.Model.{MixerModel, put, put_output}

pub record Blob : Type 0 where
  pub stereo_in : ℕ
  pub stereo_pb : ℕ
  pub input_gain : ℕ → ℕ → ℕ
  pub playback_gain : ℕ → ℕ → ℕ
  pub output_gain : ℕ → ℕ
  pub input_flags : ℕ → ℕ → ℕ
  pub playback_flags : ℕ → ℕ → ℕ
  pub output_flags : ℕ → ℕ

-- `a[s][d] = v` and `a[o] = v`.
unfoldable pub write : ℕ → ℕ → ℕ → (ℕ → ℕ → ℕ) → ℕ → ℕ → ℕ
write s d v a i j = if (i == s) && (j == d) then v else a i j

unfoldable pub write_output : ℕ → ℕ → (ℕ → ℕ) → ℕ → ℕ
write_output o v a i = if i == o then v else a i

unfoldable pub clamp_gain : ℕ → ℕ
clamp_gain g = if ltb mixer_max g then mixer_max else g

abbrev pub empty_blob : Blob
empty_blob = record {
  stereo_in = 0;
  stereo_pb = 0;
  input_gain = λ s d. 0;
  playback_gain = λ s d. 0;
  output_gain = λ o. 0;
  input_flags = λ s d. 0;
  playback_flags = λ s d. 0;
  output_flags = λ o. 0;
}

-- The loops of `to_blob`: the destinations below `d` of source `s`, the sources below `s`, the outputs
-- below `o`.
unfoldable pub save_destinations : ℕ → ℕ → MixerModel → Blob → Blob
save_destinations zero s m b = b
save_destinations (suc d) s m b =
    let before = save_destinations d s m b in
    record before {
      input_gain = write s d ((m.inputs s d).gain) before.input_gain;
      input_flags = write s d ((m.inputs s d).flags) before.input_flags;
      playback_gain = write s d ((m.playback s d).gain) before.playback_gain;
      playback_flags = write s d ((m.playback s d).flags) before.playback_flags;
    }

unfoldable pub save_sources : ℕ → MixerModel → Blob → Blob
save_sources zero m b = b
save_sources (suc s) m b = save_destinations mixer_channels s m (save_sources s m b)

unfoldable pub save_outputs : ℕ → MixerModel → Blob → Blob
save_outputs zero m b = b
save_outputs (suc o) m b =
    let before = save_outputs o m b in
    record before {
      output_gain = write_output o ((m.outputs o).gain) before.output_gain;
      output_flags = write_output o ((m.outputs o).flags) before.output_flags;
    }

unfoldable pub to_blob : MixerModel → Blob
to_blob m = save_outputs mixer_channels m (
    save_sources mixer_channels m
      (record empty_blob { stereo_in = m.stereo_in; stereo_pb = m.stereo_pb }))

-- The loops of `from_blob`.
unfoldable pub load_destinations : ℕ → ℕ → Blob → MixerModel → MixerModel
load_destinations zero s b m = m
load_destinations (suc d) s b m =
    let before = load_destinations d s b m in
    record before {
      inputs =
          put s d (record { gain = clamp_gain (b.input_gain s d); flags = b.input_flags s d })
            before.inputs;
      playback =
          put s d (record { gain = clamp_gain (b.playback_gain s d); flags = b.playback_flags s d })
            before.playback;
    }

unfoldable pub load_sources : ℕ → Blob → MixerModel → MixerModel
load_sources zero b m = m
load_sources (suc s) b m = load_destinations mixer_channels s b (load_sources s b m)

unfoldable pub load_outputs : ℕ → Blob → MixerModel → MixerModel
load_outputs zero b m = m
load_outputs (suc o) b m =
    let before = load_outputs o b m in
    record before {
      outputs =
          put_output o (record { gain = clamp_gain (b.output_gain o); flags = b.output_flags o })
            before.outputs;
    }

unfoldable pub from_blob : Blob → MixerModel → MixerModel
from_blob b m =
    load_outputs mixer_channels b (
      load_sources mixer_channels b (record m { stereo_in = b.stereo_in; stereo_pb = b.stereo_pb }))
