-- ===== src/Mixer/Model/Writes.antt =====
-- `render_cell` and `render_output` of the logical mixer: the one write that a change of one crosspoint or
-- of one fader costs.
use userface.Base.{ℕ}
use userface.Mixer.{
  SrcKind, input, playback, input_coeff_addr, playback_coeff_addr, output_fader_addr,
}
use userface.Mixer.Model.{MixerModel, quadlet, cell, output}

pub record Write : Type 0 where
  pub addr : ℕ
  pub value : ℕ

unfoldable pub render_cell : SrcKind → ℕ → ℕ → MixerModel → Write
render_cell input src dest m = record {
  addr = input_coeff_addr src dest;
  value = quadlet (cell input src dest m);
}
render_cell playback src dest m = record {
  addr = playback_coeff_addr src dest;
  value = quadlet (cell playback src dest m);
}

unfoldable pub render_output : ℕ → MixerModel → Write
render_output out m = record { addr = output_fader_addr out; value = quadlet (output out m) }
