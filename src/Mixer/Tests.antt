-- ===== src/Mixer/Tests.antt =====
-- Runs of the mixer on concrete data.
use userface.Base.{◌≡◌, arith, true}
use userface.Mixer.Model.{
  Cell, MixerModel, inverted, quadlet, render, adopt, reset_defaults, import_cells,
}
use userface.Mixer.Model.Image.{image, render-image}
use userface.Mixer.Model.Import.{import_cells-render}
use userface.Mixer.Model.Edits.{adopt-quadlet}

-- The default at 28 channels.
abbrev usual : MixerModel
usual = reset_defaults 28 true

abbrev quiet : Cell
quiet = record { gain = 0x4000; flags = 2 }

render-image_example : render usual 32 ≡ image usual 32
render-image_example = render-image usual 32

-- An inverted gain above the maximum, an inverted crosspoint that is muted, and a fader.
abbrev loud : MixerModel
loud = record usual {
  inputs = λ s d. record { gain = 0x2_0000; flags = 2 };
  playback = λ s d. record { gain = 0x8000; flags = 3 };
  outputs = λ o. record { gain = 7; flags = 0 };
}

import_cells-render_example :
    ((import_cells (render loud) 2048 usual).inputs 3 3 ≡ record { gain = 0x1_0000; flags = 2 })
    × ((import_cells (render loud) 2048 usual).playback 3 3 ≡ record { gain = 1; flags = 2 })
    × ((import_cells (render loud) 2048 usual).outputs 3 ≡ record { gain = 7; flags = 0 })
import_cells-render_example = import_cells-render loud usual 3 3 (omega arith) (omega arith)

-- The example is an inverted crosspoint at half the unity gain.
adopt-quadlet_example :
    ((adopt (quadlet quiet)).gain ≡ 0x4000) × ((adopt (quadlet quiet)).flags ≡ inverted)
adopt-quadlet_example = adopt-quadlet quiet
