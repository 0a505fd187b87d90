-- ===== src/Mixer/Model/Restore.antt =====
-- What a mixer that is saved comes back as.
use userface.Base.{ℕ, zero, suc, ◌<◌, ◌≡◌, refl, ◌&&◌, arith, ltb, ◌==◌, if◌then◌else◌, ap, ◌∙◌}
use userface.Mixer.Model.{Cell, MixerModel, put, put_output}
use userface.Mixer.Model.Blob.{
  Blob, empty_blob, write, write_output, clamp_gain, save_destinations, save_sources, save_outputs,
  to_blob, load_destinations, load_sources, load_outputs, from_blob,
}

-- What is not a crosspoint.
abbrev SameRest : Blob → Blob → Type 0
SameRest b c =
    (b.output_gain ≡ c.output_gain)
    × (b.output_flags ≡ c.output_flags)
    × (b.stereo_in ≡ c.stereo_in)
    × (b.stereo_pb ≡ c.stereo_pb)

save_destinations-at :
    (n s : ℕ) (m : MixerModel) (b : Blob) (i j : ℕ)
    → let c = save_destinations n s m b in
      let hit = (i == s) && ltb j n in
      (c.input_gain i j ≡ (if hit then (m.inputs i j).gain else b.input_gain i j))
      × (c.input_flags i j ≡ (if hit then (m.inputs i j).flags else b.input_flags i j))
      × (c.playback_gain i j ≡ (if hit then (m.playback i j).gain else b.playback_gain i j))
      × (c.playback_flags i j ≡ (if hit then (m.playback i j).flags else b.playback_flags i j))
      × SameRest c b
unfolding save_destinations write
save_destinations-at zero s m b i j =
    (ground arith, ground arith, ground arith, ground arith, (refl, refl, refl, refl))
save_destinations-at (suc n) s m b i j =
    let ih = save_destinations-at n s m b i j in
    (ground arith, ground arith, ground arith, ground arith, ih.4)

save_sources-at :
    (n : ℕ) (m : MixerModel) (b : Blob) (i j : ℕ)
    → j < 28
    → let c = save_sources n m b in
      (c.input_gain i j ≡ (if ltb i n then (m.inputs i j).gain else b.input_gain i j))
      × (c.input_flags i j ≡ (if ltb i n then (m.inputs i j).flags else b.input_flags i j))
      × (c.playback_gain i j ≡ (if ltb i n then (m.playback i j).gain else b.playback_gain i j))
      × (c.playback_flags i j ≡ (if ltb i n then (m.playback i j).flags else b.playback_flags i j))
      × SameRest c b
unfolding save_sources
save_sources-at zero m b i j h =
    (ground arith, ground arith, ground arith, ground arith, (refl, refl, refl, refl))
save_sources-at (suc n) m b i j h =
    let ih = save_sources-at n m b i j h in
    let row = save_destinations-at 28 n m (save_sources n m b) i j in
    (
      ground arith,
      ground arith,
      ground arith,
      ground arith,
      (row.4.0 ∙ ih.4.0, row.4.1 ∙ ih.4.1, row.4.2 ∙ ih.4.2, row.4.3 ∙ ih.4.3),
    )

save_outputs-at :
    (n : ℕ) (m : MixerModel) (b : Blob) (i : ℕ)
    → let c = save_outputs n m b in
      (c.output_gain i ≡ (if ltb i n then (m.outputs i).gain else b.output_gain i))
      × (c.output_flags i ≡ (if ltb i n then (m.outputs i).flags else b.output_flags i))
      × ((c.input_gain ≡ b.input_gain)
          × (c.input_flags ≡ b.input_flags)
          × (c.playback_gain ≡ b.playback_gain)
          × (c.playback_flags ≡ b.playback_flags)
          × (c.stereo_in ≡ b.stereo_in)
          × (c.stereo_pb ≡ b.stereo_pb))
unfolding save_outputs write_output
save_outputs-at zero m b i = (ground arith, ground arith, (refl, refl, refl, refl, refl, refl))
save_outputs-at (suc n) m b i =
    let ih = save_outputs-at n m b i in (ground arith, ground arith, ih.2)

-- A crosspoint that is loaded.
abbrev loaded : ℕ → ℕ → Cell
loaded gain flags = record { gain = clamp_gain gain; flags = flags }

load_destinations-at :
    (n s : ℕ) (b : Blob) (m : MixerModel) (i j : ℕ)
    → let r = load_destinations n s b m in
      let hit = (i == s) && ltb j n in
      (r.inputs i j ≡ (if hit then loaded (b.input_gain i j) (b.input_flags i j) else m.inputs i j))
      × (r.playback i j
          ≡ (if hit then loaded (b.playback_gain i j) (b.playback_flags i j) else m.playback i j))
      × ((r.outputs ≡ m.outputs) × (r.stereo_in ≡ m.stereo_in) × (r.stereo_pb ≡ m.stereo_pb))
unfolding load_destinations put
load_destinations-at zero s b m i j = (ground arith, ground arith, (refl, refl, refl))
load_destinations-at (suc n) s b m i j =
    let ih = load_destinations-at n s b m i j in (ground arith, ground arith, ih.2)

load_sources-at :
    (n : ℕ) (b : Blob) (m : MixerModel) (i j : ℕ)
    → j < 28
    → let r = load_sources n b m in
      (r.inputs i j
        ≡ (if ltb i n then loaded (b.input_gain i j) (b.input_flags i j) else m.inputs i j))
      × (r.playback i j ≡ (
          if ltb i n then loaded (b.playback_gain i j) (b.playback_flags i j) else m.playback i j))
      × ((r.outputs ≡ m.outputs) × (r.stereo_in ≡ m.stereo_in) × (r.stereo_pb ≡ m.stereo_pb))
unfolding load_sources
load_sources-at zero b m i j h = (ground arith, ground arith, (refl, refl, refl))
load_sources-at (suc n) b m i j h =
    let ih = load_sources-at n b m i j h in
    let row = load_destinations-at 28 n b (load_sources n b m) i j in
    (ground arith, ground arith, (row.2.0 ∙ ih.2.0, row.2.1 ∙ ih.2.1, row.2.2 ∙ ih.2.2))

load_outputs-at :
    (n : ℕ) (b : Blob) (m : MixerModel) (i : ℕ)
    → let r = load_outputs n b m in
      (r.outputs i ≡ (if ltb i n then loaded (b.output_gain i) (b.output_flags i) else m.outputs i))
      × ((r.inputs ≡ m.inputs)
          × (r.playback ≡ m.playback)
          × (r.stereo_in ≡ m.stereo_in)
          × (r.stereo_pb ≡ m.stereo_pb))
unfolding load_outputs put_output
load_outputs-at zero b m i = (ground arith, (refl, refl, refl, refl))
load_outputs-at (suc n) b m i = let ih = load_outputs-at n b m i in (ground arith, ih.1)

-- Every crosspoint and fader of the blob of a mixer, and its pairs.
blob-cells :
    (m : MixerModel) (s d : ℕ)
    → s < 28
    → d < 28
    → let b = to_blob m in
      (b.input_gain s d ≡ (m.inputs s d).gain)
      × (b.input_flags s d ≡ (m.inputs s d).flags)
      × (b.playback_gain s d ≡ (m.playback s d).gain)
      × (b.playback_flags s d ≡ (m.playback s d).flags)
      × (b.output_gain d ≡ (m.outputs d).gain)
      × (b.output_flags d ≡ (m.outputs d).flags)
      × (b.stereo_in ≡ m.stereo_in)
      × (b.stereo_pb ≡ m.stereo_pb)
unfolding to_blob
blob-cells m s d hs hd =
    let start = record empty_blob { stereo_in = m.stereo_in; stereo_pb = m.stereo_pb } in
    let rows = save_sources-at 28 m start s d hd in
    let outs = save_outputs-at 28 m (save_sources 28 m start) d in
    let at = λ (f : ℕ → ℕ → ℕ). f s d in
    let kept = outs.2 in
    (
      ground (arith, ap at kept.0),
      ground (arith, ap at kept.1),
      ground (arith, ap at kept.2),
      ground (arith, ap at kept.3),
      ground arith,
      ground arith,
      kept.4 ∙ rows.4.2,
      kept.5 ∙ rows.4.3,
    )

-- A cell with a gain above 0x10000 cut to that.
abbrev pub at_most_max : Cell → Cell
at_most_max c = record c { gain = if ltb 0x1_0000 c.gain then 0x1_0000 else c.gain }

-- Restoring a mixer that was saved, over any other, brings back its pairs and every crosspoint and fader
-- with its flags, so the gain under a mute too; a gain above 0x10000, the maximum, comes back as that.
pub from_blob-to_blob :
    (m old : MixerModel) (s d : ℕ)
    → s < 28
    → d < 28
    → let r = from_blob (to_blob m) old in
      (r.inputs s d ≡ at_most_max (m.inputs s d))
      × (r.playback s d ≡ at_most_max (m.playback s d))
      × (r.outputs d ≡ at_most_max (m.outputs d))
      × (r.stereo_in ≡ m.stereo_in)
      × (r.stereo_pb ≡ m.stereo_pb)
unfolding from_blob clamp_gain
from_blob-to_blob m old s d hs hd =
    let b = to_blob m in
    let saved = blob-cells m s d hs hd in
    let start = record old { stereo_in = b.stereo_in; stereo_pb = b.stereo_pb } in
    let rows = load_sources-at 28 b start s d hd in
    let outs = load_outputs-at 28 b (load_sources 28 b start) d in
    let at = λ (f : ℕ → ℕ → Cell). f s d in
    let kept = outs.1 in
    (
      ground (arith, ap at kept.0),
      ground (arith, ap at kept.1),
      ground arith,
      kept.2 ∙ rows.2.1 ∙ saved.6,
      kept.3 ∙ rows.2.2 ∙ saved.7,
    )
