-- ===== src/Shared/State/Mirror.antt =====
-- What a reader of the published state finds.
use userface.Base.{
  ℕ, zero, suc, ◌+◌, ◌*◌, ◌≤◌, ◌<◌, ◌≡◌, refl, ap, ◌∙◌, ◌&&◌, arith, ltb, ◌==◌, if◌then◌else◌,
}
use userface.Mixer.{SrcKind, input, playback, MixerShadow}
use userface.Mixer
use userface.Mixer.Model.{MixerModel, cell, output}
use userface.Mixer.Model.Stereo.{stereo_bits}
use userface.Shared.State.{
  Shared, store, copy_cells, copy_destinations, copy_sources, copy_outputs, publish_mixer,
}

copy_cells-at :
    (n : ℕ) (sh : MixerShadow) (s : Shared) (i : ℕ)
    → (copy_cells n sh s).cells i ≡ (if ltb i n then Mixer.cell sh i else s.cells i)
unfolding copy_cells store
copy_cells-at zero sh s i = ground arith
copy_cells-at (suc n) sh s i = let ih = copy_cells-at n sh s i in ground arith

-- A flat array after the first `n` of 28 destinations of source `sc` were written.
copy_destinations-at :
    (n sc : ℕ) (m : MixerModel) (s : Shared) (i j : ℕ)
    → n ≤ 28
    → i < 28
    → j < 28
    → let r = copy_destinations n sc m s in
      let hit = (i == sc) && ltb j n in
      let at = i * 28 + j in
      (r.input_flags at ≡ (if hit then (cell input i j m).flags else s.input_flags at))
      × (r.input_gain at ≡ (if hit then (cell input i j m).gain else s.input_gain at))
      × (r.playback_flags at ≡ (if hit then (cell playback i j m).flags else s.playback_flags at))
      × (r.playback_gain at ≡ (if hit then (cell playback i j m).gain else s.playback_gain at))
      × (r.cells ≡ s.cells)
unfolding copy_destinations store
copy_destinations-at zero sc m s i j hn hi hj =
    (ground arith, ground arith, ground arith, ground arith, refl)
copy_destinations-at (suc n) sc m s i j hn hi hj =
    let ih = copy_destinations-at n sc m s i j (omega arith) hi hj in
    (ground arith, ground arith, ground arith, ground arith, ih.4)

copy_sources-at :
    (n : ℕ) (m : MixerModel) (s : Shared) (i j : ℕ)
    → i < 28
    → j < 28
    → let r = copy_sources n m s in
      let hit = ltb i n in
      let at = i * 28 + j in
      (r.input_flags at ≡ (if hit then (cell input i j m).flags else s.input_flags at))
      × (r.input_gain at ≡ (if hit then (cell input i j m).gain else s.input_gain at))
      × (r.playback_flags at ≡ (if hit then (cell playback i j m).flags else s.playback_flags at))
      × (r.playback_gain at ≡ (if hit then (cell playback i j m).gain else s.playback_gain at))
      × (r.cells ≡ s.cells)
unfolding copy_sources
copy_sources-at zero m s i j hi hj = (ground arith, ground arith, ground arith, ground arith, refl)
copy_sources-at (suc n) m s i j hi hj =
    let ih = copy_sources-at n m s i j hi hj in
    let row = copy_destinations-at 28 n m (copy_sources n m s) i j (omega arith) hi hj in
    (ground arith, ground arith, ground arith, ground arith, row.4 ∙ ih.4)

copy_outputs-at :
    (n : ℕ) (m : MixerModel) (s : Shared) (x : ℕ)
    → let r = copy_outputs n m s in
      (r.output_flags x ≡ (if ltb x n then (output x m).flags else s.output_flags x))
      × (r.output_gain x ≡ (if ltb x n then (output x m).gain else s.output_gain x))
      × ((r.input_flags ≡ s.input_flags)
          × (r.input_gain ≡ s.input_gain)
          × (r.playback_flags ≡ s.playback_flags)
          × (r.playback_gain ≡ s.playback_gain)
          × (r.cells ≡ s.cells))
unfolding copy_outputs store
copy_outputs-at zero m s x = (ground arith, ground arith, (refl, refl, refl, refl, refl))
copy_outputs-at (suc n) m s x =
    let ih = copy_outputs-at n m s x in (ground arith, ground arith, ih.2)

-- A reader finds in the published state the mixer as the daemon has it: the rendered cells, and, in row
-- `s` and column `d` of the flat arrays, the gain and the flags of every crosspoint, of every fader and
-- the stereo pairs.
pub publish_mixer_lem :
    (m : MixerModel) (sh : MixerShadow) (old : Shared) (i s d : ℕ)
    → i < 2048
    → s < 28
    → d < 28
    → let r = publish_mixer m sh old in
      (r.cells i ≡ sh i)
      × (r.input_flags (s * 28 + d) ≡ (m.inputs s d).flags)
      × (r.input_gain (s * 28 + d) ≡ (m.inputs s d).gain)
      × (r.playback_flags (s * 28 + d) ≡ (m.playback s d).flags)
      × (r.playback_gain (s * 28 + d) ≡ (m.playback s d).gain)
      × (r.output_flags d ≡ (m.outputs d).flags)
      × (r.output_gain d ≡ (m.outputs d).gain)
      × (r.stereo_in ≡ m.stereo_in)
      × (r.stereo_pb ≡ m.stereo_pb)
unfolding publish_mixer stereo_bits cell output Mixer.cell
publish_mixer_lem m sh old i s d hi hs hd =
    let first = copy_cells 2048 sh old in
    let whole = copy_cells-at 2048 sh old i in
    let rows = copy_sources-at 28 m first s d hs hd in
    let outs = copy_outputs-at 28 m (copy_sources 28 m first) d in
    let kept = outs.2 in
    let at = λ (f : ℕ → ℕ). f (s * 28 + d) in
    (
      ground (arith, ap (λ (f : ℕ → ℕ). f i) (kept.4 ∙ rows.4)),
      ground (arith, ap at kept.0),
      ground (arith, ap at kept.1),
      ground (arith, ap at kept.2),
      ground (arith, ap at kept.3),
      ground arith,
      ground arith,
      refl,
      refl,
    )
