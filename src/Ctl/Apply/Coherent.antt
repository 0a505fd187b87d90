-- ===== src/Ctl/Apply/Coherent.antt =====
-- The shadow stays what the mixer renders to.
use userface.Base.{ℕ, ◌+◌, ◌*◌, ◌<◌, ◌≡◌, refl, ◌∙◌, arith, ◌==◌, if◌then◌else◌}
use userface.Mixer.{SrcKind, input, playback, set_input, set_playback, set_fader}
use userface.Mixer.Model.{
  Cell, MixerModel, quadlet, cell, set_cell, output, set_output, put, put_output, render,
}
use userface.Mixer.Model.Image.{image, render-image, set_input-at, set_playback-at, set_fader-at}
use userface.Mixer.Model.Writes.{render_cell, render_output}
use userface.Ctl.Apply.{Daemon, dirty}

-- The address of a crosspoint in the shadow.
abbrev pub place : SrcKind → ℕ → ℕ → ℕ
place input s d = 64 * d + s
place playback s d = 64 * d + 32 + s

image-set_cell :
    (k : SrcKind) (s d : ℕ) (c : Cell) (m : MixerModel) (i : ℕ)
    → s < 28
    → d < 28
    → image (set_cell k s d c m) i ≡ (if i == place k s d then quadlet c else image m i)
unfolding set_cell put
image-set_cell input s d c m i hs hd = ground arith
image-set_cell playback s d c m i hs hd = ground arith

image-set_output :
    (o : ℕ) (c : Cell) (m : MixerModel) (i : ℕ)
    → o < 28
    → image (set_output o c m) i ≡ (if i == 2016 + o then quadlet c else image m i)
unfolding set_output put_output
image-set_output o c m i ho = ground arith

-- What the lambda `dirty` does to the shadow.
pub dirty_cell-at :
    (k : SrcKind) (s e : ℕ) (m : MixerModel) (d : Daemon) (i : ℕ)
    → s < 28
    → e < 28
    → (dirty (render_cell k s e m) d).shadow i
      ≡ (if i == place k s e then quadlet (cell k s e m) else d.shadow i)
unfolding dirty render_cell set_input set_playback
dirty_cell-at input s e m d i hs he = set_input-at s e (quadlet (cell input s e m)) d.shadow i hs he
dirty_cell-at playback s e m d i hs he =
    set_playback-at s e (quadlet (cell playback s e m)) d.shadow i hs he

pub dirty_output-at :
    (o : ℕ) (m : MixerModel) (d : Daemon) (i : ℕ)
    → o < 28
    → (dirty (render_output o m) d).shadow i
      ≡ (if i == 2016 + o then quadlet (output o m) else d.shadow i)
unfolding dirty render_output set_fader
dirty_output-at o m d i ho = set_fader-at o (quadlet (output o m)) d.shadow i ho

own_cell :
    (k : SrcKind) (s e : ℕ) (c : Cell) (m : MixerModel)
    → s < 28
    → e < 28
    → cell k s e (set_cell k s e c m) ≡ c
unfolding cell set_cell put
own_cell input s e c m hs he = ground arith
own_cell playback s e c m hs he = ground arith

own_output : (o : ℕ) (c : Cell) (m : MixerModel) → o < 28 → output o (set_output o c m) ≡ c
unfolding output set_output put_output
own_output o c m ho = ground arith

-- The shadow is what the mixer renders to.
abbrev pub Coherent : Daemon → Type 0
Coherent d = (i : ℕ) → d.shadow i ≡ render d.model i

-- A crosspoint, or a fader, that is set and rendered.
pub set_cell-Coherent :
    (k : SrcKind) (s e : ℕ) (c : Cell) (d : Daemon)
    → s < 28
    → e < 28
    → Coherent d
    → let m = set_cell k s e c d.model in
      Coherent (dirty (render_cell k s e m) (record d { model = m }))
unfolding dirty
set_cell-Coherent k s e c d hs he h i =
    let m = set_cell k s e c d.model in
    let there = dirty_cell-at k s e m (record d { model = m }) i hs he in
    let before = h i in
    rw (render-image m i, image-set_cell k s e c d.model i hs he)
      (there ∙ rw (own_cell k s e c d.model hs he, before, render-image d.model i) refl)

pub set_output-Coherent :
    (o : ℕ) (c : Cell) (d : Daemon)
    → o < 28
    → Coherent d
    → let m = set_output o c d.model in
      Coherent (dirty (render_output o m) (record d { model = m }))
unfolding dirty
set_output-Coherent o c d ho h i =
    let m = set_output o c d.model in
    let there = dirty_output-at o m (record d { model = m }) i ho in
    let before = h i in
    rw (render-image m i, image-set_output o c d.model i ho)
      (there ∙ rw (own_output o c d.model ho, before, render-image d.model i) refl)
