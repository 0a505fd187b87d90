-- ===== src/Mixer/Model/Image.antt =====
-- The device image that `render` makes, cell by cell.
use userface.Base.{
  ℕ, zero, suc, ◌+◌, ◌-◌, ◌*◌, ◌/◌, ◌%◌, ◌≤◌, ◌<◌, ◌≡◌, refl, ◌&&◌, arith, ltb, leb, ◌==◌,
  if◌then◌else◌,
}
use userface.Mixer.{MixerShadow, clear, set_input, set_playback, set_fader, set_at, set_cell}
use userface.Mixer.Coeff.{index_of-input, index_of-playback, index_of-fader}
use userface.Mixer.Model.{
  MixerModel, quadlet, render, render_sources, render_destinations, render_faders,
}

pub set_input-at :
    (s d v : ℕ) (sh : MixerShadow) (i : ℕ)
    → s < 28
    → d < 28
    → set_input s d v sh i ≡ (if i == 64 * d + s then v else sh i)
unfolding set_input set_at set_cell
set_input-at s d v sh i hs hd = rw (index_of-input s d hs hd) (ground arith)

pub set_playback-at :
    (s d v : ℕ) (sh : MixerShadow) (i : ℕ)
    → s < 28
    → d < 28
    → set_playback s d v sh i ≡ (if i == 64 * d + 32 + s then v else sh i)
unfolding set_playback set_at set_cell
set_playback-at s d v sh i hs hd = rw (index_of-playback s d hs hd) (ground arith)

pub set_fader-at :
    (o v : ℕ) (sh : MixerShadow) (i : ℕ)
    → o < 28
    → set_fader o v sh i ≡ (if i == 2016 + o then v else sh i)
unfolding set_fader set_at set_cell
set_fader-at o v sh i ho = rw (index_of-fader o ho) (ground arith)

-- A row after its first `n` sources.
abbrev pub row : ℕ → ℕ → MixerModel → ℕ → ℕ → ℕ
row n d m old i =
    if (i / 64 == d) && ltb (i % 64) n
    then quadlet (m.inputs (i % 64) d)
    else if (i / 64 == d) && leb 32 (i % 64) && ltb (i % 64) (32 + n)
    then quadlet (m.playback (i % 64 - 32) d)
    else old

pub row-suc :
    (n d : ℕ) (m : MixerModel) (old i : ℕ)
    → n < 28
    → (if i == 64 * d + 32 + n
        then quadlet (m.playback n d)
        else if i == 64 * d + n
        then quadlet (m.inputs n d)
        else row n d m old i)
      ≡ row (suc n) d m old i
row-suc n d m old i hn = ground arith

render_sources-at :
    (n d : ℕ) (m : MixerModel) (sh : MixerShadow) (i : ℕ)
    → n ≤ 28
    → d < 28
    → render_sources n d m sh i ≡ row n d m (sh i) i
unfolding render_sources
render_sources-at zero d m sh i hn hd = ground arith
render_sources-at (suc n) d m sh i hn hd =
    rw
      (
        set_playback-at n d (quadlet (m.playback n d))
            (set_input n d (quadlet (m.inputs n d)) (render_sources n d m sh)) i (omega arith) hd,
        set_input-at n d (quadlet (m.inputs n d)) (render_sources n d m sh) i (omega arith) hd,
        render_sources-at n d m sh i (omega arith) hd,
      )
      (row-suc n d m (sh i) i (omega arith))

-- The matrix after its first `n` destinations.
abbrev matrix : ℕ → MixerModel → ℕ → ℕ → ℕ
matrix n m old i =
    if ltb (i / 64) n && ltb (i % 64) 28
    then quadlet (m.inputs (i % 64) (i / 64))
    else if ltb (i / 64) n && leb 32 (i % 64) && ltb (i % 64) 60
    then quadlet (m.playback (i % 64 - 32) (i / 64))
    else old

matrix-suc :
    (n : ℕ) (m : MixerModel) (old i : ℕ) → row 28 n m (matrix n m old i) i ≡ matrix (suc n) m old i
matrix-suc n m old i = ground arith

render_destinations-at :
    (n : ℕ) (m : MixerModel) (sh : MixerShadow) (i : ℕ)
    → n ≤ 28
    → render_destinations n m sh i ≡ matrix n m (sh i) i
unfolding render_destinations
render_destinations-at zero m sh i hn = ground arith
render_destinations-at (suc n) m sh i hn =
    rw
      (
        render_sources-at 28 n m (render_destinations n m sh) i (omega arith) (omega arith),
        render_destinations-at n m sh i (omega arith),
      )
      (matrix-suc n m (sh i) i)

abbrev faders : ℕ → MixerModel → ℕ → ℕ → ℕ
faders n m old i = if leb 2016 i && ltb i (2016 + n) then quadlet (m.outputs (i - 2016)) else old

faders-suc :
    (n : ℕ) (m : MixerModel) (old i : ℕ)
    → (if i == 2016 + n then quadlet (m.outputs n) else faders n m old i) ≡ faders (suc n) m old i
faders-suc n m old i = ground arith

render_faders-at :
    (n : ℕ) (m : MixerModel) (sh : MixerShadow) (i : ℕ)
    → n ≤ 28
    → render_faders n m sh i ≡ faders n m (sh i) i
unfolding render_faders
render_faders-at zero m sh i hn = ground arith
render_faders-at (suc n) m sh i hn =
    rw
      (
        set_fader-at n (quadlet (m.outputs n)) (render_faders n m sh) i (omega arith),
        render_faders-at n m sh i (omega arith),
      )
      (faders-suc n m (sh i) i)

-- The image that the RAM's layout asks for: rows of 64 quadlets, 28 inputs and, from the 33rd on, 28
-- playback channels, one row for each of 28 destinations; the faders from quadlet 2016 on; all else 0.
abbrev pub image : MixerModel → ℕ → ℕ
image m i = faders 28 m (matrix 28 m 0 i) i

-- Every quadlet of a rendered matrix is the one that the layout asks for, no quadlet left over from
-- a write at a wrong address: the faders, in the row of a destination that does not exist, overwrite
-- nothing.
pub render-image : (m : MixerModel) (i : ℕ) → render m i ≡ image m i
unfolding render clear
render-image m i =
    rw
      (
        render_faders-at 28 m (render_destinations 28 m clear) i (omega arith),
        render_destinations-at 28 m clear i (omega arith),
      )
      refl
