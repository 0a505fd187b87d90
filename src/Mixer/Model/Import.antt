-- ===== src/Mixer/Model/Import.antt =====
-- `import_cells` of a rendered matrix.
use userface.Base.{
  ℕ, zero, suc, ◌+◌, ◌-◌, ◌*◌, ◌/◌, ◌%◌, ◌<◌, ◌≡◌, refl, sym, ◌∙◌, ap, ap₂, Bool, true, false, ◌&&◌,
  arith, ltb, ◌==◌, if◌then◌else◌, Bool-cases, inl, inr,
}
use userface.Mixer.{
  signed_coeff, coeff_quadlet, quadlet_coeff, coeff_magnitude, is_negative, input_coeff_addr,
  playback_coeff_addr, output_fader_addr,
}
use userface.Mixer.Coeff.{index_of-input, index_of-playback, index_of-fader}
use userface.Mixer.Model.{
  Cell, MixerModel, inverted, muted, has_flag, quadlet, render, adopt, get, put, put_output,
  import_destinations, import_sources, import_outputs, import_cells,
}
use userface.Mixer.Model.Image.{image, render-image}
use userface.Mixer.Model.Edits.{adopt-quadlet}

-- Reading a coefficient back and writing it again gives the same quadlet.
coeff_again :
    (g : ℕ) (b : Bool)
    → signed_coeff (coeff_magnitude (signed_coeff g b)) (is_negative (signed_coeff g b))
      ≡ signed_coeff g b
unfolding signed_coeff coeff_magnitude
coeff_again g true = ground arith
coeff_again g false = ground arith

adopted_flags : (v : ℕ) → has_flag (adopt v).flags inverted ≡ is_negative v
unfolding adopt
adopted_flags v = elim (Bool-cases (is_negative v)) [ inl e ↦ rw e refl | inr e ↦ rw e refl ]

adopted_muted : (v : ℕ) → has_flag (adopt v).flags muted ≡ false
unfolding adopt
adopted_muted v = elim (Bool-cases (is_negative v)) [ inl e ↦ rw e refl | inr e ↦ rw e refl ]

adopted_gain : (v : ℕ) → (adopt v).gain ≡ coeff_magnitude v
unfolding adopt
adopted_gain v = refl

quadlet-adopt : (c : Cell) → quadlet (adopt (quadlet c)) ≡ quadlet c
unfolding quadlet coeff_quadlet
quadlet-adopt c =
    let g = if has_flag c.flags muted then 0 else c.gain in
    let b = has_flag c.flags inverted in
    let v = signed_coeff g b in
    rw (adopted_muted v, adopted_flags v, adopted_gain v) (coeff_again g b)

import_destinations-at :
    (n s : ℕ) (cells : ℕ → ℕ) (count : ℕ) (m : MixerModel) (i j : ℕ)
    → ((import_destinations n s cells count m).inputs i j ≡ (
        if (i == s) && ltb j n
        then adopt (get cells count (input_coeff_addr i j))
        else m.inputs i j))
      × ((import_destinations n s cells count m).playback i j ≡ (
          if (i == s) && ltb j n
          then adopt (get cells count (playback_coeff_addr i j))
          else m.playback i j))
      × ((import_destinations n s cells count m).outputs j ≡ m.outputs j)
unfolding import_destinations put
import_destinations-at zero s cells count m i j = ground arith
import_destinations-at (suc n) s cells count m i j =
    let ih = import_destinations-at n s cells count m i j in ground arith

import_sources-at :
    (n : ℕ) (cells : ℕ → ℕ) (count : ℕ) (m : MixerModel) (i j : ℕ)
    → ((import_sources n cells count m).inputs i j ≡ (
        if ltb i n && ltb j 28
        then adopt (get cells count (input_coeff_addr i j))
        else m.inputs i j))
      × ((import_sources n cells count m).playback i j ≡ (
          if ltb i n && ltb j 28
          then adopt (get cells count (playback_coeff_addr i j))
          else m.playback i j))
      × ((import_sources n cells count m).outputs j ≡ m.outputs j)
unfolding import_sources
import_sources-at zero cells count m i j = ground arith
import_sources-at (suc n) cells count m i j =
    let ih = import_sources-at n cells count m i j in
    let row = import_destinations-at 28 n cells count (import_sources n cells count m) i j in
    ground arith

import_outputs-at :
    (n : ℕ) (cells : ℕ → ℕ) (count : ℕ) (m : MixerModel) (i j : ℕ)
    → ((import_outputs n cells count m).inputs i j ≡ m.inputs i j)
      × ((import_outputs n cells count m).playback i j ≡ m.playback i j)
      × ((import_outputs n cells count m).outputs j
          ≡ (if ltb j n then adopt (get cells count (output_fader_addr j)) else m.outputs j))
unfolding import_outputs put_output
import_outputs-at zero cells count m i j = ground arith
import_outputs-at (suc n) cells count m i j =
    let ih = import_outputs-at n cells count m i j in ground arith

get-input :
    (m : MixerModel) (s d : ℕ)
    → s < 28
    → d < 28
    → get (render m) 2048 (input_coeff_addr s d) ≡ quadlet (m.inputs s d)
unfolding get quadlet_coeff
get-input m s d hs hd = rw (index_of-input s d hs hd, render-image m (64 * d + s)) (ground arith)

get-playback :
    (m : MixerModel) (s d : ℕ)
    → s < 28
    → d < 28
    → get (render m) 2048 (playback_coeff_addr s d) ≡ quadlet (m.playback s d)
unfolding get quadlet_coeff
get-playback m s d hs hd =
    rw (index_of-playback s d hs hd, render-image m (64 * d + 32 + s)) (ground arith)

get-fader :
    (m : MixerModel) (o : ℕ)
    → o < 28
    → get (render m) 2048 (output_fader_addr o) ≡ quadlet (m.outputs o)
unfolding get quadlet_coeff
get-fader m o ho = rw (index_of-fader o ho, render-image m (2016 + o)) (ground arith)

-- What the image tells of a cell: the gain that is heard, so 0 if the cell is muted, and 0x10000 if it is
-- above that; and the phase. A 0 that is inverted is told as 1.
abbrev pub as_heard : Cell → Cell
as_heard c =
    let g = if has_flag c.flags 1 then 0 else if ltb 0x1_0000 c.gain then 0x1_0000 else c.gain in
    record {
      gain = if has_flag c.flags 2 then (if g == 0 then 1 else g) else g;
      flags = if has_flag c.flags 2 then 2 else 0;
    }

adopt-heard : (c : Cell) → adopt (quadlet c) ≡ as_heard c
adopt-heard c =
    let told = adopt-quadlet c in ap₂ (λ (g f : ℕ). record { gain = g; flags = f }) told.0 told.1

-- Importing a rendered matrix of 2048 quadlets brings every crosspoint and every fader back to the
-- place that it was rendered from, as it is heard: a gain above the maximum cut to it, a muted one as 0,
-- the phase, no other flag, and an inverted 0 as an inverted 1.
pub import_cells-render :
    (m old : MixerModel) (s d : ℕ)
    → s < 28
    → d < 28
    → ((import_cells (render m) 2048 old).inputs s d ≡ as_heard (m.inputs s d))
      × ((import_cells (render m) 2048 old).playback s d ≡ as_heard (m.playback s d))
      × ((import_cells (render m) 2048 old).outputs d ≡ as_heard (m.outputs d))
unfolding import_cells
import_cells-render m old s d hs hd =
    let rows = import_sources-at 28 (render m) 2048 old s d in
    let out = import_outputs-at 28 (render m) 2048 (import_sources 28 (render m) 2048 old) s d in
    let e1 = ap adopt (get-input m s d hs hd) ∙ adopt-heard (m.inputs s d) in
    let e2 = ap adopt (get-playback m s d hs hd) ∙ adopt-heard (m.playback s d) in
    let e3 = ap adopt (get-fader m d hd) ∙ adopt-heard (m.outputs d) in ground arith

image_same :
    (m n : MixerModel)
    → ((s d : ℕ)
        → s < 28
        → d < 28
        → (quadlet (m.inputs s d) ≡ quadlet (n.inputs s d))
          × (quadlet (m.playback s d) ≡ quadlet (n.playback s d))
          × (quadlet (m.outputs d) ≡ quadlet (n.outputs d)))
    → (i : ℕ) → image m i ≡ image n i
image_same m n h i =
    let h1 = h (i % 64) (i / 64) in
    let h2 = h (i % 64 - 32) (i / 64) in let h3 = h 0 (i - 2016) in grind arith

-- A matrix that is rendered, imported and rendered again is the same device image, in every quadlet:
-- an upgrade from a saved matrix changes nothing that the device plays.
pub render-import_cells-render :
    (m old : MixerModel) (i : ℕ) → render (import_cells (render m) 2048 old) i ≡ render m i
render-import_cells-render m old i =
    rw (render-image (import_cells (render m) 2048 old) i, render-image m i)
      (image_same (import_cells (render m) 2048 old) m
        (λ s d hs hd.
          let c = import_cells-render m old s d hs hd in
          (
            ap quadlet (c.0 ∙ sym (adopt-heard (m.inputs s d))) ∙ quadlet-adopt (m.inputs s d),
            ap quadlet (c.1 ∙ sym (adopt-heard (m.playback s d))) ∙ quadlet-adopt (m.playback s d),
            ap quadlet (c.2 ∙ sym (adopt-heard (m.outputs d))) ∙ quadlet-adopt (m.outputs d),
          ))
        i)
