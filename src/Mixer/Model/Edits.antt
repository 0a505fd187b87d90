-- ===== src/Mixer/Model/Edits.antt =====
-- What an edit of the logical mixer changes, and what it leaves.
use userface.Base.{
  ℕ, zero, suc, ◌<◌, ◌≡◌, ◌≢◌, refl, ap, true, ◌&&◌, arith, ltb, ◌==◌, if◌then◌else◌, ℕ_discrete,
}
use userface.Mixer.{SrcKind, input, playback, mixer_max, coeff_quadlet}
use userface.Mixer.Coeff.{signed_coeff_lem}
use userface.Mixer.Model.{
  Cell, MixerModel, empty_cell, put, inverted, muted, has_flag, quadlet, adopt, in_range, cell,
  set_cell, copy_sources, copy_submix, clear_sources, clear_submix,
}

abbrev other : SrcKind → SrcKind
other input = playback
other playback = input

-- A crosspoint that is written is read back, also where it is out of range, from the scratch cell.
-- Of the crosspoints in range it is the only one that changes, in its own half of the matrix, and none
-- changes if it is out of range.
pub cell-set_cell :
    (k : SrcKind) (s d i j : ℕ) (c : Cell) (m : MixerModel)
    → in_range i j ≡ true
    → (cell k s d (set_cell k s d c m) ≡ c)
      × (cell k i j (set_cell k s d c m) ≡ (if (i == s) && (j == d) then c else cell k i j m))
      × (cell (other k) i j (set_cell k s d c m) ≡ cell (other k) i j m)
unfolding cell set_cell put
cell-set_cell input s d i j c m h = ground arith
cell-set_cell playback s d i j c m h = ground arith

copy_sources-at :
    (n from to : ℕ) (m : MixerModel) (i j : ℕ)
    → from ≢ to
    → ((copy_sources n from to m).inputs i j
        ≡ (if ltb i n && (j == to) then m.inputs i from else m.inputs i j))
      × ((copy_sources n from to m).playback i j
          ≡ (if ltb i n && (j == to) then m.playback i from else m.playback i j))
      × ((copy_sources n from to m).outputs ≡ m.outputs)
unfolding copy_sources put
copy_sources-at zero from to m i j h = (ground arith, ground arith, refl)
copy_sources-at (suc n) from to m i j h =
    let ih = copy_sources-at n from to m i j h in
    let source = copy_sources-at n from to m n from h in (ground arith, ground arith, ih.2)

-- Copying a submix gives the destination the source's column, from every input and every playback
-- channel, and changes no other column and no fader. Copying onto itself and copying from or to an
-- output that does not exist change nothing.
pub copy_submix_lem :
    (from to : ℕ) (m : MixerModel) (s d : ℕ)
    → s < 28
    → d < 28
    → let changed = ltb from 28 && ltb to 28 && (d == to) in
      ((copy_submix from to m).inputs s d ≡ (if changed then m.inputs s from else m.inputs s d))
      × ((copy_submix from to m).playback s d
          ≡ (if changed then m.playback s from else m.playback s d))
      × ((copy_submix from to m).outputs d ≡ m.outputs d)
unfolding copy_submix
copy_submix_lem from to m s d hs hd = elim (ℕ_discrete from to) [
  | yes e ↦ ground arith
  | no e ↦
      let all = copy_sources-at 28 from to m s d e in let out = ap (λ o. o d) all.2 in ground arith
]

clear_sources-at :
    (n out : ℕ) (m : MixerModel) (i j : ℕ)
    → ((clear_sources n out m).inputs i j
        ≡ (if ltb i n && (j == out) then empty_cell else m.inputs i j))
      × ((clear_sources n out m).playback i j
          ≡ (if ltb i n && (j == out) then empty_cell else m.playback i j))
      × ((clear_sources n out m).outputs ≡ m.outputs)
unfolding clear_sources put
clear_sources-at zero out m i j = (ground arith, ground arith, refl)
clear_sources-at (suc n) out m i j =
    let ih = clear_sources-at n out m i j in (ground arith, ground arith, ih.2)

-- Clearing a submix empties its column, the inputs' and the playback channels', and changes no other
-- column and no fader; clearing that of an output that does not exist changes nothing.
pub clear_submix_lem :
    (out : ℕ) (m : MixerModel) (s d : ℕ)
    → s < 28
    → d < 28
    → ((clear_submix out m).inputs s d ≡ (if d == out then empty_cell else m.inputs s d))
      × ((clear_submix out m).playback s d ≡ (if d == out then empty_cell else m.playback s d))
      × ((clear_submix out m).outputs d ≡ m.outputs d)
unfolding clear_submix
clear_submix_lem out m s d hs hd =
    let all = clear_sources-at 28 out m s d in let outs = ap (λ o. o d) all.2 in ground arith

-- What `import_cells` makes of the quadlet of a crosspoint: the gain that was rendered, cut to the
-- maximum, and the phase, with no mute. A muted or silent crosspoint comes back with gain 0, and an
-- inverted one of those with gain 1.
pub adopt-quadlet :
    (c : Cell)
    → let g =
        if has_flag c.flags muted then 0 else if ltb mixer_max c.gain then mixer_max else c.gain in
      (adopt (quadlet c)).gain
        ≡ (if has_flag c.flags inverted then (if g == 0 then 1 else g) else g)
      × ((adopt (quadlet c)).flags ≡ (if has_flag c.flags inverted then inverted else 0))
unfolding adopt quadlet coeff_quadlet
adopt-quadlet c =
    let g = if has_flag c.flags muted then 0 else c.gain in
    let coeff = signed_coeff_lem g (has_flag c.flags inverted) in ground arith
