-- ===== src/Mixer/Model/Defaults.antt =====
-- The two defaults: that of the logical mixer and that of the shadow.
use userface.Base.{
  ℕ, zero, suc, ◌+◌, ◌-◌, ◌/◌, ◌%◌, ◌≤◌, ◌≡◌, refl, ◌∙◌, sym, Bool, true, false, ◌&&◌, arith, ltb,
  leb, ◌==◌, if◌then◌else◌,
}
use userface.Mixer.{
  mixer_channels, mixer_unity, MixerShadow, clear, coeff_quadlet, signed_coeff, set_playback,
  set_fader,
}
use userface.Mixer.Model.{
  Cell, empty_cell, empty_model, put, put_output, reset_channels, reset_defaults, quadlet, render,
}
use userface.Mixer.Model.Image.{image, render-image, set_playback-at, set_fader-at}

abbrev unity_cell : Cell
unity_cell = record { gain = mixer_unity; flags = 0 }

-- The shadow after `n` channels.
abbrev default_image : ℕ → Bool → ℕ → ℕ
default_image n diag i =
    if leb 2016 i && ltb i (2016 + n)
    then mixer_unity
    else if diag && (i % 64 == 32 + i / 64) && ltb (i / 64) n
    then mixer_unity
    else 0

shadow_defaults :
    (n : ℕ) (diag : Bool) (i : ℕ)
    → n ≤ 28
    → userface.Mixer.reset_channels n diag clear i ≡ default_image n diag i
unfolding userface.Mixer.reset_channels clear
shadow_defaults zero diag i hn = ground arith
shadow_defaults (suc n) true i hn =
    let before = userface.Mixer.reset_channels n true clear in
    rw
      (
        set_fader-at n mixer_unity (set_playback n n mixer_unity before) i (omega arith),
        set_playback-at n n mixer_unity before i (omega arith) (omega arith),
        shadow_defaults n true i (omega arith),
      )
      (ground arith)
shadow_defaults (suc n) false i hn =
    let before = userface.Mixer.reset_channels n false clear in
    rw (set_fader-at n mixer_unity before i (omega arith), shadow_defaults n false i (omega arith))
      (ground arith)

model_defaults :
    (n : ℕ) (diag : Bool) (i j : ℕ)
    → ((reset_channels n diag empty_model).inputs i j ≡ empty_cell)
      × ((reset_channels n diag empty_model).playback i j
          ≡ (if diag && (i == j) && ltb i n then unity_cell else empty_cell))
      × ((reset_channels n diag empty_model).outputs i
          ≡ (if ltb i n then unity_cell else empty_cell))
unfolding reset_channels put put_output
model_defaults zero diag i j = ground arith
model_defaults (suc n) true i j =
    let ih = model_defaults n true i j in let new = model_defaults n true n n in ground arith
model_defaults (suc n) false i j =
    let ih = model_defaults n false i j in let new = model_defaults n false n n in ground arith

quadlet-unity : quadlet unity_cell ≡ mixer_unity
unfolding quadlet coeff_quadlet signed_coeff
quadlet-unity = refl

quadlet-empty : quadlet empty_cell ≡ 0
unfolding quadlet coeff_quadlet signed_coeff
quadlet-empty = refl

image_defaults :
    (n : ℕ) (diag : Bool) (i : ℕ)
    → n ≤ 28
    → image (reset_channels n diag empty_model) i ≡ default_image n diag i
image_defaults n diag i hn =
    let source = model_defaults n diag (i % 64) (i / 64) in
    let stream = model_defaults n diag (i % 64 - 32) (i / 64) in
    let fader = model_defaults n diag (i - 2016) 0 in
    let unity = quadlet-unity in let empty = quadlet-empty in ground arith

-- The two defaults agree: rendering the logical mixer's default gives the shadow's, in every quadlet,
-- for every channel count and with the playback routes or without them.
pub render-reset_defaults :
    (dbq : ℕ) (diag : Bool) (i : ℕ)
    → render (reset_defaults dbq diag) i ≡ userface.Mixer.reset_defaults dbq diag i
unfolding reset_defaults userface.Mixer.reset_defaults
render-reset_defaults dbq diag i =
    let n = if ltb dbq mixer_channels then dbq else mixer_channels in
    let bound : n ≤ 28 = ground arith in
    render-image (reset_channels n diag empty_model) i
    ∙ image_defaults n diag i bound
    ∙ sym (shadow_defaults n diag i bound)
