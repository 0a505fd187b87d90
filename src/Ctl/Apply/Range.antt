-- ===== src/Ctl/Apply/Range.antt =====
-- The commands whose channels exist, and those whose channels do not.
use userface.Base.{
  ℕ, ◌+◌, ◌*◌, ◌/◌, ◌<◌, ◌≡◌, refl, ◌∙◌, arith, Bool, true, false, ◌&&◌, ◌||◌, ltb, leb, ◌==◌,
  if◌then◌else◌, sym, ap, ap₂, not, ◌++◌, [], ◌∷◌, Bool-cases, inl, inr, u32, bit_or, bit_and, ◌<<◌,
  ◌-◌, ◌^◌,
}
use userface.Mixer.{
  SrcKind, input, playback, mixer_channels, input_coeff_addr, playback_coeff_addr,
  output_fader_addr,
}
use userface.Mixer.Model.Writes.{Write, render_cell}
use userface.Protocol.Control.{quadlet_write}
use userface.Mixer.Model.{Cell, MixerModel, cell, output, set_cell, quadlet}
use userface.Mixer.Model.Stereo.{set_stereo, set_stereo_bits, stereo_bits}
use userface.Mixer.Model.Image.{image, render-image}
use userface.Ctl.Proto.{CtlCommand, set_mixer, set_fader, set_cell_flags, set_out_flags, submix}
use userface.Ctl.Apply.{
  Daemon, emit, publish_if, dirty, insert, flush, flush_cells, pump_set_mixer, pump_set_fader,
  pump_set_cell_flags, pump_set_out_flags, kind_of, update_flags, pump_set_stereo,
  pump_set_settings, pump_command,
}
use userface.Ctl.Apply.Coherent.{Coherent, set_cell-Coherent, set_output-Coherent}
use userface.Ctl.Apply.Columns.{pump_submix-Coherent}

-- The channels that a command names exist.
abbrev pub is_in_range : CtlCommand → Bool
is_in_range c =
    if (c.type == set_mixer) || (c.type == set_cell_flags)
    then ltb c.src mixer_channels && ltb c.dest mixer_channels
    else if (c.type == set_fader) || (c.type == set_out_flags)
    then ltb c.out mixer_channels
    else if c.type == submix
    then ltb c.dest mixer_channels
    else true

set_out_flags-Coherent :
    (dbq : ℕ) (c : CtlCommand) (d : Daemon)
    → c.out < 28
    → Coherent d
    → Coherent (pump_set_out_flags dbq c d)
unfolding pump_set_out_flags emit
set_out_flags-Coherent dbq c d ho h i =
    let old = output c.out d.model in
    let base =
      set_output-Coherent c.out (record old { flags = update_flags old.flags c.mask c.flags }) d ho
        h i in
    ground arith

image-pairs :
    (out_of_range : Bool) (k : SrcKind) (v : ℕ) (m : MixerModel) (i : ℕ)
    → image (if out_of_range then m else set_stereo_bits k v m) i ≡ image m i
unfolding set_stereo_bits
image-pairs true k v m i = refl
image-pairs false input v m i = refl
image-pairs false playback v m i = refl

image-set_stereo :
    (k : SrcKind) (ch : ℕ) (on : Bool) (m : MixerModel) (i : ℕ)
    → image (set_stereo k ch on m) i ≡ image m i
unfolding set_stereo
image-set_stereo k ch on m i =
    let bit = u32 (1 << (ch / 2)) in
    let b = stereo_bits k m in
    image-pairs (leb 28 ch) k (if on then bit_or b bit else bit_and b (2 ^ 32 - 1 - bit)) m i

set_stereo-Coherent : (c : CtlCommand) (d : Daemon) → Coherent d → Coherent (pump_set_stereo c d)
unfolding pump_set_stereo
set_stereo-Coherent c d h i =
    let m = set_stereo (kind_of c.src_kind) c.src (not (c.on == 0)) d.model in
    h i
    ∙ rw (render-image d.model i, render-image m i)
        (sym (image-set_stereo (kind_of c.src_kind) c.src (not (c.on == 0)) d.model i))

-- A command whose channels exist keeps the shadow what the mixer renders to.
pub pump_command-Coherent :
    (dbq rate : ℕ) (c : CtlCommand) (d : Daemon)
    → is_in_range c ≡ true
    → Coherent d
    → Coherent (pump_command dbq rate c d)
unfolding pump_command pump_set_mixer pump_set_fader pump_set_cell_flags pump_set_settings
    publish_if emit
pump_command-Coherent dbq rate c d r h i =
    let old = cell (kind_of c.src_kind) c.src c.dest d.model in
    let out = output c.out d.model in
    let a = λ (hs : c.src < 28) (hd : c.dest < 28).
      set_cell-Coherent (kind_of c.src_kind) c.src c.dest (record old { gain = c.coeff }) d hs hd h
        i in
    let b = λ (hs : c.src < 28) (hd : c.dest < 28).
      set_cell-Coherent (kind_of c.src_kind) c.src c.dest
        (record old { flags = update_flags old.flags c.mask c.flags }) d hs hd h i in
    let e =
      λ (ho : c.out < 28). set_output-Coherent c.out (record out { gain = c.coeff }) d ho h i in
    let f = λ (ho : c.out < 28). set_out_flags-Coherent dbq c d ho h i in
    let g = set_stereo-Coherent c d h i in
    let k = λ (hd : c.dest < 28). pump_submix-Coherent c d hd h i in let l = h i in ground arith

flush-writes : (d : Daemon) → (flush d).writes ≡ d.writes ++ (flush_cells 8 d.ctl_dirty).0
unfolding flush publish_if
flush-writes d = ground arith

flush-model : (d : Daemon) → (flush d).model ≡ d.model
unfolding flush publish_if
flush-model d = ground arith

cell_outside :
    (k : SrcKind) (s e : ℕ) (m : MixerModel)
    → (ltb s 28 && ltb e 28) ≡ false
    → cell k s e m ≡ m.scratch
unfolding cell
cell_outside input s e m h = rw h refl
cell_outside playback s e m h = rw h refl

set_cell_outside :
    (k : SrcKind) (s e : ℕ) (x : Cell) (m : MixerModel)
    → (ltb s 28 && ltb e 28) ≡ false
    → set_cell k s e x m ≡ record m { scratch = x }
unfolding set_cell
set_cell_outside input s e x m h = rw h refl
set_cell_outside playback s e x m h = rw h refl

render_outside :
    (k : SrcKind) (s e : ℕ) (m : MixerModel)
    → (ltb s 28 && ltb e 28) ≡ false
    → (render_cell k s e m).value ≡ quadlet m.scratch
unfolding render_cell
render_outside input s e m h = ap quadlet (cell_outside input s e m h)
render_outside playback s e m h = ap quadlet (cell_outside playback s e m h)

render_address :
    (n s e : ℕ) (m : MixerModel)
    → s < 2 ^ 16
    → e < 2 ^ 16
    → (render_cell (kind_of n) s e m).addr
      ≡ 0x8008_0000 + 256 * e + 4 * ((if n == 1 then 32 else 0) + s)
unfolding render_cell kind_of input_coeff_addr playback_coeff_addr
render_address n s e m hs he = elim (Bool-cases (n == 1)) [
  | inl y ↦ rw y (omega arith)
  | inr other ↦ rw other (omega arith)
]

dirty-sent :
    (w : Write) (d : Daemon)
    → d.ctl_dirty ≡ []
    → (flush (dirty w d)).writes ≡ d.writes ++ quadlet_write w.addr w.value ∷ []
unfolding dirty insert flush_cells
dirty-sent w d e =
    flush-writes (dirty w d) ∙ ap (λ m. d.writes ++ (flush_cells 8 (insert w.addr w.value m)).0) e

-- A gain for a crosspoint of which a channel does not exist, either channel below 2 ^ 16 and with no write
-- waiting. The mixer is left alone, but for its scratch cell, which gets the gain; the device is not: the
-- flush of the tick writes the scratch cell at the address that the channels give. Input 32 + `s` of an
-- output has the address of its playback channel `s`, and playback channel `o` of output 31 that of the
-- fader of output `o`.
pub out_of_range_write :
    (c : CtlCommand) (d : Daemon)
    → (ltb c.src 28 && ltb c.dest 28) ≡ false
    → c.src < 2 ^ 16
    → c.dest < 2 ^ 16
    → d.ctl_dirty ≡ []
    → let after = flush (pump_set_mixer c d) in
      let scratch = record d.model.scratch { gain = c.coeff } in
      let address =
        0x8008_0000 + 256 * c.dest + 4 * ((if c.src_kind == 1 then 32 else 0) + c.src) in
      (after.writes ≡ d.writes ++ quadlet_write address (quadlet scratch) ∷ [])
      × (after.model ≡ record d.model { scratch = scratch })
      × ((s e : ℕ) → s < 28 → e < 28 → input_coeff_addr (32 + s) e ≡ playback_coeff_addr s e)
      × ((o : ℕ) → o < 28 → playback_coeff_addr o 31 ≡ output_fader_addr o)
unfolding pump_set_mixer dirty input_coeff_addr playback_coeff_addr output_fader_addr
out_of_range_write c d out hs he empty =
    let k = kind_of c.src_kind in
    let scratch = record d.model.scratch { gain = c.coeff } in
    let old = cell_outside k c.src c.dest d.model out in
    let m =
      set_cell k c.src c.dest (record (cell k c.src c.dest d.model) { gain = c.coeff }) d.model in
    let new : m ≡ record d.model { scratch = scratch } =
      set_cell_outside k c.src c.dest (record (cell k c.src c.dest d.model) { gain = c.coeff })
        d.model out
      ∙ ap (λ (x : Cell). record d.model { scratch = record x { gain = c.coeff } }) old in
    let w = render_cell k c.src c.dest m in
    let value =
      render_outside k c.src c.dest m out ∙ ap (λ (x : MixerModel). quadlet x.scratch) new in
    let address = render_address c.src_kind c.src c.dest m hs he in
    (
      dirty-sent w (record d { model = m }) empty
          ∙ ap₂ (λ a v. d.writes ++ quadlet_write a v ∷ []) address value,
      flush-model (dirty w (record d { model = m })) ∙ new,
      λ s e bs be. omega arith,
      λ o b. omega arith,
    )
