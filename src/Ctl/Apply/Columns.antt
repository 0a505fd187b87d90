-- ===== src/Ctl/Apply/Columns.antt =====
-- The column of a submix, rendered again.
use userface.Base.{
  ℕ, zero, suc, ◌-◌, ◌/◌, ◌%◌, ◌≤◌, ◌<◌, ◌≡◌, ◌≢◌, sym, refl, ◌∙◌, arith, Bool, true, false, ◌==◌,
  if◌then◌else◌,
}
use userface.Mixer.{SrcKind, input, playback}
use userface.Mixer.Model.{MixerModel, cell, copy_submix, clear_submix}
use userface.Mixer.Model.Edits.{copy_submix_lem, clear_submix_lem}
use userface.Mixer.Model.Image.{image, row, row-suc, render-image}
use userface.Mixer.Model.Writes.{render_cell}
use userface.Ctl.Proto.{CtlCommand}
use userface.Ctl.Apply.{Daemon, dirty, dirty_column, pump_submix}
use userface.Ctl.Apply.Coherent.{Coherent, dirty_cell-at}
use userface.Ctl.Apply.Agree.{dirty_column-model}

-- The shadow after `n` sources of the column: the row of the image, over what was there.
inside :
    (n dest : ℕ) (m : MixerModel)
    → n < 28
    → dest < 28
    → (cell input n dest m ≡ m.inputs n dest) × (cell playback n dest m ≡ m.playback n dest)
unfolding cell
inside n dest m hn hd = (ground arith, ground arith)

dirty-model :
    (k : SrcKind) (n dest : ℕ) (m : MixerModel) (d : Daemon)
    → (dirty (render_cell k n dest m) d).model ≡ d.model
unfolding dirty
dirty-model k n dest m d = refl

dirty_column-at :
    (n dest : ℕ) (d : Daemon) (i : ℕ)
    → n ≤ 28
    → dest < 28
    → (dirty_column n dest d).shadow i ≡ row n dest d.model (d.shadow i) i
unfolding dirty_column
dirty_column-at zero dest d i hn hd = ground arith
dirty_column-at (suc n) dest d i hn hd =
    let before = dirty_column n dest d in
    let same = (dirty_column-model n dest d).0 in
    let inputs = dirty (render_cell input n dest before.model) before in
    let first = dirty_cell-at input n dest before.model before i (omega arith) hd in
    let second = dirty_cell-at playback n dest inputs.model inputs i (omega arith) hd in
    let kept = dirty-model input n dest before.model before in
    let m = d.model in
    second
    ∙ rw
        (
          first,
          kept,
          same,
          dirty_column-at n dest d i (omega arith) hd,
          (inside n dest m (omega arith) hd).0,
          (inside n dest m (omega arith) hd).1,
        )
        (row-suc n dest m (d.shadow i) i (omega arith))

-- Two mixers that differ in one column at most have images that differ in its row at most.
image-row :
    (dest : ℕ) (m old : MixerModel) (i : ℕ)
    → dest < 28
    → ((s d : ℕ)
        → s < 28
        → d < 28
        → d ≢ dest
        → (m.inputs s d ≡ old.inputs s d) × (m.playback s d ≡ old.playback s d))
    → ((d : ℕ) → d < 28 → m.outputs d ≡ old.outputs d)
    → image m i ≡ row 28 dest m (image old i) i
image-row dest m old i hd same outs =
    let a = same (i % 64) (i / 64) in
    let b = same (i % 64 - 32) (i / 64) in let c = outs (i - 2016) in ground arith

-- Both edits of a submix leave the other columns and the faders.
others_kept :
    (copied : Bool) (src dest : ℕ) (m : MixerModel) (s d : ℕ)
    → s < 28
    → d < 28
    → d ≢ dest
    → let e = if copied then copy_submix src dest m else clear_submix dest m in
      (e.inputs s d ≡ m.inputs s d) × (e.playback s d ≡ m.playback s d)
others_kept true src dest m s d hs hd n =
    let l = copy_submix_lem src dest m s d hs hd in (ground arith, ground arith)
others_kept false src dest m s d hs hd n =
    let l = clear_submix_lem dest m s d hs hd in (ground arith, ground arith)

faders_kept :
    (copied : Bool) (src dest : ℕ) (m : MixerModel) (d : ℕ)
    → d < 28
    → (if copied then copy_submix src dest m else clear_submix dest m).outputs d ≡ m.outputs d
faders_kept true src dest m d hd = (copy_submix_lem src dest m d d hd hd).2
faders_kept false src dest m d hd = (clear_submix_lem dest m d d hd hd).2

pub pump_submix-Coherent :
    (c : CtlCommand) (d : Daemon) → c.dest < 28 → Coherent d → Coherent (pump_submix c d)
unfolding pump_submix
pump_submix-Coherent c d hd h i =
    let m = if c.on == 0 then copy_submix c.src c.dest d.model else clear_submix c.dest d.model in
    let same = (dirty_column-model 28 c.dest (record d { model = m })).0 in
    let column = dirty_column-at 28 c.dest (record d { model = m }) i (omega arith) hd in
    let before = h i in
    column
    ∙ rw (before, render-image d.model i, same, render-image m i)
        (sym (
          image-row c.dest m d.model i hd (others_kept (c.on == 0) c.src c.dest d.model)
            (faders_kept (c.on == 0) c.src c.dest d.model)))
