-- ===== src/Ctl/Apply/Device.antt =====
-- The mixer's RAM, as the writes of the daemon leave it.
use userface.Base.{
  ℕ, zero, suc, ◌<◌, ◌≡◌, refl, ◌∙◌, arith, Bool, true, false, ◌==◌, if◌then◌else◌, List, [], ◌∷◌,
}
use userface.Protocol.Control.{RegWrite, quadlet_write, block_write, conf_block, clock_config}
use userface.Mixer.{
  SrcKind, input, playback, index_of, mixer_ram, MixerShadow, set_at, input_coeff_addr,
  playback_coeff_addr, output_fader_addr,
}
use userface.Protocol.Settings.{assemble_conf_block}
use userface.Protocol.ClockConfig.{assemble_clock_config}
use userface.Mixer
use userface.Mixer.Model.{
  MixerModel, output, set_output, cell, set_cell, has_flag, rec, copy_submix, clear_submix,
}
use userface.Mixer.Model.Writes.{Write, render_cell, render_output}
use userface.Ctl.Proto.{
  CtlCommand, set_mixer, set_fader, set_settings, set_cell_flags, set_out_flags, set_stereo_type,
  submix,
}
use userface.Ctl.Apply.{
  Daemon, emit, publish_if, dirty, dirty_column, output_rec_mask, pump_set_mixer, pump_set_fader,
  pump_set_cell_flags, pump_set_out_flags, pump_set_stereo, pump_submix, pump_set_settings,
  pump_command, rec_entries, update_flags, kind_of,
}
use userface.Ctl.Apply.Dirty.{
  stored, stored_all, pending, IsCell, Ordered, insert-Ordered, stored-insert, stored_all-append,
}

-- A RAM that held `ram` and takes every write holds the shadow, once the cells that are still to be
-- written have been written.
pub record Synced (ram : ℕ → ℕ) (d : Daemon) : Type 0 where
  pub in_order : Ordered d.ctl_dirty
  pub reached :
      (i : ℕ)
      → i < 2048
      → stored_all i (pending d.ctl_dirty) (stored_all i d.writes (ram i)) ≡ d.shadow i

dirty-Synced :
    (ram : ℕ → ℕ) (w : Write) (d : Daemon) → IsCell w.addr → Synced ram d → Synced ram (dirty w d)
unfolding dirty set_at Mixer.set_cell stored
dirty-Synced ram w d c h = record {
  in_order = insert-Ordered w.addr w.value d.ctl_dirty c h.in_order;
  reached = λ i l.
      let before = h.reached i l in
      stored-insert i w.addr w.value d.ctl_dirty (stored_all i d.writes (ram i)) c h.in_order
      ∙ ground arith;
}

-- A write that is no cell of the mixer.
emit-Synced :
    (ram : ℕ → ℕ) (w : RegWrite) (d : Daemon)
    → ((i x : ℕ) → i < 2048 → stored i w x ≡ x)
    → Synced ram d
    → Synced ram (emit w d)
unfolding emit stored_all
emit-Synced ram w d out h = record {
  in_order = h.in_order;
  reached = λ i l.
      rw (stored_all-append i d.writes (w ∷ []) (ram i), out i (stored_all i d.writes (ram i)) l)
        (h.reached i l);
}

render_cell-IsCell : (k : SrcKind) (s e : ℕ) (m : MixerModel) → IsCell (render_cell k s e m).addr
unfolding render_cell input_coeff_addr playback_coeff_addr
render_cell-IsCell input s e m = (omega arith, omega arith, omega arith)
render_cell-IsCell playback s e m = (omega arith, omega arith, omega arith)

output-IsCell : (o : ℕ) (m : MixerModel) → IsCell (render_output o m).addr
unfolding render_output output_fader_addr
output-IsCell o m = (omega arith, omega arith, omega arith)

-- A change that touches neither the shadow, nor the map, nor what was written.
pub other-Synced :
    (ram : ℕ → ℕ) (d e : Daemon)
    → e.shadow ≡ d.shadow
    → e.ctl_dirty ≡ d.ctl_dirty
    → e.writes ≡ d.writes
    → Synced ram d
    → Synced ram e
other-Synced ram d e p q r h = record {
  in_order = rw q (h.in_order);
  reached = λ i l. rw (p, q, r) (h.reached i l);
}

pub if-Synced :
    (ram : ℕ → ℕ) (b : Bool) (d e : Daemon)
    → Synced ram d
    → Synced ram e
    → Synced ram (if b then d else e)
if-Synced ram true d e h k = h
if-Synced ram false d e h k = k

render_cell-Synced :
    (ram : ℕ → ℕ) (k : SrcKind) (s e : ℕ) (m n : MixerModel) (d : Daemon)
    → Synced ram d
    → Synced ram (dirty (render_cell k s e m) (record d { model = n }))
render_cell-Synced ram k s e m n d h =
    dirty-Synced ram (render_cell k s e m) (record d { model = n }) (render_cell-IsCell k s e m)
      (other-Synced ram d (record d { model = n }) refl refl refl h)

render_output-Synced :
    (ram : ℕ → ℕ) (o : ℕ) (m n : MixerModel) (d : Daemon)
    → Synced ram d
    → Synced ram (dirty (render_output o m) (record d { model = n }))
render_output-Synced ram o m n d h =
    dirty-Synced ram (render_output o m) (record d { model = n }) (output-IsCell o m)
      (other-Synced ram d (record d { model = n }) refl refl refl h)

dirty_column-Synced :
    (ram : ℕ → ℕ) (n dest : ℕ) (d : Daemon) → Synced ram d → Synced ram (dirty_column n dest d)
unfolding dirty_column
dirty_column-Synced ram zero dest d h = h
dirty_column-Synced ram (suc n) dest d h =
    let before = dirty_column n dest d in
    let inputs = dirty (render_cell input n dest before.model) before in
    dirty-Synced ram (render_cell playback n dest inputs.model) inputs
      (render_cell-IsCell playback n dest inputs.model)
      (dirty-Synced ram (render_cell input n dest before.model) before
        (render_cell-IsCell input n dest before.model) (dirty_column-Synced ram n dest d h))

block-Synced :
    (ram : ℕ → ℕ) (a : ℕ) (vs : List ℕ) (d : Daemon)
    → Synced ram d
    → Synced ram (emit (block_write a vs) d)
unfolding stored
block-Synced ram a vs d h = emit-Synced ram (block_write a vs) d (λ i x l. refl) h

set_out_flags-Synced :
    (ram : ℕ → ℕ) (dbq : ℕ) (c : CtlCommand) (d : Daemon)
    → Synced ram d
    → Synced ram (pump_set_out_flags dbq c d)
unfolding pump_set_out_flags
set_out_flags-Synced ram dbq c d h =
    let old = output c.out d.model in
    let f = update_flags old.flags c.mask c.flags in
    let m = set_output c.out (record old { flags = f }) d.model in
    let r = dirty (render_output c.out m) (record d { model = m }) in
    let w = emit (block_write output_rec_mask (rec_entries dbq m)) r in
    let rendered = render_output-Synced ram c.out m m d h in
    let written = block-Synced ram output_rec_mask (rec_entries dbq m) r rendered in
    if-Synced ram (has_flag old.flags rec) (if has_flag f rec then r else w)
      (if has_flag f rec then w else r) (if-Synced ram (has_flag f rec) r w rendered written)
      (if-Synced ram (has_flag f rec) w r written rendered)

clock_write-Synced :
    (ram : ℕ → ℕ) (v : ℕ) (d : Daemon)
    → Synced ram d
    → Synced ram (emit (quadlet_write clock_config v) d)
unfolding stored index_of
clock_write-Synced ram v d h =
    emit-Synced ram (quadlet_write clock_config v) d (λ i x l. ground arith) h

set_settings-Synced :
    (ram : ℕ → ℕ) (rate : ℕ) (c : CtlCommand) (d : Daemon)
    → Synced ram d
    → Synced ram (pump_set_settings rate c d)
unfolding pump_set_settings publish_if
set_settings-Synced ram rate c d h =
    let cb = assemble_conf_block c.settings in
    let st = c.settings in
    let clock =
      assemble_clock_config st.clock_master st.sync_ref (if c.rate == 0 then rate else c.rate) in
    let adopted = record d { settings = st } in
    let blob = cb.cr0 ∷ cb.cr1 ∷ cb.cr2 ∷ [] in
    let one =
      block-Synced ram conf_block blob adopted (other-Synced ram d adopted refl refl refl h) in
    let two = clock_write-Synced ram clock (emit (block_write conf_block blob) adopted) one in
    record { in_order = two.in_order; reached = two.reached }

-- Every command, in range or not, keeps the RAM on its way to the shadow.
pub pump_command-Synced :
    (ram : ℕ → ℕ) (dbq rate : ℕ) (c : CtlCommand) (d : Daemon)
    → Synced ram d
    → Synced ram (pump_command dbq rate c d)
unfolding pump_command pump_set_mixer pump_set_fader pump_set_cell_flags pump_set_stereo pump_submix
pump_command-Synced ram dbq rate c d h =
    let k = kind_of c.src_kind in
    let old = cell k c.src c.dest d.model in
    let gain = set_cell k c.src c.dest (record old { gain = c.coeff }) d.model in
    let flags =
      set_cell k c.src c.dest (record old { flags = update_flags old.flags c.mask c.flags })
        d.model in
    let fader = set_output c.out (record (output c.out d.model) { gain = c.coeff }) d.model in
    let column =
      if c.on == 0 then copy_submix c.src c.dest d.model else clear_submix c.dest d.model in
    let edited = record d { model = column } in
    let one = pump_set_mixer c d in
    let two = pump_set_fader c d in
    let three = pump_set_cell_flags c d in
    let four = pump_set_out_flags dbq c d in
    let five = pump_set_stereo c d in
    let six = pump_submix c d in
    let seven = pump_set_settings rate c d in
    let rest7 = if c.type == set_settings then seven else d in
    let rest6 = if c.type == submix then six else rest7 in
    let rest5 = if c.type == set_stereo_type then five else rest6 in
    let rest4 = if c.type == set_out_flags then four else rest5 in
    let rest3 = if c.type == set_cell_flags then three else rest4 in
    let rest2 = if c.type == set_fader then two else rest3 in
    if-Synced ram (c.type == set_mixer) one rest2
      (render_cell-Synced ram k c.src c.dest gain gain d h)
      (if-Synced ram (c.type == set_fader) two rest3
        (render_output-Synced ram c.out fader fader d h)
        (if-Synced ram (c.type == set_cell_flags) three rest4
          (render_cell-Synced ram k c.src c.dest flags flags d h)
          (if-Synced ram (c.type == set_out_flags) four rest5 (set_out_flags-Synced ram dbq c d h) (
            if-Synced ram (c.type == set_stereo_type) five rest6
              (other-Synced ram d five refl refl refl h)
              (if-Synced ram (c.type == submix) six rest7
                (dirty_column-Synced ram 28 c.dest edited
                  (other-Synced ram d edited refl refl refl h))
                (if-Synced ram (c.type == set_settings) seven d (set_settings-Synced ram rate c d h)
                  h))))))
