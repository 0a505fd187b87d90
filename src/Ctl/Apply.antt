-- ===== src/Ctl/Apply.antt =====
-- platform/daemon/uf-daemon.cpp: what the pump and, with no device, `drain_ctl_idle` do with the commands
-- of the queue. A write of a register is appended to `writes`.
pub mod Idle
pub mod Coherent
pub mod Columns
pub mod Agree
pub mod Range
pub mod Dirty
pub mod Device
pub mod Flush
pub mod Flags
pub mod Arrive
use userface.Base.{
  ℕ, zero, suc, ◌+◌, ◌-◌, ◌*◌, ◌/◌, ◌%◌, ◌^◌, Bool, true, false, not, ◌&&◌, ◌||◌, List, [], ◌∷◌,
  ◌++◌, Option, none, some, u8, u64, bit_and, bit_or, ltb, ◌==◌, if◌then◌else◌,
}
use userface.Protocol.Settings.{SettingsShadow, ConfBlock, assemble_conf_block}
use userface.Protocol.ClockConfig.{assemble_clock_config}
use userface.Protocol.Control.{RegWrite, quadlet_write, block_write, conf_block, clock_config}
use userface.Mixer.{SrcKind, input, playback, mixer_channels, MixerShadow, set_at}
use userface.Mixer.Model.{
  Cell, MixerModel, rec, has_flag, cell, set_cell, output, set_output, rec_mask, copy_submix,
  clear_submix,
}
use userface.Mixer.Model.Stereo.{set_stereo}
use userface.Mixer.Model.Writes.{Write, render_cell, render_output}
use userface.Mixer.Model.Blob.{Blob, to_blob}
use userface.Shared.State.{Shared, publish, publish_mixer}
use userface.Ctl.Queue.{CtlQueue}
use userface.Ctl.Queue.Drain.{while_pop}
use userface.Ctl.Proto.{
  CtlCommand, set_mixer, set_fader, set_settings, set_cell_flags, set_out_flags, set_stereo_type,
  submix,
}

abbrev pub ctl_writes_per_tick : ℕ
ctl_writes_per_tick = 8

abbrev pub output_rec_mask : ℕ
output_rec_mask = 0x801c_0080

-- `std::map<Addr, uint32_t>`, in the order of its keys.
abbrev pub DirtyCells : Type 0
DirtyCells = List (ℕ × ℕ)

-- `ctlDirty[addr] = value`
unfoldable pub insert : ℕ → ℕ → DirtyCells → DirtyCells
insert a v [] = (a, v) ∷ []
insert a v ((b, w) ∷ rest) =
    let later = insert a v rest in
    if a == b then (a, v) ∷ rest else if ltb a b then (a, v) ∷ (b, w) ∷ rest else (b, w) ∷ later

-- The state that the commands change: the daemon's, and what it wrote to the device. `published` is
-- `none` where the shared memory could not be had.
pub record Daemon : Type 0 where
  pub model : MixerModel
  pub shadow : MixerShadow
  pub settings : SettingsShadow
  pub ctl_dirty : DirtyCells
  pub state_dirty : Bool
  pub snap : Blob
  pub snap_seq : ℕ
  pub published : Option Shared
  pub writes : List RegWrite

unfoldable pub emit : RegWrite → Daemon → Daemon
emit w d = record d { writes = d.writes ++ w ∷ [] }

-- `if (pubState) publish(pubState, fill)`
unfoldable pub publish_shared : (Shared → Shared) → Option Shared → Option Shared
publish_shared fill none = none
publish_shared fill (some s) = some (publish fill s)

unfoldable pub publish_if : (Shared → Shared) → Daemon → Daemon
publish_if fill d = record d { published = publish_shared fill d.published }

-- `(MixerSrcKind) c.srcKind`, which the mixer compares with `Playback` only.
unfoldable pub kind_of : ℕ → SrcKind
kind_of k = if k == 1 then playback else input

-- `(uint8_t)((f & ~mask) | (flags & mask))`, with a mask of 16 bits promoted to an `int`.
unfoldable pub update_flags : ℕ → ℕ → ℕ → ℕ
update_flags f mask flags = u8 (bit_or (bit_and f (2 ^ 32 - 1 - mask)) (bit_and flags mask))

-- The lambda `dirty` of the pump.
unfoldable pub dirty : Write → Daemon → Daemon
dirty w d = record d {
  shadow = set_at w.addr w.value d.shadow;
  ctl_dirty = insert w.addr w.value d.ctl_dirty;
}

-- The first `n` entries of `rec`, of which those beyond the mask stay 0.
unfoldable pub rec_entries : ℕ → MixerModel → List ℕ
rec_entries zero m = []
rec_entries (suc i) m = rec_entries i m ++ (if ltb i mixer_channels then rec_mask m i else 0) ∷ []

-- The loop over the column of a submix, up to source `n`.
unfoldable pub dirty_column : ℕ → ℕ → Daemon → Daemon
dirty_column zero dest d = d
dirty_column (suc sc) dest d =
    let before = dirty_column sc dest d in
    let inputs = dirty (render_cell input sc dest before.model) before in
    dirty (render_cell playback sc dest inputs.model) inputs

-- The cases of the pump's `switch`.
unfoldable pub pump_set_mixer : CtlCommand → Daemon → Daemon
pump_set_mixer c d =
    let kind = kind_of c.src_kind in
    let m =
      set_cell kind c.src c.dest (record (cell kind c.src c.dest d.model) { gain = c.coeff })
        d.model in
    dirty (render_cell kind c.src c.dest m) (record d { model = m })

unfoldable pub pump_set_fader : CtlCommand → Daemon → Daemon
pump_set_fader c d =
    let m = set_output c.out (record (output c.out d.model) { gain = c.coeff }) d.model in
    dirty (render_output c.out m) (record d { model = m })

unfoldable pub pump_set_cell_flags : CtlCommand → Daemon → Daemon
pump_set_cell_flags c d =
    let kind = kind_of c.src_kind in
    let old = cell kind c.src c.dest d.model in
    let m =
      set_cell kind c.src c.dest (record old { flags = update_flags old.flags c.mask c.flags })
        d.model in
    dirty (render_cell kind c.src c.dest m) (record d { model = m })

unfoldable pub pump_set_out_flags : ℕ → CtlCommand → Daemon → Daemon
pump_set_out_flags dbq c d =
    let old = output c.out d.model in
    let f = update_flags old.flags c.mask c.flags in
    let m = set_output c.out (record old { flags = f }) d.model in
    let rendered = dirty (render_output c.out m) (record d { model = m }) in
    if has_flag old.flags rec
    then (if has_flag f rec
        then rendered
        else emit (block_write output_rec_mask (rec_entries dbq m)) rendered)
    else if has_flag f rec
    then emit (block_write output_rec_mask (rec_entries dbq m)) rendered
    else rendered

unfoldable pub pump_set_stereo : CtlCommand → Daemon → Daemon
pump_set_stereo c d = record d {
  model = set_stereo (kind_of c.src_kind) c.src (not (c.on == 0)) d.model;
  state_dirty = true;
}

unfoldable pub pump_submix : CtlCommand → Daemon → Daemon
pump_submix c d =
    let m = if c.on == 0 then copy_submix c.src c.dest d.model else clear_submix c.dest d.model in
    dirty_column mixer_channels c.dest (record d { model = m })

unfoldable pub pump_set_settings : ℕ → CtlCommand → Daemon → Daemon
pump_set_settings rate c d =
    let cb = assemble_conf_block c.settings in
    let st = c.settings in
    let clock =
      assemble_clock_config st.clock_master st.sync_ref (if c.rate == 0 then rate else c.rate) in
    publish_if (λ s. record s { settings = st })
      (emit (quadlet_write clock_config clock) (
        emit (block_write conf_block (cb.cr0 ∷ cb.cr1 ∷ cb.cr2 ∷ [])) (record d { settings = st })))

unfoldable pub pump_command : ℕ → ℕ → CtlCommand → Daemon → Daemon
pump_command dbq rate c d =
    if c.type == set_mixer
    then pump_set_mixer c d
    else if c.type == set_fader
    then pump_set_fader c d
    else if c.type == set_cell_flags
    then pump_set_cell_flags c d
    else if c.type == set_out_flags
    then pump_set_out_flags dbq c d
    else if c.type == set_stereo_type
    then pump_set_stereo c d
    else if c.type == submix
    then pump_submix c d
    else if c.type == set_settings
    then pump_set_settings rate c d
    else d

-- The loop over `ctlDirty`: the writes that it makes, at most `n`, and the cells that it leaves.
unfoldable pub flush_cells : ℕ → DirtyCells → List RegWrite × DirtyCells
flush_cells zero m = ([], m)
flush_cells (suc n) [] = ([], [])
flush_cells (suc n) ((a, v) ∷ rest) =
    let later = flush_cells n rest in (quadlet_write a v ∷ later.0, later.1)

abbrev is_empty : List RegWrite → Bool
is_empty [] = true
is_empty (w ∷ ws) = false

-- The pump after its commands.
unfoldable pub flush : Daemon → Daemon
flush d =
    let o = flush_cells ctl_writes_per_tick d.ctl_dirty in
    let sent = record d { writes = d.writes ++ o.0; ctl_dirty = o.1 } in
    if is_empty o.0 && not d.state_dirty
    then sent
    else publish_if (publish_mixer d.model d.shadow) (record sent {
      state_dirty = false;
      snap = to_blob d.model;
      snap_seq = u64 (d.snap_seq + 1);
    })

-- One tick of the pump, as far as the commands go, with fuel for its calls of `pop`.
unfoldable pub pump_tick : ℕ → ℕ → ℕ → CtlQueue → Daemon → Daemon × CtlQueue
pump_tick dbq rate n q d = let o = while_pop (pump_command dbq rate) n q d in (flush o.0, o.1)
