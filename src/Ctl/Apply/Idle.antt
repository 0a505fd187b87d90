-- ===== src/Ctl/Apply/Idle.antt =====
-- `drain_ctl_idle` of platform/daemon/uf-daemon.cpp: the commands applied while there is no device.
use userface.Base.{ℕ, ◌+◌, Bool, true, false, not, u64, ◌==◌, if◌then◌else◌}
use userface.Protocol.Settings.{SettingsShadow}
use userface.Mixer.Model.{
  MixerModel, cell, set_cell, output, set_output, copy_submix, clear_submix, render,
}
use userface.Mixer.Model.Stereo.{set_stereo}
use userface.Mixer.Model.Blob.{to_blob}
use userface.Shared.State.{publish_mixer}
use userface.Ctl.Proto.{
  CtlCommand, set_mixer, set_fader, set_settings, set_cell_flags, set_out_flags, set_stereo_type,
  submix,
}
use userface.Ctl.Queue.{CtlQueue}
use userface.Ctl.Queue.Drain.{while_pop}
use userface.Ctl.Apply.{Daemon, kind_of, update_flags, publish_if}

-- One turn of the loop, with its `dirty`.
pub record Idle : Type 0 where
  pub model : MixerModel
  pub settings : SettingsShadow
  pub dirty : Bool

abbrev touched : MixerModel → Idle → Idle
touched m s = record { model = m; settings = s.settings; dirty = true }

unfoldable pub idle_command : CtlCommand → Idle → Idle
idle_command c s =
    let kind = kind_of c.src_kind in
    let at = cell kind c.src c.dest s.model in
    let out = output c.out s.model in
    if c.type == set_mixer
    then touched (set_cell kind c.src c.dest (record at { gain = c.coeff }) s.model) s
    else if c.type == set_fader
    then touched (set_output c.out (record out { gain = c.coeff }) s.model) s
    else if c.type == set_cell_flags
    then touched
        (set_cell kind c.src c.dest (record at { flags = update_flags at.flags c.mask c.flags })
          s.model)
        s
    else if c.type == set_out_flags
    then touched
        (set_output c.out (record out { flags = update_flags out.flags c.mask c.flags }) s.model) s
    else if c.type == set_stereo_type
    then touched (set_stereo kind c.src (not (c.on == 0)) s.model) s
    else if c.type == submix
    then touched
        (if c.on == 0 then copy_submix c.src c.dest s.model else clear_submix c.dest s.model) s
    else if c.type == set_settings
    then record { model = s.model; settings = c.settings; dirty = true }
    else s

-- The end of `drain_ctl_idle`.
unfoldable pub idle_finish : Idle → Daemon → Daemon
idle_finish s d =
    let sh = render s.model in
    let kept = record d { model = s.model; settings = s.settings } in
    if s.dirty
    then publish_if (λ o. record (publish_mixer s.model sh o) { settings = s.settings })
        (record kept { shadow = sh; snap = to_blob s.model; snap_seq = u64 (d.snap_seq + 1) })
    else kept

unfoldable pub drain_ctl_idle : ℕ → CtlQueue → Daemon → Daemon × CtlQueue
drain_ctl_idle n q d =
    let o =
      while_pop idle_command n q
        (record { model = d.model; settings = d.settings; dirty = false }) in
    (idle_finish o.0 d, o.1)
